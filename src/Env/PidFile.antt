-- ===== src/Env/PidFile.antt =====
-- src/sqlbus.c: the file with the number of the process.
use sqlbus.Prelude.{
  none, some, ◌++◌, Bytes, codes, Status, success, failure, ltb, length, if◌then◌else◌,
}
use sqlbus.Config.{Config}
use sqlbus.Disk.{Disk}
use sqlbus.Server.State.{Ptr, bad, null, live}
use sqlbus.Server.Exec.{done, fault, Prog, ◌>>=◌}
use sqlbus.Log.Decimal.{print_decimal}
use sqlbus.Env.{Setting, Host, fetch}

module _ (D : Disk) (H : Host D) where
  open D use {World, mkdir, close}
  open H use {access, dirname, open_truncate, write, remove, getpid}

  -- open, write and close; the name is freed where open fails.
  unfoldable pub write_pid : Bytes → Prog (Setting D) Status
  write_pid path (c, w) =
      let out = open_truncate path w in
      elim (out.0) [
        | none ↦ done failure (record c { pid_file = null }, out.1)
        | some fd ↦ done success (c, close fd (write fd (print_decimal getpid ++ codes "\n") out.1))
      ]

  -- The directory of the file is made if it is not there; those above it are not.
  unfoldable pub make_place : Bytes → Prog (Setting D) Status
  make_place path (c, w) =
      let there = access (dirname path) w in
      let made = mkdir (dirname path) 508 there.1 in
      if there.0
      then write_pid path (c, there.1)
      else if made.0
      then write_pid path (c, made.1)
      else done failure (c, made.1)

  -- The name of the file: the one of the command line, or else what is configured
  unfoldable pub name_pid_file : Bytes → Ptr Bytes → Prog (Setting D) Status
  name_pid_file configured (live path) s =
      if ltb (length path) 512 then make_place path s else fault
  name_pid_file configured null (c, w) =
      make_place configured (record c { pid_file = live configured }, w)
  name_pid_file configured bad s = fault

  -- sqlbus_create_pid_file, of a cycle with a configuration
  unfoldable pub create_pid_file : Config → Prog (Setting D) Status
  create_pid_file conf =
      fetch 512 conf (codes "default") (codes "pidfile") (codes "/var/run/sqlbus.pid")
      >>= λ found s. name_pid_file found.1 (s.0).pid_file s

  -- sqlbus_remove_pid_file
  unfoldable pub remove_pid_file : Prog (Setting D) (Unit {0})
  remove_pid_file (c, w) = elim (c.pid_file) [
    | bad ↦ fault
    | null ↦ done tt (c, w)
    | live path ↦
        let there = access path w in done tt (c, if there.0 then remove path there.1 else there.1)
  ]

-- ===== src/Env/Running.antt =====
-- src/sqlbus.c and src/util.c: whether a server is running, from the number in its file. A file that
-- readpid opens is there to be read and written.
pub mod Found
use sqlbus.Prelude.{
  ℕ, suc, Bool, true, false, Option, none, some, [], ◌∷◌, ◌++◌, Bytes, codes, ℤ, pos, negsuc, ◌==ℤ◌,
  Status, success, failure, if◌then◌else◌,
}
use sqlbus.Config.{Config}
use sqlbus.Disk.{Disk}
use sqlbus.Server.Exec.{done, fault, Prog, ◌>>=◌, pure}
use sqlbus.Log.{atoi}
use sqlbus.Log.Decimal.{print_decimal}
use sqlbus.Env.{Host, fetch}

-- fopen of a path in a mode, fgets into an array of a size, and fclose: none stands for a NULL.
pub record Lines (D : Disk) : Type 0 where
  pub read_line : Bytes → ℕ → Bytes → Disk.World D → Option Bytes × Disk.World D

abbrev pub default_pid_file : Bytes
default_pid_file = codes "/var/run/sqlbus.pid"

-- "/proc/%d/cmdline"
abbrev pub print_int : ℤ → Bytes
print_int (pos n) = print_decimal n
print_int (negsuc n) = b'-' ∷ print_decimal (suc n)

abbrev pub cmdline_of : ℤ → Bytes
cmdline_of pid = codes "/proc/" ++ print_int pid ++ codes "/cmdline"

module _ (D : Disk) (H : Host D) (L : Lines D) where
  open D use {World}
  open H use {access}
  open L use {read_line}

  -- What readpid makes of the line; 0, which atoi gives for what is no number, is a failure.
  unfoldable pub take_pid : Option Bytes → Prog World (Option ℤ)
  take_pid none = pure none
  take_pid (some buf) = elim (atoi buf) [
    | none ↦ λ w. fault
    | some value ↦ pure (if value ==ℤ pos 0 then none else some value)
  ]

  -- readpid
  unfoldable pub readpid : Bytes → Prog World (Option ℤ)
  readpid file w =
      let there = access file w in
      let line = read_line (codes "r+") 127 file there.1 in
      if there.0 then take_pid line.0 line.1 else done none there.1

  -- The end of match_prog_by_pid: strstr is called where the pattern is NULL, and only there.
  unfoldable pub match_line : Option Bytes → Option Bytes → Prog World Bool
  match_line pattern none = pure false
  match_line none (some buff) = λ w. fault
  match_line (some pattern) (some buff) = pure true

  -- match_prog_by_pid: true stands for 0.
  unfoldable pub match_prog_by_pid : Option Bytes → ℤ → Prog World Bool
  match_prog_by_pid pattern pid w =
      let there = access (cmdline_of pid) w in
      let line = read_line (codes "r") 512 (cmdline_of pid) there.1 in
      if there.0 then match_line pattern line.0 line.1 else done false there.1

  unfoldable pub serviced_by : Bytes → Prog World Bool
  serviced_by file = readpid file >>= λ found. elim found [
    | none ↦ pure false
    | some pid ↦ match_prog_by_pid (some (codes "sqlbus")) pid
  ]

  unfoldable pub serviced_elsewhere : Status × Bytes → Prog World Status
  serviced_elsewhere (failure, file) = pure failure
  serviced_elsewhere (success, file) =
      serviced_by file >>= λ running. pure (if running then success else failure)

  -- sqlbus_serviced_status_check
  unfoldable pub serviced_status_check : Config → Prog World Status
  serviced_status_check conf = serviced_by default_pid_file >>= λ running. elim running [
    | true ↦ pure success
    | false ↦
        fetch 512 conf (codes "default") (codes "pidfile") default_pid_file >>= serviced_elsewhere
  ]

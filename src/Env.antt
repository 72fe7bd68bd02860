-- ===== src/Env.antt =====
-- src/sqlbus.c: the cycle while the process is set up, from the command line and the configuration
-- to a server that can be run. Strings are duplicated without running out of memory.
pub mod Arguments
pub mod Settings
pub mod Logging
pub mod PidFile
pub mod Running
pub mod Init
use sqlbus.Prelude.{
  ℕ, Bool, Option, none, some, Bytes, ℤ, Status, success, failure, ltb, length, if◌then◌else◌,
}
use sqlbus.Config.{Config}
use sqlbus.Config.Lookup.{get_config_value}
use sqlbus.Disk.{Disk}
use sqlbus.Log.{atoi}
use sqlbus.Log.Files.{File}
use sqlbus.Server.State.{Ptr, bad, null, live, Handle}
use sqlbus.Server.Exec.{Out, done, fault, Prog, ◌>>=◌, pure}

-- sqlbus_log_t: its file with level, size and time, and the other options
pub record Logger : Type 0 where
  pub file : File
  pub trace : Bool
  pub feed : Bool
  pub stdio : Bool

-- cycle->memcache
pub record Memcache : Type 0 where
  pub host : Ptr Bytes
  pub user : Ptr Bytes
  pub auth : Ptr Bytes
  pub database : Ptr Bytes
  pub port : ℤ
  pub ctimeo : ℤ
  pub rtimeo : ℤ

-- cycle->db, less the handles
pub record Source : Type 0 where
  pub type : Ptr Bytes
  pub host : Ptr Bytes
  pub user : Ptr Bytes
  pub auth : Ptr Bytes
  pub database : Ptr Bytes

-- sqlbus_cycle_t
pub record Setup : Type 0 where
  pub config : Ptr Config
  pub logger : Ptr Logger
  pub handle : Ptr Handle
  pub debug : Bool
  pub daemonize : ℤ
  pub pid_file : Ptr Bytes
  pub config_file : Ptr Bytes
  pub memcache : Memcache
  pub db : Source

-- What the set-up calls besides the disk.
pub record Host (D : Disk) : Type 0 where
  -- false stands for NULL.
  pub malloc : Disk.World D → Bool × Disk.World D
  -- What malloc leaves in a sqlbus_log_t, and in a sqlbus_handle_t.
  pub new_logger : Disk.World D → Logger
  pub new_handle : Disk.World D → Handle
  pub chdir : Bytes → Disk.World D → Disk.World D
  -- access with F_OK: true is success.
  pub access : Bytes → Disk.World D → Bool × Disk.World D
  pub dirname : Bytes → Bytes
  -- open with O_WRONLY | O_TRUNC | O_CREAT
  pub open_truncate : Bytes → Disk.World D → Option ℤ × Disk.World D
  pub write : ℤ → Bytes → Disk.World D → Disk.World D
  pub remove : Bytes → Disk.World D → Disk.World D
  pub getpid : ℕ

-- The cycle, and the world around it
abbrev pub Setting : Disk → Type 0
Setting D = Setup × Disk.World D

module _ {S : Type 0} where
  -- get_config_value into an array of `size` bytes, which holds `value` before
  unfoldable pub fetch : ℕ → Config → Bytes → Bytes → Bytes → Prog S (Status × Bytes)
  fetch size conf section key value s =
      let found = get_config_value (some conf) section key value in
      if ltb (length (found.1)) size then done found s else fault

  -- atoi, which is not defined for what is no int
  unfoldable pub number_of : Bytes → Prog S ℤ
  number_of text s = elim (atoi text) [ none ↦ fault | some n ↦ done n s ]

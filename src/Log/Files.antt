-- ===== src/Log/Files.antt =====
-- src/log.c: the file of the log. It is opened, closed, and opened again where its name has been
-- taken away. Memory does not run out.
use sqlbus.Prelude.{
  ℕ, Option, none, some, Bytes, ℤ, pos, negsuc, ◌==ℤ◌, ltb, if◌then◌else◌, length, ◌&&◌,
}
use sqlbus.Disk.{Disk, in_directory}
use sqlbus.Dir.{make_dir}
use sqlbus.Server.State.{Ptr, null, live, is_valid}
use sqlbus.Server.Exec.{Out, done, fault, waiting, Prog}

-- EINVAL
abbrev einval : ℤ
einval = pos 22

-- What sqlbus_log_t keeps of its file; the descriptor is none as long as it has not been set.
pub record File : Type 0 where
  pub fd : Option ℤ
  pub inode : ℕ
  pub level : ℕ
  pub maxsize : ℕ
  pub cron : ℕ
  pub catalog : Ptr Bytes
  pub file : Ptr Bytes

module _ (D : Disk) where
  open D use {World, errno, clear_errno, fstat, open_append, close}

  abbrev pub Filed : Type 0
  Filed = File × World

  -- The end of log_open: get_inode
  unfoldable pub take_inode : ℤ → Prog Filed ℤ
  take_inode fd (f, w) =
      let out = fstat fd w in
      elim (out.0) [
        | some i ↦ done (pos 0) (record f { fd = some fd; inode = i }, out.1)
        | none ↦ done (errno out.1) (record f { fd = some fd }, out.1)
      ]

  -- From clear_errno and open on
  unfoldable pub open_log : Bytes → Prog Filed ℤ
  open_log name (f, w) =
      let out = open_append name (clear_errno w) in
      elim (out.0) [ none ↦ done (errno out.1) (f, out.1) | some fd ↦ take_inode fd (f, out.1) ]

  -- make_dir, beside the file of the log
  abbrev with_file : File → Out World ℤ → (ℤ → Prog Filed ℤ) → Out Filed ℤ
  with_file f (done rv w) next = next rv (f, w)
  with_file f fault next = fault
  with_file f waiting next = waiting

  abbrev name_file : Bytes → Bytes → File → File
  name_file catalog file f = record f { catalog = live catalog; file = live file }

  -- log_open: where make_dir fails, errno is returned.
  unfoldable pub log_open : Bytes → Bytes → Prog Filed ℤ
  log_open catalog file (f, w) =
      if ltb 3 f.level
      then done einval (f, w)
      else if ltb (length (in_directory catalog file)) 4096
      then with_file (name_file catalog file f) (make_dir D catalog 493 (clear_errno w)) (λ rv s.
        if rv ==ℤ pos 0 then open_log (in_directory catalog file) s else done (errno s.1) s)
      else fault

  -- What log_close does behind close: pointers that were never set are tested.
  abbrev free_names : Prog Filed ℤ
  free_names (f, w) =
      if is_valid f.catalog && is_valid f.file
      then done (pos 0) (record f { fd = some (negsuc 0); catalog = null; file = null }, w)
      else fault

  -- log_close; a descriptor that was never set is read.
  unfoldable pub log_close : Prog Filed ℤ
  log_close (f, w) = elim (f.fd) [ none ↦ fault | some fd ↦ free_names (f, close fd w) ]

  abbrev pub opened_again : ℤ → Prog Filed ℤ
  opened_again fd (f, w) =
      let out = fstat fd w in
      elim (out.0) [
        | some i ↦ done (pos 0) (record f { fd = some fd; inode = i }, out.1)
        | none ↦ fault
      ]

  abbrev pub reopen : Ptr Bytes → Ptr Bytes → Prog Filed ℤ
  reopen (live catalog) (live file) (f, w) =
      if ltb (length (in_directory catalog file)) 512
      then (let out = open_append (in_directory catalog file) (clear_errno w) in
          elim (out.0) [
            | none ↦ done (errno out.1) (f, out.1)
            | some fd ↦ opened_again fd (f, out.1)
          ])
      else fault
  reopen _ _ s = fault

  -- reopen_log_file; a failure of fstat would leave its result unset.
  unfoldable pub reopen_log_file : Prog Filed ℤ
  reopen_log_file s = reopen (s.0).catalog (s.0).file s

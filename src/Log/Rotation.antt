-- ===== src/Log/Rotation.antt =====
-- src/log_watcher.c: the backups of the log, and what follows an event of the timer or of inotify.
pub mod Shift
pub mod Suffix
pub mod Backed
pub mod Replaced
pub mod Due
use sqlbus.Prelude.{
  ℕ, zero, suc, ◌+◌, ◌-◌, ◌%◌, Bool, true, false, Option, none, some, List, [], ◌∷◌, ◌++◌, Bytes, ℤ,
  pos, negsuc, ltb, leb, ◌==◌, ◌||◌, ◌&&◌, if◌then◌else◌, length,
}
use sqlbus.Disk.{Disk, Stat, inode_of, in_directory}
use sqlbus.Server.State.{Ptr, bad, null, live}
use sqlbus.Server.Exec.{Out, done, fault, waiting, Prog, ◌>>=◌, ◌>>◌, pure, resume}
use sqlbus.Log.{int_max, is_digit, atoi}
use sqlbus.Log.Decimal.{print_decimal}
use sqlbus.Log.Files.{File, Filed, reopen_log_file}

-- strncmp(name, file, strlen(file)) == 0
unfoldable pub starts_with : Bytes → Bytes → Bool
starts_with name [] = true
starts_with [] (d ∷ file) = false
starts_with (c ∷ name) (d ∷ file) = c == d && starts_with name file

-- What stands behind the last dot, if there is one
unfoldable pub behind_dot : Bytes → Option Bytes
behind_dot [] = none
behind_dot (c ∷ s) = elim (behind_dot s) [
  | some t ↦ some t
  | none ↦ if c == b'.' then some s else none
]

-- The larger of the suffix so far and the one of a name; none where atoi is given no int.
unfoldable pub larger : ℕ → Option Bytes → Option ℕ
larger suffix none = some suffix
larger suffix (some []) = some suffix
larger suffix (some (c ∷ s)) =
    if is_digit c
    then elim (atoi (c ∷ s)) [
      | none ↦ none
      | some (pos tv) ↦ some (if ltb suffix tv then tv else suffix)
      | some (negsuc tv) ↦ some suffix
    ]
    else some suffix

-- The loop of find_max_suffix over the names of the directory
unfoldable pub max_suffix : Bytes → ℕ → List Bytes → Option ℕ
max_suffix file suffix [] = some suffix
max_suffix file suffix (d ∷ names) =
    elim (if starts_with d file then larger suffix (behind_dot d) else some suffix) [
      | none ↦ none
      | some best ↦ max_suffix file best names
    ]

-- The log, or a backup of it
unfoldable pub backup_name : Bytes → Bytes → ℕ → Bytes
backup_name catalog file zero = in_directory catalog file
backup_name catalog file (suc i) = in_directory catalog file ++ (b'.' ∷ print_decimal (suc i))

-- The difference of two numbers, as abs gives it
abbrev pub distance : ℕ → ℕ → ℕ
distance a b = a - b + (b - a)

-- An inode that is handed on as an int, and compared as an ino_t again
unfoldable pub as_ino : ℕ → ℕ
as_ino i = let r = i % 4294967296 in if ltb r 2147483648 then r else r + 18446744069414584320

-- inotify_event: the watch, and the bits of the mask that are asked for
pub record Event : Type 0 where
  pub wd : ℤ
  pub attrib : Bool
  pub delete : Bool
  pub delete_self : Bool
  pub move_self : Bool
  pub moved_from : Bool
  pub moved_to : Bool

abbrev pub is_gone : Event → Bool
is_gone e = e.delete || e.delete_self || e.move_self || e.moved_from || e.moved_to

module _ (D : Disk) where
  open D use {World, stat, fsync, close, rename, list_dir, add_watch, rm_watch, time, mktime}

  -- The mutex is locked, or not.
  abbrev pub Watched : Type 0
  Watched = Bool × Filed D

  abbrev pub unlock : {A : Type 0} → Out (Filed D) A → Out Watched A
  unlock (done a s) = done a (false, s)
  unlock fault = fault
  unlock waiting = waiting

  -- Between pthread_mutex_lock and pthread_mutex_unlock
  abbrev pub under_lock : {A : Type 0} → Prog (Filed D) A → Prog Watched A
  under_lock m (true, s) = waiting
  under_lock m (false, s) = unlock (m s)

  abbrev pub with_names :
      {A : Type 0} → (Bytes → Bytes → Prog Watched A) → Ptr Bytes → Ptr Bytes → Prog Watched A
  with_names f (live catalog) (live file) = f catalog file
  with_names f _ _ = λ s. fault

  -- What follows where the catalog and the file are set
  abbrev pub with_file : {A : Type 0} → (Bytes → Bytes → Prog Watched A) → Prog Watched A
  with_file f (locked, s) = with_names f (s.0).catalog (s.0).file (locked, s)

  abbrev pub on_file : {A : Type 0} → (ℤ → Prog (Filed D) A) → Prog (Filed D) A
  on_file f s = elim ((s.0).fd) [ none ↦ fault | some fd ↦ f fd s ]

  -- One round of the loop of backup: the arrays hold 512 bytes, and i + 1 is an int.
  unfoldable pub move_up : Bytes → Bytes → ℕ → Prog Watched (Unit {0})
  move_up catalog file i =
      if ltb (length (backup_name catalog file i)) 512
        && ltb (length (backup_name catalog file (suc i))) 512
        && ltb i int_max
      then under_lock (
          on_file (λ fd s. done tt (
            s.0,
            rename (backup_name catalog file i) (backup_name catalog file (suc i)) (fsync fd s.1),
          )))
      else (λ s. fault)

  -- The loop of backup, from the last backup down to the log itself
  unfoldable pub move_all : Bytes → Bytes → ℕ → Prog Watched (Unit {0})
  move_all catalog file zero = move_up catalog file zero
  move_all catalog file (suc i) = move_up catalog file (suc i) >> move_all catalog file i

  -- find_max_suffix, where -1 is taken for 0
  unfoldable pub find_max_suffix : Bytes → Bytes → Prog Watched ℕ
  find_max_suffix catalog file (locked, (f, w)) =
      let out = list_dir catalog w in
      elim (out.0) [
        | none ↦ done 0 (locked, (f, out.1))
        | some names ↦ elim (max_suffix file 0 names) [
          | none ↦ fault
          | some suffix ↦ done suffix (locked, (f, out.1))
        ]
      ]

  -- backup
  unfoldable pub backup : Prog Watched (Unit {0})
  backup = with_file (λ catalog file. find_max_suffix catalog file >>= move_all catalog file)

  -- abs(timestamp_from_midnight() - cron) < EVENT_TIMER_INTERVAL, where tmn is what mktime makes of
  -- midnight in UTC
  unfoldable pub is_due : ℕ → ℕ → Bool
  is_due cron tnow = ltb (distance tnow (mktime (tnow - tnow % 86400) + cron)) 1

  -- The size is in reach of the largest one.
  unfoldable pub is_full : ℕ → ℕ → Bool
  is_full maxsize size = leb maxsize size || ltb (distance size maxsize) 128

  unfoldable pub when_due : Prog Watched (Unit {0})
  when_due (locked, (f, w)) =
      let out = time w in
      if is_due f.cron out.0 then backup (locked, (f, out.1)) else done tt (locked, (f, out.1))

  -- do_timer_event, with the array of path_join
  unfoldable pub do_timer_event : Prog Watched ℤ
  do_timer_event = with_file (λ catalog file (locked, (f, w)).
      if ltb (length (in_directory catalog file)) 1024
      then (let out = stat (in_directory catalog file) w in
          elim (out.0) [
            | none ↦ done (negsuc 0) (locked, (f, out.1))
            | some st ↦
                if is_full f.maxsize st.size
                then (backup >> pure (pos 0)) (locked, (f, out.1))
                else (when_due >> pure (pos 0)) (locked, (f, out.1))
          ])
      else fault)

  abbrev pub is_other : ℕ → Option Stat → Bool
  is_other ino none = true
  is_other ino (some st) = if st.inode == as_ino ino then false else true

  -- The loop of do_notify_event, with the array of path_join: the watch of the event that asks for a new file, if any does
  unfoldable pub find_event : Bytes → List Event → Prog Watched (Option ℤ)
  find_event path [] s = done none s
  find_event path (e ∷ events) (locked, (f, w)) =
      let out = stat path w in
      let next = find_event path events in
      if e.attrib
      then (if ltb (length path) 1024
          then (if is_other f.inode out.0
              then done (some e.wd) (locked, (f, out.1))
              else next (locked, (f, out.1)))
          else fault)
      else if is_gone e
      then done (some e.wd) (locked, (f, w))
      else next (locked, (f, w))

  -- What is done under the mutex; the result of reopen_log_file is not looked at.
  abbrev pub replacing : ℤ → ℤ → Bytes → ℤ → Prog (Filed D) (Unit {0})
  replacing notifyfd wd path fd (f, w) =
      resume (reopen_log_file D (f, close fd (fsync fd (rm_watch notifyfd wd w))))
        (λ rv (g, v). done tt (g, add_watch notifyfd path v))

  unfoldable pub replace_file : ℤ → ℤ → Bytes → Prog (Filed D) (Unit {0})
  replace_file notifyfd wd path = on_file (replacing notifyfd wd path)

  -- do_notify_event
  unfoldable pub do_notify_event : ℤ → List Event → Prog Watched ℤ
  do_notify_event notifyfd events = with_file (λ catalog file.
      find_event (in_directory catalog file) events >>= λ found. elim found [
        | none ↦ pure (pos 0)
        | some wd ↦
            under_lock (replace_file notifyfd wd (in_directory catalog file)) >> pure (pos 0)
      ])

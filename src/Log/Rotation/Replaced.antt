-- ===== src/Log/Rotation/Replaced.antt =====
-- The two events of a rotation: the timer moves the files, and inotify opens the log again.
use sqlbus.Prelude.{
  ℕ, suc, ◌≤◌, ◌<◌, ◌≡◌, refl, ap, ap₂, ◌∙◌, true, false, Option, none, some, List, ◌∷◌, ℤ, pos,
  negsuc, Bytes, length, lt→ltb, strcmp_eq, if◌then◌else◌, arith,
}
use sqlbus.Disk.{Disk, Stat, Names, Filing, InDirectory, in_directory}
use sqlbus.Server.State.{live}
use sqlbus.Server.Exec.{Out, done, fault, waiting, resume, ◌>>=◌, ◌>>◌, pure, Returns}
use sqlbus.Log.{int_max}
use sqlbus.Log.Files.{File, reopen, opened_again, reopen_log_file}
use sqlbus.Log.Rotation.{
  Watched, Event, is_gone, backup_name, max_suffix, backup, find_event, replace_file, replacing,
  unlock, under_lock, is_full, when_due, do_timer_event, do_notify_event,
}
use sqlbus.Log.Rotation.Shift.{inside, IsLogName, differ, on_file-set}
use sqlbus.Log.Rotation.Backed.{IsLogging, Shifted, with_file-live, backup-Shifted}

module _ (D : Disk) (N : Names D) (catalog file : Bytes) (F : Filing D N catalog)
    (small : length (in_directory catalog file) ≤ 500) (tidy : IsLogName file)
    (opens : (w : Disk.World D)
      → (fd : ℤ) × ((Disk.open_append D (in_directory catalog file) w).0 ≡ some fd)) where
  open N use {entry, opened}
  open D use {World, clear_errno, stat, fstat, open_append, close, fsync, rm_watch, add_watch}

  abbrev path : Bytes
  path = in_directory catalog file

  -- The log is open on the file that its name names, whose inode it knows.
  abbrev pub Attached : ℤ → File → World → Type 0
  Attached fd f w =
      IsLogging D N catalog file F small tidy fd f
      × (entry w path ≡ some f.inode)
      × (opened w fd ≡ some f.inode)

  -- What is named by other names is as it was.
  abbrev pub KeepsOthers : World → World → Type 0
  KeepsOthers w v =
      (q : Bytes) → InDirectory catalog q → strcmp_eq q path ≡ false → entry v q ≡ entry w q

  -- The world behind open and fstat
  abbrev after_open : World → World
  after_open w = (open_append path (clear_errno w)).1

  abbrev after_reopen : World → World
  after_reopen w = (fstat (opens (clear_errno w)).0 (after_open w)).1

  abbrev new_fd : World → ℤ
  new_fd w = (opens (clear_errno w)).0

  reopen_log_file-Attached :
      (fd : ℤ) (f : File) (w : World)
      → IsLogging D N catalog file F small tidy fd f
      → (i : ℕ) × (reopen_log_file D (f, w)
          ≡ done (pos 0) (record f { fd = some (new_fd w); inode = i }, after_reopen w))
        × Attached (new_fd w) (record f { fd = some (new_fd w); inode = i }) (after_reopen w)
        × KeepsOthers w (after_reopen w)
  unfolding reopen_log_file
  reopen_log_file-Attached fd f w (c, n, d) =
      let (i, named, open_named) =
        Filing.open-opened F path (new_fd w) (clear_errno w) (opens (clear_errno w)).1 in
      let (same, open_same) = Filing.fstat-Keeps F (new_fd w) (after_open w) in
      (
        i,
        ap₂ (λ x y. reopen D x y (f, w)) c n
            ∙ ran i (Filing.fstat_reply F (new_fd w) (after_open w) ∙ open_named),
        (
          (c, n, refl),
          ap (λ g. g path) same ∙ named,
          ap (λ g. g (new_fd w)) open_same ∙ open_named,
        ),
        (λ q d h.
            ap (λ g. g q) same
            ∙ Filing.open-others F path q (clear_errno w) at_path d h
            ∙ ap (λ g. g q) (Filing.clear_errno-Keeps F w).0),
      )
    where
      at_path : InDirectory catalog path
      at_path = (file, refl, (tidy.0, tidy.1, omega (arith, tidy.2)))

      ran :
          (i : ℕ)
          → (fstat (new_fd w) (after_open w)).0 ≡ some i
          → reopen D (live catalog) (live file) (f, w)
            ≡ done (pos 0) (record f { fd = some (new_fd w); inode = i }, after_reopen w)
      ran i e = rw (lt→ltb (length path) 512 (omega (arith, small))) (
          ap
            (λ o. elim o [
              | none ↦ done (Disk.errno D (after_open w)) (f, after_open w)
              | some fd ↦ opened_again D fd (f, after_open w)
            ])
            (opens (clear_errno w)).1
          ∙ ap
              (λ o. elim o [
                | some j ↦
                    done (pos 0) (record f { fd = some (new_fd w); inode = j }, after_reopen w)
                | none ↦ fault
              ])
              e)

  -- What replace_file does in front of reopen_log_file
  abbrev before_reopen : ℤ → ℤ → ℤ → World → World
  before_reopen notifyfd wd fd w = close fd (fsync fd (rm_watch notifyfd wd w))

  before_reopen-entry :
      (notifyfd wd fd : ℤ) (w : World) → entry (before_reopen notifyfd wd fd w) ≡ entry w
  before_reopen-entry notifyfd wd fd w =
      Filing.close-entry F fd (fsync fd (rm_watch notifyfd wd w))
      ∙ (Filing.fsync-Keeps F fd (rm_watch notifyfd wd w)).0
      ∙ (Filing.rm_watch-Keeps F notifyfd wd w).0

  -- How a rotation ends: with the mutex unlocked, and the log open on the file that its name names.
  abbrev pub Reopened : World → ℤ → Watched D → Type 0
  Reopened w rv t =
      (rv ≡ pos 0)
      × (t.0 ≡ false)
      × ((fd : ℤ) × Attached fd (t.1).0 (t.1).1)
      × KeepsOthers w (t.1).1

  replace_file-Reopened :
      (notifyfd wd fd : ℤ) (f : File) (w : World)
      → IsLogging D N catalog file F small tidy fd f
      → Returns
          (Reopened w)
          ((under_lock D (replace_file D notifyfd wd path) >> pure (pos 0)) (false, (f, w)))
  unfolding replace_file
  replace_file-Reopened notifyfd wd fd f w logging =
      let (i, ran, attached, others) =
        reopen_log_file-Attached fd f (before_reopen notifyfd wd fd w) logging in
      let v = after_reopen (before_reopen notifyfd wd fd w) in
      let (same, open_same) = Filing.add_watch-Keeps F notifyfd path v in
      returned _
        (ap (unlock D) (
          on_file-set D N catalog file F small tidy (replacing D notifyfd wd path) f w fd logging.2
          ∙ ap (λ o. resume o (λ rv (g, u). done tt (g, add_watch notifyfd path u))) ran))
        (
          (
            new_fd (before_reopen notifyfd wd fd w),
            (
              attached.0,
              ap (λ g. g path) same ∙ attached.1,
              ap (λ g. g (new_fd (before_reopen notifyfd wd fd w))) open_same ∙ attached.2,
            ),
          ),
          (λ q d h.
              ap (λ g. g q) same
              ∙ others q d h
              ∙ ap (λ g. g q) (before_reopen-entry notifyfd wd fd w)),
        )
    where
      returned :
          {g : File} {u : World} (o : Out (Watched D) (Unit {0}))
          → o ≡ done tt (false, (g, u))
          → ((d : ℤ) × Attached d g u) × KeepsOthers w u
          → Returns (Reopened w) (resume o (λ _. pure (pos 0)))
      returned {g} {u} o e (a, k) = rw (e) (refl, refl, a, k)

  Returns-along :
      (Q : ℤ → Watched D → Type 0) {o p : Out (Watched D) ℤ} → o ≡ p → Returns Q p → Returns Q o
  Returns-along Q e r = rw (e) r

  do_notify_event-Reopened :
      (notifyfd fd : ℤ) (e : Event) (events : List Event) (f : File) (w : World)
      → IsLogging D N catalog file F small tidy fd f
      → e.attrib ≡ false
      → is_gone e ≡ true
      → Returns (Reopened w) (do_notify_event D notifyfd (e ∷ events) (false, (f, w)))
  unfolding do_notify_event find_event
  do_notify_event-Reopened notifyfd fd e events f w logging quiet gone =
      Returns-along (Reopened w)
        (with_file-live D N catalog file F small tidy _ fd f w logging ∙ rw (quiet, gone) refl)
        (replace_file-Reopened notifyfd e.wd fd f w logging)

  do_timer_event-Shifted :
      (names : List Bytes) (m : ℕ) (st : Stat) (fd : ℤ) (f : File) (w : World)
      → IsLogging D N catalog file F small tidy fd f
      → (stat path w).0 ≡ some st
      → is_full D f.maxsize st.size ≡ true
      → (Disk.list_dir D catalog (stat path w).1).0 ≡ some names
      → max_suffix file 0 names ≡ some m
      → m < int_max
      → (v : World) × (do_timer_event D (false, (f, w)) ≡ done (pos 0) (false, (f, v)))
        × Shifted D N catalog file F small tidy (stat path w).1 v
  unfolding do_timer_event
  do_timer_event-Shifted names m st fd f w logging found full listed largest hm =
      let (v, ran, shifted) =
        backup-Shifted D N catalog file F small tidy names m fd f (stat path w).1 logging listed
          largest hm in
      (
        v,
        with_file-live D N catalog file F small tidy _ fd f w logging
            ∙ rw (lt→ltb (length path) 1024 (omega (arith, small)))
                (in_stat (stat path w).0 found ∙ ap (λ o. resume o (λ _. pure (pos 0))) ran),
        shifted,
      )
    where
      in_stat :
          (o : Option Stat)
          → o ≡ some st
          → elim o [
            | none ↦ done (negsuc 0) (false, (f, (stat path w).1))
            | some s ↦
                if is_full D f.maxsize s.size
                then (backup D >> pure (pos 0)) (false, (f, (stat path w).1))
                else (when_due D >> pure (pos 0)) (false, (f, (stat path w).1))
          ]
            ≡ (backup D >> pure (pos 0)) (false, (f, (stat path w).1))
      in_stat o e = rw (e, full) refl

  -- What a rotation leaves: the log open on the file that its name names, and every file, the log
  -- being number 0, under the name with the next number.
  abbrev pub Rotated : World → ℤ → Watched D → Type 0
  Rotated w rv t =
      (rv ≡ pos 0)
      × (t.0 ≡ false)
      × ((fd : ℤ) × Attached fd (t.1).0 (t.1).1)
      × ((k : ℕ)
          → k < int_max
          → entry (t.1).1 (backup_name catalog file (suc k)) ≡ entry w (backup_name catalog file k))

  Shifted-Reopened :
      (w v : World) (rv : ℤ) (t : Watched D)
      → Shifted D N catalog file F small tidy (stat path w).1 v
      → Reopened v rv t
      → Rotated w rv t
  unfolding backup_name
  Shifted-Reopened w v rv t (shifted, gone, others, kept) (ok, unlocked, attached, same) = (
    ok,
    unlocked,
    attached,
    (λ k hk.
        same (backup_name catalog file (suc k))
          (inside D N catalog file F small tidy (suc k) (omega (arith, hk)))
          (differ D N catalog file F small tidy (suc k) 0 (omega (arith, hk)) (omega arith)
            (λ h. omega (arith, h)))
        ∙ shifted k hk
        ∙ ap (λ g. g (backup_name catalog file k)) (Filing.stat-Keeps F path w).0),
  )

  -- The log has a name of at most 244 bytes with no slash and a path of at most 500, in a directory
  -- that is there, is read, and in which opening a file, and renaming one to a free name, succeed,
  -- has grown to its largest size, and the largest suffix is below INT_MAX. After do_timer_event and
  -- do_notify_event of the event that the log has been moved, the mutex is unlocked, the log is open
  -- on the file that its name names, and every file of the rotation, the log being number 0, has the
  -- name with the next number: nothing that was written is lost.
  pub do_notify_event-do_timer_event :
      (names : List Bytes) (m : ℕ) (st : Stat) (notifyfd fd : ℤ) (e : Event) (events : List Event)
      (f : File) (w : World)
      → IsLogging D N catalog file F small tidy fd f
      → (stat path w).0 ≡ some st
      → is_full D f.maxsize st.size ≡ true
      → (Disk.list_dir D catalog (stat path w).1).0 ≡ some names
      → max_suffix file 0 names ≡ some m
      → m < int_max
      → e.attrib ≡ false
      → is_gone e ≡ true
      → Returns
          (Rotated w)
          ((do_timer_event D >>= λ _. do_notify_event D notifyfd (e ∷ events)) (false, (f, w)))
  do_notify_event-do_timer_event names m st notifyfd fd e events f w logging found full listed
        largest hm quiet gone =
      let (v, ran, shifted) =
        do_timer_event-Shifted names m st fd f w logging found full listed largest hm in
      Returns-along (Rotated w)
        (ap (λ o. resume o (λ _. do_notify_event D notifyfd (e ∷ events))) ran)
        (weaken (Reopened v) (Rotated w) (do_notify_event D notifyfd (e ∷ events) (false, (f, v)))
          (λ rv t. Shifted-Reopened w v rv t shifted)
          (do_notify_event-Reopened notifyfd fd e events f v logging quiet gone))
    where
      weaken :
          (Q R : ℤ → Watched D → Type 0) (o : Out (Watched D) ℤ)
          → ((rv : ℤ) (t : Watched D) → Q rv t → R rv t)
          → Returns Q o
          → Returns R o
      weaken Q R (done rv t) h r = h rv t r
      weaken Q R fault h r = r
      weaken Q R waiting h r = r

-- ===== src/Log/Rotation/Backed.antt =====
-- backup, as a whole: the files of the rotation, seen as a sequence, move by one place.
use sqlbus.Prelude.{
  ℕ, zero, suc, ◌≤◌, ◌<◌, ◌≡◌, sym, ap, ap₂, ◌∙◌, true, false, none, some, List, ◌∷◌, ◌++◌,
  append_assoc, ℤ, Bytes, leb, Bool-cases, Option-cases, inl, inr, length, arith,
}
use sqlbus.Disk.{Disk, Names, Filing, contains, in_directory}
use sqlbus.Server.State.{live}
use sqlbus.Server.Exec.{done, fault, Prog, resume, ◌>>=◌}
use sqlbus.Log.{int_max}
use sqlbus.Log.Decimal.{print_decimal}
use sqlbus.Log.Files.{File}
use sqlbus.Log.Rotation.{
  Watched, backup_name, move_all, max_suffix, find_max_suffix, backup, with_file, with_names,
}
use sqlbus.Log.Rotation.Shift.{
  IsLogName, numbered-IsName, inside, IsOther, Moved, move_all-Moved, differ,
}
use sqlbus.Log.Rotation.Suffix.{AtLeast, max_suffix-listed}

module _ (D : Disk) (N : Names D) (catalog file : Bytes) (F : Filing D N catalog)
    (small : length (in_directory catalog file) ≤ 500) (tidy : IsLogName file) where
  open N use {entry, opened}
  open D use {World, list_dir}

  abbrev name : ℕ → Bytes
  name = backup_name catalog file

  -- Every file of the rotation has the name behind its own, the name of the log is free, and what is
  -- in the directory but not of the rotation, and what is open, is as it was.
  abbrev pub Shifted : World → World → Type 0
  Shifted w v =
      ((k : ℕ) → k < int_max → entry v (name (suc k)) ≡ entry w (name k))
      × (entry v (name 0) ≡ none)
      × ((q : Bytes) → IsOther D N catalog file F small tidy int_max q → entry v q ≡ entry w q)
      × (opened v ≡ opened w)

  -- The log is open on its file, and its names are set.
  abbrev pub IsLogging : ℤ → File → Type 0
  IsLogging fd f = (f.catalog ≡ live catalog) × (f.file ≡ live file) × (f.fd ≡ some fd)

  -- A number above the largest suffix is free.
  free_above :
      (names : List Bytes) (m k : ℕ) (w : World)
      → (list_dir catalog w).0 ≡ some names
      → max_suffix file 0 names ≡ some m
      → suc k ≤ int_max
      → m ≤ k
      → entry w (name (suc k)) ≡ none
  unfolding backup_name
  free_above names m k w listed found hk hm = elim (Option-cases (entry w (name (suc k)))) [
    | inl e ↦ e
    | inr (i, e) ↦ absurd (too_large (max_suffix-listed file 0 names (suc k) hk (contained i e)))
  ]
    where
      contained :
          (i : ℕ)
          → entry w (name (suc k)) ≡ some i
          → contains names (file ++ (b'.' ∷ print_decimal (suc k))) ≡ true
      contained i e =
          Filing.list_reply F (file ++ (b'.' ∷ print_decimal (suc k))) names i w
            (numbered-IsName file (suc k) tidy hk) listed
            (ap (entry w) (sym (append_assoc catalog (b'/' ∷ file) (b'.' ∷ print_decimal (suc k))))
              ∙ e)

      too_large : AtLeast (suc k) (max_suffix file 0 names) → ⊥
      too_large h = below (rw found at h)
        where
          below : suc k ≤ m → ⊥
          below l = omega (arith, l)

  pub with_file-live :
      {A : Type 0} (m : Bytes → Bytes → Prog (Watched D) A) (fd : ℤ) (f : File) (w : World)
      → IsLogging fd f
      → with_file D m (false, (f, w)) ≡ m catalog file (false, (f, w))
  with_file-live m fd f w (c, n, d) = ap₂ (λ x y. with_names D m x y (false, (f, w))) c n

  find_max_suffix-found :
      (names : List Bytes) (m : ℕ) (f : File) (w : World)
      → (list_dir catalog w).0 ≡ some names
      → max_suffix file 0 names ≡ some m
      → find_max_suffix D catalog file (false, (f, w)) ≡ done m (false, (f, (list_dir catalog w).1))
  unfolding find_max_suffix
  find_max_suffix-found names m f w listed found =
      ap
        (λ o. elim o [
          | none ↦ done 0 (false, (f, (list_dir catalog w).1))
          | some ns ↦ elim (max_suffix file 0 ns) [
            | none ↦ fault
            | some suffix ↦ done suffix (false, (f, (list_dir catalog w).1))
          ]
        ])
        listed
      ∙ ap
          (λ o. elim o [
            | none ↦ fault
            | some suffix ↦ done suffix (false, (f, (list_dir catalog w).1))
          ])
          found

  -- The loop moves the files up to the largest suffix, and there are no others.
  Moved-Shifted :
      (m : ℕ) (w u v : World)
      → m < int_max
      → ((k : ℕ) → suc k ≤ int_max → m ≤ k → entry u (name (suc k)) ≡ none)
      → Moved D N catalog file F small tidy m u v
      → entry u ≡ entry w
      → opened u ≡ opened w
      → Shifted w v
  Moved-Shifted m w u v hm free (shifted, gone, others, kept) same open_same = (
    (λ k hk. each k hk ∙ ap (λ g. g (name k)) same),
    gone,
    (λ q h. others q (h.0, λ k l. h.1 k (omega (arith, l, hm))) ∙ ap (λ g. g q) same),
    kept ∙ open_same,
  )
    where
      is_free : (k : ℕ) → m < k → k ≤ int_max → entry u (name k) ≡ none
      is_free zero l hk = elim l [ ]
      is_free (suc j) l hk = free j hk (omega (arith, l))

      each : (k : ℕ) → k < int_max → entry v (name (suc k)) ≡ entry u (name k)
      each k hk = elim (Bool-cases (leb k m)) [
        | inl e ↦ shifted k (ground (arith, e))
        | inr e ↦
            others (name (suc k)) (
              inside D N catalog file F small tidy (suc k) (omega (arith, hk)),
              λ j l.
                  differ D N catalog file F small tidy (suc k) j (omega (arith, hk))
                    (omega (arith, l, hm)) (λ h. ground (arith, e, l, h)),
            )
            ∙ free k (omega (arith, hk)) (ground (arith, e))
            ∙ sym (is_free k (ground (arith, e)) (omega (arith, hk)))
      ]

  -- For a log in a directory that is there, is read, and in which renaming a file to a free name
  -- succeeds (Filing), whose name has at most 244 bytes and no slash and whose path at most 500, and
  -- whose largest suffix is below INT_MAX: backup ends, with the mutex unlocked; every file of the rotation, the log being
  -- number 0, then has the name with the next number (the file k + 1 is what k was, none if there
  -- was none), the name of the log is free, and no other name in the directory and no open
  -- file has changed.
  pub backup-Shifted :
      (names : List Bytes) (m : ℕ) (fd : ℤ) (f : File) (w : World)
      → IsLogging fd f
      → (list_dir catalog w).0 ≡ some names
      → max_suffix file 0 names ≡ some m
      → m < int_max
      → (v : World) × (backup D (false, (f, w)) ≡ done tt (false, (f, v))) × Shifted w v
  unfolding backup
  backup-Shifted names m fd f w logging listed found hm =
      let (same, open_same) = Filing.list-Keeps F w in
      let (v, ran, moved) =
        move_all-Moved D N catalog file F small tidy m fd f (list_dir catalog w).1 logging.2 hm (
          ap (λ g. g (name (suc m))) same ∙ free_above names m m w listed found hm (omega arith)) in
      (
        v,
        with_file-live (λ c n. find_max_suffix D c n >>= move_all D c n) fd f w logging
            ∙ ap (λ o. resume o (move_all D catalog file))
                (find_max_suffix-found names m f w listed found)
            ∙ ran,
        Moved-Shifted m w (list_dir catalog w).1 v hm
            (λ k hk l. ap (λ g. g (name (suc k))) same ∙ free_above names m k w listed found hk l)
            moved same open_same,
      )

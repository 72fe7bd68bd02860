-- ===== src/Log/Rotation/Shift.antt =====
-- The loop of backup: every file of the rotation gets the number after its own.
use mathlib.Core.List.{append_cancel_left, nil≢cons, tail-eq_of_cons-eq}
use sqlbus.Prelude.{
  all, all-cons, append_assoc, not, true, ◌==◌, ℕ, zero, suc, ◌≤◌, ◌<◌, ◌≡◌, refl, sym, ap, ◌∙◌,
  false, none, some, [], ◌∷◌, ◌++◌, append-nil, ℤ, Bytes, leb, Bool-cases, lt→ltb, length,
  length-append, strcmp_eq, strcmp_differ, strcmp_refl, if◌then◌else◌, Option-cases, inl, inr,
  arith,
}
use sqlbus.Disk.{Disk, Names, Filing, IsName, InDirectory, in_directory}
use sqlbus.Server.Exec.{done, fault, Prog, resume}
use sqlbus.Log.{int_max, is_digit}
use sqlbus.Log.Decimal.{
  print_decimal, length-print_digits, all-print_digits, print_decimal-injective,
}
use sqlbus.Log.Files.{File, Filed}
use sqlbus.Log.Rotation.{backup_name, move_up, move_all, on_file, unlock}

append_nil_cancel : (p : Bytes) (c : ℕ) (s : Bytes) → p ≡ p ++ (c ∷ s) → ⊥
append_nil_cancel p c s e = nil≢cons (append_cancel_left p [] (c ∷ s) (append-nil p ∙ e))

name-injective :
    (catalog file : Bytes) (i j : ℕ)
    → i ≤ int_max
    → j ≤ int_max
    → backup_name catalog file i ≡ backup_name catalog file j
    → i ≡ j
unfolding backup_name
name-injective catalog file zero zero hi hj e = refl
name-injective catalog file zero (suc j) hi hj e =
    absurd (append_nil_cancel (in_directory catalog file) _ _ e)
name-injective catalog file (suc i) zero hi hj e =
    absurd (append_nil_cancel (in_directory catalog file) _ _ (sym e))
name-injective catalog file (suc i) (suc j) hi hj e =
    print_decimal-injective (suc i) (suc j) hi hj
      (tail-eq_of_cons-eq (append_cancel_left (in_directory catalog file) _ _ e))

length-backup_name :
    (catalog file : Bytes) (i : ℕ)
    → length (in_directory catalog file) ≤ 500
    → length (backup_name catalog file i) < 512
unfolding backup_name
length-backup_name catalog file zero h = omega arith
length-backup_name catalog file (suc i) h = omega (
  arith,
  length-append (in_directory catalog file) (b'.' ∷ print_decimal (suc i)),
  length-print_digits 9 (suc i),
)

-- The name of a log, with room for the number of a backup
abbrev pub IsLogName : Bytes → Type 0
IsLogName file = (all (λ x. not (x == b'/')) file ≡ true) × (1 ≤ length file) × (length file ≤ 244)

digit_no_slash : (c : ℕ) → is_digit c ≡ true → not (c == b'/') ≡ true
digit_no_slash c h = ground arith

digits_no_slash : (s : Bytes) → all is_digit s ≡ true → all (λ x. not (x == b'/')) s ≡ true
digits_no_slash [] h = refl
digits_no_slash (c ∷ s) h =
    let (here, rest) = all-cons is_digit c s h in
    rw (digit_no_slash c here, digits_no_slash s rest) refl

all-append_slash :
    (s t : Bytes)
    → all (λ x. not (x == b'/')) s ≡ true
    → all (λ x. not (x == b'/')) t ≡ true
    → all (λ x. not (x == b'/')) (s ++ t) ≡ true
all-append_slash [] t h k = k
all-append_slash (c ∷ s) t h k =
    let (here, rest) = all-cons (λ x. not (x == b'/')) c s h in
    rw (here, all-append_slash s t rest k) refl

pub numbered-IsName :
    (file : Bytes) (k : ℕ)
    → IsLogName file
    → k ≤ int_max
    → IsName (file ++ (b'.' ∷ print_decimal k))
numbered-IsName file k (plain, some_byte, short) hk = (
  all-append_slash file (b'.' ∷ print_decimal k) plain
      (digits_no_slash (print_decimal k) (all-print_digits 9 k (omega arith))),
  omega (arith, length-append file (b'.' ∷ print_decimal k)),
  omega (arith, length-append file (b'.' ∷ print_decimal k), length-print_digits 9 k),
)

pub backup_name-InDirectory :
    (catalog file : Bytes) (k : ℕ)
    → IsLogName file
    → k ≤ int_max
    → InDirectory catalog (backup_name catalog file k)
unfolding backup_name
backup_name-InDirectory catalog file zero (plain, some_byte, short) hk =
    (file, refl, (plain, some_byte, omega arith))
backup_name-InDirectory catalog file (suc k) tidy hk = (
  file ++ (b'.' ∷ print_decimal (suc k)),
  append_assoc catalog (b'/' ∷ file) (b'.' ∷ print_decimal (suc k)),
  numbered-IsName file (suc k) tidy hk,
)

module _ (D : Disk) (N : Names D) (catalog file : Bytes) (F : Filing D N catalog)
    (small : length (in_directory catalog file) ≤ 500) (tidy : IsLogName file) where
  open N use {entry, opened}
  open D use {World, fsync, rename}

  abbrev pub name : ℕ → Bytes
  name = backup_name catalog file

  -- In the directory, and no name of the rotation up to a number
  abbrev pub IsOther : ℕ → Bytes → Type 0
  IsOther n q = InDirectory catalog q × ((k : ℕ) → k ≤ n → strcmp_eq q (name k) ≡ false)

  pub differ :
      (i j : ℕ) → i ≤ int_max → j ≤ int_max → (i ≡ j → ⊥) → strcmp_eq (name i) (name j) ≡ false
  differ i j hi hj h =
      strcmp_differ (name i) (name j) (λ e. h (name-injective catalog file i j hi hj e))

  pub inside : (i : ℕ) → i ≤ int_max → InDirectory catalog (name i)
  inside i h = backup_name-InDirectory catalog file i tidy h

  -- The files from a number down to the log have the next name each, and the name of the log is
  -- free; what is not of the rotation, and what is open, is as it was.
  abbrev pub Moved : ℕ → World → World → Type 0
  Moved i w v =
      ((k : ℕ) → k ≤ i → entry v (name (suc k)) ≡ entry w (name k))
      × (entry v (name 0) ≡ none)
      × ((q : Bytes) → IsOther (suc i) q → entry v q ≡ entry w q)
      × (opened v ≡ opened w)

  abbrev renamed : ℕ → ℤ → World → World
  renamed i fd w = rename (name i) (name (suc i)) (fsync fd w)

  -- One renaming to a name that is free
  abbrev OneMoved : ℕ → World → World → Type 0
  OneMoved i w v =
      (entry v (name (suc i)) ≡ entry w (name i))
      × (entry v (name i) ≡ none)
      × ((q : Bytes)
          → InDirectory catalog q
          → strcmp_eq q (name i) ≡ false
          → strcmp_eq q (name (suc i)) ≡ false
          → entry v q ≡ entry w q)
      × (opened v ≡ opened w)

  rename-OneMoved :
      (i : ℕ) (w : World)
      → i < int_max
      → entry w (name (suc i)) ≡ none
      → OneMoved i w (rename (name i) (name (suc i)) w)
  rename-OneMoved i w hi free = elim (Option-cases (entry w (name i))) [
    | inl e ↦
        let same = Filing.rename-missing F (name i) (name (suc i)) w e in
        (
          ap (λ g. g (name (suc i))) same ∙ free ∙ sym e,
          ap (λ g. g (name i)) same ∙ e,
          (λ q d h k. ap (λ g. g q) same),
          Filing.rename-opened F _ _ w,
        )
    | inr (j, e) ↦ (
      renamed_entry j e (name (suc i)) (inside (suc i) (omega arith))
          ∙ rw (strcmp_refl (name (suc i))) (sym e),
      renamed_entry j e (name i) (inside i (omega arith))
          ∙ rw
              (
                differ i (suc i) (omega arith) (omega arith) (λ h. omega (arith, h)),
                strcmp_refl (name i),
              )
              refl,
      (λ q d h k. renamed_entry j e q d ∙ rw (k, h) refl),
      Filing.rename-opened F _ _ w,
    )
  ]
    where
      renamed_entry :
          (j : ℕ)
          → entry w (name i) ≡ some j
          → (q : Bytes) → InDirectory catalog q
          → entry (rename (name i) (name (suc i)) w) q ≡ (
              if strcmp_eq q (name (suc i))
              then some j
              else if strcmp_eq q (name i)
              then none
              else entry w q)
      renamed_entry j e q d =
          Filing.rename-moved F (name i) (name (suc i)) q j w (inside i (omega arith))
            (inside (suc i) (omega arith)) d e free

  pub on_file-set :
      {A : Type 0} (m : ℤ → Prog (Filed D) A) (f : File) (w : World) (fd : ℤ)
      → f.fd ≡ some fd
      → on_file D m (f, w) ≡ m fd (f, w)
  on_file-set m f w fd e = ap (λ o. elim o [ none ↦ fault | some d ↦ m d (f, w) ]) e

  move_up-done :
      (i : ℕ) (fd : ℤ) (f : File) (w : World)
      → f.fd ≡ some fd
      → i < int_max
      → move_up D catalog file i (false, (f, w)) ≡ done tt (false, (f, renamed i fd w))
  unfolding move_up
  move_up-done i fd f w e hi =
      rw
        (
          lt→ltb (length (name i)) 512 (length-backup_name catalog file i small),
          lt→ltb (length (name (suc i))) 512 (length-backup_name catalog file (suc i) small),
          lt→ltb i int_max hi,
        )
        (ap (unlock D) (
          on_file-set (λ fd s. done tt (s.0, rename (name i) (name (suc i)) (fsync fd s.1))) f w fd
            e))

  -- The round: fsync changes nothing that is looked at.
  move_up-OneMoved :
      (i : ℕ) (fd : ℤ) (w : World)
      → i < int_max
      → entry w (name (suc i)) ≡ none
      → OneMoved i w (renamed i fd w)
  move_up-OneMoved i fd w hi free =
      let (same, open_same) = Filing.fsync-Keeps F fd w in
      let (moved, gone, others, opened_same) =
        rename-OneMoved i (fsync fd w) hi (ap (λ g. g (name (suc i))) same ∙ free) in
      (
        moved ∙ ap (λ g. g (name i)) same,
        gone,
        (λ q d h k. others q d h k ∙ ap (λ g. g q) same),
        opened_same ∙ open_same,
      )

  OneMoved-Moved : (w v : World) → OneMoved zero w v → Moved zero w v
  OneMoved-Moved w v (moved, gone, others, same) = (
    (λ k l.
        let only : k ≡ 0 = omega arith in
        ap (λ j. entry v (name (suc j))) only ∙ moved ∙ ap (λ j. entry w (name j)) (sym only)),
    gone,
    (λ q (d, h). others q d (h 0 (omega arith)) (h 1 (omega arith))),
    same,
  )

  -- Two parts of the loop, one behind the other
  Moved-suc :
      (i : ℕ) (w v u : World)
      → suc i < int_max
      → OneMoved (suc i) w v
      → Moved i v u
      → Moved (suc i) w u
  Moved-suc i w v u hi (moved, gone, others, same) (rest, free, rest_others, rest_same) = (
    shifted,
    free,
    (λ q h.
        rest_others q (h.0, λ k l. h.1 k (omega (arith, l)))
        ∙ others q h.0 (h.1 (suc i) (omega arith)) (h.1 (suc (suc i)) (omega arith))),
    rest_same ∙ same,
  )
    where
      shifted : (k : ℕ) → k ≤ suc i → entry u (name (suc k)) ≡ entry w (name k)
      shifted k l = elim (Bool-cases (leb k i)) [
        | inl e ↦
            rest k (ground (arith, e))
            ∙ others (name k) (inside k (ground (arith, e)))
                (differ k (suc i) (ground (arith, e)) (omega arith) (λ h. ground (arith, e, h)))
                (differ k (suc (suc i)) (ground (arith, e)) (omega arith)
                  (λ h. ground (arith, e, h)))
        | inr e ↦
            let last : k ≡ suc i = ground (arith, e) in
            ap (λ j. entry u (name (suc j))) last
            ∙ rest_others (name (suc (suc i))) (
              inside (suc (suc i)) (omega arith),
              λ j m.
                  differ (suc (suc i)) j (omega arith) (omega (arith, m))
                    (λ h. omega (arith, h, m)),
            )
            ∙ moved
            ∙ ap (λ j. entry w (name j)) (sym last)
      ]

  -- backup's loop, from a number whose successor is free
  pub move_all-Moved :
      (i : ℕ) (fd : ℤ) (f : File) (w : World)
      → f.fd ≡ some fd
      → i < int_max
      → entry w (name (suc i)) ≡ none
      → (v : World) × (move_all D catalog file i (false, (f, w)) ≡ done tt (false, (f, v)))
        × Moved i w v
  unfolding move_all
  move_all-Moved zero fd f w e hi free = (
    renamed zero fd w,
    move_up-done zero fd f w e hi,
    OneMoved-Moved w (renamed zero fd w) (move_up-OneMoved zero fd w hi free),
  )
  move_all-Moved (suc i) fd f w e hi free =
      let one = move_up-OneMoved (suc i) fd w hi free in
      let (v, ran, moved) =
        move_all-Moved i fd f (renamed (suc i) fd w) e (omega (arith, hi)) one.1 in
      (
        v,
        ap (λ o. resume o (λ _. move_all D catalog file i)) (move_up-done (suc i) fd f w e hi)
            ∙ ran,
        Moved-suc i w (renamed (suc i) fd w) v hi one moved,
      )

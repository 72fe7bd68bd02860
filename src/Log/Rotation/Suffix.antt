-- ===== src/Log/Rotation/Suffix.antt =====
-- find_max_suffix: no backup has a number above the one that it finds.
use sqlbus.Prelude.{
  ℕ, ◌≤◌, ◌≡◌, refl, sym, Bool, true, false, Option, none, some, List, [], ◌∷◌, ◌++◌, Bytes, ℤ, pos,
  negsuc, ltb, Bool-cases, inl, inr, length, all, all-cons, strcmp_eq, strcmp_sound, if◌then◌else◌,
  arith,
}
use sqlbus.Disk.{contains}
use sqlbus.Log.{int_max, is_digit, atoi}
use sqlbus.Log.Decimal.{print_decimal, all-print_digits, print_digits-length, atoi-print_decimal}
use sqlbus.Log.Rotation.{starts_with, behind_dot, larger, max_suffix}

starts_with-append : (file s : Bytes) → starts_with (file ++ s) file ≡ true
unfolding starts_with
starts_with-append [] [] = refl
starts_with-append [] (c ∷ s) = refl
starts_with-append (d ∷ file) s = ground (arith, starts_with-append file s)

behind_dot-digits : (ds : Bytes) → all is_digit ds ≡ true → behind_dot ds ≡ none
unfolding behind_dot
behind_dot-digits [] h = refl
behind_dot-digits (c ∷ ds) h =
    rw (behind_dot-digits ds (all-cons is_digit c ds h).1)
      (ground (arith, (all-cons is_digit c ds h).0))

behind_dot-append :
    (file ds : Bytes) → all is_digit ds ≡ true → behind_dot (file ++ (b'.' ∷ ds)) ≡ some ds
unfolding behind_dot
behind_dot-append [] ds h = rw (behind_dot-digits ds h) refl
behind_dot-append (c ∷ file) ds h = rw (behind_dot-append file ds h) refl

larger-digits :
    (s k : ℕ) (ds : Bytes)
    → all is_digit ds ≡ true
    → 1 ≤ length ds
    → atoi ds ≡ some (pos k)
    → larger s (some ds) ≡ some (if ltb s k then k else s)
unfolding larger
larger-digits s k [] h l e = elim l [ ]
larger-digits s k (c ∷ ds) h l e = rw ((all-cons is_digit c ds h).0, e) refl

-- A result that is not below a number; an undefined one is let pass.
abbrev pub AtLeast : ℕ → Option ℕ → Type 0
AtLeast s none = Unit {0}
AtLeast s (some m) = s ≤ m

AtLeast-trans : (s t : ℕ) (o : Option ℕ) → s ≤ t → AtLeast t o → AtLeast s o
AtLeast-trans s t none h l = tt
AtLeast-trans s t (some m) h l = omega (arith, h, l)

larger-AtLeast : (s : ℕ) (found : Option Bytes) → AtLeast s (larger s found)
unfolding larger
larger-AtLeast s none = omega arith
larger-AtLeast s (some []) = omega arith
larger-AtLeast s (some (c ∷ t)) = elim (Bool-cases (is_digit c)) [
  | inl e ↦ rw (e) (go (atoi (c ∷ t)))
  | inr e ↦ rw (e) (omega arith)
]
  where
    go :
        (o : Option ℤ)
        → AtLeast s (elim o [
          | none ↦ none
          | some (pos tv) ↦ some (if ltb s tv then tv else s)
          | some (negsuc tv) ↦ some s
        ])
    go none = tt
    go (some (pos tv)) = ground arith
    go (some (negsuc tv)) = omega arith

-- The loop does not lower the suffix.
max_suffix-AtLeast :
    (file : Bytes) (s : ℕ) (names : List Bytes) → AtLeast s (max_suffix file s names)
unfolding max_suffix
max_suffix-AtLeast file s [] = omega arith
max_suffix-AtLeast file s (d ∷ names) =
    go (if starts_with d file then larger s (behind_dot d) else some s)
      (λ best. max_suffix-AtLeast file best names) (either (starts_with d file))
  where
    either : (b : Bool) → AtLeast s (if b then larger s (behind_dot d) else some s)
    either true = larger-AtLeast s (behind_dot d)
    either false = omega arith

    go :
        (o : Option ℕ)
        → ((best : ℕ) → AtLeast best (max_suffix file best names))
        → AtLeast s o
        → AtLeast s (elim o [ none ↦ none | some best ↦ max_suffix file best names ])
    go none f h = tt
    go (some best) f h = AtLeast-trans s best (max_suffix file best names) h (f best)

-- In front of the other names, where the first has a result that is not below k
max_suffix-cons :
    (file : Bytes) (names : List Bytes) (k : ℕ) (o : Option ℕ)
    → AtLeast k o
    → AtLeast k (elim o [ none ↦ none | some best ↦ max_suffix file best names ])
max_suffix-cons file names k none h = tt
max_suffix-cons file names k (some best) h =
    AtLeast-trans k best (max_suffix file best names) h (max_suffix-AtLeast file best names)

-- A backup that the directory lists has no number above the one that is found.
pub max_suffix-listed :
    (file : Bytes) (s : ℕ) (names : List Bytes) (k : ℕ)
    → k ≤ int_max
    → contains names (file ++ (b'.' ∷ print_decimal k)) ≡ true
    → AtLeast k (max_suffix file s names)
unfolding max_suffix
max_suffix-listed file s [] k hk e = ground arith
max_suffix-listed file s (d ∷ names) k hk e =
    elim (Bool-cases (strcmp_eq (file ++ (b'.' ∷ print_decimal k)) d)) [
      | inl h ↦ max_suffix-cons file names k _ (here (strcmp_sound _ d h))
      | inr h ↦
          later (if starts_with d file then larger s (behind_dot d) else some s)
            (λ best. max_suffix-listed file best names k hk (ground (arith, e, h)))
    ]
  where
    are_digits : all is_digit (print_decimal k) ≡ true
    are_digits = all-print_digits 9 k (omega arith)

    here :
        file ++ (b'.' ∷ print_decimal k) ≡ d
        → AtLeast k (if starts_with d file then larger s (behind_dot d) else some s)
    here h =
        rw
          (
            sym h,
            starts_with-append file (b'.' ∷ print_decimal k),
            behind_dot-append file (print_decimal k) are_digits,
            larger-digits s k (print_decimal k) are_digits (print_digits-length 9 k)
                (atoi-print_decimal k hk),
          )
          (ground arith)

    later :
        (o : Option ℕ)
        → ((best : ℕ) → AtLeast k (max_suffix file best names))
        → AtLeast k (elim o [ none ↦ none | some best ↦ max_suffix file best names ])
    later none f = tt
    later (some best) f = f best

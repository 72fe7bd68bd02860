-- ===== src/Log/Size.antt =====
-- log_parse_maxsize: what it reads, and where it overflows.
use sqlbus.Prelude.{
  ℕ, ◌+◌, ◌-◌, ◌*◌, ◌^◌, ◌≤◌, ◌≡◌, refl, ◌∙◌, sym, ap, Bool, true, false, Option, none, some, List,
  [], ◌∷◌, ◌++◌, map, length, Bytes, ltb, leb, Bool-cases, inl, inr, if◌then◌else◌, arith, all,
}
use native.Mathlib.Omega.{pow_step}
use sqlbus.Log.{int_max, is_digit, scaled, scan_size, log_parse_maxsize}

-- The number with these digits, the first one being the highest.
unfoldable pub decimal : List ℕ → ℕ
decimal [] = 0
decimal (d ∷ ds) = d * 10 ^ length ds + decimal ds

abbrev pub numeral : List ℕ → Bytes
numeral = map (λ d. d + b'0')

unfoldable decimal_from : ℕ → List ℕ → ℕ
decimal_from n [] = n
decimal_from n (d ∷ ds) = decimal_from (n * 10 + d) ds

decimal_from-le : (n : ℕ) (ds : List ℕ) → n ≤ decimal_from n ds
unfolding decimal_from
decimal_from-le n [] = omega arith
decimal_from-le n (d ∷ ds) = step (decimal_from (n * 10 + d) ds) (decimal_from-le (n * 10 + d) ds)
  where
    step : (m : ℕ) → n * 10 + d ≤ m → n ≤ m
    step m h = omega arith

distribute : (n d p m : ℕ) → (n * 10 + d) * p + m ≡ n * (10 * p) + (d * p + m)
distribute n d p m = grind arith

decimal_from-decimal : (n : ℕ) (ds : List ℕ) → decimal_from n ds ≡ n * 10 ^ length ds + decimal ds
unfolding decimal_from decimal
decimal_from-decimal n [] = omega arith
decimal_from-decimal n (d ∷ ds) =
    decimal_from-decimal (n * 10 + d) ds
    ∙ distribute n d (10 ^ length ds) (decimal ds)
    ∙ ap (λ p. n * p + (d * 10 ^ length ds + decimal ds)) (sym (pow_step 10 (length ds)))

-- A digit is read, or the number is above what fits.
scan_size-digit :
    (n d : ℕ) (s : Bytes)
    → ltb d 10 ≡ true
    → scan_size n ((d + 48) ∷ s)
      ≡ (if leb (n * 10 + d + 48) int_max then scan_size (n * 10 + d) s else none)
unfolding scan_size
scan_size-digit n d s h = rw (is, added, removed) refl
  where
    is : is_digit (d + 48) ≡ true
    is = ground arith

    added : n * 10 + (d + 48) ≡ n * 10 + d + 48
    added = omega arith

    removed : n * 10 + d + 48 - 48 ≡ n * 10 + d
    removed = omega arith

-- Where a number is above what fits, a number that is not below it is too.
leb_above : (m n : ℕ) → m ≤ n → leb (m + 48) int_max ≡ false → leb (n + 48) int_max ≡ false
leb_above m n h above = ground arith

leb_le : (m : ℕ) → leb (m + 48) int_max ≡ true → m + 48 ≤ int_max
leb_le m h = ground arith

le_leb : (m : ℕ) → m + 48 ≤ int_max → leb (m + 48) int_max ≡ true
le_leb m h = ground arith

all-cons :
    (d : ℕ) (ds : List ℕ)
    → all (λ x. ltb x 10) (d ∷ ds) ≡ true
    → (ltb d 10 ≡ true) × (all (λ x. ltb x 10) ds ≡ true)
all-cons d ds h = ground arith

-- Digits are read until the number is above what fits with one more digit's code.
scan_size-numeral :
    (n : ℕ) (ds : List ℕ) (rest : Bytes)
    → all (λ d. ltb d 10) ds ≡ true
    → n + 48 ≤ int_max
    → scan_size n (numeral ds ++ rest)
      ≡ (if leb (decimal_from n ds + 48) int_max then scan_size (decimal_from n ds) rest else none)
unfolding decimal_from
scan_size-numeral n [] rest h fits = rw (le_leb n fits) refl
scan_size-numeral n (d ∷ ds) rest h fits =
    scan_size-digit n d (numeral ds ++ rest) (all-cons d ds h).0
    ∙ elim (Bool-cases (leb (n * 10 + d + 48) int_max)) [
      | inl e ↦
          rw (e)
            (scan_size-numeral (n * 10 + d) ds rest (all-cons d ds h).1 (leb_le (n * 10 + d) e))
      | inr e ↦
          rw
            (
              e,
              leb_above (n * 10 + d) (decimal_from (n * 10 + d) ds)
                  (decimal_from-le (n * 10 + d) ds) e,
            )
            refl
    ]

-- A numeral and a letter, whatever follows
log_parse_maxsize-scaled :
    (ds : List ℕ) (letter : ℕ) (rest : Bytes)
    → all (λ d. ltb d 10) ds ≡ true
    → is_digit letter ≡ false
    → log_parse_maxsize (some (numeral ds ++ (letter ∷ rest)))
      ≡ (if leb (decimal ds + 48) int_max then scaled (decimal ds) letter else none)
unfolding log_parse_maxsize scan_size
log_parse_maxsize-scaled ds letter rest h other =
    scan_size-numeral 0 ds (letter ∷ rest) h (omega arith)
    ∙ rw (other, decimal_from-decimal 0 ds, none_before (10 ^ length ds) (decimal ds)) refl
  where
    none_before : (p m : ℕ) → 0 * p + m ≡ m
    none_before p m = omega arith

-- The units, their letters and what they stand for
pub data Scale : Type 0 where
  bytes kilobytes megabytes gigabytes : Scale

abbrev pub letter_of : Scale → Bool → ℕ
letter_of bytes false = b'b'
letter_of bytes true = b'B'
letter_of kilobytes false = b'k'
letter_of kilobytes true = b'K'
letter_of megabytes false = b'm'
letter_of megabytes true = b'M'
letter_of gigabytes false = b'g'
letter_of gigabytes true = b'G'

abbrev pub factor_of : Scale → ℕ
factor_of bytes = 1
factor_of kilobytes = 1024
factor_of megabytes = 1024 * 1024
factor_of gigabytes = 1024 * 1024 * 1024

letter_of-no_digit : (u : Scale) (upper : Bool) → is_digit (letter_of u upper) ≡ false
letter_of-no_digit bytes false = refl
letter_of-no_digit bytes true = refl
letter_of-no_digit kilobytes false = refl
letter_of-no_digit kilobytes true = refl
letter_of-no_digit megabytes false = refl
letter_of-no_digit megabytes true = refl
letter_of-no_digit gigabytes false = refl
letter_of-no_digit gigabytes true = refl

-- A number that is an int, or an overflow
abbrev pub int_or_overflow : ℕ → Option ℕ
int_or_overflow n = if leb n int_max then some n else none

small_number : (n : ℕ) → leb (n + 48) int_max ≡ true → some n ≡ int_or_overflow (n * 1)
small_number n h = rw (once, fits) refl
  where
    once : n * 1 ≡ n
    once = omega arith

    fits : leb n int_max ≡ true
    fits = ground (arith, h)

scaled-factor :
    (n : ℕ) (u : Scale) (upper : Bool)
    → leb (n + 48) int_max ≡ true
    → scaled n (letter_of u upper) ≡ int_or_overflow (n * factor_of u)
unfolding scaled
scaled-factor n bytes false h = small_number n h
scaled-factor n bytes true h = small_number n h
scaled-factor n kilobytes false h = refl
scaled-factor n kilobytes true h = refl
scaled-factor n megabytes false h = refl
scaled-factor n megabytes true h = refl
scaled-factor n gigabytes false h = refl
scaled-factor n gigabytes true h = refl

-- A numeral and the letter of a unit, small or capital, whatever follows: the result is the number
-- times 1, 1024, 1024 * 1024 or 1024 * 1024 * 1024. It is none, an overflow, just when the number
-- with 48 added, or the product, is above INT_MAX.
pub log_parse_maxsize-numeral :
    (ds : List ℕ) (u : Scale) (upper : Bool) (rest : Bytes)
    → all (λ d. ltb d 10) ds ≡ true
    → log_parse_maxsize (some (numeral ds ++ (letter_of u upper ∷ rest)))
      ≡ (if leb (decimal ds + 48) int_max then int_or_overflow (decimal ds * factor_of u) else none)
log_parse_maxsize-numeral ds u upper rest h =
    log_parse_maxsize-scaled ds (letter_of u upper) rest h (letter_of-no_digit u upper)
    ∙ elim (Bool-cases (leb (decimal ds + 48) int_max)) [
      | inl e ↦ rw (e) (scaled-factor (decimal ds) u upper e)
      | inr e ↦ rw (e) refl
    ]

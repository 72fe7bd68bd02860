-- ===== src/Log/Decimal.antt =====
-- The conversion %d of numbers that are not negative, which names the backups of the log, and atoi,
-- which reads them back.
use sqlbus.Prelude.{
  ℕ, zero, suc, ◌+◌, ◌-◌, ◌*◌, ◌/◌, ◌%◌, ◌<◌, ◌≤◌, ◌≡◌, refl, sym, ap, ◌∙◌, true, false, some, [],
  ◌∷◌, ◌++◌, Bytes, pos, ltb, leb, ◌==◌, length, length-append, all, all-cons, if◌then◌else◌,
  Bool-cases, inl, inr, ltb→lt, arith,
}
use sqlbus.Log.{int_max, is_digit, is_space, digits_from, signed, atoi}

-- A number of at most one digit more than the fuel
unfoldable pub print_digits : ℕ → ℕ → Bytes
print_digits zero n = (n + 48) ∷ []
print_digits (suc fuel) n =
    let rest = print_digits fuel (n / 10) in
    if ltb n 10 then (n + 48) ∷ [] else rest ++ ((n % 10 + 48) ∷ [])

-- An int has at most ten digits.
abbrev pub print_decimal : ℕ → Bytes
print_decimal = print_digits 9

-- The first number that is too large for the fuel
abbrev pub limit : ℕ → ℕ
limit zero = 10
limit (suc fuel) = 10 * limit fuel

pub length-print_digits : (fuel n : ℕ) → length (print_digits fuel n) ≤ suc fuel
unfolding print_digits
length-print_digits zero n = omega arith
length-print_digits (suc fuel) n = elim (Bool-cases (ltb n 10)) [
  | inl e ↦ rw (e) (omega arith)
  | inr e ↦ rw (e) (
      omega (
        arith,
        length-append (print_digits fuel (n / 10)) ((n % 10 + 48) ∷ []),
        length-print_digits fuel (n / 10),
      ))
]

all-snoc :
    (ds : Bytes) (d : ℕ)
    → all is_digit ds ≡ true
    → is_digit d ≡ true
    → all is_digit (ds ++ (d ∷ [])) ≡ true
all-snoc [] d h hd = ground arith
all-snoc (c ∷ ds) d h hd = ground (arith, all-snoc ds d)

is_digit-add : (n : ℕ) → n < 10 → is_digit (n + 48) ≡ true
is_digit-add n h = ground arith

pub all-print_digits : (fuel n : ℕ) → n < limit fuel → all is_digit (print_digits fuel n) ≡ true
unfolding print_digits
all-print_digits zero n h = ground (arith, is_digit-add n h)
all-print_digits (suc fuel) n h = elim (Bool-cases (ltb n 10)) [
  | inl e ↦ rw (e) (ground (arith, is_digit-add n (ltb→lt n 10 e)))
  | inr e ↦ rw (e) (
      all-snoc (print_digits fuel (n / 10)) (n % 10 + 48)
        (all-print_digits fuel (n / 10) (omega arith)) (is_digit-add (n % 10) (omega arith)))
]

digits_from-snoc :
    (n : ℕ) (ds : Bytes) (d : ℕ)
    → all is_digit ds ≡ true
    → d < 10
    → digits_from n (ds ++ ((d + 48) ∷ [])) ≡ digits_from n ds * 10 + d
unfolding digits_from
digits_from-snoc n [] d h hd = rw (is_digit-add d hd) (omega arith)
digits_from-snoc n (c ∷ ds) d h hd =
    let (is, rest) = all-cons is_digit c ds h in
    rw (is) (digits_from-snoc (n * 10 + (c - 48)) ds d rest hd)

digits_from-one : (n : ℕ) → n < 10 → digits_from 0 ((n + 48) ∷ []) ≡ n
unfolding digits_from
digits_from-one n h = rw (is_digit-add n h) (omega arith)

-- What is printed reads back as the number.
pub digits_from-print_digits :
    (fuel n : ℕ) → n < limit fuel → digits_from 0 (print_digits fuel n) ≡ n
unfolding print_digits
digits_from-print_digits zero n h = digits_from-one n h
digits_from-print_digits (suc fuel) n h = elim (Bool-cases (ltb n 10)) [
  | inl e ↦ rw (e) (digits_from-one n (ltb→lt n 10 e))
  | inr e ↦ rw (e) (
      digits_from-snoc 0 (print_digits fuel (n / 10)) (n % 10)
        (all-print_digits fuel (n / 10) (omega arith)) (omega arith)
      ∙ ap (λ q. q * 10 + n % 10) (digits_from-print_digits fuel (n / 10) (omega arith))
      ∙ divided n)
]
  where
    divided : (n : ℕ) → n / 10 * 10 + n % 10 ≡ n
    divided n = omega arith

signed-digit :
    (c : ℕ) (s : Bytes)
    → is_digit c ≡ true
    → digits_from 0 (c ∷ s) ≤ int_max
    → atoi (c ∷ s) ≡ some (pos (digits_from 0 (c ∷ s)))
unfolding atoi signed
signed-digit c s h fits = rw (no_space, no_minus, no_plus, fits_leb) refl
  where
    no_space : is_space c ≡ false
    no_space = ground arith

    no_minus : (c == b'-') ≡ false
    no_minus = ground arith

    no_plus : (c == b'+') ≡ false
    no_plus = ground arith

    fits_leb : leb (digits_from 0 (c ∷ s)) int_max ≡ true
    fits_leb = ground (arith, fits)

atoi-digits :
    (ds : Bytes)
    → all is_digit ds ≡ true
    → 1 ≤ length ds
    → digits_from 0 ds ≤ int_max
    → atoi ds ≡ some (pos (digits_from 0 ds))
atoi-digits [] h l fits = elim l [ ]
atoi-digits (c ∷ ds) h l fits = signed-digit c ds (all-cons is_digit c ds h).0 fits

pub print_digits-length : (fuel n : ℕ) → 1 ≤ length (print_digits fuel n)
unfolding print_digits
print_digits-length zero n = omega arith
print_digits-length (suc fuel) n = elim (Bool-cases (ltb n 10)) [
  | inl e ↦ rw (e) (omega arith)
  | inr e ↦ rw (e) (omega (arith, length-append (print_digits fuel (n / 10)) ((n % 10 + 48) ∷ [])))
]

pub atoi-print_decimal : (n : ℕ) → n ≤ int_max → atoi (print_decimal n) ≡ some (pos n)
atoi-print_decimal n h =
    atoi-digits (print_decimal n) (all-print_digits 9 n (omega arith)) (print_digits-length 9 n)
      (rw (back) h)
    ∙ ap (λ k. some (pos k)) back
  where
    back : digits_from 0 (print_decimal n) ≡ n
    back = digits_from-print_digits 9 n (omega arith)

digits_from-line : (n : ℕ) (ds : Bytes) → digits_from n (ds ++ b'\n' ∷ []) ≡ digits_from n ds
unfolding digits_from
digits_from-line n [] = refl
digits_from-line n (c ∷ ds) =
    ap (λ k. if is_digit c then k else n) (digits_from-line (n * 10 + (c - b'0')) ds)

-- The line of a number reads back as the number.
pub atoi-print_line : (n : ℕ) → n ≤ int_max → atoi (print_decimal n ++ b'\n' ∷ []) ≡ some (pos n)
atoi-print_line n h =
    of_digits (print_decimal n) (all-print_digits 9 n (omega arith)) (print_digits-length 9 n)
      (digits_from-print_digits 9 n (omega arith))
  where
    of_digits :
        (ds : Bytes)
        → all is_digit ds ≡ true
        → 1 ≤ length ds
        → digits_from 0 ds ≡ n
        → atoi (ds ++ b'\n' ∷ []) ≡ some (pos n)
    of_digits [] a l e = elim l [ ]
    of_digits (c ∷ ds) a l e =
        let same = digits_from-line 0 (c ∷ ds) ∙ e in
        signed-digit c (ds ++ b'\n' ∷ []) (all-cons is_digit c ds a).0 (rw same h)
        ∙ ap (λ k. some (pos k)) same

pub print_decimal-injective :
    (m n : ℕ) → m ≤ int_max → n ≤ int_max → print_decimal m ≡ print_decimal n → m ≡ n
print_decimal-injective m n hm hn e =
    sym (digits_from-print_digits 9 m (omega arith))
    ∙ ap (digits_from 0) e
    ∙ digits_from-print_digits 9 n (omega arith)

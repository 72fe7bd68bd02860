-- ===== src/Config/Lines/Printed.antt =====
-- How the line functions read the lines of a printed configuration.
use sqlbus.Prelude.{
  ℕ, zero, suc, ◌+◌, ◌-◌, ◌<◌, ◌≡◌, refl, ap, ◌∙◌, Bool, true, false, not, ◌&&◌, some, [], ◌∷◌,
  ◌++◌, arith, ◌==◌, leb, length, length-append, take, take_all, drop, all, is_empty, Bytes, c_str,
  is_c_string, c_str-append,
}
use sqlbus.Trim.{is_trailing, rtrim, ltrim}
use sqlbus.Trim.Rtrim.{without_trailing, rtrim-without_trailing}
use sqlbus.Trim.Ltrim.{without_leading, ltrim-without_leading}
use sqlbus.Config.{ConfPair, name_size, value_size, ok}
use sqlbus.Config.Lines.{
  get_line, read_one_line, scan_close, is_section, index, pair_new, separate_key_value_pair,
}
use sqlbus.Config.Lines.Trimmed.{trimmed}

-- A byte of a line of text.
abbrev pub is_text : ℕ → Bool
is_text c = leb 1 c && not (c == b'\n')

abbrev pub lacks : ℕ → Bytes → Bool
lacks d = all (λ c. not (c == d))

pub is_c_string-is_text : (s : Bytes) → all is_text s ≡ true → is_c_string s ≡ true
is_c_string-is_text [] h = refl
is_c_string-is_text (c ∷ s) h = ground (arith, is_c_string-is_text s)

pub all-append :
    (test : ℕ → Bool) (s t : Bytes)
    → all test s ≡ true
    → all test t ≡ true
    → all test (s ++ t) ≡ true
all-append test [] t h k = k
all-append test (c ∷ s) t h k = ground (arith, all-append test s t)

get_line-text :
    (n : ℕ) (s rest : Bytes)
    → all is_text s ≡ true
    → length s < n
    → get_line n (s ++ (b'\n' ∷ rest)) ≡ (s ++ (b'\n' ∷ []), rest)
unfolding get_line
get_line-text zero s rest h k = elim k [ ]
get_line-text (suc n) [] rest h k = refl
get_line-text (suc n) (c ∷ s) rest h k = ground (arith, get_line-text n s rest)

-- A line of text that fits the array is read whole.
pub read_one_line-text :
    (n : ℕ) (s rest : Bytes)
    → all is_text s ≡ true
    → length s < n - 1
    → read_one_line n (s ++ (b'\n' ∷ rest)) ≡ (s ++ (b'\n' ∷ []), rest)
unfolding read_one_line
read_one_line-text n s rest h k = rw (get_line-text (n - 1) s rest h k) (
    ap (λ l. (l, rest))
      (c_str-append (s ++ (b'\n' ∷ [])) []
        (all-append (λ c. leb 1 c) s (b'\n' ∷ []) (is_c_string-is_text s h) refl)))

-- A string whose last byte, behind `c`, is no trailing one keeps all its bytes.
pub without_trailing-append :
    (s : Bytes) (c : ℕ) (t : Bytes)
    → is_trailing c ≡ false
    → without_trailing t ≡ t
    → without_trailing (s ++ (c ∷ t)) ≡ s ++ (c ∷ t)
unfolding without_trailing
without_trailing-append [] c t h k = ground arith
without_trailing-append (d ∷ s) c t h k = rw (without_trailing-append s c t h k, nonempty s)
  where
    nonempty : (s : Bytes) → is_empty (s ++ (c ∷ t)) ≡ false
    nonempty [] = refl
    nonempty (d ∷ s) = refl

without_trailing-newline : (s : Bytes) → without_trailing (s ++ (b'\n' ∷ [])) ≡ without_trailing s
unfolding without_trailing is_trailing
without_trailing-newline [] = refl
without_trailing-newline (c ∷ s) = rw (without_trailing-newline s)

pub trimmed-newline : (s : Bytes) → trimmed s ≡ s → trimmed (s ++ (b'\n' ∷ [])) ≡ s
trimmed-newline s h = rw (without_trailing-newline s) h

scan_close-lacks :
    (s rest : Bytes) (i : ℕ)
    → lacks b']' s ≡ true
    → scan_close (s ++ (b']' ∷ rest)) i ≡ i + length s
unfolding scan_close
scan_close-lacks [] rest i h = omega arith
scan_close-lacks (c ∷ s) rest i h = ground (arith, scan_close-lacks s rest (i + 1))

pub take-append : (s t : Bytes) (n : ℕ) → n ≡ length s → take n (s ++ t) ≡ s
take-append [] t zero h = refl
take-append [] t (suc n) h = absurd (omega arith)
take-append (c ∷ s) t zero h = absurd (omega arith)
take-append (c ∷ s) t (suc n) h = ap (◌∷◌ c) (take-append s t n (omega arith))

pub drop-append : (s t : Bytes) (c n : ℕ) → n ≡ length s + 1 → drop n (s ++ (c ∷ t)) ≡ t
drop-append [] t c zero h = absurd (omega arith)
drop-append [] t c (suc n) h = let e : n ≡ 0 = omega arith in rw e
drop-append (d ∷ s) t c zero h = absurd (omega arith)
drop-append (d ∷ s) t c (suc n) h = drop-append s t c n (omega arith)

-- A bracketed name is a section's line.
pub is_section-bracketed :
    (name : Bytes) → lacks b']' name ≡ true → is_section (b'[' ∷ (name ++ (b']' ∷ []))) ≡ some name
unfolding is_section
is_section-bracketed name h =
    ap some (take-append name (b']' ∷ []) _ (omega (arith, scan_close-lacks name [] 1 h)))

index-lacks : (s t : Bytes) (d : ℕ) → lacks d s ≡ true → index (s ++ (d ∷ t)) d ≡ some (length s)
unfolding index
index-lacks [] t d h = ground arith
index-lacks (c ∷ s) t d h = ground (arith, index-lacks s t d)

-- The text of a pair's line splits into its name and value.
pub separate-printed :
    (pair : ConfPair)
    → all is_text pair.name ≡ true
    → all is_text pair.value ≡ true
    → lacks b'=' pair.name ≡ true
    → without_trailing pair.name ≡ pair.name
    → without_leading pair.value ≡ pair.value
    → length pair.name < name_size
    → length pair.value < value_size
    → separate_key_value_pair (pair.name ++ (b'=' ∷ pair.value)) ≡ ok (some pair)
unfolding separate_key_value_pair
separate-printed pair tn tv no_eq wt wl ln lv =
    rw (index-lacks pair.name pair.value b'=' no_eq, key, value, kept_name, kept_value, fits)
  where
    key : take (length pair.name) (pair.name ++ (b'=' ∷ pair.value)) ≡ pair.name
    key = take-append pair.name (b'=' ∷ pair.value) _ refl

    value :
        take
          (length (pair.name ++ (b'=' ∷ pair.value)) - length pair.name - 1)
          (drop (length pair.name + 1) (pair.name ++ (b'=' ∷ pair.value)))
        ≡ pair.value
    value =
        rw (drop-append pair.name pair.value b'=' _ refl)
          (take_all _ pair.value (omega (arith, length-append pair.name (b'=' ∷ pair.value))))

    kept_name : c_str (rtrim (pair.name ++ (0 ∷ [])) (length pair.name)) ≡ pair.name
    kept_name = rtrim-without_trailing pair.name [] (is_c_string-is_text pair.name tn) ∙ wt

    kept_value : c_str (ltrim (pair.value ++ (0 ∷ [])) (length pair.value)) ≡ pair.value
    kept_value = ltrim-without_leading pair.value [] (is_c_string-is_text pair.value tv) ∙ wl

    fits : pair_new pair.name pair.value ≡ ok pair
    fits = ground arith

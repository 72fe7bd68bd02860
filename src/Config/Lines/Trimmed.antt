-- ===== src/Config/Lines/Trimmed.antt =====
-- trim_space_character: `ltrim` reads the buffer that `rtrim` leaves, up to its terminator.
use sqlbus.Prelude.{
  ℕ, zero, suc, ◌+◌, ◌≡◌, refl, ap, ◌∙◌, Bool, true, false, ◌||◌, [], ◌∷◌, ◌++◌, arith, ◌==◌,
  Bool-cases, inl, inr, ==_iff, length, set, Bytes, c_str, is_c_string, c_str-append,
}
use sqlbus.Trim.{rtrim_loop, rtrim, ltrim}
use sqlbus.Trim.Rtrim.{without_trailing, rtrim-without_trailing}
use sqlbus.Trim.Ltrim.{without_leading, ltrim-without_leading}
use sqlbus.Config.Lines.{trim_space_character}

-- Some byte of the buffer is 0.
is_terminated : Bytes → Bool
is_terminated [] = false
is_terminated (c ∷ b) = c == 0 || is_terminated b

is_terminated-set : (b : Bytes) (i : ℕ) → is_terminated b ≡ true → is_terminated (set b i 0) ≡ true
unfolding is_terminated
is_terminated-set [] i h = h
is_terminated-set (c ∷ b) zero h = refl
is_terminated-set (c ∷ b) (suc i) h = ground (arith, is_terminated-set b i)

is_terminated-rtrim_loop :
    (k : ℕ) (b : Bytes) → is_terminated b ≡ true → is_terminated (rtrim_loop k b) ≡ true
unfolding rtrim_loop
is_terminated-rtrim_loop zero b h = h
is_terminated-rtrim_loop (suc k) b h =
    ground (arith, is_terminated-rtrim_loop k (set b k 0), is_terminated-set b k)

is_terminated-append : (s junk : Bytes) → is_terminated (s ++ (0 ∷ junk)) ≡ true
unfolding is_terminated
is_terminated-append [] junk = refl
is_terminated-append (c ∷ s) junk = ground (arith, is_terminated-append s junk)

-- A terminated buffer is its string, a 0 and what is behind.
c_str-split : (b : Bytes) → is_terminated b ≡ true → (junk : Bytes) × (b ≡ c_str b ++ (0 ∷ junk))
unfolding is_terminated
c_str-split [] h = absurd (no h)
  where
    no : false ≡ true → ⊥
    no e = cc
c_str-split (c ∷ b) h = elim (Bool-cases (c == 0)) [
  | inl e ↦ (b, rw e (ap (λ d. d ∷ b) ((==_iff c 0).0 e)))
  | inr e ↦ let (junk, split) = c_str-split b (ground arith) in (junk, rw e (ap (◌∷◌ c) split))
]

is_c_string-c_str : (b : Bytes) → is_c_string (c_str b) ≡ true
is_c_string-c_str [] = refl
is_c_string-c_str (c ∷ b) = ground (arith, is_c_string-c_str b)

is_terminated-rtrim : (s junk : Bytes) → is_terminated (rtrim (s ++ (0 ∷ junk)) (length s)) ≡ true
unfolding rtrim
is_terminated-rtrim s junk =
    is_terminated-rtrim_loop (length s + 1) (s ++ (0 ∷ junk)) (is_terminated-append s junk)

-- The string that is left by both trims.
abbrev pub trimmed : Bytes → Bytes
trimmed s = without_leading (without_trailing s)

ltrim-c_str :
    (b : Bytes)
    → is_terminated b ≡ true
    → c_str (ltrim b (length (c_str b))) ≡ without_leading (c_str b)
ltrim-c_str b h =
    let (junk, split) = c_str-split b h in
    ap (λ b'. c_str (ltrim b' (length (c_str b)))) split
    ∙ ltrim-without_leading (c_str b) junk (is_c_string-c_str b)

-- `trim_space_character` of a buffer that holds a C string leaves the string without its trailing
-- spaces and line ends and without its leading spaces, whatever stands behind the terminator.
pub trim_space_character-trimmed :
    (s junk : Bytes)
    → is_c_string s ≡ true
    → c_str (trim_space_character (s ++ (0 ∷ junk))) ≡ trimmed s
unfolding trim_space_character
trim_space_character-trimmed s junk h = rw (c_str-append s junk h) (
    ltrim-c_str (rtrim (s ++ (0 ∷ junk)) (length s)) (is_terminated-rtrim s junk)
    ∙ ap without_leading (rtrim-without_trailing s junk h))

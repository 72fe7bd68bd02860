-- ===== src/Prelude/Text.antt =====
-- Byte strings: C strings are lists of bytes, buffers are such lists with a terminating 0.
use Prim.Native.Nat.{ℕ, ◌+◌}
use Prim.Native.Char.{code}
use Prim.Native.String.{String}
use mathlib.Core.Path.{◌≡◌, refl, ap₂}
use mathlib.Core.Logic.{inl, inr}
use mathlib.Core.List.{List, [], ◌∷◌, ◌++◌}
use mathlib.Core.Bool.{Bool, true, false, ◌&&◌}
use native.Mathlib.Omega.{arith}
use sqlbus.Prelude.Lists.{all}
use sqlbus.Prelude.Tests.{Bool-cases, ◌==◌, leb, if◌then◌else◌}

abbrev pub Bytes : Type 0
Bytes = List ℕ

-- The code points of a text: its bytes, if it is ASCII.
abbrev pub codes : String → Bytes
codes String.[] = []
codes (String.◌∷◌ c s) = code c ∷ codes s

-- What a buffer holds, up to the terminator.
abbrev pub c_str : Bytes → Bytes
c_str [] = []
c_str (c ∷ b) = if c == 0 then [] else c ∷ c_str b

-- tolower of the C locale.
unfoldable pub tolower : ℕ → ℕ
tolower c = if leb b'A' c && leb c b'Z' then c + 32 else c

-- strcasecmp(a, b) == 0
unfoldable pub strcasecmp_eq : Bytes → Bytes → Bool
unfolding tolower
strcasecmp_eq [] [] = true
strcasecmp_eq [] (d ∷ b) = false
strcasecmp_eq (c ∷ a) [] = false
strcasecmp_eq (c ∷ a) (d ∷ b) = tolower c == tolower d && strcasecmp_eq a b

-- strcmp(a, b) == 0
unfoldable pub strcmp_eq : Bytes → Bytes → Bool
strcmp_eq [] [] = true
strcmp_eq [] (d ∷ b) = false
strcmp_eq (c ∷ a) [] = false
strcmp_eq (c ∷ a) (d ∷ b) = c == d && strcmp_eq a b

-- No byte of a C string is 0.
abbrev pub is_c_string : Bytes → Bool
is_c_string = all (λ c. leb 1 c)

pub c_str-append : (s junk : Bytes) → is_c_string s ≡ true → c_str (s ++ (0 ∷ junk)) ≡ s
c_str-append [] junk h = refl
c_str-append (c ∷ s) junk h = ground (arith, c_str-append s junk)

pub strcasecmp_eq_right :
    (c a b : Bytes) → strcasecmp_eq a b ≡ true → strcasecmp_eq c a ≡ strcasecmp_eq c b
unfolding strcasecmp_eq
strcasecmp_eq_right [] [] [] h = refl
strcasecmp_eq_right [] [] (y ∷ b) h = cc
strcasecmp_eq_right [] (x ∷ a) [] h = cc
strcasecmp_eq_right [] (x ∷ a) (y ∷ b) h = refl
strcasecmp_eq_right (z ∷ c) [] [] h = refl
strcasecmp_eq_right (z ∷ c) [] (y ∷ b) h = cc
strcasecmp_eq_right (z ∷ c) (x ∷ a) [] h = cc
strcasecmp_eq_right (z ∷ c) (x ∷ a) (y ∷ b) h = ground (arith, strcasecmp_eq_right c a b)

pub strcmp_refl : (s : Bytes) → strcmp_eq s s ≡ true
unfolding strcmp_eq
strcmp_refl [] = refl
strcmp_refl (c ∷ s) = ground (arith, strcmp_refl s)

pub strcmp_sound : (a b : Bytes) → strcmp_eq a b ≡ true → a ≡ b
unfolding strcmp_eq
strcmp_sound [] [] e = refl
strcmp_sound [] (d ∷ b) e = ground arith
strcmp_sound (c ∷ a) [] e = ground arith
strcmp_sound (c ∷ a) (d ∷ b) e =
    ap₂ (λ x xs. x ∷ xs) (ground arith) (strcmp_sound a b (ground arith))

-- Different strings compare as different.
pub strcmp_differ : (a b : Bytes) → (a ≡ b → ⊥) → strcmp_eq a b ≡ false
strcmp_differ a b h = elim (Bool-cases (strcmp_eq a b)) [
  | inl e ↦ absurd (h (strcmp_sound a b e))
  | inr e ↦ e
]

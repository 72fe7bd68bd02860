-- ===== src/Trim/Rtrim.antt =====
-- `rtrim` against a definition that goes over the string once, from the left.
use sqlbus.Prelude.{
  ℕ, zero, suc, ◌≤◌, ◌<◌, ◌≡◌, refl, ap, ◌∙◌, Bool, true, ◌&&◌, [], ◌∷◌, ◌++◌, arith, inl, inr,
  if◌then◌else◌, Bool-cases, length, get_or, set, get_or-append, set-append, is_empty, Bytes, c_str,
  is_c_string,
}
use native.Mathlib.Numerals.{add-one}
use sqlbus.Trim.{is_trailing, rtrim_loop, rtrim}

-- The string without its last spaces and line ends.
unfoldable pub without_trailing : Bytes → Bytes
without_trailing [] = []
without_trailing (c ∷ s) =
    if is_empty (without_trailing s) && is_trailing c then [] else c ∷ without_trailing s

-- The first `k` bytes are all trailing ones.
all_trailing : ℕ → Bytes → Bool
all_trailing zero buf = true
all_trailing (suc k) buf = is_trailing (get_or buf k 0) && all_trailing k buf

get_or-set_lt : (j i : ℕ) (buf : Bytes) → j < i → get_or (set buf i 0) j 0 ≡ get_or buf j 0
get_or-set_lt j i [] h = refl
get_or-set_lt j zero (c ∷ buf) h = absurd (omega arith)
get_or-set_lt zero (suc i) (c ∷ buf) h = refl
get_or-set_lt (suc j) (suc i) (c ∷ buf) h = get_or-set_lt j i buf (omega arith)

all_trailing-set :
    (k i : ℕ) (buf : Bytes) → k ≤ i → all_trailing k (set buf i 0) ≡ all_trailing k buf
unfolding all_trailing
all_trailing-set zero i buf h = refl
all_trailing-set (suc k) i buf h =
    rw (get_or-set_lt k i buf h, all_trailing-set k i buf (omega arith))

all_trailing-cons :
    (k c : ℕ) (buf : Bytes) → all_trailing (suc k) (c ∷ buf) ≡ (is_trailing c && all_trailing k buf)
unfolding all_trailing
all_trailing-cons zero c buf = refl
all_trailing-cons (suc k) c buf = ground (arith, all_trailing-cons k c buf)

rtrim_loop-cons :
    (k c : ℕ) (buf : Bytes)
    → rtrim_loop (suc k) (c ∷ buf)
      ≡ (if all_trailing k buf && is_trailing c then 0 ∷ rtrim_loop k buf else c ∷ rtrim_loop k buf)
unfolding rtrim_loop all_trailing
rtrim_loop-cons zero c buf = ground arith
rtrim_loop-cons (suc k) c buf = elim (Bool-cases (is_trailing (get_or buf k 0))) [
  | inl t ↦
      rw t (rw (rtrim_loop-cons k c (set buf k 0)) (rw (all_trailing-set k k buf (omega arith))))
  | inr f ↦ rw f
]

all_trailing-append :
    (s rest : Bytes) → all_trailing (length s) (s ++ rest) ≡ is_empty (without_trailing s)
unfolding without_trailing
all_trailing-append [] rest = unfold all_trailing in refl
all_trailing-append (c ∷ s) rest =
    all_trailing-cons (length s) c (s ++ rest) ∙ ground (arith, all_trailing-append s rest)

rtrim_loop-string :
    (s junk : Bytes)
    → is_c_string s ≡ true
    → c_str (rtrim_loop (length s) (s ++ (0 ∷ junk))) ≡ without_trailing s
unfolding without_trailing
rtrim_loop-string [] junk h = unfold rtrim_loop in refl
rtrim_loop-string (c ∷ s) junk h =
    rw (rtrim_loop-cons (length s) c (s ++ (0 ∷ junk)), all_trailing-append s (0 ∷ junk))
      (ground (arith, rtrim_loop-string s junk))

-- The first round meets the terminator.
rtrim_terminator :
    (s junk : Bytes) → rtrim (s ++ (0 ∷ junk)) (length s) ≡ rtrim_loop (length s) (s ++ (0 ∷ junk))
unfolding rtrim
rtrim_terminator s junk = rw (add-one, rtrim_loop, get_or-append s junk 0 0, set-append s junk 0 0)

-- `rtrim` of a C string in a buffer, called with its length, leaves the string without its
-- trailing spaces, line feeds and carriage returns; bytes behind the terminator do not matter.
pub rtrim-without_trailing :
    (s junk : Bytes)
    → is_c_string s ≡ true
    → c_str (rtrim (s ++ (0 ∷ junk)) (length s)) ≡ without_trailing s
rtrim-without_trailing s junk h = ap c_str (rtrim_terminator s junk) ∙ rtrim_loop-string s junk h

-- ===== src/Trim/Ltrim.antt =====
-- `ltrim` against dropping the leading spaces.
use sqlbus.Prelude.{
  ℕ, zero, suc, ◌+◌, ◌≡◌, refl, sym, ap, ◌∙◌, true, false, [], ◌∷◌, ◌++◌, append_assoc, append-nil,
  arith, inl, inr, if◌then◌else◌, ◌==◌, Bool-cases, ==_iff, length, length-append, get_or, set,
  get_or-append, set-append, Bytes, c_str, is_c_string, c_str-append,
}
use sqlbus.Trim.{skip_spaces, move_left, clear_from, ltrim}

-- The string without its leading spaces, and those spaces.
unfoldable pub without_leading : Bytes → Bytes
without_leading [] = []
without_leading (c ∷ s) = if c == 0x20 then without_leading s else c ∷ s

leading : Bytes → Bytes
leading [] = []
leading (c ∷ s) = if c == 0x20 then c ∷ leading s else []

leading-append : (s : Bytes) → leading s ++ without_leading s ≡ s
unfolding leading without_leading
leading-append [] = refl
leading-append (c ∷ s) = ground (arith, leading-append s)

snoc-append : (pre : Bytes) (c : ℕ) (xs : Bytes) → pre ++ (c ∷ xs) ≡ (pre ++ (c ∷ [])) ++ xs
snoc-append pre c xs = sym (append_assoc pre (c ∷ []) xs)

length-snoc : (pre : Bytes) (c : ℕ) → length pre + 1 ≡ length (pre ++ (c ∷ []))
length-snoc pre c = omega (arith, length-append pre (c ∷ []))

skip_spaces-leading :
    (buf pre s rest : Bytes)
    → buf ≡ pre ++ (s ++ rest)
    → skip_spaces buf (length s) (length pre)
      ≡ (length (without_leading s), length (pre ++ leading s))
unfolding leading without_leading skip_spaces
skip_spaces-leading buf pre [] rest h = rw append-nil
skip_spaces-leading buf pre (c ∷ s) rest h = elim (Bool-cases (c == 0x20)) [
  | inl e ↦
      rw (first, e, length-snoc pre c)
        (rw (snoc-append pre c (leading s))
          (skip_spaces-leading buf (pre ++ (c ∷ [])) s rest (h ∙ snoc-append pre c (s ++ rest))))
  | inr e ↦ rw (first, e) (rw append-nil)
]
  where
    first : get_or buf (length pre) 0 ≡ c
    first = rw h (get_or-append pre (s ++ rest) c 0)

clear_from-cons : (n j c : ℕ) (b : Bytes) → clear_from n (suc j) (c ∷ b) ≡ c ∷ clear_from n j b
unfolding clear_from
clear_from-cons zero j c b = refl
clear_from-cons (suc n) j c b = elim (Bool-cases (get_or b j 0 == 0)) [
  | inl e ↦ rw e
  | inr e ↦ rw e (rw (suc_add-one j) (clear_from-cons n (j + 1) c (set b j 0)))
]
  where
    suc_add-one : (j : ℕ) → suc j + 1 ≡ suc (j + 1)
    suc_add-one j = omega arith

clear_from-append : (n : ℕ) (d b : Bytes) → clear_from n (length d) (d ++ b) ≡ d ++ clear_from n 0 b
clear_from-append n [] b = refl
clear_from-append n (c ∷ d) b =
    clear_from-cons n (length d) c (d ++ b) ∙ ap (◌∷◌ c) (clear_from-append n d b)

-- The first byte cleared ends the string.
-- A byte cleared behind a string ends it.
c_str-clear_from :
    (n : ℕ) (d b : Bytes) (h : ℕ)
    → is_c_string d ≡ true
    → c_str (clear_from (suc n) (length d) (d ++ (h ∷ b))) ≡ d
unfolding clear_from
c_str-clear_from n d b h s = rw (clear_from-append (suc n) d (h ∷ b)) (elim (Bool-cases (h == 0)) [
  | inl e ↦ rw e (ends h b e)
  | inr e ↦ rw (e, clear_from-cons n 0 0 b) (c_str-append d (clear_from n 0 b) s)
])
  where
    ends : (h : ℕ) (b : Bytes) → (h == 0) ≡ true → c_str (d ++ (h ∷ b)) ≡ d
    ends h b e = rw ((==_iff h 0).0 e) (c_str-append d b s)

-- The string `t` moves over the gap in front of it.
record Moved (d gap t rest : Bytes) : Type 0 where
  left : ℕ
  behind : Bytes
  moves :
      (buf : Bytes)
      → buf ≡ d ++ (gap ++ (t ++ rest))
      → move_left (length t) (length d) (length (d ++ gap)) buf
        ≡ (length (d ++ t), d ++ (t ++ (left ∷ behind)))

-- The first byte of `c ∷ t` is copied over `h`, the first of the gap.
Moved-cons :
    (d gap t rest : Bytes) (h c h' : ℕ) (gap' : Bytes)
    → (c == 0) ≡ false
    → gap ++ (c ∷ []) ≡ h' ∷ gap'
    → Moved (d ++ (c ∷ [])) (h' ∷ gap') t rest
    → Moved d (h ∷ gap) (c ∷ t) rest
unfolding move_left
Moved-cons d gap t rest h c h' gap' nonzero e m = record {
  left = m.left;
  behind = m.behind;
  moves = λ buf is.
      rw (copied buf is, nonzero, written buf is, length-snoc d c, length-snoc (d ++ (h ∷ gap)) c)
        (rw (one_longer) (m.moves _ shifted ∙ simp append_assoc));
}
  where
    copied :
        (buf : Bytes)
        → buf ≡ d ++ ((h ∷ gap) ++ ((c ∷ t) ++ rest))
        → get_or buf (length (d ++ (h ∷ gap))) 0 ≡ c
    copied buf is =
        rw (is, sym (append_assoc d (h ∷ gap) (c ∷ (t ++ rest))))
          (get_or-append (d ++ (h ∷ gap)) (t ++ rest) c 0)

    written :
        (buf : Bytes)
        → buf ≡ d ++ ((h ∷ gap) ++ ((c ∷ t) ++ rest))
        → set buf (length d) c ≡ d ++ (c ∷ (gap ++ (c ∷ (t ++ rest))))
    written buf is = rw is (set-append d (gap ++ (c ∷ (t ++ rest))) h c)

    one_longer : length ((d ++ (h ∷ gap)) ++ (c ∷ [])) ≡ length ((d ++ (c ∷ [])) ++ (h' ∷ gap'))
    one_longer = omega (arith, length-append {0}, ap length e)

    shifted :
        d ++ (c ∷ (gap ++ (c ∷ (t ++ rest)))) ≡ (d ++ (c ∷ [])) ++ ((h' ∷ gap') ++ (t ++ rest))
    shifted =
        snoc-append d c _
        ∙ ap (◌++◌ (d ++ (c ∷ []))) (snoc-append gap c (t ++ rest) ∙ ap (λ g. g ++ (t ++ rest)) e)

move_left-Moved : (d gap t rest : Bytes) (h : ℕ) → is_c_string t ≡ true → Moved d (h ∷ gap) t rest
unfolding move_left
move_left-Moved d gap [] rest h s = record {
  left = h;
  behind = gap ++ rest;
  moves = λ buf e. rw (append-nil, e);
}
move_left-Moved d [] (c ∷ t) rest h s =
    Moved-cons d [] t rest h c c [] (ground arith) refl
      (move_left-Moved (d ++ (c ∷ [])) [] t rest c (ground arith))
move_left-Moved d (g ∷ gap) (c ∷ t) rest h s =
    Moved-cons d (g ∷ gap) t rest h c g (gap ++ (c ∷ [])) (ground arith) refl
      (move_left-Moved (d ++ (c ∷ [])) (gap ++ (c ∷ [])) t rest g (ground arith))

is_c_string-without_leading :
    (s : Bytes) → is_c_string s ≡ true → is_c_string (without_leading s) ≡ true
unfolding without_leading
is_c_string-without_leading [] h = refl
is_c_string-without_leading (c ∷ s) h = ground (arith, is_c_string-without_leading s)

-- What `ltrim` does when `l` has been skipped and `t` is left.
finish :
    (s l t junk : Bytes)
    → l ++ t ≡ s
    → is_c_string t ≡ true
    → c_str (
        if length t == length s
        then s ++ (0 ∷ junk)
        else (let (end, moved) = move_left (length t) 0 (length l) (s ++ (0 ∷ junk)) in
            clear_from (length moved) end moved))
      ≡ t
finish s [] t junk e h = rw (← e, (==_iff (length t) (length t)).1 refl) (c_str-append t junk h)
finish s (x ∷ gap) t junk e h =
    rw (differs, m.moves (s ++ (0 ∷ junk)) placed, filled) (c_str-clear_from _ t m.behind m.left h)
  where
    m : Moved [] (x ∷ gap) t (0 ∷ junk)
    m = move_left-Moved [] gap t (0 ∷ junk) x h

    differs : (length t == length s) ≡ false
    differs = ground (arith, ap length e, length-append (x ∷ gap) t)

    placed : s ++ (0 ∷ junk) ≡ (x ∷ gap) ++ (t ++ (0 ∷ junk))
    placed = rw (← e) (append_assoc (x ∷ gap) t (0 ∷ junk))

    filled : length (t ++ (m.left ∷ m.behind)) ≡ suc (length t + length m.behind)
    filled = omega (arith, length-append t (m.left ∷ m.behind))

-- `ltrim` of a C string in a buffer, called with its length, leaves the string without its leading
-- spaces; bytes behind the terminator do not matter.
pub ltrim-without_leading :
    (s junk : Bytes)
    → is_c_string s ≡ true
    → c_str (ltrim (s ++ (0 ∷ junk)) (length s)) ≡ without_leading s
unfolding ltrim
ltrim-without_leading s junk h =
    rw (set-append s junk 0 0, skip_spaces-leading (s ++ (0 ∷ junk)) [] s (0 ∷ junk) refl)
      (finish s (leading s) (without_leading s) junk (leading-append s)
        (is_c_string-without_leading s h))

-- ===== src/Log/Cron.antt =====
-- log_parse_crontime: the hour is all that it reads.
use sqlbus.Prelude.{
  ℕ, ◌+◌, ◌*◌, ◌≡◌, refl, ◌∙◌, ap, true, false, Option, none, some, [], ◌∷◌, Bytes, ℤ, pos, negsuc,
  ltb, if◌then◌else◌, ◌==◌, arith, Bool-cases, ==_iff, inl, inr,
}
use sqlbus.Log.{
  atoi, index_from, below, read_time, log_parse_crontime, after_second, after_minute, after_hour,
  signed, digits_from,
}

-- The seconds of an hour, if it is one and a colon is there
unfoldable pub hour_seconds : ℤ → Option Bytes → ℕ
hour_seconds (pos h) (some p) = if ltb h 24 then h * 3600 else 0
hour_seconds (pos h) none = 0
hour_seconds (negsuc h) p = 0

-- At a colon, if anywhere: atoi reads 0 there, and index stays there.
abbrev AtColon : Option Bytes → Type 0
AtColon none = Unit {0}
AtColon (some p) = (atoi p ≡ some (pos 0)) × (index_from p b':' ≡ some p)

colon-AtColon : (c : ℕ) (s : Bytes) → c ≡ b':' → AtColon (some (c ∷ s))
unfolding index_from atoi signed digits_from
colon-AtColon c s e = rw (e) (refl, refl)

index_from-AtColon : (s : Bytes) → AtColon (index_from s b':')
unfolding index_from
index_from-AtColon [] = tt
index_from-AtColon (c ∷ s) = elim (Bool-cases (c == b':')) [
  | inl e ↦ rw (e) (colon-AtColon c s ((==_iff c b':').0 e))
  | inr e ↦ rw (e) (index_from-AtColon s)
]

-- What is read where atoi reads an int
unfoldable go_on : ℕ → Bytes → (ℕ → Bytes → Option ℕ) → Option ℕ → Option ℕ
go_on time p next none = some 0
go_on time p next (some t) = next (time * 60 + t) p

unfoldable read_int : ℕ → ℕ → Bytes → (ℕ → Bytes → Option ℕ) → Option ℤ → Option ℕ
read_int bound time p next none = none
read_int bound time p next (some z) = go_on time p next (below bound z)

read_time-int :
    (bound time : ℕ) (p : Bytes) (next : ℕ → Bytes → Option ℕ)
    → read_time bound time (some p) next ≡ read_int bound time p next (atoi p)
unfolding read_time read_int go_on
read_time-int bound time p next = go (atoi p)
  where
    inside :
        (o : Option ℕ)
        → elim o [ none ↦ some 0 | some t ↦ next (time * 60 + t) p ] ≡ go_on time p next o
    inside none = refl
    inside (some t) = refl

    go :
        (a : Option ℤ)
        → elim a [
          | none ↦ none
          | some z ↦ elim (below bound z) [ none ↦ some 0 | some t ↦ next (time * 60 + t) p ]
        ]
          ≡ read_int bound time p next a
    go none = refl
    go (some z) = inside (below bound z)

-- At a colon the number is 0.
read_time-colon :
    (h : ℕ) (p : Bytes) (next : ℕ → Bytes → Option ℕ)
    → atoi p ≡ some (pos 0)
    → read_time 59 h (some p) next ≡ next (h * 60) p
unfolding read_int go_on
read_time-colon h p next zero_there =
    read_time-int 59 h p next ∙ rw (zero_there) (ap (λ t. next t p) (add-zero (h * 60)))
  where
    add-zero : (n : ℕ) → n + 0 ≡ n
    add-zero n = omega arith

-- The minutes and the seconds, from behind the hour on
read_minutes :
    (h : ℕ) (o : Option Bytes)
    → AtColon o
    → read_time 59 h o after_minute ≡ some (elim o [ none ↦ 0 | some p ↦ h * 3600 ])
unfolding read_time
read_minutes h none at_colon = refl
read_minutes h (some p) (zero_there, stays) =
    read_time-colon h p after_minute zero_there
    ∙ ap (λ o. read_time 59 (h * 60) o after_second) stays
    ∙ read_time-colon (h * 60) p after_second zero_there
    ∙ ap some (times h)
  where
    times : (h : ℕ) → h * 60 * 60 ≡ h * 3600
    times h = omega arith

-- From the hour on, wherever index stops
read_hour :
    (s : Bytes) (a : Option ℤ)
    → read_int 24 0 s after_hour a
      ≡ elim a [ none ↦ none | some z ↦ some (hour_seconds z (index_from s b':')) ]
unfolding read_int go_on hour_seconds
read_hour s none = refl
read_hour s (some (negsuc h)) = refl
read_hour s (some (pos h)) = elim (Bool-cases (ltb h 24)) [
  | inl e ↦
      ap (go_on 0 s after_hour) (ap (λ b. if b then some h else none) e)
      ∙ read_minutes (0 * 60 + h) (index_from s b':') (index_from-AtColon s)
      ∙ ap some (below-hour (index_from s b':') e)
  | inr e ↦
      ap (go_on 0 s after_hour) (ap (λ b. if b then some h else none) e)
      ∙ ap some (above-hour (index_from s b':') e)
]
  where
    below-hour :
        (o : Option Bytes)
        → ltb h 24 ≡ true
        → elim o [ none ↦ 0 | some p ↦ (0 * 60 + h) * 3600 ] ≡ hour_seconds (pos h) o
    below-hour none e = refl
    below-hour (some p) e = rw (e) (omega arith)

    above-hour : (o : Option Bytes) → ltb h 24 ≡ false → 0 ≡ hour_seconds (pos h) o
    above-hour none e = refl
    above-hour (some p) e = rw (e) refl

-- Whatever stands behind the first colon, log_parse_crontime returns the seconds of the hour that
-- atoi reads, if there is a colon and the hour is from 0 to 23, and else 0; the result is none just
-- when atoi is given a number that is no int.
pub log_parse_crontime-hours :
    (s : Bytes)
    → log_parse_crontime (some s)
      ≡ elim (atoi s) [ none ↦ none | some z ↦ some (hour_seconds z (index_from s b':')) ]
unfolding log_parse_crontime
log_parse_crontime-hours s = read_time-int 24 0 s after_hour ∙ read_hour s (atoi s)

-- ===== src/Log/Line.antt =====
-- log_write: the line that it builds in its array of BUFFER_MAX + 1 bytes, and hands to write.
use sqlbus.Prelude.{
  ℕ, zero, suc, ◌+◌, ◌-◌, ◌≤◌, ◌≡◌, refl, ◌∙◌, sym, ap, Bool, true, false, Option, none, some, [],
  ◌∷◌, ◌++◌, append_assoc, length, take, length-append, take_all, Bytes, codes, leb, Bool-cases,
  inl, inr, if◌then◌else◌, arith,
}
use sqlbus.Log.{Level, log_err, log_warning, log_info, log_debug}

abbrev pub buffer_max : ℕ
buffer_max = 4096

-- The bytes in front of the terminator, and the variable `size`
abbrev pub Buffer : Type 0
Buffer = Bytes × ℕ

-- errmsg
abbrev pub errmsg : Level → Bytes
errmsg log_err = codes "[Error]"
errmsg log_info = codes "[Info ]"
errmsg log_warning = codes "[Warn ]"
errmsg log_debug = codes "[Debug]"

-- snprintf(buffer + size, BUFFER_MAX - size, …), which returns what it would need. Where size is
-- above BUFFER_MAX, the difference is a huge size_t, and the array is overrun: none.
unfoldable pub put : Bytes → Buffer → Option Buffer
put text (line, size) =
    if leb size buffer_max
    then some (take size line ++ take (buffer_max - 1 - size) text, size + length text)
    else none

abbrev pub and_then : Option Buffer → (Buffer → Option Buffer) → Option Buffer
and_then none f = none
and_then (some b) f = f b

-- make_iso8061_timestamp, by sprintf
unfoldable pub stamp : Bytes → Option Buffer
stamp time = if leb (length time) buffer_max then some (time, length time) else none

-- The guard behind vsnprintf
unfoldable pub clamp : Buffer → Buffer
clamp (line, size) = if leb (buffer_max - 100) size then (line, buffer_max - 100) else (line, size)

abbrev pub tag : Level → Bytes
tag level = (b' ' ∷ []) ++ errmsg level ++ (b' ' ∷ [])

-- The header: the time, the level and, with the option trace, the place in the source.
abbrev pub header : Bytes → Level → Option Bytes → Bytes
header time level none = time ++ tag level
header time level (some place) = (time ++ tag level) ++ place

abbrev pub put_place : Option Bytes → Buffer → Option Buffer
put_place none = some
put_place (some place) = put place

abbrev pub put_feed : Bool → Buffer → Option Buffer
put_feed true = put (codes "\n")
put_feed false = some

-- What log_write hands to write, from the time to the line ends
unfoldable pub log_line : Bytes → Level → Option Bytes → Bool → Bytes → Option Buffer
log_line time level place feed message =
    and_then
      (and_then
        (and_then (and_then (and_then (stamp time) (put (tag level))) (put_place place))
          (put message))
        (λ b. put (codes "\n") (clamp b)))
      (put_feed feed)

abbrev pub line_end : Bool → Bytes
line_end true = codes "\n\n"
line_end false = codes "\n"

take-append : (n : ℕ) (c t : Bytes) → take n c ++ take (n - length c) t ≡ take n (c ++ t)
take-append zero c t = rw (zero_minus (length c)) refl
  where
    zero_minus : (k : ℕ) → 0 - k ≡ 0
    zero_minus k = omega arith
take-append (suc n) [] t = rw (minus_zero (suc n)) refl
  where
    minus_zero : (k : ℕ) → k - 0 ≡ k
    minus_zero k = omega arith
take-append (suc n) (x ∷ c) t = rw (suc_minus n (length c)) (ap (◌∷◌ x) (take-append n c t))
  where
    suc_minus : (m k : ℕ) → suc m - suc k ≡ m - k
    suc_minus m k = omega arith

take-length : (n : ℕ) (c : Bytes) → take (length c) (take n c) ≡ take n c
take-length zero [] = refl
take-length zero (x ∷ c) = refl
take-length (suc n) [] = refl
take-length (suc n) (x ∷ c) = ap (◌∷◌ x) (take-length n c)

take-take : (m n : ℕ) (c : Bytes) → m ≤ n → take m (take n c) ≡ take m c
take-take zero n c h = refl
take-take (suc m) zero c h = elim h [ ]
take-take (suc m) (suc n) [] h = refl
take-take (suc m) (suc n) (x ∷ c) h = ap (◌∷◌ x) (take-take m n c (omega arith))

length-take : (n : ℕ) (c : Bytes) → length (take n c) ≤ n
length-take zero c = omega arith
length-take (suc n) [] = omega arith
length-take (suc n) (x ∷ c) = omega (arith, length-take n c)

-- The array once `content` has been written
abbrev filled : Bytes → Buffer
filled content = (take 4095 content, length content)

put-filled :
    (c t : Bytes) → leb (length c) buffer_max ≡ true → put t (filled c) ≡ some (filled (c ++ t))
unfolding put
put-filled c t h = rw (h, take-length 4095 c, take-append 4095 c t, length-append c t) refl

length-take_exact : (n : ℕ) (c : Bytes) → n ≤ length c → length (take n c) ≡ n
length-take_exact zero c h = refl
length-take_exact (suc n) [] h = omega arith
length-take_exact (suc n) (x ∷ c) h = ap suc (length-take_exact n c (omega arith))

-- Where `size` is the length of what stands in front of it, and there is room.
put-prefix :
    (line l t : Bytes) (k : ℕ)
    → take k line ≡ l
    → k ≡ length l
    → length l + length t ≤ 4095
    → put t (line, k) ≡ some (l ++ t, length (l ++ t))
unfolding put
put-prefix line l t k front size room =
    rw (fits, front, take_all (4095 - k) t (omega arith), length-append l t, size) refl
  where
    fits : leb k buffer_max ≡ true
    fits = ground arith

-- What the guard leaves: the first 3996 bytes
clamp-filled :
    (c : Bytes)
    → (k : ℕ) × (clamp (filled c) ≡ (take 4095 c, k))
      × (take k (take 4095 c) ≡ take 3996 c)
      × (k ≡ length (take 3996 c))
unfolding clamp
clamp-filled c = elim (Bool-cases (leb 3996 (length c))) [
  | inl e ↦ (
    3996,
    rw (e) refl,
    take-take 3996 4095 c (omega arith),
    sym (length-take_exact 3996 c (le_of e)),
  )
  | inr e ↦ (
    length c,
    rw (e) refl,
    take-length 4095 c ∙ take_all 4095 c (omega (arith, lt_of e)) ∙ sym (take_all 3996 c (lt_of e)),
    ap length (sym (take_all 3996 c (lt_of e))),
  )
]
  where
    le_of : leb 3996 (length c) ≡ true → 3996 ≤ length c
    le_of e = ground arith

    lt_of : leb 3996 (length c) ≡ false → length c ≤ 3996
    lt_of e = ground arith

put-clamp :
    (c : Bytes)
    → put (codes "\n") (clamp (filled c))
      ≡ some (take 3996 c ++ codes "\n", length (take 3996 c ++ codes "\n"))
put-clamp c =
    let (k, e, front, size) = clamp-filled c in
    ap (put (codes "\n")) e
    ∙ put-prefix (take 4095 c) (take 3996 c) (codes "\n") k front size
        (omega (arith, length-take 3996 c))

put_feed-line :
    (l : Bytes) (feed : Bool)
    → length l ≤ 3996
    → put_feed feed (l ++ codes "\n", length (l ++ codes "\n"))
      ≡ some (l ++ line_end feed, length (l ++ line_end feed))
put_feed-line l false h = refl
put_feed-line l true h =
    put-prefix (l ++ codes "\n") (l ++ codes "\n") (codes "\n") (length (l ++ codes "\n"))
      (take_all (length (l ++ codes "\n")) (l ++ codes "\n") (omega arith)) refl
      (omega (arith, length-append l (codes "\n")))
    ∙ ap (λ x. some (x, length x)) (append_assoc l (codes "\n") (codes "\n"))

le_leb : (m : ℕ) → m ≤ buffer_max → leb m buffer_max ≡ true
le_leb m h = ground arith

length-tag : (level : Level) → length (tag level) ≡ 9
length-tag log_err = refl
length-tag log_warning = refl
length-tag log_info = refl
length-tag log_debug = refl

tagged :
    (time : Bytes) (level : Level)
    → length (time ++ tag level) ≤ buffer_max
    → and_then (stamp time) (put (tag level)) ≡ some (filled (time ++ tag level))
unfolding stamp
tagged time level room = rw (le_leb (length time) (omega (arith, small))) (
    ap (λ x. put (tag level) (x, length time)) (sym (take_all 4095 time (omega (arith, small))))
    ∙ put-filled time (tag level) (le_leb (length time) (omega (arith, small))))
  where
    small : length time + 9 ≤ buffer_max
    small = omega (arith, length-append time (tag level), length-tag level)

header-filled :
    (time : Bytes) (level : Level) (place : Option Bytes)
    → length (header time level place) ≤ buffer_max
    → and_then (and_then (stamp time) (put (tag level))) (put_place place)
      ≡ some (filled (header time level place))
header-filled time level none room = ap (λ o. and_then o some) (tagged time level room)
header-filled time level (some place) room =
    ap (λ o. and_then o (put place)) (tagged time level small)
    ∙ put-filled (time ++ tag level) place (le_leb (length (time ++ tag level)) small)
  where
    small : length (time ++ tag level) ≤ buffer_max
    small = omega (arith, length-append (time ++ tag level) place)

-- If the header has at most BUFFER_MAX bytes, log_write stays within its array, whatever the message
-- is: the line is the first 3996 bytes of the header and the message, and the line ends behind them,
-- and `size` is its length.
pub log_line-cut :
    (time : Bytes) (level : Level) (place : Option Bytes) (feed : Bool) (message : Bytes)
    → length (header time level place) ≤ buffer_max
    → log_line time level place feed message ≡ (
        let line = take 3996 (header time level place ++ message) ++ line_end feed in
        some (line, length line))
unfolding log_line
log_line-cut time level place feed message room =
    ap
      (λ o.
        and_then (and_then (and_then o (put message)) (λ b. put (codes "\n") (clamp b)))
          (put_feed feed))
      (header-filled time level place room)
    ∙ ap (λ o. and_then (and_then o (λ b. put (codes "\n") (clamp b))) (put_feed feed))
        (put-filled (header time level place) message
          (le_leb (length (header time level place)) room))
    ∙ ap (λ o. and_then o (put_feed feed)) (put-clamp (header time level place ++ message))
    ∙ put_feed-line (take 3996 (header time level place ++ message)) feed
        (length-take 3996 (header time level place ++ message))

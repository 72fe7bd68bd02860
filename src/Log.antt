-- ===== src/Log.antt =====
-- src/log.c: the parsers of the settings of the log. Where an int overflows, or atoi is given a
-- number that is no int, C leaves the behaviour undefined, and the result is none.
pub mod Size
pub mod Cron
pub mod Line
pub mod Write
pub mod Decimal
pub mod Files
pub mod Rotation
use sqlbus.Prelude.{
  ℕ, zero, suc, ◌+◌, ◌-◌, ◌*◌, Bool, true, false, Option, none, some, List, [], ◌∷◌, Bytes, codes,
  ℤ, pos, negsuc, ◌==◌, ltb, leb, if◌then◌else◌, ◌&&◌, ◌||◌, strcasecmp_eq,
}

abbrev pub int_max : ℕ
int_max = 2147483647

abbrev pub is_digit : ℕ → Bool
is_digit c = leb b'0' c && leb c b'9'

-- defaultMaxSize
abbrev pub default_max_size : ℕ
default_max_size = 20971520

-- An int that is not negative
abbrev pub as_int : ℕ → Option ℕ
as_int n = if leb n int_max then some n else none

-- What a letter makes of the number before it; alp_to_lower sets the bit 0x20.
unfoldable pub scaled : ℕ → ℕ → Option ℕ
scaled msize c =
    if c == b'g' || c == b'G'
    then as_int (msize * 1073741824)
    else if c == b'm' || c == b'M'
    then as_int (msize * 1048576)
    else if c == b'k' || c == b'K'
    then as_int (msize * 1024)
    else if c == b'b' || c == b'B'
    then some msize
    else some default_max_size

-- The loop of log_parse_maxsize: `msize * 10`, then the digit added, then 0x30 subtracted.
unfoldable pub scan_size : ℕ → Bytes → Option ℕ
scan_size msize [] = some msize
scan_size msize (c ∷ s) =
    let rest = scan_size (msize * 10 + c - b'0') s in
    if is_digit c then (if leb (msize * 10 + c) int_max then rest else none) else scaled msize c

-- log_parse_maxsize
unfoldable pub log_parse_maxsize : Option Bytes → Option ℕ
log_parse_maxsize none = some default_max_size
log_parse_maxsize (some maxsize) = scan_size 0 maxsize

-- atoi: spaces, a sign, and digits
abbrev pub is_space : ℕ → Bool
is_space c = c == b' ' || leb 9 c && leb c 13

unfoldable pub digits_from : ℕ → Bytes → ℕ
digits_from n [] = n
digits_from n (c ∷ s) =
    let rest = digits_from (n * 10 + (c - b'0')) s in if is_digit c then rest else n

abbrev pub negative : ℕ → ℤ
negative zero = pos zero
negative (suc n) = negsuc n

unfoldable pub signed : Bytes → Option ℤ
unfolding digits_from
signed [] = some (pos 0)
signed (c ∷ s) =
    if c == b'-'
    then (if leb (digits_from 0 s) (int_max + 1) then some (negative (digits_from 0 s)) else none)
    else (let n = if c == b'+' then digits_from 0 s else digits_from 0 (c ∷ s) in
        if leb n int_max then some (pos n) else none)

unfoldable pub atoi : Bytes → Option ℤ
atoi [] = some (pos 0)
atoi (c ∷ s) = let rest = atoi s in if is_space c then rest else signed (c ∷ s)

-- index(s, c), as the string from there on
unfoldable pub index_from : Bytes → ℕ → Option Bytes
index_from [] c = none
index_from (d ∷ s) c = let rest = index_from s c in if d == c then some (d ∷ s) else rest

abbrev pub below : ℕ → ℤ → Option ℕ
below bound (pos n) = if ltb n bound then some n else none
below bound (negsuc n) = none

-- One of the three numbers: the pointer, the number below its bound, or `goto fatal`.
unfoldable pub read_time : ℕ → ℕ → Option Bytes → (ℕ → Bytes → Option ℕ) → Option ℕ
read_time bound crontime none next = some 0
read_time bound crontime (some ptr) next = elim (atoi ptr) [
  | none ↦ none
  | some tmptime ↦ elim (below bound tmptime) [
    | none ↦ some 0
    | some t ↦ next (crontime * 60 + t) ptr
  ]
]

-- What follows each number
abbrev pub after_second : ℕ → Bytes → Option ℕ
after_second crontime ptr = some crontime

abbrev pub after_minute : ℕ → Bytes → Option ℕ
after_minute crontime ptr = read_time 59 crontime (index_from ptr b':') after_second

abbrev pub after_hour : ℕ → Bytes → Option ℕ
after_hour crontime ptr = read_time 59 crontime (index_from ptr b':') after_minute

-- log_parse_crontime
unfoldable pub log_parse_crontime : Option Bytes → Option ℕ
log_parse_crontime none = some 0
log_parse_crontime (some cron) = read_time 24 0 (some cron) after_hour

-- enum log_level
pub data Level : Type 0 where
  log_err log_warning log_info log_debug : Level

-- log_level_string_to_type
unfoldable pub log_level_string_to_type : Option Bytes → Level
log_level_string_to_type none = log_warning
log_level_string_to_type (some s) =
    if strcasecmp_eq s (codes "DEBUG")
    then log_debug
    else if strcasecmp_eq s (codes "WARN")
    then log_warning
    else if strcasecmp_eq s (codes "WARNING")
    then log_warning
    else if strcasecmp_eq s (codes "ERROR")
    then log_err
    else if strcasecmp_eq s (codes "INFO")
    then log_info
    else log_warning

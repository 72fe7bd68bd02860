-- ===== src/Trim.antt =====
-- rtrim and ltrim of src/util.c, which work in place. A buffer is the list of its bytes, and a
-- pointer into it is an offset. Both loops run down a counter of the source: `end - str + 1` in
-- `rtrim`, `size` in `ltrim`.
pub mod Rtrim
pub mod Ltrim
use sqlbus.Prelude.{
  ℕ, zero, suc, ◌+◌, Bool, not, ◌||◌, List, [], ◌∷◌, ◌==◌, if◌then◌else◌, length, get_or, set,
  Bytes,
}

-- *end==0x20 || *end==0x0 || *end==0x0a || *end==0x0d
unfoldable pub is_trailing : ℕ → Bool
is_trailing c = c == 0x20 || c == 0 || c == 0x0a || c == 0x0d

-- while(end>=str && is_trailing(*end)) *end-- = 0; the counter is `end - str + 1`.
unfoldable pub rtrim_loop : ℕ → Bytes → Bytes
unfolding is_trailing
rtrim_loop zero buf = buf
rtrim_loop (suc e) buf =
    let next = rtrim_loop e (set buf e 0) in if is_trailing (get_or buf e 0) then next else buf

unfoldable pub rtrim : Bytes → ℕ → Bytes
unfolding rtrim_loop
rtrim str len = rtrim_loop (len + 1) str

-- while(size && *start==0x20) size--,start++; the result is (size, start).
unfoldable pub skip_spaces : Bytes → ℕ → ℕ → ℕ × ℕ
skip_spaces buf zero start = (0, start)
skip_spaces buf (suc n) start =
    let next = skip_spaces buf n (start + 1) in
    if get_or buf start 0 == 0x20 then next else (suc n, start)

-- while(size-- && *start) *str++ = *start++; the result is (str, buffer).
unfoldable pub move_left : ℕ → ℕ → ℕ → Bytes → ℕ × Bytes
move_left zero str start buf = (str, buf)
move_left (suc n) str start buf =
    let next = move_left n (str + 1) (start + 1) (set buf str (get_or buf start 0)) in
    if not (get_or buf start 0 == 0) then next else (str, buf)

-- while(*str) *str++ = 0; one round for each byte of the buffer behind `str`, and outside it reads
-- a terminator.
unfoldable pub clear_from : ℕ → ℕ → Bytes → Bytes
clear_from zero str buf = buf
clear_from (suc n) str buf =
    let next = clear_from n (str + 1) (set buf str 0) in
    if not (get_or buf str 0 == 0) then next else buf

unfoldable pub ltrim : Bytes → ℕ → Bytes
unfolding skip_spaces move_left clear_from
ltrim str len =
    let buf = set str len 0 in
    let (size, start) = skip_spaces buf len 0 in
    if size == len
    then buf
    else (let (end, moved) = move_left size 0 start buf in clear_from (length moved) end moved)

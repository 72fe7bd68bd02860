-- ===== src/Config/Lines.antt =====
-- The functions of src/config_loader.c that look at one line.
pub mod Trimmed
pub mod Printed
use sqlbus.Prelude.{
  ℕ, zero, suc, ◌+◌, ◌-◌, Bool, true, false, ◌&&◌, ◌||◌, Option, none, some, List, [], ◌∷◌, ◌++◌,
  ◌==◌, ltb, if◌then◌else◌, length, take, drop, Bytes, c_str,
}
use sqlbus.Trim.{rtrim, ltrim}
use sqlbus.Config.{ConfPair, ConfSection, name_size, value_size, Run, ok, overflow, ◌>>=◌}

-- fgets with room for `n` bytes: the line with its line feed, and the rest of the file.
unfoldable pub get_line : ℕ → Bytes → Bytes × Bytes
get_line zero file = ([], file)
get_line (suc n) [] = ([], [])
get_line (suc n) (c ∷ file) =
    if c == b'\n' then (c ∷ [], file) else (let (l, rest) = get_line n file in (c ∷ l, rest))

-- read_one_line into an array of `size` bytes: the string that the array then holds, whose length
-- is what the function returns, and the rest of the file.
unfoldable pub read_one_line : ℕ → Bytes → Bytes × Bytes
unfolding get_line
read_one_line size file = let (l, rest) = get_line (size - 1) file in (c_str (l ++ (0 ∷ [])), rest)

-- trim_space_character, on a buffer
unfoldable pub trim_space_character : Bytes → Bytes
trim_space_character buf =
    let trimmed = rtrim buf (length (c_str buf)) in ltrim trimmed (length (c_str trimmed))

unfoldable pub is_blank_line : Bytes → Bool
is_blank_line [] = true
is_blank_line (c ∷ s) = false

-- DEFAULT_ANNOTATOR is ";#".
unfoldable pub is_comment_line : Bytes → Bool
is_comment_line [] = false
is_comment_line (c ∷ s) = c == b';' || c == b'#'

-- while(++start != end && *start != ']'), from an offset behind the '['
unfoldable pub scan_close : Bytes → ℕ → ℕ
scan_close [] start = start
scan_close (c ∷ s) start = if c == b']' then start else scan_close s (start + 1)

-- is_section: the name that it copies, `start - string - 1` bytes, if the line is a section's.
unfoldable pub is_section : Bytes → Option Bytes
unfolding scan_close
is_section [] = none
is_section (c ∷ s) = if c == b'[' then some (take (scan_close s 1 - 1) s) else none

-- index(string, c), as an offset
unfoldable pub index : Bytes → ℕ → Option ℕ
index [] c = none
index (d ∷ s) c =
    if d == c then some 0 else elim (index s c) [ none ↦ none | some i ↦ some (i + 1) ]

unfoldable pub pair_new : Bytes → Bytes → Run ConfPair
pair_new name value =
    if ltb (length name) name_size && ltb (length value) value_size
    then ok (record { name = name; value = value })
    else overflow

unfoldable pub section_new : Bytes → Run ConfSection
section_new name =
    if ltb (length name) name_size then ok (record { name = name; pair = [] }) else overflow

-- separate_key_value_pair; `none` is RETURN_FAILURE.
unfoldable pub separate_at : Bytes → Option ℕ → Run (Option ConfPair)
unfolding pair_new
separate_at string none = ok none
separate_at string (some ptr) =
    let key = take ptr string in
    let value = take (length string - ptr - 1) (drop (ptr + 1) string) in
    let key' = c_str (rtrim (key ++ (0 ∷ [])) (length key)) in
    let value' = c_str (ltrim (value ++ (0 ∷ [])) (length value)) in
    (do pair ← pair_new key' value'; ok (some pair))

unfoldable pub separate_key_value_pair : Bytes → Run (Option ConfPair)
unfolding separate_at index
separate_key_value_pair string = separate_at string (index string b'=')

-- ===== src/Config/Parse/Total.antt =====
-- parse_conf_file ends on every file, and where it writes past an array.
use native.Mathlib.Numerals.{add-one}
use sqlbus.Prelude.{
  ℕ, zero, suc, ◌+◌, ◌-◌, ◌≤◌, ◌<◌, ◌≡◌, ◌≢◌, refl, true, false, Option, none, some, [], ◌∷◌, ◌++◌,
  arith, Bool-cases, inl, inr, length, length-append, all, is_empty, Bytes, c_str,
}
use sqlbus.Config.{line_size, name_size, Run, ok, overflow, out_of_fuel, ◌>>=◌}
use sqlbus.Config.Lines.{
  get_line, read_one_line, trim_space_character, index, section_new, separate_at,
  separate_key_value_pair,
}
use sqlbus.Config.Lines.Printed.{is_text, all-append, lacks, is_section-bracketed}
use sqlbus.Config.Parse.Steps.{section_line, trimmed-section_line, parse_lines-text}
use sqlbus.Config.Parse.{Progress, start, parse_line, parse_lines, parse_conf_file}

length-get_line :
    (n : ℕ) (file : Bytes) → length (get_line n file).0 + length (get_line n file).1 ≡ length file
unfolding get_line
length-get_line zero file = omega arith
length-get_line (suc n) [] = omega arith
length-get_line (suc n) (c ∷ file) = ground (arith, length-get_line n file)

length-c_str-le : (s : Bytes) → length (c_str (s ++ (0 ∷ []))) ≤ length s
length-c_str-le [] = omega arith
length-c_str-le (c ∷ s) = ground (arith, length-c_str-le s)

-- A round that reads anything leaves less of the file.
length-read_one_line :
    (n : ℕ) (file : Bytes)
    → is_empty (read_one_line n file).0 ≡ false
    → length (read_one_line n file).1 < length file
unfolding read_one_line
length-read_one_line n file h = omega (
  arith,
  length-get_line (n - 1) file,
  length-c_str-le (get_line (n - 1) file).0,
  positive (c_str ((get_line (n - 1) file).0 ++ (0 ∷ []))) h,
)
  where
    positive : (s : Bytes) → is_empty s ≡ false → 0 < length s
    positive [] e = cc
    positive (c ∷ s) e = omega arith

abbrev pub Ends {ℓ} : {A : Type ℓ} → Run A → Type ℓ
Ends r = r ≢ out_of_fuel

separate_at-Ends : (line : Bytes) (i : Option ℕ) → Ends (separate_at line i)
unfolding separate_at
separate_at-Ends line none h = cc
separate_at-Ends line (some i) h = ground arith

parse_line-Ends : (p : Progress) (line : Bytes) → Ends (parse_line p line)
unfolding parse_line section_new separate_key_value_pair
parse_line-Ends p line h = ground (arith, separate_at-Ends line (index line b'='))

parse_lines-Ends :
    (fuel : ℕ) (file : Bytes) (p : Progress) → length file < fuel → Ends (parse_lines fuel file p)
unfolding parse_lines
parse_lines-Ends zero file p h e = elim h [ ]
parse_lines-Ends (suc fuel) file p h e =
    elim (Bool-cases (is_empty (read_one_line line_size file).0)) [
      | inl last ↦ let e' : ok p ≡ out_of_fuel = rw last at e in cc
      | inr more ↦
          let shorter = length-read_one_line line_size file more in
          round
            (parse_line p
              (c_str (trim_space_character ((read_one_line line_size file).0 ++ (0 ∷ [])))))
            (parse_line-Ends p _)
            (λ q. parse_lines-Ends fuel (read_one_line line_size file).1 q (omega arith))
            (rw more at e)
    ]
  where
    round :
        (r : Run Progress)
        → Ends r
        → ((q : Progress) → Ends (parse_lines fuel (read_one_line line_size file).1 q))
        → (r >>= λ q. parse_lines fuel (read_one_line line_size file).1 q) ≡ out_of_fuel
        → ⊥
    round (ok q) here later e = later q e
    round overflow here later e = cc
    round out_of_fuel here later e = here refl

-- `parse_conf_file` ends on every file: its loop makes at most one round more than the file has
-- bytes. The result is a configuration, or a write past one of its arrays.
pub parse_conf_file-Ends : (file : Bytes) → Ends (parse_conf_file file)
unfolding parse_conf_file
parse_conf_file-Ends file e =
    done (parse_lines (length file + 1) file start) (parse_lines-Ends _ file start (omega arith)) e
  where
    done : (r : Run Progress) → Ends r → (r >>= λ p. ok p.conf) ≡ out_of_fuel → ⊥
    done (ok q) h e = cc
    done overflow h e = cc
    done out_of_fuel h e = h refl

-- Of a file whose first line is a section line with a name of 64 to 508 bytes of text, none of them
-- a ']': the name is written past the array `name[64]`, whatever the rest of the file holds.
pub parse_conf_file-long_section :
    (name rest : Bytes)
    → all is_text name ≡ true
    → lacks b']' name ≡ true
    → name_size ≤ length name
    → length name < 509
    → parse_conf_file (section_line name ++ (b'\n' ∷ rest)) ≡ overflow
unfolding parse_conf_file
parse_conf_file-long_section name rest text closes long short = rw (
  add-one,
  parse_lines-text _ (section_line name) rest start all_text fits (trimmed-section_line name),
  overruns,
)
  where
    all_text : all is_text (section_line name) ≡ true
    all_text = all-append is_text name (b']' ∷ []) text refl

    fits : length (section_line name) < 511
    fits = omega (arith, length-append name (b']' ∷ []))

    overruns : parse_line start (section_line name) ≡ overflow
    overruns = unfold parse_line section_new in rw (is_section-bracketed name closes) (ground arith)

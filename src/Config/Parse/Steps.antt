-- ===== src/Config/Parse/Steps.antt =====
-- One round of the loop of parse_conf_file.
use sqlbus.Prelude.{
  ℕ, suc, ◌+◌, ◌<◌, ◌≡◌, refl, ap, ◌∙◌, leb, Bool, true, false, not, ◌||◌, some, [], ◌∷◌, ◌++◌,
  arith, ◌==◌, length, all, is_empty, Bytes, c_str,
}
use sqlbus.Trim.{is_trailing}
use sqlbus.Trim.Rtrim.{without_trailing}
use sqlbus.Trim.Ltrim.{without_leading}
use sqlbus.Config.{ConfPair, ConfSection, Config, line_size, name_size, ok, ◌>>=◌}
use sqlbus.Config.Lines.{trim_space_character, is_section, section_new, separate_key_value_pair}
use sqlbus.Config.Lines.Trimmed.{trimmed, trim_space_character-trimmed}
use sqlbus.Config.Lines.Printed.{
  is_text, all-append, is_c_string-is_text, lacks, read_one_line-text, trimmed-newline,
  without_trailing-append, is_section-bracketed,
}
use sqlbus.Config.Parse.{
  append_section_to_config, append_pair_to_section, append_to_current, Progress, parse_line,
  parse_lines,
}

-- A line of text that has nothing to trim is handed to `parse_line` as it is.
pub parse_lines-text :
    (fuel : ℕ) (s rest : Bytes) (p : Progress)
    → all is_text s ≡ true
    → length s < 511
    → trimmed s ≡ s
    → parse_lines (suc fuel) (s ++ (b'\n' ∷ rest)) p ≡ (parse_line p s >>= parse_lines fuel rest)
unfolding parse_lines
parse_lines-text fuel s rest p text short kept =
    rw (read_one_line-text line_size s rest text short, trims, nonempty s)
  where
    trims : c_str (trim_space_character ((s ++ (b'\n' ∷ [])) ++ (0 ∷ []))) ≡ s
    trims =
        trim_space_character-trimmed (s ++ (b'\n' ∷ [])) []
          (all-append (λ c. leb 1 c) s (b'\n' ∷ []) (is_c_string-is_text s text) refl)
        ∙ trimmed-newline s kept

    nonempty : (s : Bytes) → is_empty (s ++ (b'\n' ∷ [])) ≡ false
    nonempty [] = refl
    nonempty (c ∷ s) = refl

pub append_section-snoc :
    (conf : Config) (s : ConfSection) → append_section_to_config conf s ≡ conf ++ (s ∷ [])
unfolding append_section_to_config
append_section-snoc [] s = refl
append_section-snoc (t ∷ conf) s = ap (◌∷◌ t) (append_section-snoc conf s)

pub append_to_current-snoc :
    (conf : Config) (s : ConfSection) (p : ConfPair)
    → append_to_current (conf ++ (s ∷ [])) p ≡ conf ++ (append_pair_to_section s p ∷ [])
unfolding append_to_current
append_to_current-snoc [] s p = refl
append_to_current-snoc (t ∷ []) s p = refl
append_to_current-snoc (t ∷ u ∷ conf) s p = ap (◌∷◌ t) (append_to_current-snoc (u ∷ conf) s p)

abbrev pub section_line : Bytes → Bytes
section_line name = b'[' ∷ (name ++ (b']' ∷ []))

pub trimmed-section_line : (name : Bytes) → trimmed (section_line name) ≡ section_line name
trimmed-section_line name =
    ap without_leading (
      without_trailing-append (b'[' ∷ name) b']' [] (unfold is_trailing in refl)
        (unfold without_trailing in refl))
    ∙ (unfold without_leading in refl)

-- A section's line opens a new section.
pub parse_line-section :
    (p : Progress) (name : Bytes)
    → lacks b']' name ≡ true
    → length name < name_size
    → parse_line p (section_line name)
      ≡ ok (record {
        has_section = p.has_section + 1;
        conf = p.conf ++ (record { name = name; pair = [] } ∷ []);
      })
unfolding parse_line section_new
parse_line-section p name h short = rw (is_section-bracketed name h, fits) (rw append_section-snoc)
  where
    fits : section_new name ≡ ok (record { name = name; pair = [] })
    fits = ground arith

-- The first byte of a key opens no comment and no section.
abbrev pub opens_pair : Bytes → Bool
opens_pair [] = false
opens_pair (c ∷ s) = not (c == b';' || c == b'#' || c == b'[' || c == b' ')

-- A pair's line behind a section adds the pair to that section.
pub parse_line-pair :
    (n : ℕ) (done : Config) (s : ConfSection) (pair : ConfPair) (line : Bytes)
    → opens_pair line ≡ true
    → separate_key_value_pair line ≡ ok (some pair)
    → parse_line (record { has_section = suc n; conf = done ++ (s ∷ []) }) line
      ≡ ok (record { has_section = suc n; conf = done ++ (append_pair_to_section s pair ∷ []) })
unfolding parse_line is_section
parse_line-pair n done s pair [] opens e = cc
parse_line-pair n done s pair (c ∷ line) opens e =
    ground (arith, e, append_to_current-snoc done s pair)

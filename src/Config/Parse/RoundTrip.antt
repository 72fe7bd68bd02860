-- ===== src/Config/Parse/RoundTrip.antt =====
-- A printer for configurations, and that parse_conf_file reads back what it prints. The program
-- itself only reads: the printer is the format of sqlbus.ini, a line for each section and pair.
use native.Mathlib.Nat.{add-zero}
use native.Mathlib.Numerals.{add-one}
use sqlbus.Prelude.{
  ℕ, suc, ◌+◌, ◌-◌, ◌≤◌, ◌<◌, ◌≡◌, refl, ap, ◌∙◌, true, some, List, [], ◌∷◌, ◌++◌, arith,
  append_assoc, append-nil, length, length-append, all, Bytes,
}
use sqlbus.Trim.{is_trailing}
use sqlbus.Trim.Rtrim.{without_trailing}
use sqlbus.Trim.Ltrim.{without_leading}
use sqlbus.Config.{ConfPair, ConfSection, Config, name_size, value_size, ok}
use sqlbus.Config.Lines.{read_one_line, separate_key_value_pair}
use sqlbus.Config.Lines.Trimmed.{trimmed}
use sqlbus.Config.Lines.Printed.{
  is_text, all-append, lacks, without_trailing-append, separate-printed,
}
use sqlbus.Config.Parse.{append_pair_to_section, Progress, parse_lines, parse_conf_file}
use sqlbus.Config.Parse.Steps.{
  parse_lines-text, opens_pair, section_line, trimmed-section_line, parse_line-section,
  parse_line-pair,
}

abbrev pair_line : ConfPair → Bytes
pair_line p = p.name ++ (b'=' ∷ p.value)

-- The text of pairs and of sections, in front of `rest`.
unfoldable pub print_pairs : List ConfPair → Bytes → Bytes
print_pairs [] rest = rest
print_pairs (p ∷ pairs) rest = pair_line p ++ (b'\n' ∷ print_pairs pairs rest)

unfoldable pub print_config : Config → Bytes
unfolding print_pairs
print_config [] = []
print_config (s ∷ conf) = section_line s.name ++ (b'\n' ∷ print_pairs s.pair (print_config conf))

-- A pair that the format can hold: within the arrays, with nothing to trim, on one line, and with
-- a name that opens neither a comment nor a section and has no separator.
pub record IsPairText (p : ConfPair) : Type 0 where
  pub name_text : all is_text p.name ≡ true
  pub value_text : all is_text p.value ≡ true
  pub opens : opens_pair p.name ≡ true
  pub separates : lacks b'=' p.name ≡ true
  pub name_kept : without_trailing p.name ≡ p.name
  pub value_kept_left : without_leading p.value ≡ p.value
  pub value_kept_right : without_trailing p.value ≡ p.value
  pub name_fits : length p.name < name_size
  pub value_fits : length p.value < value_size

abbrev pub ArePairTexts : List ConfPair → Type 0
ArePairTexts [] = Unit
ArePairTexts (p ∷ pairs) = IsPairText p × ArePairTexts pairs

pub record IsSectionText (s : ConfSection) : Type 0 where
  pub name_text : all is_text s.name ≡ true
  pub closes : lacks b']' s.name ≡ true
  pub name_fits : length s.name < name_size
  pub pairs : ArePairTexts s.pair

abbrev pub IsConfigText : Config → Type 0
IsConfigText [] = Unit
IsConfigText (s ∷ conf) = IsSectionText s × IsConfigText conf

opens_pair-append : (s t : Bytes) → opens_pair s ≡ true → opens_pair (s ++ t) ≡ true
opens_pair-append [] t h = cc
opens_pair-append (c ∷ s) t h = h

without_leading-opens : (s : Bytes) → opens_pair s ≡ true → without_leading s ≡ s
unfolding without_leading
without_leading-opens [] h = refl
without_leading-opens (c ∷ s) h = ground arith

module _ (fuel : ℕ) (rest : Bytes) (n : ℕ) (done : Config) where
  parse_lines-pair :
      (s : ConfSection) (pair : ConfPair)
      → IsPairText pair
      → parse_lines
          (suc fuel)
          (pair_line pair ++ (b'\n' ∷ rest))
          (record { has_section = suc n; conf = done ++ (s ∷ []) })
        ≡ parse_lines fuel rest
            (record { has_section = suc n; conf = done ++ (append_pair_to_section s pair ∷ []) })
  parse_lines-pair s pair t =
      parse_lines-text fuel (pair_line pair) rest _ text short kept
      ∙ rw (parse_line-pair n done s pair (pair_line pair) opens separates)
    where
      text : all is_text (pair_line pair) ≡ true
      text = all-append is_text pair.name (b'=' ∷ pair.value) t.name_text t.value_text

      short : length (pair_line pair) < 511
      short = omega (arith, t.name_fits, t.value_fits, length-append pair.name (b'=' ∷ pair.value))

      opens : opens_pair (pair_line pair) ≡ true
      opens = opens_pair-append pair.name (b'=' ∷ pair.value) t.opens

      kept : trimmed (pair_line pair) ≡ pair_line pair
      kept =
          ap without_leading (
            without_trailing-append pair.name b'=' pair.value (unfold is_trailing in refl)
              t.value_kept_right)
          ∙ without_leading-opens (pair_line pair) opens

      separates : separate_key_value_pair (pair_line pair) ≡ ok (some pair)
      separates =
          separate-printed pair t.name_text t.value_text t.separates t.name_kept t.value_kept_left
            t.name_fits t.value_fits

  parse_lines-section :
      (s : ConfSection)
      → IsSectionText s
      → parse_lines
          (suc fuel)
          (section_line s.name ++ (b'\n' ∷ rest))
          (record { has_section = n; conf = done })
        ≡ parse_lines fuel rest (record {
          has_section = n + 1;
          conf = done ++ (record { name = s.name; pair = [] } ∷ []);
        })
  parse_lines-section s t =
      parse_lines-text fuel (section_line s.name) rest _ text short (trimmed-section_line s.name)
      ∙ rw (parse_line-section _ s.name t.closes t.name_fits)
    where
      text : all is_text (section_line s.name) ≡ true
      text = all-append is_text s.name (b']' ∷ []) t.name_text refl

      short : length (section_line s.name) < 511
      short = omega (arith, t.name_fits, length-append s.name (b']' ∷ []))

-- The rounds that the loop makes over the text of pairs, and over that of sections, before `f` more.
rounds_pairs : List ConfPair → ℕ → ℕ
rounds_pairs [] f = f
rounds_pairs (p ∷ pairs) f = suc (rounds_pairs pairs f)

rounds : Config → ℕ → ℕ
unfolding rounds_pairs
rounds [] f = f
rounds (s ∷ conf) f = suc (rounds_pairs s.pair (rounds conf f))

parse_lines-pairs :
    (fuel : ℕ) (rest : Bytes) (n : ℕ) (done : Config) (pairs : List ConfPair) (s : ConfSection)
    → ArePairTexts pairs
    → parse_lines
        (rounds_pairs pairs fuel)
        (print_pairs pairs rest)
        (record { has_section = suc n; conf = done ++ (s ∷ []) })
      ≡ parse_lines fuel rest (record {
        has_section = suc n;
        conf = done ++ (record { name = s.name; pair = s.pair ++ pairs } ∷ []);
      })
unfolding rounds_pairs print_pairs append_pair_to_section
parse_lines-pairs fuel rest n done [] s t = rw append-nil
parse_lines-pairs fuel rest n done (p ∷ pairs) s (t, ts) =
    parse_lines-pair (rounds_pairs pairs fuel) (print_pairs pairs rest) n done s p t
    ∙ parse_lines-pairs fuel rest n done pairs (append_pair_to_section s p) ts
    ∙ rw append_assoc

suc-add : (n k : ℕ) → suc n + k ≡ n + suc k
suc-add n k = omega arith

parse_lines-config :
    (fuel n : ℕ) (done conf : Config)
    → IsConfigText conf
    → parse_lines (rounds conf fuel) (print_config conf) (record { has_section = n; conf = done })
      ≡ parse_lines fuel [] (record { has_section = n + length conf; conf = done ++ conf })
unfolding rounds print_config
parse_lines-config fuel n done [] t = rw (append-nil, add-zero)
parse_lines-config fuel n done (s ∷ conf) (t, ts) =
    parse_lines-section (rounds_pairs s.pair (rounds conf fuel))
      (print_pairs s.pair (print_config conf)) n done s t
    ∙ rw add-one (
        parse_lines-pairs (rounds conf fuel) (print_config conf) n done s.pair
          (record { name = s.name; pair = [] }) t.pairs)
    ∙ parse_lines-config fuel (suc n) (done ++ (s ∷ [])) conf ts
    ∙ rw (append_assoc, suc-add n (length conf))

rounds_pairs-le :
    (pairs : List ConfPair) (rest : Bytes) (f : ℕ)
    → f ≤ length rest + 1
    → rounds_pairs pairs f ≤ length (print_pairs pairs rest) + 1
unfolding rounds_pairs print_pairs
rounds_pairs-le [] rest f h = h
rounds_pairs-le (p ∷ pairs) rest f h = omega (
  arith,
  rounds_pairs-le pairs rest f h,
  length-append (pair_line p) (b'\n' ∷ print_pairs pairs rest),
)

rounds-le : (conf : Config) → rounds conf 1 ≤ length (print_config conf) + 1
unfolding rounds print_config
rounds-le [] = omega arith
rounds-le (s ∷ conf) = omega (
  arith,
  rounds_pairs-le s.pair (print_config conf) (rounds conf 1) (rounds-le conf),
  length-append (section_line s.name) (b'\n' ∷ print_pairs s.pair (print_config conf)),
)

rounds_pairs-add :
    (pairs : List ConfPair) (f k : ℕ) → rounds_pairs pairs (f + k) ≡ rounds_pairs pairs f + k
unfolding rounds_pairs
rounds_pairs-add [] f k = refl
rounds_pairs-add (p ∷ pairs) f k = omega (arith, rounds_pairs-add pairs f k)

rounds-add : (conf : Config) (f k : ℕ) → rounds conf (f + k) ≡ rounds conf f + k
unfolding rounds
rounds-add [] f k = refl
rounds-add (s ∷ conf) f k =
    rw (rounds-add conf f k) (omega (arith, rounds_pairs-add s.pair (rounds conf f) k))

parse_lines-end : (k : ℕ) (p : Progress) → parse_lines (1 + k) [] p ≡ ok p
unfolding parse_lines read_one_line
parse_lines-end k p = let e : 1 + k ≡ suc k = omega arith in rw e

-- `parse_conf_file` reads back every configuration that the format can hold, in one round of its
-- loop for each line and one for the end of the file.
pub parse_conf_file-print :
    (conf : Config) → IsConfigText conf → parse_conf_file (print_config conf) ≡ ok conf
unfolding parse_conf_file
parse_conf_file-print conf t =
    rw (fuel, ← rounds-add conf 1 spare)
      (rw (parse_lines-config (1 + spare) 0 [] conf t, parse_lines-end spare))
  where
    spare : ℕ
    spare = length (print_config conf) + 1 - rounds conf 1

    fuel : length (print_config conf) + 1 ≡ rounds conf 1 + spare
    fuel = omega (arith, rounds-le conf)

-- ===== src/Config/Parse.antt =====
-- parse_conf_file and load_config of src/config_loader.c. The file is the list of the bytes that
-- are left to read, with no read error; the loop runs on fuel.
pub mod Steps
pub mod Total
pub mod RoundTrip
use sqlbus.Prelude.{
  ℕ, zero, suc, ◌+◌, Bool, true, false, Option, none, some, List, [], ◌∷◌, ◌++◌, ◌==◌,
  if◌then◌else◌, length, Bytes, c_str, Status, success, failure, is_empty,
}
use sqlbus.Config.{ConfPair, ConfSection, Config, line_size, Run, ok, overflow, out_of_fuel, ◌>>=◌}
use sqlbus.Config.Lines.{
  read_one_line, trim_space_character, is_blank_line, is_comment_line, is_section, section_new,
  separate_key_value_pair,
}

-- append_section_to_config: a walk to the last section.
unfoldable pub append_section_to_config : Config → ConfSection → Config
append_section_to_config [] section = section ∷ []
append_section_to_config (s ∷ conf) section = s ∷ append_section_to_config conf section

unfoldable pub append_pair_to_section : ConfSection → ConfPair → ConfSection
append_pair_to_section section pair = record section { pair = section.pair ++ (pair ∷ []) }

-- The loop's `section` points to the last section of the chain.
unfoldable pub append_to_current : Config → ConfPair → Config
unfolding append_pair_to_section
append_to_current [] pair = []
append_to_current (s ∷ []) pair = append_pair_to_section s pair ∷ []
append_to_current (s ∷ t ∷ conf) pair = s ∷ append_to_current (t ∷ conf) pair

-- The local state of the loop: `has_section` and the chain that is built.
pub record Progress : Type 0 where
  pub has_section : ℕ
  pub conf : Config

abbrev pub start : Progress
start = record { has_section = 0; conf = [] }

unfoldable pub add_section : Progress → Bytes → Run Progress
add_section p name = do
  section ← section_new name
  ok (record { has_section = p.has_section + 1; conf = append_section_to_config p.conf section })

unfoldable pub add_pair : Progress → Option ConfPair → Run Progress
add_pair p none = ok p
add_pair p (some pair) = ok (record p { conf = append_to_current p.conf pair })

-- The body of the loop behind the trim, on the trimmed line.
unfoldable pub parse_line : Progress → Bytes → Run Progress
unfolding add_section add_pair is_blank_line is_comment_line
parse_line p line =
    if is_blank_line line
    then ok p
    else if is_comment_line line
    then ok p
    else elim (is_section line) [
      | some name ↦ add_section p name
      | none ↦
          if p.has_section == 0
          then ok p
          else do pair ← separate_key_value_pair line; add_pair p pair
    ]

-- The loop: one round for each line read.
unfoldable pub parse_lines : ℕ → Bytes → Progress → Run Progress
parse_lines zero file p = out_of_fuel
parse_lines (suc fuel) file p =
    let (line, rest) = read_one_line line_size file in
    let next = (do
      q ← parse_line p (c_str (trim_space_character (line ++ (0 ∷ []))))
      parse_lines fuel rest q) in
    if is_empty line then ok p else next

-- parse_conf_file on an open file. Each round reads a byte or ends the loop.
unfoldable pub parse_conf_file : Bytes → Run Config
parse_conf_file file = do p ← parse_lines (length file + 1) file start; ok p.conf

-- load_config; `none` stands for a file that cannot be opened, and the configuration is kept then.
unfoldable pub load_config : Option Bytes → Config → Run (Status × Config)
load_config none conf = ok (failure, conf)
load_config (some file) conf = do parsed ← parse_conf_file file; ok (success, parsed)

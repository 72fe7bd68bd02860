-- ===== src/Tests/Config.antt =====
-- Tests of src/util.c's trims and of src/config_loader.c, at lines like those of sqlbus.ini.
use sqlbus.Prelude.{
  String, ◌<◌, all, ◌≡◌, refl, some, [], ◌∷◌, ◌++◌, ◌↔◌, true, arith, Bytes, codes, c_str, length,
  success, failure, strcasecmp_eq,
}
use sqlbus.Trim.{is_trailing, rtrim, ltrim}
use sqlbus.Trim.Rtrim.{without_trailing, rtrim-without_trailing}
use sqlbus.Trim.Ltrim.{without_leading, ltrim-without_leading}
use sqlbus.Config.{ConfPair, Config, ok, overflow}
use sqlbus.Config.Lines.{
  read_one_line, trim_space_character, is_section, section_new, separate_key_value_pair,
}
use sqlbus.Config.Lines.Trimmed.{trim_space_character-trimmed}
use sqlbus.Config.Lines.Printed.{is_text, lacks}
use sqlbus.Config.Parse.Steps.{opens_pair}
use sqlbus.Config.Parse.{
  append_section_to_config, append_to_current, parse_line, parse_lines, parse_conf_file,
}
use sqlbus.Config.Parse.RoundTrip.{print_config, IsPairText, IsConfigText, parse_conf_file-print}
use sqlbus.Config.Parse.Total.{Ends, parse_conf_file-Ends, parse_conf_file-long_section}
use sqlbus.Config.Lookup.{get_config_value}
use sqlbus.Config.Lookup.Found.{Found, get_config_value_iff, get_config_value_case}

abbrev item : String → String → ConfPair
item name value = record { name = codes name; value = codes value }

abbrev redis : Config
redis =
    record { name = codes "Default"; pair = item "memcache" "redis" ∷ [] }
    ∷ record { name = codes "Redis"; pair = item "Port" "6379" ∷ item "Password" "" ∷ [] }
    ∷ []

abbrev text : Bytes
text = codes "[Default]\nmemcache=redis\n[Redis]\nPort=6379\nPassword=\n"

print_redis : print_config redis ≡ text
unfolding print_config
print_redis = refl

-- Comments, pairs before a section, blanks and carriage returns are dropped.
parse_text :
    parse_conf_file
      (codes "; c\nlost = 1\n[Default]\n  memcache = redis \r\n\n[Redis]\nPort=6379\nPassword=\n")
    ≡ ok redis
unfolding parse_conf_file parse_lines read_one_line trim_space_character rtrim ltrim parse_line
    is_section section_new append_section_to_config separate_key_value_pair append_to_current
parse_text = refl

pair_text :
    (name value : String)
    → all is_text (codes name) ≡ true
    → all is_text (codes value) ≡ true
    → opens_pair (codes name) ≡ true
    → lacks b'=' (codes name) ≡ true
    → without_trailing (codes name) ≡ codes name
    → without_leading (codes value) ≡ codes value
    → without_trailing (codes value) ≡ codes value
    → (length (codes name) < 64) × (length (codes value) < 128)
    → IsPairText (item name value)
pair_text name value nt vt op se nk vl vr fits = record {
  name_text = nt;
  value_text = vt;
  opens = op;
  separates = se;
  name_kept = nk;
  value_kept_left = vl;
  value_kept_right = vr;
  name_fits = fits.0;
  value_fits = fits.1;
}

redis_is_text : IsConfigText redis
unfolding without_trailing without_leading is_trailing
redis_is_text = (
  record {
    name_text = refl;
    closes = refl;
    name_fits = omega arith;
    pairs = (pair_text "memcache" "redis" refl refl refl refl refl refl refl (omega arith), tt);
  },
  (
    record {
      name_text = refl;
      closes = refl;
      name_fits = omega arith;
      pairs = (
        pair_text "Port" "6379" refl refl refl refl refl refl refl (omega arith),
        (pair_text "Password" "" refl refl refl refl refl refl refl (omega arith), tt),
      );
    },
    tt,
  ),
)

rtrim-without_trailing_example :
    c_str (rtrim (codes "Port \r\n" ++ (0 ∷ codes "x ")) 7) ≡ codes "Port"
unfolding without_trailing is_trailing
rtrim-without_trailing_example = rtrim-without_trailing (codes "Port \r\n") (codes "x ") refl

ltrim-without_leading_example : c_str (ltrim (codes "  6379" ++ (0 ∷ codes "xyz")) 6) ≡ codes "6379"
unfolding without_leading
ltrim-without_leading_example = ltrim-without_leading (codes "  6379") (codes "xyz") refl

trim_space_character-trimmed_example :
    c_str (trim_space_character (codes "  Port = 6379 \r\n" ++ (0 ∷ codes "xyz")))
    ≡ codes "Port = 6379"
unfolding without_leading without_trailing is_trailing
trim_space_character-trimmed_example =
    trim_space_character-trimmed (codes "  Port = 6379 \r\n") (codes "xyz") refl

parse_conf_file-print_example : parse_conf_file text ≡ ok redis
unfolding print_config
parse_conf_file-print_example = parse_conf_file-print redis redis_is_text

parse_conf_file-Ends_example : Ends (parse_conf_file text)
parse_conf_file-Ends_example = parse_conf_file-Ends text

-- A NUL byte at the start of a line ends the parse.
parse_nul :
    parse_conf_file (codes "[a]\n" ++ (0 ∷ codes "\nb=1\n")) ≡ parse_conf_file (codes "[a]\n")
unfolding parse_conf_file parse_lines read_one_line trim_space_character rtrim ltrim parse_line
    is_section section_new append_section_to_config
parse_nul = refl

abbrev long_name : Bytes
long_name = codes "0123456789012345678901234567890123456789012345678901234567890123"

parse_conf_file-long_section_example :
    parse_conf_file ((b'[' ∷ (long_name ++ (b']' ∷ []))) ++ (b'\n' ∷ codes "a=1\n")) ≡ overflow
parse_conf_file-long_section_example =
    parse_conf_file-long_section long_name (codes "a=1\n") refl refl (omega arith) (omega arith)

port_run :
    get_config_value (some redis) (codes "redis") (codes "PORT") (codes "0")
    ≡ (success, codes "6379")
unfolding get_config_value strcasecmp_eq
port_run = refl

get_config_value_iff_example :
    (get_config_value (some redis) (codes "redis") (codes "PORT") (codes "0")
      ≡ (success, codes "6379"))
    ↔ Found redis (codes "redis") (codes "PORT") (codes "6379")
get_config_value_iff_example =
    get_config_value_iff redis (codes "redis") (codes "PORT") (codes "0") (codes "6379")

missing : (get_config_value (some redis) (codes "LOG") (codes "Level") (codes "INFO")).0 ≡ failure
unfolding get_config_value strcasecmp_eq
missing = refl

same_redis : strcasecmp_eq (codes "redis") (codes "Redis") ≡ true
unfolding strcasecmp_eq
same_redis = refl

same_port : strcasecmp_eq (codes "PORT") (codes "port") ≡ true
unfolding strcasecmp_eq
same_port = refl

get_config_value_case_example :
    get_config_value (some redis) (codes "redis") (codes "PORT") []
    ≡ get_config_value (some redis) (codes "Redis") (codes "port") []
get_config_value_case_example =
    get_config_value_case redis (codes "redis") (codes "Redis") (codes "PORT") (codes "port") []
      same_redis same_port

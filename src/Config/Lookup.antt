-- ===== src/Config/Lookup.antt =====
-- The queries of src/config_loader.c. A pointer that the source compares with NULL is an `Option`.
pub mod Found
use sqlbus.Prelude.{
  Bool, true, false, Option, none, some, List, [], ◌∷◌, if◌then◌else◌, Bytes, strcasecmp_eq, Status,
  success, failure,
}
use sqlbus.Config.{ConfPair, ConfSection, Config}

-- while(section) in get_config_section
unfoldable pub find_section : List ConfSection → Bytes → Option ConfSection
unfolding strcasecmp_eq
find_section [] name = none
find_section (s ∷ sections) name =
    if strcasecmp_eq s.name name then some s else find_section sections name

unfoldable pub get_config_section : Option Config → Option Bytes → Option ConfSection
unfolding find_section
get_config_section (some conf) (some name) = find_section conf name
get_config_section (some conf) none = none
get_config_section none name = none

-- while(pair) in get_config_pair
unfoldable pub find_pair : List ConfPair → Bytes → Option ConfPair
unfolding strcasecmp_eq
find_pair [] name = none
find_pair (p ∷ pairs) name = if strcasecmp_eq p.name name then some p else find_pair pairs name

unfoldable pub get_config_pair : Option ConfSection → Option Bytes → Option ConfPair
unfolding find_pair
get_config_pair (some section) (some []) = none
get_config_pair (some section) (some (c ∷ name)) = find_pair section.pair (c ∷ name)
get_config_pair (some section) none = none
get_config_pair none name = none

abbrev pub value_of : Option ConfPair → Bytes → Status × Bytes
value_of none value = (failure, value)
value_of (some pair) value = (success, pair.value)

-- get_config_value; `value` is the content of the caller's array, before and after.
unfoldable pub get_config_value : Option Config → Bytes → Bytes → Bytes → Status × Bytes
unfolding get_config_section get_config_pair
get_config_value conf section key value =
    value_of (get_config_pair (get_config_section conf (some section)) (some key)) value

unfoldable pub check_config_is_section_exist : Option Config → Option Bytes → Status
unfolding get_config_section
check_config_is_section_exist conf section = elim (get_config_section conf section) [
  | none ↦ failure
  | some s ↦ success
]

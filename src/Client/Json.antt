-- ===== src/Client/Json.antt =====
-- The JSON trees that client/util.c builds by cJSON_Create… and cJSON_AddItem…, and what cJSON
-- documents of the items that it parses.
use sqlbus.Prelude.{
  ℕ, ◌<◌, zero, suc, ◌≡◌, Bool, true, false, Option, none, some, Bytes, ℤ, pos, negsuc, ltb,
  if◌then◌else◌, strcasecmp_eq,
}
use sqlbus.Server.Platform.{Platform, View, text, numeric, boolean, object, other}

mutual
  pub data Json : Type 0 where
    words : Bytes → Json
    number : ℤ → Json
    flag : Bool → Json
    entries : Members → Json
    values : Values → Json

  pub data Members : Type 0 where
    no_member : Members
    member : Bytes → Json → Members → Members

  pub data Values : Type 0 where
    no_value : Values
    one_value : Json → Values → Values

-- cJSON_AddItemToObject: at the end
unfoldable pub add_item : Bytes → Json → Members → Members
add_item key j no_member = member key j no_member
add_item key j (member k i ms) = member k i (add_item key j ms)

-- cJSON_GetObjectItem: the first whose key is the same but for the case.
unfoldable pub find_member : Members → Bytes → Option Json
unfolding strcasecmp_eq
find_member no_member key = none
find_member (member k j ms) key = if strcasecmp_eq key k then some j else find_member ms key

unfoldable pub find_entry : Json → Bytes → Option Json
unfolding find_member
find_entry (entries ms) key = find_member ms key
find_entry _ key = none

abbrev pub int_max : ℕ
int_max = 2147483647

-- valueint of a number: it stays in the range of int.
unfoldable pub to_int : ℤ → ℤ
to_int (pos n) = if ltb n int_max then pos n else pos int_max
to_int (negsuc n) = if ltb n int_max then negsuc n else negsuc int_max

-- `convert` is the conversion of valuedouble to an int.
unfoldable pub view_of : (ℤ → ℤ) → Json → View
unfolding to_int
view_of convert (words s) = text s
view_of convert (number n) = numeric (to_int n) (convert n)
view_of convert (flag b) = boolean b
view_of convert (entries ms) = object
view_of convert (values vs) = other

abbrev pub is_values : Json → Bool
is_values (values vs) = true
is_values _ = false

-- cJSON_GetArraySize and cJSON_GetArrayItem
abbrev pub count : Values → ℕ
count no_value = 0
count (one_value j vs) = suc (count vs)

abbrev pub nth : Values → ℕ → Option Json
nth no_value i = none
nth (one_value j vs) zero = some j
nth (one_value j vs) (suc i) = nth vs i

abbrev pub size_of : Json → ℕ
size_of (values vs) = count vs
size_of _ = 0

abbrev pub value_at : Json → ℕ → Option Json
value_at (values vs) i = nth vs i
value_at _ i = none

-- cJSON_PrintUnformatted, and the functions on arrays, of the cJSON that the platform parses with
pub record Codec (P : Platform) : Type 0 where
  pub print_json : Json → Option Bytes
  pub is_array : Platform.Item P → Bool
  pub array_size : Platform.Item P → ℕ
  pub array_item : Platform.Item P → ℕ → Option (Platform.Item P)

abbrev pub map_tree : {I : Type 0} → (I → Json) → Option I → Option Json
map_tree f none = none
map_tree f (some i) = some (f i)

-- What is printed is parsed as what it was, and items are read as the trees that they are.
pub record Reading (P : Platform) (C : Codec P) : Type 0 where
  pub tree : Platform.Item P → Json
  -- C says what a double becomes as an int only in the range of int.
  pub convert : ℤ → ℤ
  pub convert_int : (n : ℕ) → n < int_max → convert (pos n) ≡ pos n
  pub parsed :
      (j : Json) (s : Bytes)
      → Codec.print_json C j ≡ some s
      → (i : Platform.Item P) × (Platform.json_parse P s ≡ some i) × (tree i ≡ j)
  pub entry_tree :
      (i : Platform.Item P) (key : Bytes)
      → map_tree tree (Platform.get_object_item P i key) ≡ find_entry (tree i) key
  pub view_tree : (i : Platform.Item P) → Platform.view P i ≡ view_of convert (tree i)
  pub array_tree : (i : Platform.Item P) → Codec.is_array C i ≡ is_values (tree i)
  pub size_tree : (i : Platform.Item P) → Codec.array_size C i ≡ size_of (tree i)
  pub value_tree :
      (i : Platform.Item P) (n : ℕ) → map_tree tree (Codec.array_item C i n) ≡ value_at (tree i) n

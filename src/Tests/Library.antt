-- ===== src/Tests/Library.antt =====
-- A JSON library that knows one document, for the tests of the client.
use sqlbus.Prelude.{
  ℕ, zero, suc, List, ◌∷◌, strcmp_sound, ◌≡◌, refl, ap, ap₂, ◌∙◌, sym, Bool-cases, inl, inr, Bool,
  true, false, ◌&&◌, Option, none, some, [], Bytes, codes, ℤ, pos, negsuc, ◌==ℤ◌, if◌then◌else◌,
  strcmp_eq, arith,
}
use sqlbus.Client.Json.{
  Json, words, number, flag, entries, values, Members, no_member, member, Values, no_value,
  one_value, Codec, Reading, map_tree, find_entry, view_of, value_at, size_of, is_values,
}
use sqlbus.Server.Platform.{Platform}
use sqlbus.Tests.Demo.{demo}

int_sound : (a b : ℤ) → (a ==ℤ b) ≡ true → a ≡ b
int_sound (pos a) (pos b) e = ap pos (ground arith)
int_sound (pos a) (negsuc b) e = ground arith
int_sound (negsuc a) (pos b) e = ground arith
int_sound (negsuc a) (negsuc b) e = ap negsuc (ground arith)

unfoldable pub flag_eq : Bool → Bool → Bool
flag_eq true true = true
flag_eq false false = true
flag_eq _ _ = false

unfoldable mutual
  pub json_eq : Json → Json → Bool
  json_eq (words a) (words b) = strcmp_eq a b
  json_eq (number a) (number b) = a ==ℤ b
  json_eq (flag a) (flag b) = flag_eq a b
  json_eq (entries a) (entries b) = members_eq a b
  json_eq (values a) (values b) = values_eq a b
  json_eq _ _ = false

  pub members_eq : Members → Members → Bool
  members_eq no_member no_member = true
  members_eq (member k i a) (member l j b) = strcmp_eq k l && json_eq i j && members_eq a b
  members_eq _ _ = false

  pub values_eq : Values → Values → Bool
  values_eq no_value no_value = true
  values_eq (one_value i a) (one_value j b) = json_eq i j && values_eq a b
  values_eq _ _ = false

flag_sound : (a b : Bool) → flag_eq a b ≡ true → a ≡ b
unfolding flag_eq
flag_sound true true e = refl
flag_sound true false e = ground arith
flag_sound false true e = ground arith
flag_sound false false e = refl

and_left : (a b : Bool) → (a && b) ≡ true → a ≡ true
and_left true b e = refl
and_left false b e = e

and_right : (a b : Bool) → (a && b) ≡ true → b ≡ true
and_right true b e = e
and_right false b e = ground arith

mutual
  unfolding json_eq members_eq values_eq

  json_sound : (a b : Json) → json_eq a b ≡ true → a ≡ b
  json_sound (words a) (words b) e = ap words (strcmp_sound a b e)
  json_sound (number a) (number b) e = ap number (int_sound a b e)
  json_sound (flag a) (flag b) e = ap flag (flag_sound a b e)
  json_sound (entries a) (entries b) e = ap entries (members_sound a b e)
  json_sound (values a) (values b) e = ap values (values_sound a b e)
  json_sound _ _ e = ground arith

  members_sound : (a b : Members) → members_eq a b ≡ true → a ≡ b
  members_sound no_member no_member e = refl
  members_sound (member k i a) (member l j b) e =
      ap (λ x. member x i a) (strcmp_sound k l (and_left _ _ (and_left _ _ e)))
      ∙ ap₂ (member l) (json_sound i j (and_right (strcmp_eq k l) _ (and_left _ _ e)))
          (members_sound a b (and_right (strcmp_eq k l && json_eq i j) _ e))
  members_sound _ _ e = ground arith

  values_sound : (a b : Values) → values_eq a b ≡ true → a ≡ b
  values_sound no_value no_value e = refl
  values_sound (one_value i a) (one_value j b) e =
      ap₂ one_value (json_sound i j (and_left _ _ e))
        (values_sound a b (and_right (json_eq i j) _ e))
  values_sound _ _ e = ground arith

-- The library that prints one tree, and parses what it has printed.
abbrev pub document_text : Bytes
document_text = codes "{...}"

unfoldable pub parse_one : Json → Bytes → Option Json
parse_one t s = if strcmp_eq s document_text then some t else none

-- The table of its driver, and a string in a list
abbrev pub table_names : List Bytes
table_names = codes "ID" ∷ codes "NAME" ∷ []

abbrev pub table_row : List Bytes
table_row = codes "1" ∷ codes "Ann" ∷ []

unfoldable pub text_at : List Bytes → ℕ → Bytes
text_at [] i = []
text_at (s ∷ ss) zero = s
text_at (s ∷ ss) (suc i) = text_at ss i

abbrev pub knowing : Json → Platform
knowing t = record demo {
  Item = Json;
  json_parse = parse_one t;
  get_object_item = find_entry;
  view = view_of (λ n. n);
  print_response = λ r. some document_text;
  get_row_count = λ n w. (pos 0, 1, w);
  get_field_count = λ n w. (pos 0, 2, w);
  get_field_name = λ i b w. (pos 0, text_at table_names i, w);
  get_field_value_idx = λ i j b w. (pos 0, text_at table_row j, w);
}

abbrev pub codec : (t : Json) → Codec (knowing t)
codec t = record {
  print_json = λ j. if json_eq j t then some document_text else none;
  is_array = is_values;
  array_size = size_of;
  array_item = value_at;
}

pub same_item : (o : Option Json) → map_tree (λ j. j) o ≡ o
same_item none = refl
same_item (some j) = refl

pub printed_tree :
    (t j : Json) (s : Bytes)
    → (if json_eq j t then some document_text else none) ≡ some s
    → (i : Json) × (parse_one t s ≡ some i) × (i ≡ j)
unfolding parse_one strcmp_eq
printed_tree t j s e = elim (Bool-cases (json_eq j t)) [
  | inl b ↦ (t, ap (parse_one t) (sym (unwrap_text s (rw b at e))), sym (json_sound j t b))
  | inr b ↦ absurd (rw b at e)
]
  where
    absurd : {A : Type 0} → none ≡ some s → A
    absurd f = ground arith

    unwrap_text : (s : Bytes) → some document_text ≡ some s → document_text ≡ s
    unwrap_text s f = ap (λ o. elim o [ none ↦ [] | some x ↦ x ]) f

unfoldable pub reading : (t : Json) → Reading (knowing t) (codec t)
reading t = record {
  tree = λ i. i;
  convert = λ n. n;
  convert_int = λ n l. refl;
  parsed = printed_tree t;
  entry_tree = λ i key. same_item _;
  view_tree = λ i. refl;
  array_tree = λ i. refl;
  size_tree = λ i. refl;
  value_tree = λ i n. same_item _;
}

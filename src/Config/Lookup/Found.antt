-- ===== src/Config/Lookup/Found.antt =====
-- What the queries of config_loader.c promise: the first match in file order, whatever the case of
-- the letters, and an untouched array where there is none.
use sqlbus.Prelude.{
  ◌≡◌, ◌↔◌, refl, sym, ap, ◌∙◌, Bool, true, false, not, Option, none, some, List, [], ◌∷◌, ◌++◌,
  arith, inl, inr, if◌then◌else◌, Bool-cases, all, is_empty, Bytes, strcasecmp_eq,
  strcasecmp_eq_right, Status, success,
}
use sqlbus.Config.{ConfPair, ConfSection, Config}
use sqlbus.Config.Lookup.{
  find_section, find_pair, get_config_section, get_config_pair, value_of, get_config_value,
}

-- `x` passes the test and nothing in front of it does.
pub record IsFirst {ℓ} {A : Type ℓ} (test : A → Bool) (xs : List A) (x : A) : Type ℓ where
  pub before : List A
  pub after : List A
  pub splits : xs ≡ before ++ (x ∷ after)
  pub passes : test x ≡ true
  pub none_before : all (λ y. not (test y)) before ≡ true

-- A search with a Boolean test, as both loops make it.
find {ℓ} : {A : Type ℓ} → (A → Bool) → List A → Option A
find test [] = none
find test (x ∷ xs) = if test x then some x else find test xs

module _ {ℓ} {A : Type ℓ} (test : A → Bool) where
  find-IsFirst : (xs : List A) (x : A) → find test xs ≡ some x → IsFirst test xs x
  unfolding find
  find-IsFirst [] x h = cc
  find-IsFirst (y ∷ xs) x h = elim (Bool-cases (test y)) [
    | inl e ↦
        let same : some y ≡ some x = rw e at h in
        let same' : y ≡ x = ground (arith, same) in
        record {
          before = [];
          after = xs;
          splits = ap (λ z. z ∷ xs) same';
          passes = rw (← same') e;
          none_before = refl;
        }
    | inr e ↦
        let f = find-IsFirst xs x (rw e at h) in
        record {
          before = y ∷ f.before;
          after = f.after;
          splits = ap (◌∷◌ y) f.splits;
          passes = f.passes;
          none_before = rw e f.none_before;
        }
  ]

  find_skips :
      (before after : List A) (x : A)
      → all (λ y. not (test y)) before ≡ true
      → test x ≡ true
      → find test (before ++ (x ∷ after)) ≡ some x
  unfolding find
  find_skips [] after x h p = rw p
  find_skips (y ∷ before) after x h p = elim (Bool-cases (test y)) [
    | inl e ↦ let no : false ≡ true = rw e at h in cc
    | inr e ↦ rw e (find_skips before after x (rw e at h) p)
  ]

  IsFirst-find : (xs : List A) (x : A) → IsFirst test xs x → find test xs ≡ some x
  IsFirst-find xs x f = rw f.splits (find_skips f.before f.after x f.none_before f.passes)

find_section-find :
    (sections : List ConfSection) (name : Bytes)
    → find_section sections name ≡ find (λ s. strcasecmp_eq s.name name) sections
unfolding find_section find
find_section-find [] name = refl
find_section-find (s ∷ sections) name = rw (find_section-find sections name)

find_pair-find :
    (pairs : List ConfPair) (name : Bytes)
    → find_pair pairs name ≡ find (λ p. strcasecmp_eq p.name name) pairs
unfolding find_pair find
find_pair-find [] name = refl
find_pair-find (p ∷ pairs) name = rw (find_pair-find pairs name)

-- `v` is the value of the first pair named `key` in the first section named `name`.
pub record Found (conf : Config) (name key : Bytes) (v : Bytes) : Type 0 where
  pub section : ConfSection
  pub pair : ConfPair
  pub first_section : IsFirst (λ s. strcasecmp_eq s.name name) conf section
  pub first_pair : IsFirst (λ p. strcasecmp_eq p.name key) section.pair pair
  pub named : is_empty key ≡ false
  pub value_is : v ≡ pair.value

found_pair :
    (s : Option ConfSection) (key : Bytes) (p : ConfPair)
    → get_config_pair s (some key) ≡ some p
    → (section : ConfSection) × (s ≡ some section)
      × (is_empty key ≡ false)
      × (find_pair section.pair key ≡ some p)
unfolding get_config_pair
found_pair none key p h = cc
found_pair (some s) [] p h = cc
found_pair (some s) (c ∷ key) p h = (s, refl, refl, h)

value_of-success :
    (p : Option ConfPair) (value v : Bytes)
    → value_of p value ≡ (success, v)
    → (pair : ConfPair) × (p ≡ some pair) × (v ≡ pair.value)
value_of-success none value v h = cc
value_of-success (some pair) value v h = (pair, refl, sym (ap (λ (r : Status × Bytes). r.1) h))

get_config_value-Found :
    (conf : Config) (name key value v : Bytes)
    → get_config_value (some conf) name key value ≡ (success, v)
    → Found conf name key v
unfolding get_config_value get_config_section
get_config_value-Found conf name key value v h =
    let (pair, got, is) = value_of-success _ value v h in
    let (section, here, named, found) = found_pair (find_section conf name) key pair got in
    record {
      section = section;
      pair = pair;
      first_section =
          find-IsFirst (λ s. strcasecmp_eq s.name name) conf section
            (sym (find_section-find conf name) ∙ here);
      first_pair =
          find-IsFirst (λ p. strcasecmp_eq p.name key) section.pair pair
            (sym (find_pair-find section.pair key) ∙ found);
      named = named;
      value_is = is;
    }

get_config_pair_named :
    (s : ConfSection) (key : Bytes)
    → is_empty key ≡ false
    → get_config_pair (some s) (some key) ≡ find_pair s.pair key
unfolding get_config_pair
get_config_pair_named s [] h = cc
get_config_pair_named s (c ∷ key) h = refl

Found-get_config_value :
    (conf : Config) (name key value v : Bytes)
    → Found conf name key v
    → get_config_value (some conf) name key value ≡ (success, v)
unfolding get_config_value get_config_section
Found-get_config_value conf name key value v f = rw (
  find_section-find conf name,
  IsFirst-find (λ s. strcasecmp_eq s.name name) conf f.section f.first_section,
  get_config_pair_named f.section key f.named,
  find_pair-find f.section.pair key,
  IsFirst-find (λ p. strcasecmp_eq p.name key) f.section.pair f.pair f.first_pair,
  f.value_is,
)

-- `get_config_value` succeeds with `v` exactly when the first section of that name, in any case of
-- letters, has a pair of that name, the key is not empty, and `v` is the value of the first such
-- pair.
pub get_config_value_iff :
    (conf : Config) (name key value v : Bytes)
    → (get_config_value (some conf) name key value ≡ (success, v)) ↔ Found conf name key v
get_config_value_iff conf name key value v =
    (get_config_value-Found conf name key value v, Found-get_config_value conf name key value v)

find_section_case :
    (sections : List ConfSection) (a b : Bytes)
    → strcasecmp_eq a b ≡ true
    → find_section sections a ≡ find_section sections b
unfolding find_section
find_section_case [] a b h = refl
find_section_case (s ∷ sections) a b h =
    rw (strcasecmp_eq_right s.name a b h, find_section_case sections a b h)

find_pair_case :
    (pairs : List ConfPair) (a b : Bytes)
    → strcasecmp_eq a b ≡ true
    → find_pair pairs a ≡ find_pair pairs b
unfolding find_pair
find_pair_case [] a b h = refl
find_pair_case (p ∷ pairs) a b h = rw (strcasecmp_eq_right p.name a b h, find_pair_case pairs a b h)

get_config_pair_case :
    (s : Option ConfSection) (a b : Bytes)
    → strcasecmp_eq a b ≡ true
    → get_config_pair s (some a) ≡ get_config_pair s (some b)
unfolding get_config_pair
get_config_pair_case none a b h = refl
get_config_pair_case (some s) [] [] h = refl
get_config_pair_case (some s) [] (d ∷ b) h = unfold strcasecmp_eq in cc
get_config_pair_case (some s) (c ∷ a) [] h = unfold strcasecmp_eq in cc
get_config_pair_case (some s) (c ∷ a) (d ∷ b) h = find_pair_case s.pair (c ∷ a) (d ∷ b) h

-- Sections and keys are found whatever the case of their letters: a query that differs in case only
-- has the same result, array included.
pub get_config_value_case :
    (conf : Config) (name name' key key' value : Bytes)
    → strcasecmp_eq name name' ≡ true
    → strcasecmp_eq key key' ≡ true
    → get_config_value (some conf) name key value ≡ get_config_value (some conf) name' key' value
unfolding get_config_value get_config_section
get_config_value_case conf name name' key key' value h k =
    rw (
      find_section_case conf name name' h,
      get_config_pair_case (find_section conf name') key key' k,
    )

-- ===== src/Env/Settings/Fetched.antt =====
-- Where every value of the configuration is short, nothing that is read overruns its array.
use sqlbus.Prelude.{
  ℕ, ◌<◌, ◌≡◌, refl, ap, ◌∙◌, sym, Bool, true, false, Option, none, some, List, [], ◌∷◌, Bytes,
  if◌then◌else◌, all, all-cons, ltb, lt→ltb, ltb→lt, length, strcasecmp_eq,
}
use mathlib.Core.Option.{none-ne-some, some-injective}
use sqlbus.Config.{ConfPair, ConfSection, Config}
use sqlbus.Config.Lookup.{
  find_section, find_pair, get_config_section, get_config_pair, get_config_value, value_of,
}
use sqlbus.Server.Exec.{done}
use sqlbus.Env.{fetch}

-- Every value has fewer bytes than `size`.
abbrev pub is_short : ℕ → Config → Bool
is_short size = all (λ s. all (λ p. ltb (length p.value) size) s.pair)

-- What get_config_value leaves in the array of the caller
abbrev pub text : Config → Bytes → Bytes → Bytes → Bytes
text conf section key value = (get_config_value (some conf) section key value).1

find_pair-short :
    (size : ℕ) (pairs : List ConfPair) (key value : Bytes)
    → all (λ p. ltb (length p.value) size) pairs ≡ true
    → length value < size
    → length (value_of (find_pair pairs key) value).1 < size
unfolding find_pair
find_pair-short size [] key value h fits = fits
find_pair-short size (p ∷ pairs) key value h fits =
    let (here, rest) = all-cons (λ p. ltb (length p.value) size) p pairs h in
    either (strcasecmp_eq p.name key) (ltb→lt (length p.value) size here)
      (find_pair-short size pairs key value rest fits)
  where
    either :
        (b : Bool)
        → length p.value < size
        → length (value_of (find_pair pairs key) value).1 < size
        → length (value_of (if b then some p else find_pair pairs key) value).1 < size
    either true h k = h
    either false h k = k

get_config_pair-short :
    (size : ℕ) (section : Option ConfSection) (key value : Bytes)
    → ((s : ConfSection) → section ≡ some s → all (λ p. ltb (length p.value) size) s.pair ≡ true)
    → length value < size
    → length (value_of (get_config_pair section (some key)) value).1 < size
unfolding get_config_pair
get_config_pair-short size none key value h fits = fits
get_config_pair-short size (some s) [] value h fits = fits
get_config_pair-short size (some s) (c ∷ key) value h fits =
    find_pair-short size s.pair (c ∷ key) value (h s refl) fits

find_section-short :
    (size : ℕ) (conf : Config) (name : Bytes) (s : ConfSection)
    → is_short size conf ≡ true
    → find_section conf name ≡ some s
    → all (λ p. ltb (length p.value) size) s.pair ≡ true
unfolding find_section
find_section-short size [] name s h e = absurd (none-ne-some s e)
find_section-short size (t ∷ conf) name s h e =
    let (here, rest) = all-cons (λ s. all (λ p. ltb (length p.value) size) s.pair) t conf h in
    either (strcasecmp_eq t.name name) here (λ f. find_section-short size conf name s rest f) e
  where
    either :
        (b : Bool)
        → all (λ p. ltb (length p.value) size) t.pair ≡ true
        → (find_section conf name ≡ some s → all (λ p. ltb (length p.value) size) s.pair ≡ true)
        → (if b then some t else find_section conf name) ≡ some s
        → all (λ p. ltb (length p.value) size) s.pair ≡ true
    either true h k e =
        ap (λ x. all (λ p. ltb (length p.value) size) (ConfSection.pair x))
          (sym (some-injective t s e))
        ∙ h
    either false h k e = k e

length-text :
    (size : ℕ) (conf : Config) (section key value : Bytes)
    → is_short size conf ≡ true
    → length value < size
    → length (text conf section key value) < size
unfolding get_config_value get_config_section
length-text size conf section key value h fits =
    get_config_pair-short size (find_section conf section) key value
      (λ s e. find_section-short size conf section s h e) fits

pub fetch-short :
    {S : Type 0} (size : ℕ) (conf : Config) (section key value : Bytes) (s : S)
    → is_short size conf ≡ true
    → length value < size
    → fetch size conf section key value s ≡ done (get_config_value (some conf) section key value) s
unfolding fetch
fetch-short size conf section key value s h fits =
    rw
      (lt→ltb (length (text conf section key value)) size
        (length-text size conf section key value h fits))
      refl

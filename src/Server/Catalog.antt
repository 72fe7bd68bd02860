-- ===== src/Server/Catalog.antt =====
-- src/driver_manager.c: the path of the driver, from the environment and the configuration.
use sqlbus.Prelude.{
  ℕ, ◌+◌, ◌≡◌, refl, ap, Bool, true, not, Option, none, some, [], ◌∷◌, ◌++◌, Bytes, codes, ◌==◌,
  ltb, if◌then◌else◌, take, drop, length, all, arith,
}

-- The size of the array `catalog`.
abbrev pub catalog_size : ℕ
catalog_size = 512

-- The size of the array `key`.
abbrev pub key_size : ℕ
key_size = 128

-- What becomes of the path: the new one, RETURN_FAILURE, or a `sprintf` of NULL or past an array.
pub data Expanded : Type 0 where
  expanded : Bytes → Expanded
  rejected : Expanded
  undefined : Expanded

-- sprintf(catalog, "%s%s", …)
abbrev stored : Bytes → Expanded
stored s = if ltb (length s) catalog_size then expanded s else undefined

-- index(s, '/'), as an offset.
unfoldable pub index_slash : Bytes → Option ℕ
index_slash [] = none
index_slash (c ∷ s) =
    if c == b'/' then some 0 else elim (index_slash s) [ none ↦ none | some n ↦ some (n + 1) ]

unfoldable pub or_empty : Option Bytes → Bytes
or_empty none = []
or_empty (some s) = s

-- The path "~…" or "$NAME/…"; `s` is what follows the first byte, and `path` is `index` in it.
unfoldable pub expand_home : Option Bytes → Bytes → Expanded
expand_home none s = undefined
expand_home (some home) s = stored (home ++ s)

unfoldable pub expand_variable : (Bytes → Option Bytes) → Option ℕ → Bytes → Expanded
expand_variable getenv none s = rejected
expand_variable getenv (some n) s =
    if ltb n key_size then stored (or_empty (getenv (take n s)) ++ drop n s) else undefined

-- The end of get_connection_info.
unfoldable pub expand_catalog : (Bytes → Option Bytes) → Bytes → Expanded
unfolding expand_home expand_variable
expand_catalog getenv [] = expanded []
expand_catalog getenv (c ∷ s) =
    if c == b'~'
    then expand_home (getenv (codes "HOME")) s
    else if c == b'$'
    then expand_variable getenv (index_slash s) s
    else expanded (c ∷ s)

-- No byte of a text is a slash.
abbrev pub is_name : Bytes → Bool
is_name = all (λ c. not (c == b'/'))

index_slash-name :
    (name rest : Bytes)
    → is_name name ≡ true
    → index_slash (name ++ b'/' ∷ rest) ≡ some (length name)
unfolding index_slash
index_slash-name [] rest h = refl
index_slash-name (c ∷ name) rest h = ground (arith, index_slash-name name rest)

index_slash-none : (name : Bytes) → is_name name ≡ true → index_slash name ≡ none
unfolding index_slash
index_slash-none [] h = refl
index_slash-none (c ∷ name) h = ground (arith, index_slash-none name)

take-append : (name rest : Bytes) → take (length name) (name ++ rest) ≡ name
take-append [] rest = refl
take-append (c ∷ name) rest = ap (◌∷◌ c) (take-append name rest)

drop-append : (name rest : Bytes) → drop (length name) (name ++ rest) ≡ rest
drop-append [] rest = refl
drop-append (c ∷ name) rest = drop-append name rest

module _ (getenv : Bytes → Option Bytes) where
  -- The path "$NAME/rest" becomes the value of the variable NAME, which counts as empty when it is
  -- not set, and "/rest", if NAME has fewer than 128 bytes and the new path fewer than 512.
  pub expand_catalog-variable :
      (name rest : Bytes)
      → is_name name ≡ true
      → ltb (length name) key_size ≡ true
      → ltb (length (or_empty (getenv name) ++ b'/' ∷ rest)) catalog_size ≡ true
      → expand_catalog getenv (b'$' ∷ name ++ b'/' ∷ rest)
        ≡ expanded (or_empty (getenv name) ++ b'/' ∷ rest)
  unfolding expand_catalog expand_variable
  expand_catalog-variable name rest n short fits =
      rw
        (
          index_slash-name name rest n,
          short,
          take-append name (b'/' ∷ rest),
          drop-append name (b'/' ∷ rest),
          fits,
        )
        refl

  -- A path "$NAME" with no slash is rejected.
  pub expand_catalog-no_slash :
      (name : Bytes) → is_name name ≡ true → expand_catalog getenv (b'$' ∷ name) ≡ rejected
  unfolding expand_catalog expand_variable
  expand_catalog-no_slash name n = rw (index_slash-none name n) refl

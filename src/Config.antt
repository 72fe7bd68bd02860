-- ===== src/Config.antt =====
-- src/config_loader.h and src/config_loader.c: what a loaded configuration holds. The chains of
-- sections and pairs are lists; NULL, an empty chain, is the empty list.
pub mod Lines
pub mod Parse
pub mod Lookup
use sqlbus.Prelude.{ℕ, List, Bytes}

-- conf_pair_t; the comment text is always empty.
pub record ConfPair : Type 0 where
  pub name : Bytes
  pub value : Bytes

-- conf_section_t
pub record ConfSection : Type 0 where
  pub name : Bytes
  pub pair : List ConfPair

-- config_t: the chain of sections. The file handle is closed before a loader returns.
abbrev pub Config : Type 0
Config = List ConfSection

-- The sizes of the arrays `name` and `value`, and of the line buffer of `parse_conf_file`.
abbrev pub name_size : ℕ
name_size = 64

abbrev pub value_size : ℕ
value_size = 128

abbrev pub line_size : ℕ
line_size = 512

-- How a run of the parser ends: with a result, with a `sprintf` past the end of an array, or with
-- no fuel left.
pub data Run {ℓ} (A : Type ℓ) : Type ℓ where
  ok : A → Run A
  overflow : Run A
  out_of_fuel : Run A

infixl 5 ◌>>=◌
abbrev pub ◌>>=◌ {ℓ κ} : {A : Type ℓ} {B : Type κ} → Run A → (A → Run B) → Run B
ok a >>= f = f a
overflow >>= f = overflow
out_of_fuel >>= f = out_of_fuel

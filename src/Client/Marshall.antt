-- ===== src/Client/Marshall.antt =====
-- client/util.c: marshallJson. cJSON does not run out of memory before it prints.
pub mod Decoded
use sqlbus.Prelude.{
  ℕ, ◌+◌, Bool, true, false, not, Option, none, some, List, [], ◌∷◌, ◌++◌, Bytes, codes, ℤ, pos,
  ◌==ℤ◌, ◌==◌, if◌then◌else◌,
}
use sqlbus.Server.Platform.{Platform}
use sqlbus.Client.{Request, failed, succeeded}
use sqlbus.Client.Json.{Json, words, number, flag, entries, Members, no_member, add_item, Codec}

-- SUCCESSED: rv & -1 is rv.
abbrev pub is_successful : ℤ → Bool
is_successful rv = rv ==ℤ pos 0

-- The loop of checkReturnValueArrayIsValid: the first index with a value that is no success.
unfoldable pub first_failure : List ℤ → ℕ → Option ℕ
first_failure [] i = none
first_failure (rv ∷ rvs) i =
    let rest = first_failure rvs (i + 1) in if is_successful rv then rest else some i

-- checkReturnValueArrayIsValid
unfoldable pub check_return_values : List ℤ → ℤ × Option ℕ
unfolding first_failure
check_return_values rvs = elim (first_failure rvs 0) [
  | none ↦ (succeeded, none)
  | some i ↦ (failed, some i)
]

-- An object under construction, with the values returned so far.
abbrev pub Building : Type 0
Building = Members × List ℤ

-- addStringToCJson; the key is not NULL.
unfoldable pub add_string : Bytes → Option Bytes → Building → Building
add_string key none (ms, rvs) = (ms, rvs ++ (failed ∷ []))
add_string key (some s) (ms, rvs) = (add_item key (words s) ms, rvs ++ (succeeded ∷ []))

-- addNumberToCJson
unfoldable pub add_number : Bytes → ℕ → Building → Building
add_number key n (ms, rvs) = (add_item key (number (pos n)) ms, rvs ++ (succeeded ∷ []))

-- addBooleanToCJson
unfoldable pub add_boolean : Bytes → Bool → Building → Building
add_boolean key b (ms, rvs) = (add_item key (flag b) ms, rvs ++ (succeeded ∷ []))

-- The entry "statement": a string, or an object with the two statements.
unfoldable pub add_statement : Request → Building → Building
add_statement r (ms, rvs) = elim r.statement [
  | some s ↦ add_string (codes "statement") (some s) (ms, rvs)
  | none ↦
      let leaf =
        add_string (codes "insert") r.insert
          (add_string (codes "update") r.update (no_member, rvs)) in
      (add_item (codes "statement") (entries (leaf.0)) ms, leaf.1)
]

unfoldable pub build_request : Request → Building
build_request r = add_statement r (
    add_number (codes "timestamp") r.timestamp (
      add_string (codes "rchannel") r.receive_channel (
        add_boolean (codes "sync") (r.synchronization_type == 0) (
          add_string (codes "type") r.message_type (
            add_number (codes "pid") r.pid (
              add_string (codes "uuid") r.uuid
                (add_string (codes "app") r.client_name (no_member, []))))))))

module _ (P : Platform) (C : Codec P) where
  -- marshallJson: its return value, and what it writes to the pointer of the caller.
  unfoldable pub marshall_json : Request → ℤ × Option Bytes
  marshall_json r =
      let built = build_request r in
      if (check_return_values built.1).0 ==ℤ succeeded
      then (succeeded, Codec.print_json C (entries built.0))
      else (failed, none)

-- ===== src/Client/Reader.antt =====
-- client/hisqlbus.c and client/util.c: the functions that read a received response. None is
-- FAILURE, and a value is SUCCESS with what was written; pointers of the caller are not NULL.
pub mod Named
pub mod Table
use sqlbus.Prelude.{
  ℕ, zero, suc, ◌+◌, Bool, true, false, Option, none, some, Bytes, ℤ, pos, negsuc, ◌==ℤ◌, ◌==◌, ltb,
  if◌then◌else◌, ◌&&◌, strcasecmp_eq,
}
use sqlbus.Server.Platform.{Platform, View, text}
use sqlbus.Server.State.{Ptr, bad, null, live, is_valid}
use sqlbus.Server.Exec.{Out, done, fault, Prog, ◌>>=◌, pure}
use sqlbus.Client.{Response, Bus, failed, succeeded, with_info, set_error}
use sqlbus.Client.Json.{Codec}

module _ (P : Platform) (C : Codec P) where
  open P use {Item, view}
  open C use {is_array, array_size, array_item}

  -- A failure that tags the error
  abbrev pub fail : {A : Type 0} → Prog (Bus P) (Option A)
  fail bus = done none (set_error bus)

  -- is_response_ready, and what follows it
  abbrev pub when_ready : {A : Type 0} → Prog (Bus P) (Option A) → Prog (Bus P) (Option A)
  when_ready m bus = if (bus.response).status ==ℤ pos 1 then m bus else fail bus

  abbrev pub string_of : View → Option Bytes
  string_of (text s) = some s
  string_of _ = none

  -- The string of a node, if it is one
  unfoldable pub leaf_string : Option Item → Option Bytes
  leaf_string none = none
  leaf_string (some leaf) = string_of (view leaf)

  -- getFieldName
  unfoldable pub get_field_name : Item → ℕ → Option Bytes
  get_field_name root idx = if is_array root then leaf_string (array_item root idx) else none

  -- The loop of getFieldIdx, from a field on
  unfoldable pub find_field : Item → Bytes → ℕ → ℕ → Option ℕ
  find_field root fname zero i = none
  find_field root fname (suc n) i =
      let rest = find_field root fname n (i + 1) in
      elim (leaf_string (array_item root i)) [
        | none ↦ none
        | some s ↦ if strcasecmp_eq fname s then some i else rest
      ]

  -- getFieldIdx
  unfoldable pub get_field_idx : Item → Bytes → Option ℕ
  get_field_idx root fname =
      if is_array root then find_field root fname (array_size root) 0 else none

  -- The string at a place of a node, if it is a row
  unfoldable pub row_string : Option Item → ℕ → Option Bytes
  row_string none cidx = none
  row_string (some row) cidx = if is_array row then leaf_string (array_item row cidx) else none

  -- getRowValue
  unfoldable pub get_row_value : Item → ℕ → ℕ → Option Bytes
  get_row_value root ridx cidx =
      if is_array root then row_string (array_item root ridx) cidx else none

  -- What is read in a node of the response: a failure tags the error.
  abbrev pub read_node : {A : Type 0} → Ptr Item → (Item → Option A) → Prog (Bus P) (Option A)
  read_node bad f = λ bus. fault
  read_node null f = fail
  read_node (live item) f = elim (f item) [ none ↦ fail | some a ↦ pure (some a) ]

  -- An index from 0 below a counter
  abbrev pub when_below :
      {A : Type 0} → ℤ → ℕ → (ℕ → Prog (Bus P) (Option A)) → Prog (Bus P) (Option A)
  when_below (pos i) n f = if ltb i n then f i else fail
  when_below (negsuc i) n f = fail

  -- reader_perfect
  unfoldable pub reader_perfect : Prog (Bus P) ℤ
  reader_perfect bus =
      if (bus.response).status ==ℤ pos 1
      then (if (bus.response).message_identification == 0
          then done succeeded bus
          else done with_info (set_error bus))
      else done failed (set_error bus)

  -- reader_fcount and reader_rcount
  unfoldable pub reader_fcount : Prog (Bus P) (Option ℕ)
  reader_fcount = when_ready (λ bus. done (some (bus.response).field_counter) bus)

  unfoldable pub reader_rcount : Prog (Bus P) (Option ℕ)
  reader_rcount = when_ready (λ bus. done (some (bus.response).row_counter) bus)

  -- reader_fname
  unfoldable pub reader_fname : ℤ → Prog (Bus P) (Option Bytes)
  reader_fname idx = when_ready (λ bus.
      when_below idx (bus.response).field_counter
        (λ i. read_node (bus.response).field_data (λ root. get_field_name root i)) bus)

  -- reader_rvalue
  unfoldable pub reader_rvalue : ℤ → Bytes → Prog (Bus P) (Option Bytes)
  reader_rvalue ridx fname = when_ready (λ bus.
      when_below ridx (bus.response).row_counter
        (λ i. read_node (bus.response).field_data (λ root. get_field_idx root fname) >>= λ found.
          elim found [
            | none ↦ pure none
            | some j ↦ read_node (bus.response).row_data (λ root. get_row_value root i j)
          ])
        bus)

  -- reader_rvalue_idx
  unfoldable pub reader_rvalue_idx : ℤ → ℤ → Prog (Bus P) (Option Bytes)
  reader_rvalue_idx ridx cidx = when_ready (λ bus.
      when_below ridx (bus.response).row_counter
        (λ i.
          when_below cidx (bus.response).field_counter
            (λ j. read_node (bus.response).row_data (λ root. get_row_value root i j)))
        bus)

  -- reader_finalize: the strings and the parsed response are freed, and set to NULL.
  unfoldable pub reader_finalize : Prog (Bus P) ℤ
  reader_finalize bus =
      if (bus.response).status ==ℤ pos 1
      then (if is_releasable then done succeeded (record bus { response = released }) else fault)
      else done failed bus
    where
      is_releasable : Bool
      is_releasable =
          is_valid (bus.response).message_type
          && is_valid (bus.response).server_name
          && is_valid (bus.response).database_type
          && is_valid (bus.response).message_info
          && is_valid (bus.response).uuid
          && is_valid (bus.response).reserve_data

      released : Response P
      released = record (bus.response) {
        message_type = null;
        server_name = null;
        database_type = null;
        message_info = null;
        uuid = null;
        field_counter = 0;
        row_counter = 0;
        timestamp = 0;
        message_identification = 0;
        pid = 0;
        row_data = null;
        field_data = null;
        reserve_data = null;
      }

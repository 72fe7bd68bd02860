-- ===== src/Client/Unmarshall.antt =====
-- client/util.c: unMarshallJson. A result that its caller allows to be missing is SUCCESS_WITH_INFO.
use sqlbus.Prelude.{
  ℕ, ◌-◌, ◌%◌, ◌^◌, Bool, true, false, Option, none, some, List, [], ◌∷◌, ◌++◌, Bytes, codes, ℤ,
  pos, negsuc, ◌==ℤ◌, ◌==◌, if◌then◌else◌,
}
use sqlbus.Server.Platform.{Platform, View, text, numeric}
use sqlbus.Server.State.{live}
use sqlbus.Server.Request.{leaf}
use sqlbus.Client.{Response, Bus, failed, succeeded, with_info, set_error}
use sqlbus.Client.Json.{Codec}
use sqlbus.Client.Marshall.{check_return_values}

-- An int, as an unsigned int
unfoldable pub to_uint : ℤ → ℕ
to_uint (pos n) = n % 2 ^ 32
to_uint (negsuc n) = 2 ^ 32 - 1 - n % 2 ^ 32

abbrev pub when_ignored : Bool → ℤ
when_ignored true = with_info
when_ignored false = failed

module _ (P : Platform) (C : Codec P) where
  open P use {Item, json_parse, get_object_item}

  -- A response that is being filled, with the values returned so far.
  abbrev pub Filling : Type 0
  Filling = Response P × List ℤ

  -- getCJsonValueAsString, of a root, a key and a place that are not NULL
  unfoldable pub get_string : View → Bool → (Bytes → Response P → Response P) → Filling → Filling
  get_string (text s) ignore put (r, rvs) = (put s r, rvs ++ (succeeded ∷ []))
  get_string _ ignore put (r, rvs) = (r, rvs ++ (when_ignored ignore ∷ []))

  -- getCJsonValueAsNumber
  unfoldable pub get_number : View → Bool → (ℕ → Response P → Response P) → Filling → Filling
  unfolding to_uint
  get_number (numeric i d) ignore put (r, rvs) = (put (to_uint i) r, rvs ++ (succeeded ∷ []))
  get_number _ ignore put (r, rvs) = (r, rvs ++ (when_ignored ignore ∷ []))

  -- getCJsonValueAsArray: the node, or NULL
  unfoldable pub get_array : Option Item → Option Item
  get_array none = none
  get_array (some item) = if Codec.is_array C item then some item else none

  abbrev pub code_of : Option Item → ℤ
  code_of none = failed
  code_of (some item) = succeeded

  -- checkCJsonArrayMemberNumber
  unfoldable pub check_member_number : Option Item → ℕ → ℤ
  check_member_number none cnt = failed
  check_member_number (some item) cnt = if Codec.array_size C item == cnt then succeeded else failed

  -- The entries up to "rows"
  unfoldable pub get_entries : Item → Filling → Filling
  get_entries root f =
      get_number (leaf P root (codes "rows")) false (λ n r. record r { row_counter = n })
        (get_number (leaf P root (codes "fields")) false (λ n r. record r { field_counter = n })
          (get_number (leaf P root (codes "errorid")) true
            (λ n r. record r { message_identification = n })
            (get_number (leaf P root (codes "timestamp")) true (λ n r. record r { timestamp = n })
              (get_number (leaf P root (codes "pid")) true (λ n r. record r { pid = n })
                (get_string (leaf P root (codes "message")) true
                  (λ s r. record r { message_info = live s })
                  (get_string (leaf P root (codes "uuid")) true (λ s r. record r { uuid = live s })
                    (get_string (leaf P root (codes "dbtype")) true
                      (λ s r. record r { database_type = live s })
                      (get_string (leaf P root (codes "app")) true
                        (λ s r. record r { server_name = live s })
                        (get_string (leaf P root (codes "type")) true
                          (λ s r. record r { message_type = live s }) f)))))))))

  abbrev set_response : Bus P → Response P → Bus P
  set_response bus r = record bus { response = r }

  -- The end: the nodes are kept when no value is a failure.
  unfoldable pub keep_nodes : Item → Option Item → Option Item → Filling → Bus P → ℤ × Bus P
  keep_nodes root (some fields) (some rows) (r, rvs) bus =
      if (check_return_values rvs).0 ==ℤ succeeded
      then (
        succeeded,
        set_response bus
            (record r { row_data = live rows; field_data = live fields; reserve_data = live root }),
      )
      else (failed, set_error (set_response bus r))
  keep_nodes root _ _ (r, rvs) bus = (failed, set_error (set_response bus r))

  unfoldable pub unmarshall_root : Item → Bus P → ℤ × Bus P
  unmarshall_root root bus =
      let filled = get_entries root (bus.response, []) in
      let fields = get_array (get_object_item root (codes "field")) in
      let rows = get_array (get_object_item root (codes "result")) in
      keep_nodes root fields rows
        (
          filled.0,
          filled.1
              ++ (code_of fields
                  ∷ code_of rows
                  ∷ check_member_number fields (filled.0).field_counter
                  ∷ check_member_number rows (filled.0).row_counter
                  ∷ []),
        )
        bus

  -- unMarshallJson
  unfoldable pub unmarshall_json : Option Bytes → Bus P → ℤ × Bus P
  unmarshall_json none bus = (failed, bus)
  unmarshall_json (some s) bus = elim (json_parse s) [
    | none ↦ (failed, set_error bus)
    | some root ↦ unmarshall_root root bus
  ]

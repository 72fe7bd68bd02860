-- ===== src/Server/Request.antt =====
-- src/request.c: sqlbus_parse_request and sqlbus_free_request, as actions on the handle.
pub mod Cycle
pub mod Fields
pub mod Fresh
pub mod Release
use sqlbus.Prelude.{
  Bool, true, false, Option, none, some, Bytes, codes, ℤ, ◌==◌, if◌then◌else◌, Status, success,
  failure,
}
use sqlbus.Server.Platform
use sqlbus.Server.Platform.{Platform, View, text, numeric, boolean, object, other}
use sqlbus.Server.State.{Ptr, bad, null, live, Handle}
use sqlbus.Server.Exec.{Out, done, fault, Prog, ◌>>=◌, ◌>>◌}

-- What cJSON_Is… say of the result of cJSON_GetObjectItem; NULL is of no type.
module _ (P : Platform) where
  open P use {Item, json_parse, get_object_item, view}

  abbrev pub leaf : Item → Bytes → View
  leaf root key = elim (get_object_item root key) [ none ↦ other | some item ↦ view item ]

-- One entry of the request: a return of RETURN_FAILURE stops the chain with what was written.
abbrev pub Step : Type 0
Step = Handle → Status × Handle

infixl 6 ◌▸◌
unfoldable pub ◌▸◌ : Status × Handle → Step → Status × Handle
(success, h) ▸ f = f h
(failure, h) ▸ f = (failure, h)

unfoldable pub read_uuid : View → Step
read_uuid (text s) h = (success, record h { uuid = live s })
read_uuid _ h = (failure, h)

unfoldable pub read_app : View → Step
read_app (text s) h = (success, record h { app = live s })
read_app _ h = (failure, h)

unfoldable pub read_pid : View → Step
read_pid (numeric i d) h = (success, record h { pid = i })
read_pid _ h = (failure, h)

unfoldable pub read_type : View → Step
read_type (text s) h = (success, record h { type = live s })
read_type _ h = (failure, h)

-- SQLBUS_SYNC is true.
unfoldable pub read_sync : View → Step
read_sync (boolean b) h = (success, record h { sync = b })
read_sync _ h = (failure, h)

-- The response channel may be left out of an asynchronous request.
unfoldable pub read_rchannel : View → Step
read_rchannel (text s) h = (success, record h { send_channel = live s })
read_rchannel _ h = if h.sync then (failure, h) else (success, h)

-- valuedouble is stored in an int, as the platform converts it.
unfoldable pub read_timestamp : View → Step
read_timestamp (numeric i d) h = (success, record h { timestamp = d })
read_timestamp _ h = (failure, h)

-- The two statements of an object; `kind` is written before they are looked at.
unfoldable pub read_update_insert : View → View → Step
read_update_insert (text u) (text i) h = (success, record h { update = live u; insert = live i })
read_update_insert (text u) _ h = (failure, h)
read_update_insert _ _ h = (failure, h)

unfoldable pub read_statement : View → View → View → Step
unfolding read_update_insert
read_statement (text s) u i h = (success, record h { kind = 1; text = live s })
read_statement object u i h = read_update_insert u i (record h { kind = 2 })
read_statement _ u i h = (failure, h)

module _ (P : Platform) where
  open P use {Item, json_parse, get_object_item}

  -- cJSON_GetObjectItem(leaf, key) for the leaf "STATEMENT"
  abbrev pub statement_leaf : Item → Bytes → View
  statement_leaf root key = elim (get_object_item root (codes "STATEMENT")) [
    | none ↦ other
    | some item ↦ leaf P item key
  ]

  unfoldable pub read_fields : Item → Step
  read_fields root h =
      read_uuid (leaf P root (codes "UUID")) h
      ▸ read_app (leaf P root (codes "APP"))
      ▸ read_pid (leaf P root (codes "PID"))
      ▸ read_type (leaf P root (codes "TYPE"))
      ▸ read_sync (leaf P root (codes "SYNC"))
      ▸ read_rchannel (leaf P root (codes "RCHANNEL"))
      ▸ read_timestamp (leaf P root (codes "TIMESTAMP"))
      ▸ read_statement (leaf P root (codes "STATEMENT")) (statement_leaf root (codes "UPDATE"))
          (statement_leaf root (codes "INSERT"))

  -- What cJSON_Parse makes of the request string.
  unfoldable pub read_request : Option Item → Step
  unfolding read_fields
  read_request none h = (failure, h)
  read_request (some root) h = read_fields root h

  abbrev pub outcome : Status × Handle → Out Handle Status
  outcome (r, h) = done r h

  unfoldable pub parse_string : Ptr Bytes → Prog Handle Status
  unfolding read_request
  parse_string bad h = fault
  parse_string null h = done failure h
  parse_string (live s) h = outcome (read_request (json_parse s) h)

  -- sqlbus_parse_request
  unfoldable pub parse_request : Prog Handle Status
  unfolding parse_string
  parse_request h = parse_string h.request_string h

-- xFree of a pointer field: free, then NULL. Blocks that no field points to, such as the tree of
-- cJSON_Parse, are not in the state.
unfoldable pub free_ptr : {S : Type 0} → (S → Ptr Bytes) → (S → S) → Prog S (Unit {0})
free_ptr field clear s = elim (field s) [
  | bad ↦ fault
  | null ↦ done tt (clear s)
  | live x ↦ done tt (clear s)
]

-- The statement is freed by what `kind` says it is.
unfoldable pub free_statement : Prog Handle (Unit {0})
free_statement h =
    if h.kind == 1
    then free_ptr (λ g. g.text) (λ g. record g { text = null }) h
    else (do
      free_ptr (λ g. g.update) (λ g. record g { update = null })
      free_ptr (λ g. g.insert) (λ g. record g { insert = null }))
        h

-- sqlbus_free_request
unfoldable pub free_request : Prog Handle (Unit {0})
free_request = do
  free_ptr (λ h. h.uuid) (λ h. record h { uuid = null })
  free_ptr (λ h. h.app) (λ h. record h { app = null })
  free_ptr (λ h. h.type) (λ h. record h { type = null })
  free_ptr (λ h. h.send_channel) (λ h. record h { send_channel = null })
  free_ptr (λ h. h.request_string) (λ h. record h { request_string = null })
  free_ptr (λ h. h.response_string) (λ h. record h { response_string = null })
  free_statement

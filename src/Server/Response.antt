-- ===== src/Server/Response.antt =====
-- src/sqlbus.c: sqlbus_generate_response and sqlbus_expire_key. cJSON does not run out of memory
-- before it prints.
pub mod Serving
pub mod Shape
use sqlbus.Prelude.{
  ℕ, zero, suc, ◌+◌, Bool, true, false, Option, none, some, List, [], ◌∷◌, Bytes, codes, ℤ, ◌==ℤ◌,
  if◌then◌else◌, ltb, length, Status, success, failure,
}
use sqlbus.Server.Platform.{Platform, Response}
use sqlbus.Server.State.{
  Ptr, bad, null, live, return_success, return_failure, data_not_found, exec_result_fail,
  exec_result_succ, unique_constraint, is_zero, Handle, Settings, Statement, Cycle,
}
use sqlbus.Server.Exec.{Out, done, fault, waiting, Prog, ◌>>=◌, ◌>>◌, pure, gets, modify}
use sqlbus.Server.Redis.{redis_expire}
use sqlbus.Server.Database.{Act, deref, when_set}
use sqlbus.Server.Database.Execute.{
  db_get_row_count, db_get_field_count, db_get_field_name_idx, db_get_next_row,
  db_get_field_value_idx,
}
use sqlbus.Server.Session.{with_handle}

-- The entry "message"
unfoldable pub message_of : ℤ → Ptr Bytes → Ptr Bytes
message_of code errstr =
    if code ==ℤ exec_result_fail
    then errstr
    else if code ==ℤ unique_constraint
    then live (codes "Duplicate records")
    else if code ==ℤ data_not_found
    then live (codes "Record not found")
    else live []

-- The entry "errorid"
unfoldable pub errorid_of : ℤ → ℤ
errorid_of code =
    if code ==ℤ exec_result_succ
    then return_success
    else if code ==ℤ data_not_found
    then data_not_found
    else return_failure

abbrev pub field_size : ℕ
field_size = 128

abbrev pub value_size : ℕ
value_size = 10000

module _ (P : Platform) where
  open P use {World, print_response}

  -- The arrays field and value, into which the driver writes a string with its end
  abbrev pub fits : {A : Type 0} → ℕ → Bytes → Act P A → Act P A
  fits size s m = if ltb (length s) size then m else (λ w. fault)

  -- The names of the fields from i on, with the buffer that each is read into. None: goto fail.
  unfoldable pub field_names : ℕ → ℕ → Bytes → Act P (Option (List Bytes))
  field_names zero i buf = pure (some [])
  field_names (suc n) i buf = db_get_field_name_idx P i buf >>= λ r. elim (r.0) [
    | success ↦ fits field_size r.1 (
        field_names n (i + 1) r.1 >>= λ rest.
        pure (elim rest [ none ↦ none | some names ↦ some (r.1 ∷ names) ]))
    | failure ↦ fits field_size r.1 (pure none)
  ]

  -- The values of a row from a field on: they, and the buffer behind the last.
  unfoldable pub row_values : ℕ → ℕ → ℕ → Bytes → Act P (Option (List Bytes × Bytes))
  row_values row zero j buf = pure (some ([], buf))
  row_values row (suc n) j buf = db_get_field_value_idx P row j buf >>= λ r. elim (is_zero r.0) [
    | true ↦ fits value_size r.1 (
        row_values row n (j + 1) r.1 >>= λ rest.
        pure (elim rest [ none ↦ none | some vs ↦ some (r.1 ∷ vs.0, vs.1) ]))
    | false ↦ fits value_size r.1 (pure none)
  ]

  -- The rows from i on; what DBGetNextRow returns is not looked at.
  unfoldable pub all_rows : ℕ → ℕ → ℕ → Bytes → Act P (Option (List (List Bytes)))
  all_rows zero i fields buf = pure (some [])
  all_rows (suc n) i fields buf = db_get_next_row P >> row_values i fields 0 buf >>= λ r. elim r [
    | none ↦ pure none
    | some vs ↦ all_rows n (i + 1) fields vs.1 >>= λ rest.
        pure (elim rest [ none ↦ none | some rows ↦ some (vs.0 ∷ rows) ])
  ]

  -- "%s" of a string of the handle; cJSON makes no string of NULL.
  abbrev pub uuid_of : Ptr Bytes → Act P Bytes
  uuid_of bad = λ s. fault
  uuid_of null = pure []
  uuid_of (live s) = pure s

  -- The response is printed; a response that cannot be is a failure.
  unfoldable pub print : Response → Act P Status
  print response = printed (print_response response)
    where
      printed : Option Bytes → Act P Status
      printed none = pure failure
      printed (some text) =
          modify (λ s. record s { handle = record (s.handle) { response_string = live text } })
          >> pure success

  -- The end of sqlbus_generate_response, once everything is read. Where the source jumps to `fail`
  -- before `resp` is initialised, it frees what that variable happens to hold.
  unfoldable pub with_rows :
      Settings → Statement → Bytes → ℕ → ℕ → List Bytes → Option (List (List Bytes)) → Act P Status
  with_rows t st uuid rows fields names none = λ s. fault
  with_rows t st uuid rows fields names (some result) =
      deref P (message_of st.result_code st.errstr) λ message. print (record {
        dbtype = t.dbtype;
        uuid = uuid;
        message = message;
        errorid = errorid_of st.result_code;
        fields = fields;
        field = names;
        rows = rows;
        result = result;
      })

  unfoldable pub with_names :
      Settings → Statement → Bytes → ℕ → ℕ → Option (List Bytes) → Act P Status
  with_names t st uuid rows fields none = λ s. fault
  with_names t st uuid rows fields (some names) =
      all_rows rows 0 fields [] >>= with_rows t st uuid rows fields names

  unfoldable pub with_counts : Settings → Statement → ℕ → ℕ → Act P Status
  with_counts t st rows fields = do
    handle ← gets (λ s. s.handle)
    uuid ← uuid_of (handle.uuid)
    names ← field_names fields 0 []
    with_names t st uuid rows fields names

  -- sqlbus_generate_response
  unfoldable pub generate_response : Settings → Act P Status
  generate_response t = do
    hstmt ← gets (λ s. s.hstmt)
    when_set P hstmt failure (deref P hstmt λ st. generate st)
    where
      generate : Statement → Act P Status
      generate st = do
        rows ← db_get_row_count P
        fields ← db_get_field_count P
        with_counts t st rows.1 fields.1

  -- sqlbus_expire_key
  unfoldable pub expire_key : Settings → Act P Status
  expire_key t = with_handle P (λ h. redis_expire P h.redis h.send_channel t.memcache_rtimeo)

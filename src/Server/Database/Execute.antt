-- ===== src/Server/Database/Execute.antt =====
-- src/driver_manager.c: the functions of a statement.
use sqlbus.Prelude.{
  ℕ, Bool, true, false, Option, none, some, Bytes, ℤ, ◌==ℤ◌, if◌then◌else◌, Status, success,
  failure,
}
use sqlbus.Server.Platform.{Platform, handle_stmt}
use sqlbus.Server.State.{
  Ptr, bad, null, live, return_success, return_failure, data_not_found, exec_result_fail,
  exec_result_succ, is_zero, Statement,
}
use sqlbus.Server.Exec.{◌>>=◌, ◌>>◌, pure, gets, modify}
use sqlbus.Server.Database.{status_of, Act, on_world, deref, when_set, call}

-- The codes that DBGetNextRow passes on; every other is a failure.
unfoldable pub next_row_code : ℤ → ℤ
next_row_code r =
    if r ==ℤ return_failure
    then return_failure
    else if r ==ℤ return_success
    then return_success
    else if r ==ℤ data_not_found
    then data_not_found
    else return_failure

-- The codes that DBGetFieldValueIdx passes on; every other is a success.
unfoldable pub field_value_code : ℤ → ℤ
field_value_code r =
    if r ==ℤ return_failure
    then return_failure
    else if r ==ℤ return_success
    then return_success
    else if r ==ℤ data_not_found
    then data_not_found
    else return_success

module _ (P : Platform) where
  open P use {
    World, malloc, stmt_initialize, stmt_finalize, execute, get_row_count, get_field_count,
    get_field_name, get_next_row, get_field_value_idx, get_error_message, get_connection_status,
    get_execute_result_code,
  }

  abbrev pub put_statement : Ptr Statement → Act P (Unit {0})
  put_statement p = modify (λ s. record s { hstmt = p })

  -- The steps of DBStmtInitialize behind the malloc of the error record and its text, and behind
  -- that of the statement; the pointer of the cycle is NULL when one fails.
  unfoldable pub initialize_statement : Bool → Bool → Act P Status
  initialize_statement true true = do
    initialized ← call P 3 stmt_initialize
    if is_zero initialized
        then (put_statement (live (record { result_code = exec_result_fail; errstr = bad }))
            >> pure success)
        else (put_statement null >> pure failure)
  initialize_statement _ _ = put_statement null >> pure failure

  unfoldable pub allocate_statement_error : Bool → Act P Status
  allocate_statement_error true = do
    error ← on_world P malloc
    errstr ← on_world P malloc
    initialize_statement error errstr
  allocate_statement_error false = put_statement null >> pure failure

  -- DBStmtInitialize
  unfoldable pub db_stmt_initialize : Act P Status
  db_stmt_initialize = do
    hdbc ← gets (λ s. s.hdbc)
    when_set P hdbc failure (on_world P malloc >>= allocate_statement_error)

  -- A function of a statement that is not NULL.
  abbrev pub with_statement : {A : Type 0} → A → (Statement → Act P A) → Act P A
  with_statement a f = do hstmt ← gets (λ s. s.hstmt); when_set P hstmt a (deref P hstmt f)

  -- DBStmtFinalize; the pointer of the cycle is left as it is.
  unfoldable pub db_stmt_finalize : Act P Status
  db_stmt_finalize = with_statement failure λ st.
      (call P 4 stmt_finalize >>= λ r.
      if is_zero r then (modify (λ s. record s { hstmt = bad }) >> pure success) else pure failure)

  -- A call with a pointer to a value: the code, and what then stands there.
  abbrev call_with : {A : Type 0} → ℕ → (World → ℤ × A × World) → Act P (ℤ × A)
  call_with i f = call P i (λ w. let out = f w in ((out.0, out.1), out.2))

  -- What the array holds behind a call that may write a text
  abbrev written : Option Bytes → Ptr Bytes → Ptr Bytes
  written none p = p
  written (some s) p = live s

  -- DBGetErrorMessage of a statement
  unfoldable pub db_get_error_message : Act P Status
  db_get_error_message = with_statement failure λ st.
      (call_with 13 (get_error_message handle_stmt) >>= λ r.
      modify (λ s. record s { hstmt = live (record st { errstr = written r.1 st.errstr }) })
      >> pure (status_of (is_zero r.0)))

  -- DBGetConnectionStatus
  unfoldable pub db_get_connection_status : Act P Status
  db_get_connection_status = do
    hdbc ← gets (λ s. s.hdbc)
    when_set P hdbc failure (
        deref P hdbc λ c.
          (call_with 14 (get_connection_status c.conn_status) >>= λ r.
          modify (λ s. record s { hdbc = live (record c { conn_status = r.1 }) })
          >> pure (status_of (is_zero r.0))))

  -- DBGetExecuteResultCode, with the statement's own result code as the value to write.
  unfoldable pub db_get_execute_result_code : Act P Status
  db_get_execute_result_code = with_statement failure λ st.
      (call_with 15 (get_execute_result_code st.result_code) >>= λ r.
      modify (λ s. record s { hstmt = live (record st { result_code = r.1 }) })
      >> pure (status_of (is_zero r.0)))

  -- A text that is executed by a statement.
  unfoldable pub run_statement : Statement → Bytes → Act P Status
  run_statement st sql = do
    r ← call P 5 (execute sql)
    if is_zero r
        then (modify (λ s. record s { hstmt = live (record st { result_code = exec_result_succ }) })
            >> pure success)
        else (db_get_error_message
            >> db_get_connection_status
            >> db_get_execute_result_code
            >> pure failure)

  -- DBExecute
  unfoldable pub db_execute : Ptr Bytes → Act P Status
  db_execute text =
      with_statement failure λ st. when_set P text failure (deref P text (run_statement st))

  -- DBGetRowCount and DBGetFieldCount, of a count that starts at 0
  unfoldable pub db_get_row_count : Act P (Status × ℕ)
  db_get_row_count =
      with_statement (failure, 0)
        λ st. (call_with 6 (get_row_count 0) >>= λ r. pure (status_of (is_zero r.0), r.1))

  unfoldable pub db_get_field_count : Act P (Status × ℕ)
  db_get_field_count =
      with_statement (failure, 0)
        λ st. (call_with 7 (get_field_count 0) >>= λ r. pure (status_of (is_zero r.0), r.1))

  -- DBGetFieldNameIdx, with the buffer before and after
  unfoldable pub db_get_field_name_idx : ℕ → Bytes → Act P (Status × Bytes)
  db_get_field_name_idx i buf =
      with_statement (failure, buf)
        λ st. (call_with 8 (get_field_name i buf) >>= λ r. pure (status_of (is_zero r.0), r.1))

  -- DBGetNextRow
  unfoldable pub db_get_next_row : Act P ℤ
  db_get_next_row =
      with_statement return_failure λ st. (call P 10 get_next_row >>= λ r. pure (next_row_code r))

  -- DBGetFieldValueIdx
  unfoldable pub db_get_field_value_idx : ℕ → ℕ → Bytes → Act P (ℤ × Bytes)
  db_get_field_value_idx row field buf =
      with_statement (return_failure, buf)
        λ st.
          (call_with 12 (get_field_value_idx row field buf) >>= λ r.
          pure (field_value_code r.0, r.1))

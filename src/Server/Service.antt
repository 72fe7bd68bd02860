-- ===== src/Server/Service.antt =====
-- src/sqlbus.c: sqlbus_execute_statement and sqlbus_main_entry. The endless loops run on fuel: n
-- rounds of a loop that waits for a connection, and as many requests as the main loop is given.
pub mod Delivered
pub mod Dropped
use sqlbus.Prelude.{
  ℕ, zero, suc, Bool, true, false, ◌==◌, ℤ, Bytes, ◌==ℤ◌, if◌then◌else◌, Status, success, failure,
}
use sqlbus.Server.Platform.{Platform}
use sqlbus.Server.State.{
  Ptr, bad, null, live, data_not_found, connection_yes, Handle, Settings, Connection, Statement,
  Cycle,
}
use sqlbus.Server.Exec.{Out, done, fault, waiting, Prog, ◌>>=◌, ◌>>◌, pure, gets, modify}
use sqlbus.Server.Redis.{write_to_redis, write_back_to_redis, recv_from_redis}
use sqlbus.Server.Request.{parse_request, free_request}
use sqlbus.Server.Database.{Act, on_world, deref}
use sqlbus.Server.Database.Execute.{
  db_stmt_initialize, db_stmt_finalize, db_execute, db_get_error_message,
}
use sqlbus.Server.Session.{
  with_handle, in_handle, disconnect_to_database, disconnect_to_memcache, reconnect, first_connect,
  first_memcache, await_redis,
}
use sqlbus.Server.Response.{generate_response, expire_key}

module _ (P : Platform) where
  open P use {World, exit_flag}

  abbrev pub on_handle : {A : Type 0} → Prog Handle A → Act P A
  on_handle m s = elim (m s.handle) [
    | done a h ↦ done a (record s { handle = h })
    | fault ↦ fault
    | waiting ↦ waiting
  ]

  abbrev pub reset_statement : Act P (Unit {0})
  reset_statement = modify (λ s. record s { hstmt = null })

  -- LOG_ERROR of the text of the error, which the driver may not have written
  unfoldable pub log_error : Act P (Unit {0})
  log_error = do hstmt ← gets (λ s. s.hstmt); deref P hstmt λ st. deref P st.errstr λ text. pure tt

  -- A statement that ends the request: when it fails, its error is fetched.
  unfoldable pub run_last : Ptr Bytes → Act P Bool
  run_last text = db_execute P text >>= λ r. elim r [
    | success ↦ pure true
    | failure ↦ db_get_error_message P >> log_error >> pure false
  ]

  unfoldable pub insert : Handle → Statement → Act P Bool
  insert h st = if st.result_code ==ℤ data_not_found then run_last h.insert else pure false

  unfoldable pub not_updated : Handle → Act P Bool
  not_updated h = do
    db_get_error_message P
    log_error
    hstmt ← gets (λ s. s.hstmt)
    deref P hstmt (insert h)

  -- The statements of the request: whether sqlbus_execute_statement returns success at once.
  unfoldable pub run_statements : Handle → Act P Bool
  run_statements h =
      if h.kind == 1
      then run_last h.text
      else (db_execute P h.update >>= λ r. elim r [
        | success ↦ pure false
        | failure ↦ not_updated h
      ])

  -- The request goes back to redis, and the database is connected again.
  unfoldable pub requeue : ℕ → Settings → Act P Status
  requeue n t = do
    db_stmt_finalize P
    reset_statement
    with_handle P (write_back_to_redis P)
    on_handle free_request
    reconnect P n t
    pure success

  unfoldable pub check_connection : ℕ → Settings → Connection → Act P Status
  check_connection n t c = if c.conn_status ==ℤ connection_yes then pure failure else requeue n t

  -- sqlbus_execute_statement
  unfoldable pub execute_statement : ℕ → Settings → Act P Status
  execute_statement n t = do
    h ← gets (λ s. s.handle)
    finished ← run_statements h
    if finished
        then pure success
        else (gets (λ s. s.hdbc) >>= λ hdbc. deref P hdbc (check_connection n t))

  -- LOG_DEBUG of the response string, which "%s" does not allow to be NULL
  unfoldable pub log_response : Act P (Unit {0})
  log_response = do h ← gets (λ s. s.handle); deref P h.response_string λ text. pure tt

  -- The response of a synchronous request
  unfoldable pub answer : Settings → Act P (Unit {0})
  answer t = do
    h ← gets (λ s. s.handle)
    if h.sync
        then (generate_response P t
            >> with_handle P (write_to_redis P)
            >> log_response
            >> expire_key P t
            >> pure tt)
        else pure tt

  -- What the main loop does with a request that was parsed, and has a statement.
  unfoldable pub run : ℕ → Settings → Act P (Unit {0})
  run n t = do
    execute_statement n t
    answer t
    on_handle free_request
    db_stmt_finalize P
    reset_statement

  unfoldable pub with_request : ℕ → Settings → Act P (Unit {0})
  with_request n t = do
    initialized ← db_stmt_initialize P
    elim initialized [ success ↦ run n t | failure ↦ on_handle free_request ]

  -- One turn of the main loop after a request was received.
  unfoldable pub serve : ℕ → Settings → Act P (Unit {0})
  serve n t = do
    parsed ← on_handle (parse_request P)
    elim parsed [ success ↦ with_request n t | failure ↦ on_handle free_request ]

  -- The main loop, for at most m turns.
  unfoldable pub main_loop : ℕ → ℕ → Settings → Act P Status
  main_loop n zero t = λ s. waiting
  main_loop n (suc m) t = on_world P exit_flag >>= λ stop. elim stop [
    | true ↦ disconnect_to_database P >> disconnect_to_memcache P >> pure success
    | false ↦ in_handle P (recv_from_redis P) >>= λ r. elim r [
      | success ↦ serve n t >> main_loop n m t
      | failure ↦ await_redis P n t >>= λ again. elim again [
        | true ↦ main_loop n m t
        | false ↦ pure success
      ]
    ]
  ]

  -- sqlbus_main_entry
  unfoldable pub main_entry : ℕ → ℕ → Settings → Act P Status
  main_entry n m t = do
    first_memcache P n t
    connected ← first_connect P n t
    if connected then main_loop n m t else pure success

-- ===== src/Server/Database.antt =====
-- src/driver_manager.c: environment, connection and statement, on the cycle. Each function takes
-- the handle of the cycle, as the server calls it; hstmt->connection is then the cycle's hdbc.
pub mod Connect
pub mod Execute
pub mod Pointers
use sqlbus.Prelude.{
  ℕ, ◌+◌, Bool, true, false, Option, none, some, List, [], ◌∷◌, Bytes, codes, ℤ, pos, negsuc, ◌==ℤ◌,
  ltb, if◌then◌else◌, length, Status, success, failure,
}
use sqlbus.Config.{Config, Run, ok, overflow, out_of_fuel}
use sqlbus.Config.Parse.{load_config}
use sqlbus.Config.Lookup.{get_config_value}
use sqlbus.Server.Platform.{Platform, HandleType, handle_dbc, handle_stmt, Credentials}
use sqlbus.Server.State.{
  Ptr, bad, null, live, return_success, return_failure, data_not_found, connection_not,
  connection_yes, exec_result_fail, exec_result_succ, is_zero, Handle, Driver, Connection,
  Statement, Cycle,
}
use sqlbus.Server.Exec.{Out, done, fault, Prog, ◌>>=◌, ◌>>◌, pure, gets, modify}
use sqlbus.Server.Catalog.{Expanded, expanded, rejected, undefined, expand_catalog}
use sqlbus.Server.Driver.{load_driver, unload_driver}

-- The places of the template.
abbrev pub status_of : Bool → Status
status_of true = success
status_of false = failure

module _ (P : Platform) where
  open P use {
    World, malloc, open_file, getenv, atoi, new_credentials, connect_initialize, connect,
    disconnect, stmt_initialize, stmt_finalize, execute, get_row_count, get_field_count,
    get_field_name, get_next_row, get_field_value_idx, get_error_message, get_connection_status,
    get_execute_result_code,
  }

  abbrev pub Act : Type 0 → Type 0
  Act A = Prog (Cycle P) A

  abbrev pub on_world : {A : Type 0} → (World → A × World) → Act A
  on_world f s = done (f s.world).0 (record s { world = (f s.world).1 })

  -- A use of what a pointer of the cycle points to.
  abbrev pub deref : {A B : Type 0} → Ptr A → (A → Act B) → Act B
  deref (live a) f = f a
  deref _ f = λ s. fault

  -- A test of a pointer for NULL.
  abbrev pub when_set : {A B : Type 0} → Ptr A → B → Act B → Act B
  when_set bad b m = λ s. fault
  when_set null b m = pure b
  when_set (live a) b m = m

  -- A call of the function at a place of the table of the driver.
  unfoldable pub call : {A : Type 0} → ℕ → (World → A × World) → Act A
  call i f = do
    hdbc ← gets (λ s. s.hdbc)
    deref hdbc λ c. deref (c.driver).functions λ n. if ltb i n then on_world f else (λ s. fault)

  -- What load_config leaves; a failure frees both blocks.
  unfoldable pub set_environment : Run (Status × Config) → Act Status
  set_environment (ok (success, conf)) s = done success (record s { henv = live conf })
  set_environment (ok (failure, conf)) s = done failure s
  set_environment _ s = fault

  unfoldable pub load_environment : Bytes → Act Status
  load_environment catalog = do
    file ← on_world (open_file catalog)
    set_environment (load_config file [])

  -- DBEnvInitialize
  unfoldable pub db_env_initialize : Bytes → Act Status
  db_env_initialize catalog = do
    env ← on_world malloc
    config ← if env then on_world malloc else pure false
    if config then load_environment catalog else pure failure

  -- DBEnvFinalize
  unfoldable pub db_env_finalize : Act Status
  db_env_finalize = do
    henv ← gets (λ s. s.henv)
    when_set henv failure (do modify (λ s. record s { henv = bad }); pure success)

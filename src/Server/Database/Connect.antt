-- ===== src/Server/Database/Connect.antt =====
-- src/driver_manager.c: get_connection_info, DBConnectInitialize, DBConnect, DBDisconnect and
-- DBConnectFinalize.
use sqlbus.Prelude.{
  ℕ, Bool, true, false, Option, none, some, [], Bytes, codes, ℤ, pos, ◌==ℤ◌, ltb, if◌then◌else◌,
  length, Status, success, failure,
}
use sqlbus.Config.{Config}
use sqlbus.Config.Lookup.{get_config_value}
use sqlbus.Server.Platform.{Platform, handle_dbc}
use sqlbus.Server.State.{
  bad, null, live, connection_not, connection_yes, is_zero, Driver, Connection, Settings, Cycle,
}
use sqlbus.Server.Exec.{Out, done, fault, waiting, Prog, ◌>>=◌, ◌>>◌, pure, gets, modify}
use sqlbus.Server.Catalog.{Expanded, expanded, rejected, undefined, expand_catalog}
use sqlbus.Server.Driver.{load_driver, unload_driver}
use sqlbus.Server.Database.{status_of, Act, on_world, deref, when_set, call}

infixl 6 ◌⨾◌
-- The next step, if this one does not return RETURN_FAILURE.
abbrev pub ◌⨾◌ : {S : Type 0} → Prog S Status → Prog S Status → Prog S Status
m ⨾ n = m >>= λ r. elim r [ success ↦ n | failure ↦ pure failure ]

-- The arrays of connection_t but `catalog`.
abbrev array_size : ℕ
array_size = 64

abbrev Setter : Type 0
Setter = Bytes → Connection → Connection

-- sprintf or get_config_value into an array of 64 bytes.
unfoldable pub copy_to : Setter → Bytes → Prog Connection Status
copy_to set s c = if ltb (length s) array_size then done success (set s c) else fault

unfoldable pub from_config : Setter → Status × Bytes → Prog Connection Status
from_config set (success, s) = copy_to set s
from_config set (failure, s) = pure failure

-- A value that the caller gives, or that the section of the data source has.
unfoldable pub read_info : Config → Bytes → Bytes → Setter → Option Bytes → Prog Connection Status
read_info conf dsn key set (some s) = copy_to set s
read_info conf dsn key set none = from_config set (get_config_value (some conf) dsn key [])

abbrev set_port : ℤ → Connection → Connection
set_port p c = record c { credentials = record (c.credentials) { port = p } }

-- The port of the caller if it is not 0, or else of the section, through an array of 64 bytes.
unfoldable pub read_port : (Bytes → ℤ) → Status × Bytes → ℤ → Prog Connection Status
read_port atoi found port c =
    if is_zero port then from_section found else done success (set_port port c)
  where
    from_section : Status × Bytes → Out Connection Status
    from_section (failure, s) = done success (set_port (pos 0) c)
    from_section (success, s) =
        if ltb (length s) array_size then done success (set_port (atoi s) c) else fault

unfoldable pub read_catalog : (Bytes → Option Bytes) → Status × Bytes → Prog Connection Status
read_catalog getenv (failure, s) c = done failure c
read_catalog getenv (success, s) c = stored (expand_catalog getenv s)
  where
    stored : Expanded → Out Connection Status
    stored (expanded path) = done success (record c { catalog = path })
    stored rejected = done failure (record c { catalog = s })
    stored undefined = fault

module _ (P : Platform) where
  open P use {
    World, malloc, getenv, atoi, new_credentials, connect_initialize, connect, disconnect,
    get_error_message,
  }

  -- get_connection_info; a missing database name is no failure.
  unfoldable pub get_connection_info : Config → Settings → Prog Connection Status
  get_connection_info conf t =
      read_info conf t.dbtype (codes "username")
        (λ s c. record c { credentials = record (c.credentials) { username = s } }) t.db_user
      ⨾ read_info conf t.dbtype (codes "password")
          (λ s c. record c { credentials = record (c.credentials) { password = s } }) t.db_auth
      ⨾ read_info conf t.dbtype (codes "server")
          (λ s c. record c { credentials = record (c.credentials) { hostname = s } }) t.db_host
      ⨾ (read_info conf t.dbtype (codes "database")
            (λ s c. record c { credentials = record (c.credentials) { database = s } })
            t.db_database
          >> pure success)
      ⨾ read_port atoi (get_config_value (some conf) t.dbtype (codes "port") []) t.db_port
      ⨾ read_catalog getenv (get_config_value (some conf) t.dbtype (codes "driver") [])

  abbrev pub new_connection : Cycle P → Connection
  new_connection s = record {
    credentials = new_credentials s.world;
    catalog = [];
    conn_status = connection_not;
    driver = record { driver_name = bad; functions = bad; dl_handle = bad };
  }

  -- The steps of DBConnectInitialize behind each malloc: all that was allocated is freed when one
  -- fails. The error record and its text are two blocks, and the allocated driver is not set.
  unfoldable pub set_connection : Bool → Bool → Act P Status
  set_connection true true s = done success (record s { hdbc = live (new_connection s) })
  set_connection _ _ s = done failure (record s { hdbc = null })

  unfoldable pub allocate_error : Bool → Act P Status
  allocate_error true = do
    error ← on_world P malloc
    errstr ← on_world P malloc
    set_connection error errstr
  allocate_error false = modify (λ s. record s { hdbc = null }) >> pure failure

  unfoldable pub allocate_driver : Bool → Act P Status
  allocate_driver true = on_world P malloc >>= allocate_error
  allocate_driver false = modify (λ s. record s { hdbc = null }) >> pure failure

  -- DBConnectInitialize
  unfoldable pub db_connect_initialize : Act P Status
  db_connect_initialize = do
    henv ← gets (λ s. s.henv)
    when_set P henv failure (on_world P malloc >>= allocate_driver)

  -- DBConnectFinalize; the pointer of the cycle is left as it is, and is not valid any more.
  unfoldable pub db_connect_finalize : Act P Status
  db_connect_finalize = do
    hdbc ← gets (λ s. s.hdbc)
    when_set P hdbc failure (do modify (λ s. record s { hdbc = bad }); pure success)

  abbrev put_connection : Connection → Act P (Unit {0})
  put_connection c = modify (λ s. record s { hdbc = live c })

  -- DBGetErrorMessage of the connection, whose text only goes to the log.
  unfoldable pub db_connection_error : Act P Status
  db_connection_error = do
    r ← call P 13 (λ w. let out = get_error_message handle_dbc w in (out.0, out.2))
    pure (status_of (is_zero r))

  -- An action on the connection that the cycle points to.
  unfoldable pub on_connection : Connection → Prog Connection Status → Act P Status
  on_connection c m s = elim (m c) [
    | done a c' ↦ done a (record s { hdbc = live c' })
    | fault ↦ fault
    | waiting ↦ waiting
  ]

  unfoldable pub load_driver_of : Connection → Act P Status
  load_driver_of c s =
      let out = load_driver P c.catalog c.driver s.world in
      done out.0 (record s { hdbc = live (record c { driver = out.1 }); world = out.2 })

  abbrev pub set_status : ℤ → Act P (Unit {0})
  set_status status = do
    hdbc ← gets (λ s. s.hdbc)
    deref P hdbc λ c. put_connection (record c { conn_status = status })

  unfoldable pub login_with : Connection → Act P Status
  login_with c = do
    connected ← call P 1 (connect (c.credentials))
    if is_zero connected
        then (set_status connection_yes >> pure success)
        else (db_connection_error >> set_status connection_not >> pure failure)

  unfoldable pub login : Act P Status
  login = do hdbc ← gets (λ s. s.hdbc); deref P hdbc login_with

  -- What DBConnect does once the driver is loaded.
  unfoldable pub connect_loaded : Act P Status
  connect_loaded = do
    initialized ← call P 0 connect_initialize
    if is_zero initialized then login else (db_connection_error >> pure failure)

  unfoldable pub load : Act P Status
  load = do hdbc ← gets (λ s. s.hdbc); deref P hdbc load_driver_of

  unfoldable pub connect_with : Connection → Config → Settings → Act P Status
  connect_with c conf t = on_connection c (get_connection_info conf t) ⨾ load ⨾ connect_loaded

  -- DBConnect, of a data source that is not NULL.
  unfoldable pub db_connect : Settings → Act P Status
  db_connect t = do
    hdbc ← gets (λ s. s.hdbc)
    when_set P hdbc failure (
        deref P hdbc λ c.
          (gets (λ s. s.henv) >>= λ henv.
          when_set P henv failure (deref P henv λ conf. connect_with c conf t)))

  -- unload_driver, on the driver of the connection.
  unfoldable pub unload : Connection → Act P Status
  unload c s = unloaded (unload_driver c.driver)
    where
      unloaded : Option Driver → Out (Cycle P) Status
      unloaded none = fault
      unloaded (some d) = done success (record s { hdbc = live (record c { driver = d }) })

  -- DBDisconnect; what the driver returns is not looked at.
  unfoldable pub db_disconnect : Act P Status
  db_disconnect = do
    hdbc ← gets (λ s. s.hdbc)
    when_set P hdbc failure (
        deref P hdbc λ c.
          ((if c.conn_status ==ℤ connection_yes then call P 2 disconnect else pure (pos 0))
            >> unload (record c { conn_status = connection_not })))

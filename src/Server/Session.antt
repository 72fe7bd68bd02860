-- ===== src/Server/Session.antt =====
-- src/sqlbus.c: the connections of the server, to the database and to redis.
pub mod Closed
use sqlbus.Prelude.{
  ℕ, zero, suc, Bool, true, false, Option, none, some, Bytes, if◌then◌else◌, Status, success,
  failure,
}
use sqlbus.Server.Platform.{Platform}
use sqlbus.Server.State.{null, Handle, Settings}
use sqlbus.Server.Exec.{done, fault, waiting, Prog, ◌>>=◌, ◌>>◌, pure, gets, modify}
use sqlbus.Server.Redis.{redis_connection, redis_auth, redis_select, check_redis_connection}
use sqlbus.Server.Database.{Act, on_world, when_set, db_env_initialize, db_env_finalize}
use sqlbus.Server.Database.Connect.{
  ◌⨾◌, db_connect_initialize, db_connect, db_disconnect, db_connect_finalize, db_connection_error,
}

module _ (P : Platform) where
  open P use {World, exit_flag, atoi}

  -- An action on a part of the cycle.
  abbrev pub in_world : {A : Type 0} → Prog World A → Act P A
  in_world m s = elim (m s.world) [
    | done a w ↦ done a (record s { world = w })
    | fault ↦ fault
    | waiting ↦ waiting
  ]

  abbrev pub with_handle : {A : Type 0} → (Handle → Prog World A) → Act P A
  with_handle f s = in_world (f s.handle) s

  abbrev pub in_handle : {A : Type 0} → Prog (Handle × World) A → Act P A
  in_handle m s = elim (m (s.handle, s.world)) [
    | done a hw ↦ done a (record s { handle = hw.0; world = hw.1 })
    | fault ↦ fault
    | waiting ↦ waiting
  ]

  -- sqlbus_connect_to_database
  unfoldable pub connect_to_database : Settings → Act P Status
  connect_to_database t =
      db_env_initialize P t.config_file ⨾ db_connect_initialize P ⨾ db_connect P t

  -- sqlbus_disconnect_to_database
  unfoldable pub disconnect_to_database : Act P Status
  disconnect_to_database = do
    hdbc ← gets (λ s. s.hdbc)
    when_set P hdbc failure (disconnect >> db_connect_finalize P >> db_env_finalize P ⨾ reset)
    where
      disconnect : Act P Status
      disconnect = do
        r ← db_disconnect P
        elim r [ success ↦ pure success | failure ↦ db_connection_error P ]

      reset : Act P Status
      reset = modify (λ s. record s { hdbc = null; henv = null }) >> pure success

  abbrev pub set_redis : Bool → Act P (Unit {0})
  set_redis b = modify (λ s. record s { handle = record (s.handle) { redis = b } })

  -- The database is selected, whatever redis answers.
  unfoldable pub select_database : Option Bytes → Act P Status
  select_database none = pure success
  select_database (some database) =
      with_handle (λ h. redis_select P h.redis (atoi database)) >> pure success

  unfoldable pub authenticate : Option Bytes → Act P Status
  authenticate none = pure success
  authenticate (some password) = with_handle (λ h. redis_auth P h.redis (some password))

  -- sqlbus_connect_to_memcache
  unfoldable pub connect_to_memcache : Settings → Act P Status
  connect_to_memcache t = do
    connected ←
        in_world (redis_connection P (some t.memcache_host) t.memcache_port t.memcache_ctimeo)
    set_redis connected
    if connected
        then (authenticate t.memcache_auth ⨾ select_database t.memcache_database)
        else pure failure

  -- sqlbus_disconnect_to_memcache
  unfoldable pub disconnect_to_memcache : Act P Status
  disconnect_to_memcache = do
    h ← gets (λ s. s.handle)
    if h.redis then (set_redis false >> pure success) else pure failure

  -- The loop of sqlbus_execute_statement: whether it ends connected, or because of a signal.
  unfoldable pub reconnect : ℕ → Settings → Act P Bool
  reconnect zero t = λ s. waiting
  reconnect (suc n) t = disconnect_to_database >> connect_to_database t >>= λ r. elim r [
    | success ↦ pure true
    | failure ↦
        on_world P exit_flag >>= λ stop. elim stop [ true ↦ pure false | false ↦ reconnect n t ]
  ]

  -- The loop of sqlbus_main_entry that connects to the database first.
  unfoldable pub first_connect : ℕ → Settings → Act P Bool
  first_connect zero t = λ s. waiting
  first_connect (suc n) t = connect_to_database t >>= λ r. elim r [
    | success ↦ pure true
    | failure ↦ disconnect_to_database >> on_world P exit_flag >>= λ stop. elim stop [
      | true ↦ pure false
      | false ↦ first_connect n t
    ]
  ]

  -- The loop that connects to redis first, which no signal ends.
  unfoldable pub first_memcache : ℕ → Settings → Act P (Unit {0})
  first_memcache zero t = λ s. waiting
  first_memcache (suc n) t =
      connect_to_memcache t >>= λ r. elim r [ success ↦ pure tt | failure ↦ first_memcache n t ]

  -- The loop after a receive that failed: whether the connection to redis answers again, or a
  -- signal has come.
  unfoldable pub await_redis : ℕ → Settings → Act P Bool
  await_redis zero t = λ s. waiting
  await_redis (suc n) t = with_handle (λ h. check_redis_connection P h) >>= λ r. elim r [
    | success ↦ pure true
    | failure ↦ disconnect_to_memcache >> connect_to_memcache t >> on_world P exit_flag >>= λ stop.
        elim stop [ true ↦ pure false | false ↦ await_redis n t ]
  ]

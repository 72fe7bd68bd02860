-- ===== src/Env/Init.antt =====
-- sqlbus_env_init and sqlbus_env_exit. The nodes of the configuration, which unload_config frees, are
-- not in the state.
pub mod Kept
pub mod Failing
use sqlbus.Prelude.{
  ℕ, Bool, true, false, Option, none, some, [], Bytes, codes, ℤ, pos, Status, success, failure,
  is_success, if◌then◌else◌, ◌&&◌,
}
use sqlbus.Config.{Config}
use sqlbus.Config.Lookup.{get_config_value}
use sqlbus.Disk.{Disk}
use sqlbus.Server.State.{Ptr, bad, null, live, is_valid, Handle}
use sqlbus.Server.Exec.{Out, done, fault, waiting, Prog, ◌>>=◌, ◌>>◌, pure, modify}
use sqlbus.Server.Request.{free_ptr}
use sqlbus.Log.Files.{File, Filed, log_close}
use sqlbus.Env.{Logger, Memcache, Source, Setup, Setting, Host, fetch}
use sqlbus.Env.Settings.{env_database_init, env_memcache_init, get_background_running_config}
use sqlbus.Env.Logging.{env_log_init}
use sqlbus.Env.PidFile.{create_pid_file, remove_pid_file}

-- defaultQueue and defaultOperTimeOut
abbrev pub default_queue : Bytes
default_queue = codes "SqlBusDefaultQueue"

abbrev pub oper_timeout : ℕ
oper_timeout = 3

module _ (D : Disk) (H : Host D) where
  open D use {World}
  open H use {malloc, new_logger, new_handle, chdir}

  abbrev Step : Type 0
  Step = Prog (Setting D) (Unit {0})

  abbrev on_cycle : (Setup → Setup) → Step
  on_cycle f = modify (λ s. (f s.0, s.1))

  -- xFree on a string of cycle->db or cycle->memcache
  abbrev free_db : (Source → Ptr Bytes) → (Source → Source) → Step
  free_db field clear =
      free_ptr (λ s. field (s.0).db) (λ s. (record (s.0) { db = clear (s.0).db }, s.1))

  abbrev free_memcache : (Memcache → Ptr Bytes) → (Memcache → Memcache) → Step
  free_memcache field clear =
      free_ptr (λ s. field (s.0).memcache)
        (λ s. (record (s.0) { memcache = clear (s.0).memcache }, s.1))

  -- sqlbus_env_database_free
  unfoldable pub env_database_free : Step
  env_database_free = do
    free_db (λ b. b.type) (λ b. record b { type = null })
    free_db (λ b. b.host) (λ b. record b { host = null })
    free_db (λ b. b.user) (λ b. record b { user = null })
    free_db (λ b. b.auth) (λ b. record b { auth = null })
    free_db (λ b. b.database) (λ b. record b { database = null })

  -- sqlbus_env_memcache_free
  unfoldable pub env_memcache_free : Step
  env_memcache_free = do
    on_cycle (λ c. record c { memcache = record (c.memcache) { port = pos 0; ctimeo = pos 0 } })
    free_memcache (λ m. m.auth) (λ m. record m { auth = null })
    free_memcache (λ m. m.host) (λ m. record m { host = null })
    free_memcache (λ m. m.user) (λ m. record m { user = null })
    free_memcache (λ m. m.database) (λ m. record m { database = null })

  abbrev pub closed : Logger → Setup → Out (Filed D) ℤ → Out (Setting D) (Unit {0})
  closed l c (done rv (f, w)) = done tt (record c { logger = live (record l { file = f }) }, w)
  closed l c fault = fault
  closed l c waiting = waiting

  -- log_close(cycle->logger), which does nothing where that is NULL
  unfoldable pub close_logger : Step
  close_logger (c, w) = elim (c.logger) [
    | bad ↦ fault
    | null ↦ done tt (c, w)
    | live l ↦ closed l c (log_close D (l.file, w))
  ]

  -- cycle->sqlbus is followed to its recv_channel, which is freed.
  unfoldable pub free_channel : Step
  free_channel (c, w) = elim (c.handle) [
    | bad ↦ fault
    | null ↦ fault
    | live h ↦
        if is_valid h.recv_channel
        then done tt (record c { handle = live (record h { recv_channel = null }) }, w)
        else fault
  ]

  abbrev pub free_pid_file : Step
  free_pid_file = free_ptr (λ s. (s.0).pid_file) (λ s. (record (s.0) { pid_file = null }, s.1))

  -- The label error_exit
  unfoldable pub error_exit : Prog (Setting D) Status
  error_exit = do
    close_logger
    env_database_free
    env_memcache_free
    remove_pid_file D H
    free_pid_file
    free_channel
    on_cycle (λ c. record c { logger = null; handle = null })
    pure failure

  -- The steps of sqlbus_env_init, of which each can fail
  abbrev pub or_exit : Status → Prog (Setting D) Status → Prog (Setting D) Status
  or_exit success next = next
  or_exit failure next = error_exit

  abbrev pub change_dir : Status × Bytes → Step
  change_dir (failure, path) (c, w) = done tt (c, w)
  change_dir (success, path) (c, w) = done tt (c, chdir path w)

  -- sqlbus_chg_work_dir
  unfoldable pub chg_work_dir : Config → Step
  chg_work_dir conf = fetch 512 conf (codes "DEFAULT") (codes "chdir") [] >>= change_dir

  unfoldable pub set_handle : Step
  set_handle (c, w) = elim (c.handle) [
    | bad ↦ fault
    | null ↦ fault
    | live h ↦ done tt (
      record c {
        handle = live (record h { recv_channel = live default_queue; oper_timeout = oper_timeout });
      },
      w,
    )
  ]

  -- From sqlbus_chg_work_dir on, with a logger as malloc leaves it
  unfoldable pub env_steps : Config → Logger → Prog (Setting D) Status
  env_steps conf l = chg_work_dir conf >> env_log_init D conf l >>= λ logged. or_exit logged (
      create_pid_file D H conf >>= λ created. or_exit created (
        env_database_init World conf >>= λ database. or_exit database (
          env_memcache_init World conf >>= λ memcache.
          or_exit memcache
            (get_background_running_config World conf >> set_handle >> pure success))))

  abbrev pub with_memory : Ptr Config → Bool → Bool → Setup → World → Out (Setting D) Status
  with_memory (live conf) true true c w =
      env_steps conf (new_logger w)
        (record c { logger = live (new_logger w); handle = live (new_handle w) }, w)
  with_memory _ _ _ c w = done failure (record c { logger = null; handle = null }, w)

  -- sqlbus_env_init
  unfoldable pub env_init : Prog (Setting D) Status
  env_init (c, w) =
      let logger = malloc w in
      let handle = malloc logger.1 in with_memory c.config logger.0 handle.0 c handle.1

  -- sqlbus_env_exit
  unfoldable pub env_exit : Prog (Setting D) Status
  env_exit = do
    env_database_free
    env_memcache_free
    remove_pid_file D H
    close_logger
    free_pid_file
    free_ptr (λ s. (s.0).config_file) (λ s. (record (s.0) { config_file = null }, s.1))
    free_channel
    on_cycle (λ c. record c { handle = null; logger = null; config = null })
    pure success

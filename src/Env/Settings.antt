-- ===== src/Env/Settings.antt =====
-- The parts of the set-up that read the configuration.
pub mod Fetched
pub mod Configured
use sqlbus.Prelude.{
  ℕ, Bool, true, false, Option, none, some, List, [], ◌∷◌, Bytes, codes, ℤ, pos, negsuc, ◌==ℤ◌,
  Status, success, failure, is_success, is_empty, strcasecmp_eq, strcmp_eq, if◌then◌else◌, ◌||◌,
  ◌&&◌, not,
}
use sqlbus.Config.{Config}
use sqlbus.Config.Lookup.{check_config_is_section_exist}
use sqlbus.Disk.{Disk}
use sqlbus.Server.State.{Ptr, bad, null, live, is_valid}
use sqlbus.Server.Exec.{Out, done, fault, waiting, Prog, ◌>>=◌, ◌>>◌, pure, modify, resume}
use sqlbus.Log.{
  Level, log_err, log_warning, log_info, log_debug, log_parse_maxsize, log_parse_crontime,
  log_level_string_to_type,
}
use sqlbus.Log.Write.{value}
use sqlbus.Log.Files.{File, Filed, log_open}
use sqlbus.Env.{Logger, Memcache, Source, Setup, Setting, Host, fetch, number_of}

module _ (W : Type 0) where
  abbrev pub Reading : Type 0 → Type 0
  Reading = Prog (Setup × W)

  abbrev pub on_cycle : (Setup → Setup) → Reading (Unit {0})
  on_cycle f = modify (λ s. (f s.0, s.1))

  abbrev pub store_database : Bytes → Bytes → Bytes → Bytes → Setup → Setup
  store_database type user auth inst c = record c {
    db = record (c.db) {
      type = live type;
      user = live user;
      auth = live auth;
      database = live inst;
    };
  }

  -- The keys of the section of the database
  unfoldable pub read_database : Config → Bytes → Reading Status
  read_database conf db = do
    user ← fetch 64 conf db (codes "username") []
    auth ← fetch 64 conf db (codes "password") []
    inst ← fetch 64 conf db (codes "database") []
    on_cycle (store_database db user.1 auth.1 inst.1)
    pure success

  abbrev pub if_there : Config → Bytes → Reading Status → Reading Status
  if_there conf name next =
      if is_success (check_config_is_section_exist (some conf) (some name))
      then next
      else pure failure

  unfoldable pub choose_database : Config → Bytes → Reading Status
  choose_database conf [] = pure failure
  choose_database conf (c ∷ db) = if_there conf (c ∷ db) (read_database conf (c ∷ db))

  -- sqlbus_env_database_init, of a cycle with a configuration
  unfoldable pub env_database_init : Config → Reading Status
  env_database_init conf =
      fetch 64 conf (codes "default") (codes "database") [] >>= λ db. choose_database conf db.1

  abbrev pub store_memcache : Bytes → Bytes → Bytes → ℤ → ℤ → Setup → Setup
  store_memcache host auth database port ctimeo c = record c {
    memcache = record (c.memcache) {
      host = live host;
      auth = live auth;
      database = live database;
      port = port;
      ctimeo = ctimeo;
    };
  }

  abbrev pub set_rtimeo : ℤ → Setup → Setup
  set_rtimeo n c = record c { memcache = record (c.memcache) { rtimeo = n } }

  abbrev pub take_rtimeo : Status × Bytes → Reading Status
  take_rtimeo (failure, s) = pure success
  take_rtimeo (success, s) = number_of s >>= λ n. on_cycle (set_rtimeo n) >> pure success

  -- The keys of the section of redis
  unfoldable pub read_memcache : Config → Bytes → Reading Status
  read_memcache conf name = do
    host ← fetch 64 conf name (codes "host") (codes "127.0.0.1")
    port ← fetch 64 conf name (codes "port") (codes "6379")
    auth ← fetch 64 conf name (codes "password") []
    database ← fetch 64 conf name (codes "database") (codes "0")
    conn ← fetch 64 conf name (codes "ConnectTimeout") (codes "5")
    p ← number_of port.1
    t ← number_of conn.1
    on_cycle (store_memcache host.1 auth.1 database.1 p t)
    resp ← fetch 64 conf name (codes "ResponseTimeout") []
    take_rtimeo resp

  -- sqlbus_env_memcache_init, of a cycle with a configuration
  unfoldable pub env_memcache_init : Config → Reading Status
  env_memcache_init conf =
      fetch 64 conf (codes "default") (codes "memcache") (codes "redis") >>= λ name.
      if_there conf name.1 (read_memcache conf name.1)

  -- sqlbus_get_background_running_config, of a cycle with a configuration
  unfoldable pub get_background_running_config : Config → Reading Status
  get_background_running_config conf = do
    found ← fetch 64 conf (codes "default") (codes "daemonize") []
    if strcmp_eq found.1 (codes "0") || strcmp_eq found.1 (codes "1")
        then (number_of found.1 >>= λ n. on_cycle (λ c. record c { daemonize = n }) >> pure success)
        else pure failure

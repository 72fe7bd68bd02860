-- ===== src/Env/Settings/Configured.antt =====
-- sqlbus_env_database_init and sqlbus_env_memcache_init, on every branch, where the values of the
-- configuration fit the arrays.
use sqlbus.Prelude.{
  ◌<◌, ◌≡◌, refl, ap, ◌∙◌, Bool, true, false, some, [], ◌∷◌, Bytes, codes, ℤ, Status, success,
  failure, is_success, is_empty, if◌then◌else◌, length, ◌||◌, not, arith,
}
use sqlbus.Config.{Config}
use sqlbus.Config.Lookup.{get_config_value, check_config_is_section_exist}
use sqlbus.Server.State.{live}
use sqlbus.Server.Exec.{Out, done, resume, pure}
use sqlbus.Env.{Memcache, Source, Setup, fetch}
use sqlbus.Env.Settings.{Reading, read_database, choose_database, env_database_init}
use sqlbus.Env.Settings.Fetched.{is_short, text, fetch-short}

module _ (W : Type 0) (conf : Config) (short : is_short 64 conf ≡ true) where
  -- A value that is read, and what follows
  after_fetch :
      {A : Type 0} (section key value : Bytes) (next : Status × Bytes → Reading W A) (s : Setup × W)
      → length value < 64
      → resume (fetch 64 conf section key value s) next
        ≡ next (get_config_value (some conf) section key value) s
  after_fetch section key value next s fits =
      ap (λ o. resume o next) (fetch-short 64 conf section key value s short fits)

  abbrev pub value_in : Bytes → Bytes → Bytes
  value_in section key = text conf section key []

  abbrev pub is_section_there : Bytes → Bool
  is_section_there name = is_success (check_config_is_section_exist (some conf) (some name))

  -- The data source of a section
  abbrev pub source_in : Bytes → Source → Source
  source_in db b = record b {
    type = live db;
    user = live (value_in db (codes "username"));
    auth = live (value_in db (codes "password"));
    database = live (value_in db (codes "database"));
  }

  -- The name of the database that is configured
  abbrev pub database_name : Bytes
  database_name = value_in (codes "default") (codes "database")

  read_database-source_in :
      (db : Bytes) (c : Setup) (w : W)
      → read_database W conf db (c, w) ≡ done success (record c { db = source_in db c.db }, w)
  unfolding read_database
  read_database-source_in db c w =
      after_fetch db (codes "username") [] _ (c, w) (omega arith)
      ∙ after_fetch db (codes "password") [] _ (c, w) (omega arith)
      ∙ after_fetch db (codes "database") [] _ (c, w) (omega arith)

  choose_database-source_in :
      (db : Bytes) (c : Setup) (w : W)
      → choose_database W conf db (c, w) ≡ (
          if is_empty db || not (is_section_there db)
          then done failure (c, w)
          else done success (record c { db = source_in db c.db }, w))
  unfolding choose_database
  choose_database-source_in [] c w = refl
  choose_database-source_in (x ∷ db) c w =
      go (is_section_there (x ∷ db)) (read_database-source_in (x ∷ db) c w)
    where
      go :
          (b : Bool) {t : Out (Setup × W) Status}
          → read_database W conf (x ∷ db) (c, w) ≡ t
          → (if b then read_database W conf (x ∷ db) else pure failure) (c, w)
            ≡ (if not b then done failure (c, w) else t)
      go true e = e
      go false e = refl

  -- If every value has fewer than 64 bytes, sqlbus_env_database_init fails and changes nothing if no
  -- database is configured or its section is missing, and else succeeds with the values of that
  -- section, the empty string for a key that it does not have.
  pub env_database_init-source_in :
      (c : Setup) (w : W)
      → env_database_init W conf (c, w) ≡ (
          if is_empty database_name || not (is_section_there database_name)
          then done failure (c, w)
          else done success (record c { db = source_in database_name c.db }, w))
  unfolding env_database_init
  env_database_init-source_in c w =
      after_fetch (codes "default") (codes "database") [] _ (c, w) (omega arith)
      ∙ choose_database-source_in database_name c w

  -- The name of the section of redis
  abbrev pub memcache_name : Bytes
  memcache_name = text conf (codes "default") (codes "memcache") (codes "redis")

  -- The connection of a section, with its numbers
  abbrev pub memcache_in : Bytes → ℤ → ℤ → ℤ → Memcache → Memcache
  memcache_in name port ctimeo rtimeo m = record m {
    host = live (text conf name (codes "host") (codes "127.0.0.1"));
    auth = live (value_in name (codes "password"));
    database = live (text conf name (codes "database") (codes "0"));
    port = port;
    ctimeo = ctimeo;
    rtimeo =
        if is_success (get_config_value (some conf) name (codes "ResponseTimeout") []).0
        then rtimeo
        else m.rtimeo;
  }

-- ===== src/Tests/Env.antt =====
-- Tests of the set-up of the server, with a configuration like sqlbus.ini.
use sqlbus.Prelude.{
  ℕ, ◌≡◌, refl, true, false, none, some, [], ◌∷◌, Bytes, codes, pos, success, failure,
  strcasecmp_eq, tolower,
}
use sqlbus.Config.{ConfPair, Config}
use sqlbus.Config.Lookup.{
  find_section, find_pair, get_config_section, get_config_pair, get_config_value,
  check_config_is_section_exist,
}
use sqlbus.Server.State.{bad, null, live, Handle}
use sqlbus.Server.Exec.{done}
use sqlbus.Env.{Logger, Setup, Host}
use sqlbus.Env.Arguments.{Opt, returned, set_option, parse_env_cmd_args}
use sqlbus.Env.Arguments.Order.{DaemonizedBy, parse_env_cmd_args-DaemonizedBy}
use sqlbus.Env.Settings.{env_database_init}
use sqlbus.Env.Settings.Configured.{env_database_init-source_in}
use sqlbus.Env.Init.{env_init}
use sqlbus.Env.Init.Failing.{NeverFails, env_init-NeverFails}
use sqlbus.Tests.Storage.{Store, storage}

abbrev pair : Bytes → Bytes → ConfPair
pair name value = record { name = name; value = value }

abbrev sqlbus_ini : Config
sqlbus_ini =
    record { name = codes "Default"; pair = pair (codes "Database") (codes "oracle") ∷ [] }
    ∷ record {
      name = codes "oracle";
      pair = pair (codes "username") (codes "scott") ∷ pair (codes "database") (codes "orcl") ∷ [];
    }
    ∷ record { name = codes "redis"; pair = pair (codes "port") (codes "6380") ∷ [] }
    ∷ []

abbrev pub new_setup : Setup
new_setup = record {
  config = live sqlbus_ini;
  logger = null;
  handle = null;
  debug = false;
  daemonize = pos 0;
  pid_file = null;
  config_file = null;
  memcache = record {
    host = null;
    user = null;
    auth = null;
    database = null;
    port = pos 6379;
    ctimeo = pos 0;
    rtimeo = pos 600;
  };
  db = record { type = null; host = null; user = null; auth = null; database = null };
}

-- What malloc leaves: pointers that are not valid
abbrev pub new_handle : Handle
new_handle = record {
  redis = false;
  sync = false;
  priority = 0;
  timestamp = pos 0;
  oper_timeout = 0;
  pid = pos 0;
  app = bad;
  type = bad;
  uuid = bad;
  send_channel = bad;
  recv_channel = bad;
  request_string = bad;
  response_string = bad;
  kind = 0;
  update = bad;
  insert = bad;
  text = bad;
}

abbrev pub new_logger : Logger
new_logger = record {
  file = record {
    fd = none;
    inode = 0;
    level = 0;
    maxsize = 0;
    cron = 0;
    catalog = bad;
    file = bad;
  };
  trace = false;
  feed = false;
  stdio = false;
}

abbrev computer : Host storage
computer = record {
  malloc = λ w. (true, w);
  new_logger = λ w. new_logger;
  new_handle = λ w. new_handle;
  chdir = λ p w. w;
  access = λ p w. (true, w);
  dirname = λ p. codes "/var/run";
  open_truncate = λ p w. (some (pos 4), w);
  write = λ fd s w. w;
  remove = λ p w. w;
  getpid = 42;
}

abbrev empty_store : Store
empty_store = record { files = []; opened = λ fd. none; next = 1 }

abbrev opt : ℕ → Opt
opt c = record { code = c; optarg = [] }

parse_env_cmd_args-DaemonizedBy_example :
    DaemonizedBy
      (opt b'f' ∷ opt b'd' ∷ opt b'b' ∷ [])
      (pos 0)
      (parse_env_cmd_args (opt b'f' ∷ opt b'd' ∷ opt b'b' ∷ []) new_setup)
parse_env_cmd_args-DaemonizedBy_example =
    parse_env_cmd_args-DaemonizedBy (opt b'f' ∷ opt b'd' ∷ opt b'b' ∷ []) new_setup refl

-- -k, which the help mentions, is refused.
kill_refused : parse_env_cmd_args (opt b'k' ∷ []) new_setup ≡ returned failure new_setup
unfolding parse_env_cmd_args set_option
kill_refused = refl

env_database_init-source_in_example :
    env_database_init Store sqlbus_ini (new_setup, empty_store)
    ≡ done success (
      record new_setup {
        db = record (new_setup.db) {
          type = live (codes "oracle");
          user = live (codes "scott");
          auth = live [];
          database = live (codes "orcl");
        };
      },
      empty_store,
    )
unfolding get_config_value get_config_section get_config_pair find_section find_pair
    check_config_is_section_exist strcasecmp_eq tolower
env_database_init-source_in_example =
    env_database_init-source_in Store sqlbus_ini refl new_setup empty_store

env_init-NeverFails_example :
    NeverFails storage computer (env_init storage computer (new_setup, empty_store))
env_init-NeverFails_example =
    env_init-NeverFails storage computer sqlbus_ini new_setup empty_store refl refl refl (λ u. refl)

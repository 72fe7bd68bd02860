-- ===== src/Env/Arguments.antt =====
-- sqlbus_parse_env_cmd_args: what getopt_long yields, one option after the other.
pub mod Order
use sqlbus.Prelude.{
  ℕ, Bool, true, false, Option, none, some, List, [], ◌∷◌, Bytes, ℤ, pos, negsuc, ◌==ℤ◌, ◌==◌,
  Status, success, failure, if◌then◌else◌,
}
use sqlbus.Server.State.{Ptr, live}
use sqlbus.Env.{Setup}

-- An option and its argument. The help ends the process.
pub record Opt : Type 0 where
  pub code : ℕ
  pub optarg : Bytes

-- How the loop ends: with a result, or in exit.
pub data Parsed : Type 0 where
  returned : Status → Setup → Parsed
  exited : Parsed

-- -f, and -b where -f has not been given
abbrev foreground : Setup → Setup
foreground c = record c { daemonize = negsuc 0 }

abbrev background : Setup → Setup
background c = if c.daemonize ==ℤ negsuc 0 then c else record c { daemonize = pos 1 }

-- One option; none for those that end the loop with RETURN_FAILURE
unfoldable pub set_option : Opt → Setup → Option Setup
set_option o c =
    if o.code == b'c'
    then some (record c { config_file = live o.optarg })
    else if o.code == b'd'
    then some (record c { debug = true })
    else if o.code == b'f'
    then some (foreground c)
    else if o.code == b'b'
    then some (background c)
    else if o.code == b'p'
    then some (record c { pid_file = live o.optarg })
    else none

-- sqlbus_parse_env_cmd_args, with at least one argument
unfoldable pub parse_env_cmd_args : List Opt → Setup → Parsed
parse_env_cmd_args [] c = returned success c
parse_env_cmd_args (o ∷ opts) c =
    if o.code == b'h'
    then exited
    else elim (set_option o c) [ none ↦ returned failure c | some d ↦ parse_env_cmd_args opts d ]

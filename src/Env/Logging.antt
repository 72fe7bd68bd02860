-- ===== src/Env/Logging.antt =====
-- sqlbus_env_log_init: the options of the log, and the file that it is opened on.
use sqlbus.Prelude.{
  ℕ, Bool, Option, none, some, Bytes, codes, ℤ, pos, ◌==ℤ◌, Status, success, failure, strcasecmp_eq,
  if◌then◌else◌, ◌||◌, ◌&&◌, not,
}
use sqlbus.Config.{Config}
use sqlbus.Disk.{Disk}
use sqlbus.Server.State.{live}
use sqlbus.Server.Exec.{Out, done, fault, waiting, Prog, ◌>>=◌}
use sqlbus.Log.{log_parse_maxsize, log_parse_crontime, log_level_string_to_type}
use sqlbus.Log.Write.{value}
use sqlbus.Log.Files.{Filed, log_open}
use sqlbus.Env.{Logger, Setup, Setting, fetch}

-- The texts of the section LOG
pub record LogTexts : Type 0 where
  pub level : Bytes
  pub trace : Bytes
  pub catalog : Bytes
  pub logfile : Bytes
  pub feedline : Bytes
  pub crontime : Bytes
  pub maxsizes : Bytes

abbrev pub is_on : Bytes → Bool
is_on s = strcasecmp_eq s (codes "YES") || strcasecmp_eq s (codes "ON")

-- The options; with -d, and no empty lines, the place in the source is written.
unfoldable pub set_options : LogTexts → Bool → Bool → ℕ → ℕ → Logger → Logger
set_options t background debug cron maxsize l = record l {
  file = record (l.file) {
    cron = cron;
    level = value (log_level_string_to_type (some t.level));
    maxsize = maxsize;
  };
  feed = is_on t.feedline;
  trace = is_on t.trace || (not (is_on t.feedline) && debug);
  stdio = not background;
}

-- The numbers that are read in the texts; none where C leaves them undefined
abbrev pub numbers : Option ℕ → Option ℕ → Option (ℕ × ℕ)
numbers (some cron) (some maxsize) = some (cron, maxsize)
numbers _ _ = none

-- A process in the foreground writes to /dev/stdout.
abbrev pub log_catalog : Bool → LogTexts → Bytes
log_catalog background t = if background then t.catalog else codes "/dev"

abbrev pub log_name : Bool → LogTexts → Bytes
log_name background t = if background then t.logfile else codes "stdout"

module _ (D : Disk) where
  -- log_open, on the file of the logger
  abbrev pub opened : Logger → Setup → Out (Filed D) ℤ → Out (Setting D) Status
  opened l c (done rv (f, w)) =
      done (if rv ==ℤ pos 0 then success else failure)
        (record c { logger = live (record l { file = f }) }, w)
  opened l c fault = fault
  opened l c waiting = waiting

  unfoldable pub open_logger : Bytes → Bytes → Logger → Prog (Setting D) Status
  open_logger catalog name l (c, w) = opened l c (log_open D catalog name (l.file, w))

  -- From the texts on
  unfoldable pub set_up : LogTexts → Logger → Prog (Setting D) Status
  set_up t l (c, w) =
      let background = c.daemonize ==ℤ pos 1 in
      elim (numbers (log_parse_crontime (some t.crontime)) (log_parse_maxsize (some t.maxsizes))) [
        | none ↦ fault
        | some (cron, maxsize) ↦
            open_logger (log_catalog background t) (log_name background t)
              (set_options t background c.debug cron maxsize l) (c, w)
      ]

  -- sqlbus_env_log_init, with a logger as malloc leaves it
  unfoldable pub env_log_init : Config → Logger → Prog (Setting D) Status
  env_log_init conf l = do
    level ← fetch 64 conf (codes "LOG") (codes "Level") (codes "INFO")
    trace ← fetch 64 conf (codes "LOG") (codes "Trace") (codes "NO")
    catalog ← fetch 128 conf (codes "LOG") (codes "Catalog") (codes "/tmp/sqlbus")
    maxsizes ← fetch 32 conf (codes "LOG") (codes "MaxSize") (codes "20mb")
    logfile ← fetch 128 conf (codes "LOG") (codes "FileName") (codes "sqlbus.log")
    crontime ← fetch 32 conf (codes "LOG") (codes "RolateCron") (codes "00:00:00")
    feedline ← fetch 64 conf (codes "LOG") (codes "SpaceLineAfterLog") (codes "YES")
    set_up
        (record {
          level = level.1;
          trace = trace.1;
          catalog = catalog.1;
          logfile = logfile.1;
          feedline = feedline.1;
          crontime = crontime.1;
          maxsizes = maxsizes.1;
        })
        l

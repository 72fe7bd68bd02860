-- ===== src/Tests/Running.antt =====
-- The file with the number of a server, in a world of files of one line.
use sqlbus.Prelude.{
  refl, Bool, true, false, Option, none, some, [], ◌∷◌, Bytes, codes, pos, strcmp_eq, strcmp_refl,
  if◌then◌else◌,
}
use sqlbus.Config.{Config}
use sqlbus.Disk.{Disk}
use sqlbus.Env.{Host}
use sqlbus.Env.Running.{Lines}
use sqlbus.Env.Running.Found.{Paper}
use sqlbus.Tests.Env.{new_logger, new_handle}

-- The line of every file, and the file that was opened last
record Files : Type 0 where
  line : Bytes → Option Bytes
  last : Bytes

abbrev is_there : Option Bytes → Bool
is_there none = false
is_there (some s) = true

unfoldable put : Bytes → Bytes → (Bytes → Option Bytes) → Bytes → Option Bytes
put p s lines q = if strcmp_eq q p then some s else lines q

abbrev disk : Disk
disk = record {
  World = Files;
  errno = λ w. pos 0;
  clear_errno = λ w. w;
  stat = λ p w. (none, w);
  fstat = λ fd w. (none, w);
  open_append = λ p w. (none, w);
  close = λ fd w. w;
  fsync = λ fd w. w;
  rename = λ p q w. w;
  mkdir = λ p mode w. (false, w);
  chmod = λ p mode w. w;
  list_dir = λ p w. (none, w);
  add_watch = λ fd p w. w;
  rm_watch = λ fd wd w. w;
  time = λ w. (0, w);
  mktime = λ n. n;
}

abbrev host : Host disk
host = record {
  malloc = λ w. (true, w);
  new_logger = λ w. new_logger;
  new_handle = λ w. new_handle;
  chdir = λ p w. w;
  access = λ p w. (is_there (w.line p), w);
  dirname = λ p. codes "/run";
  open_truncate = λ p w. (some (pos 4), record w { last = p });
  write = λ fd s w. record w { line = put w.last s w.line };
  remove = λ p w. w;
  getpid = 42;
}

abbrev lines : Lines disk
lines = record { read_line = λ mode n p w. (w.line p, w) }

paper : Paper disk host lines
unfolding put
paper = record {
  line = λ w p. w.line p;
  access_reply = λ p s w e. rw e refl;
  access_line = λ p q w. refl;
  read_reply = λ mode p s n w e fits. e;
  read_missing = λ mode p n w e. e;
  read_kept = λ mode p q n w. refl;
  written = λ p s fd w e. rw (strcmp_refl p) refl;
  written_others = λ p q s fd w e apart. rw apart refl;
}

abbrev conf : Config
conf =
    record {
      name = codes "default";
      pair = record { name = codes "pidfile"; value = codes "/run/bus.pid" } ∷ [];
    }
    ∷ []

-- A world with the directory and the command line of the process 42
abbrev machine : Files
machine = record {
  line =
      put (codes "/run") [] (put (codes "/proc/42/cmdline") (codes "sqlbus: server") (λ p. none));
  last = [];
}

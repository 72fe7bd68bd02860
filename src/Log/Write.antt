-- ===== src/Log/Write.antt =====
-- log_write around its line: the level, the mutex and the system call.
use sqlbus.Prelude.{
  ℕ, suc, ◌≤◌, ◌≡◌, ◌∙◌, ap, Bool, true, false, Option, none, some, Bytes, ℤ, pos, negsuc, ltb,
  length, take, ◌++◌, take_all, if◌then◌else◌, arith,
}
use sqlbus.Server.Exec.{Out, done, fault, waiting, Prog, ◌>>=◌, resume}
use sqlbus.Log.{Level, log_err, log_warning, log_info, log_debug}
use sqlbus.Log.Line.{Buffer, buffer_max, header, line_end, log_line, log_line-cut}

-- The value of a level
abbrev pub value : Level → ℕ
value log_err = 0
value log_warning = 1
value log_info = 2
value log_debug = 3

-- The options of sqlbus_log_t
pub record Meta : Type 0 where
  pub level : ℕ
  pub trace : Bool
  pub feed : Bool

-- A message: the time, the level, the place in the source, printed, and the text
pub record Message : Type 0 where
  pub time : Bytes
  pub level : Level
  pub place : Bytes
  pub text : Bytes

abbrev pub place_of : Meta → Message → Option Bytes
place_of meta m = if meta.trace then some m.place else none

-- write, on the descriptor of the log, and errno behind it
module _ (World : Type 0) (write : Bytes → World → ℤ × World) (errno : World → ℤ) where
  -- The mutex is locked, or not.
  abbrev pub Logged : Type 0
  Logged = Bool × World

  -- The end of log_write: only where write has written something, the mutex is unlocked.
  abbrev pub written : ℤ × World → Out Logged ℤ
  written (pos (suc n), w) = done (pos 0) (false, w)
  written (_, w) = done (errno w) (true, w)

  abbrev pub write_locked : Bytes → Prog Logged ℤ
  write_locked bytes (true, w) = waiting
  write_locked bytes (false, w) = written (write bytes w)

  abbrev pub write_line : Option Buffer → Prog Logged ℤ
  write_line none s = fault
  write_line (some (line, size)) s = write_locked (take size line) s

  unfoldable pub log_write : Meta → Message → Prog Logged ℤ
  log_write meta m s =
      if ltb meta.level (value m.level)
      then done (pos 0) s
      else write_line (log_line m.time m.level (place_of meta m) meta.feed m.text) s

  -- The line of a message
  abbrev pub line_of : Meta → Message → Bytes
  line_of meta m =
      take 3996 (header m.time m.level (place_of meta m) ++ m.text) ++ line_end meta.feed

  write_line-exact :
      (line : Bytes) (s : Logged) → write_line (some (line, length line)) s ≡ write_locked line s
  write_line-exact line s = ap (λ b. write_locked b s) (take_all (length line) line (omega arith))

  -- A message whose level is enabled and whose header has at most BUFFER_MAX bytes is handed to
  -- write as one line, cut to 3996 bytes and the line ends; a message that is not enabled changes
  -- nothing.
  pub log_write-line :
      (meta : Meta) (m : Message) (s : Logged)
      → length (header m.time m.level (place_of meta m)) ≤ buffer_max
      → log_write meta m s ≡ (
          if ltb meta.level (value m.level)
          then done (pos 0) s
          else write_locked (line_of meta m) s)
  unfolding log_write
  log_write-line meta m s room =
      ap (λ o. if ltb meta.level (value m.level) then done (pos 0) s else o)
        (ap (λ o. write_line o s)
            (log_line-cut m.time m.level (place_of meta m) meta.feed m.text room)
          ∙ write_line-exact (line_of meta m) s)

  log_write-enabled :
      (meta : Meta) (m : Message) (s : Logged)
      → ltb meta.level (value m.level) ≡ false
      → length (header m.time m.level (place_of meta m)) ≤ buffer_max
      → log_write meta m s ≡ write_locked (line_of meta m) s
  log_write-enabled meta m s enabled room =
      log_write-line meta m s room
      ∙ ap (λ b. if b then done (pos 0) s else write_locked (line_of meta m) s) enabled

  written-failed : (o : ℤ × World) → o.0 ≡ negsuc 0 → written o ≡ done (errno o.1) (true, o.1)
  written-failed o e = ap (λ r. written (r, o.1)) e

  -- When write fails, the mutex stays locked: the next message that is enabled waits for ever.
  pub log_write-locked :
      (meta : Meta) (m n : Message) (w : World)
      → ltb meta.level (value m.level) ≡ false
      → ltb meta.level (value n.level) ≡ false
      → length (header m.time m.level (place_of meta m)) ≤ buffer_max
      → length (header n.time n.level (place_of meta n)) ≤ buffer_max
      → (write (line_of meta m) w).0 ≡ negsuc 0
      → (log_write meta m >>= λ rv. log_write meta n) (false, w) ≡ waiting
  log_write-locked meta m n w em en hm hn e =
      ap (λ o. resume o (λ rv. log_write meta n))
        (log_write-enabled meta m (false, w) em hm ∙ written-failed (write (line_of meta m) w) e)
      ∙ log_write-enabled meta n (true, (write (line_of meta m) w).1) en hn

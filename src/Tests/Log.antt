-- ===== src/Tests/Log.antt =====
-- Tests of the parsers of src/log.c, at settings like those of sqlbus.ini.
use sqlbus.Prelude.{
  ◌≡◌, ℤ, Bytes, pos, negsuc, true, false, refl, none, some, [], ◌∷◌, ◌++◌, codes, strcasecmp_eq,
  tolower, arith,
}
use sqlbus.Log.{
  scaled, scan_size, log_parse_maxsize, digits_from, signed, atoi, index_from, read_time,
  log_parse_crontime, log_warning, log_info, log_level_string_to_type,
}
use sqlbus.Server.Exec.{done, waiting, ◌>>=◌}
use sqlbus.Log.Write.{Meta, Message, log_write, log_write-line, log_write-locked}
use sqlbus.Log.Size.{decimal, numeral, kilobytes, log_parse_maxsize-numeral}
use sqlbus.Log.Cron.{hour_seconds, log_parse_crontime-hours}

size_wrong : log_parse_maxsize (some (codes "20 mb")) ≡ some 20971520
unfolding log_parse_maxsize scan_size scaled
size_wrong = refl

size_too_large : log_parse_maxsize (some (codes "2Gb")) ≡ none
unfolding log_parse_maxsize scan_size scaled
size_too_large = refl

cron_wrong : log_parse_crontime (some (codes "24:00:00")) ≡ some 0
unfolding log_parse_crontime read_time atoi signed digits_from
cron_wrong = refl

level_info : log_level_string_to_type (some (codes "Info")) ≡ log_info
unfolding log_level_string_to_type strcasecmp_eq tolower
level_info = refl

level_unknown : log_level_string_to_type (some (codes "all")) ≡ log_warning
unfolding log_level_string_to_type strcasecmp_eq tolower
level_unknown = refl

log_parse_maxsize-numeral_example :
    log_parse_maxsize (some (numeral (1 ∷ 5 ∷ []) ++ (b'K' ∷ codes "b"))) ≡ some 15360
unfolding decimal scaled
log_parse_maxsize-numeral_example =
    log_parse_maxsize-numeral (1 ∷ 5 ∷ []) kilobytes true (codes "b") refl

log_parse_crontime-hours_example : log_parse_crontime (some (codes "23:59:58")) ≡ some 82800
unfolding atoi signed digits_from index_from hour_seconds
log_parse_crontime-hours_example = log_parse_crontime-hours (codes "23:59:58")

-- The options of a log, and a message of a level
abbrev verbose : Meta
verbose = record { level = 2; trace = false; feed = true }

abbrev greeting : Message
greeting = record { time = codes "[now]"; level = log_info; place = []; text = codes "hello" }

-- A disk to which a line is appended, and one that is full
abbrev append : Bytes → Bytes → ℤ × Bytes
append line disk = (pos 18, disk ++ line)

abbrev refuse : Bytes → Bytes → ℤ × Bytes
refuse line disk = (negsuc 0, disk)

log_write-line_example :
    log_write Bytes append (λ disk. pos 0) verbose greeting (false, [])
    ≡ done (pos 0) (false, codes "[now] [Info ] hello\n\n")
log_write-line_example =
    log_write-line Bytes append (λ disk. pos 0) verbose greeting (false, []) (omega arith)

log_write-locked_example :
    (log_write Bytes refuse (λ disk. pos 28) verbose greeting >>= λ rv.
    log_write Bytes refuse (λ disk. pos 28) verbose greeting)
      (false, [])
    ≡ waiting
log_write-locked_example =
    log_write-locked Bytes refuse (λ disk. pos 28) verbose greeting greeting [] refl refl
      (omega arith) (omega arith) refl

-- ===== src/Tests/Rotation.antt =====
-- Tests of src/log_watcher.c, on a directory with a log and two backups.
use sqlbus.Prelude.{
  ℕ, ◌≡◌, refl, true, false, Option, none, some, [], ◌∷◌, Bytes, codes, ℤ, pos, negsuc, ◌==◌, ◌-◌,
  if◌then◌else◌, arith, strcmp_eq,
}
use sqlbus.Server.State.{live}
use sqlbus.Server.Exec.{done, Returns, ◌>>=◌}
use sqlbus.Log.{atoi, signed, digits_from}
use sqlbus.Log.Decimal.{print_digits}
use sqlbus.Log.Files.{File}
use sqlbus.Log.Rotation.{
  starts_with, behind_dot, larger, max_suffix, backup_name, as_ino, Event, backup, is_full, is_due,
  do_timer_event, do_notify_event,
}
use sqlbus.Log.Rotation.Backed.{Shifted, backup-Shifted}
use sqlbus.Log.Rotation.Replaced.{Rotated, do_notify_event-do_timer_event}
use sqlbus.Log.Rotation.Due.{is_due-zone}
use sqlbus.Tests.Storage.{Store, storage, storage_names, storage_filing, lookup, listing, name_in}

abbrev logs : Bytes
logs = codes "/l"

abbrev log_file : Bytes
log_file = codes "a.log"

abbrev full_directory : Store
full_directory = record {
  files = (codes "/l/a.log", 7) ∷ (codes "/l/a.log.1", 6) ∷ (codes "/l/a.log.2", 5) ∷ [];
  opened = λ fd. if_three fd;
  next = 8;
}
  where
    if_three : ℤ → Option ℕ
    if_three (pos n) = if n == 3 then some 7 else none
    if_three (negsuc n) = none

abbrev log_state : File
log_state = record {
  fd = some (pos 3);
  inode = 7;
  level = 3;
  maxsize = 90;
  cron = 0;
  catalog = live logs;
  file = live log_file;
}

abbrev moved_event : Event
moved_event = record {
  wd = pos 1;
  attrib = false;
  delete = false;
  delete_self = false;
  move_self = true;
  moved_from = false;
  moved_to = false;
}

third_suffix :
    max_suffix
      (codes "a.log")
      0
      (codes "a.log" ∷ codes "a.log.12" ∷ codes "b.log.99" ∷ codes "a.log.9" ∷ [])
    ≡ some 12
unfolding max_suffix starts_with behind_dot larger atoi signed digits_from
third_suffix = refl

second_name : backup_name logs log_file 10 ≡ codes "/l/a.log.10"
unfolding backup_name print_digits
second_name = refl

large_inode : as_ino 4294967295 ≡ 18446744073709551615
unfolding as_ino
large_inode = refl

backup-Shifted_example :
    (v : Store) × (backup storage (false, (log_state, full_directory))
      ≡ done tt (false, (log_state, v)))
    × Shifted storage storage_names logs log_file
        (storage_filing logs)
        (omega arith)
        (refl, omega arith, omega arith)
        full_directory
        v
unfolding max_suffix starts_with behind_dot larger atoi signed digits_from listing name_in
backup-Shifted_example =
    backup-Shifted storage storage_names logs log_file (storage_filing logs) (omega arith)
      (refl, omega arith, omega arith) (codes "a.log" ∷ codes "a.log.1" ∷ codes "a.log.2" ∷ []) 2
      (pos 3) log_state full_directory (refl, refl, refl) refl refl (omega arith)

do_notify_event-do_timer_event_example :
    Returns
      (Rotated storage storage_names logs log_file
        (storage_filing logs)
        (omega arith)
        (refl, omega arith, omega arith)
        (λ w. (pos 3, refl))
        full_directory)
      ((do_timer_event storage >>= λ _. do_notify_event storage (pos 4) (moved_event ∷ []))
        (false, (log_state, full_directory)))
unfolding max_suffix starts_with behind_dot larger atoi signed digits_from listing name_in lookup
    is_full strcmp_eq
do_notify_event-do_timer_event_example =
    do_notify_event-do_timer_event storage storage_names logs log_file (storage_filing logs)
      (omega arith) (refl, omega arith, omega arith) (λ w. (pos 3, refl))
      (codes "a.log" ∷ codes "a.log.1" ∷ codes "a.log.2" ∷ []) 2 (record { inode = 7; size = 100 })
      (pos 4) (pos 3) moved_event [] log_state full_directory (refl, refl, refl) refl refl refl refl
      (omega arith) refl refl

is_due-zone_example : is_due (record storage { mktime = λ t. t - 28800 }) 0 1527552000 ≡ false
is_due-zone_example =
    is_due-zone (record storage { mktime = λ t. t - 28800 }) 28800 0 1527552000 refl

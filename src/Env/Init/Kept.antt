-- ===== src/Env/Init/Kept.antt =====
-- The steps of sqlbus_env_init, and of its label error_exit, leave the channel of the handle alone.
use sqlbus.Prelude.{
  ℕ, ◌≡◌, Bool, true, false, Option, none, some, Bytes, ℤ, pos, ◌==ℤ◌, Status, success, failure,
  is_success, [], ◌∷◌, if◌then◌else◌,
}
use sqlbus.Config.{Config}
use sqlbus.Disk.{Disk}
use sqlbus.Server.State.{Ptr, bad, null, live, Handle}
use sqlbus.Server.Exec.{Out, done, fault, waiting, Prog, resume, pure}
use sqlbus.Prelude.{length, ltb, ◌++◌, codes}
use sqlbus.Config.Lookup.{get_config_value}
use sqlbus.Log.{atoi, log_parse_crontime, log_parse_maxsize}
use sqlbus.Log.Decimal.{print_decimal}
use sqlbus.Env.Logging.{
  LogTexts, set_options, numbers, log_catalog, log_name, opened, open_logger, set_up, env_log_init,
}
use sqlbus.Log.Files.{Filed, log_close, log_open}
use sqlbus.Server.Request.{free_ptr}
use sqlbus.Env.PidFile.{create_pid_file, name_pid_file, make_place, write_pid, remove_pid_file}
use sqlbus.Config.Lookup.{check_config_is_section_exist}
use sqlbus.Env.Settings.{
  if_there, read_database, choose_database, env_database_init, take_rtimeo, read_memcache,
  env_memcache_init,
}
use sqlbus.Env.Init.{
  closed, env_database_free, env_memcache_free, close_logger, change_dir, chg_work_dir,
}
use sqlbus.Env.{Logger, Setting, Host, fetch, number_of}

module _ (D : Disk) (H : Host D) where
  -- The handle has a channel that was never set.
  abbrev pub Unset : Ptr Handle → Type 0
  Unset bad = ⊥
  Unset null = ⊥
  Unset (live h) = h.recv_channel ≡ bad

  -- An action that keeps the channel unset, if it ends
  abbrev pub KeepsUnset : {A : Type 0} → Out (Setting D) A → Type 0
  KeepsUnset (done a s) = Unset (s.0).handle
  KeepsUnset fault = Unit {0}
  KeepsUnset waiting = Unit {0}

  open D use {World}

  pub keeps_then :
      {A B : Type 0} (o : Out (Setting D) A) (f : A → Prog (Setting D) B)
      → KeepsUnset o
      → ((a : A) (s : Setting D) → Unset (s.0).handle → KeepsUnset (f a s))
      → KeepsUnset (resume o f)
  keeps_then (done a s) f k h = h a s k
  keeps_then fault f k h = tt
  keeps_then waiting f k h = tt

  pub fetch_keeps :
      (size : ℕ) (conf : Config) (section key value : Bytes) (s : Setting D)
      → Unset (s.0).handle
      → KeepsUnset (fetch size conf section key value s)
  unfolding fetch
  fetch_keeps size conf section key value s u =
      go (ltb (length (get_config_value (some conf) section key value).1) size)
    where
      go :
          (b : Bool)
          → KeepsUnset
              (if b then done (get_config_value (some conf) section key value) s else fault)
      go true = u
      go false = tt

  pub fetched :
      {B : Type 0} (size : ℕ) (conf : Config) (section key value : Bytes)
      (f : Status × Bytes → Prog (Setting D) B) (s : Setting D)
      → Unset (s.0).handle
      → ((a : Status × Bytes) (t : Setting D) → Unset (t.0).handle → KeepsUnset (f a t))
      → KeepsUnset (resume (fetch size conf section key value s) f)
  fetched size conf section key value f s u h =
      keeps_then (fetch size conf section key value s) f
        (fetch_keeps size conf section key value s u) h

  pub number_of_keeps :
      (text : Bytes) (s : Setting D) → Unset (s.0).handle → KeepsUnset (number_of text s)
  unfolding number_of
  number_of_keeps text s u = go (atoi text)
    where
      go : (o : Option ℤ) → KeepsUnset (elim o [ none ↦ fault | some n ↦ done n s ])
      go none = tt
      go (some n) = u

  pub free_ptr_keeps :
      (field : Setting D → Ptr Bytes) (clear : Setting D → Setting D) (s : Setting D)
      → Unset ((clear s).0).handle
      → KeepsUnset (free_ptr field clear s)
  unfolding free_ptr
  free_ptr_keeps field clear s u = go (field s)
    where
      go :
          (p : Ptr Bytes)
          → KeepsUnset {A = Unit {0}}
              (elim p [ bad ↦ fault | null ↦ done tt (clear s) | live x ↦ done tt (clear s) ])
      go bad = tt
      go null = u
      go (live x) = u

  -- sqlbus_env_database_free and sqlbus_env_memcache_free
  pub env_database_free_keeps :
      (s : Setting D) → Unset (s.0).handle → KeepsUnset (env_database_free D H s)
  unfolding env_database_free
  env_database_free_keeps s u = keeps_then _ _ (free_ptr_keeps _ _ s u) (λ _ s u.
      keeps_then _ _ (free_ptr_keeps _ _ s u) (λ _ s u.
        keeps_then _ _ (free_ptr_keeps _ _ s u)
          (λ _ s u. keeps_then _ _ (free_ptr_keeps _ _ s u) (λ _ s u. free_ptr_keeps _ _ s u))))

  pub env_memcache_free_keeps :
      (s : Setting D) → Unset (s.0).handle → KeepsUnset (env_memcache_free D H s)
  unfolding env_memcache_free
  env_memcache_free_keeps s u = keeps_then _ _ (free_ptr_keeps _ _ _ u) (λ _ s u.
      keeps_then _ _ (free_ptr_keeps _ _ s u)
        (λ _ s u. keeps_then _ _ (free_ptr_keeps _ _ s u) (λ _ s u. free_ptr_keeps _ _ s u)))

  pub close_logger_keeps : (s : Setting D) → Unset (s.0).handle → KeepsUnset (close_logger D H s)
  unfolding close_logger
  close_logger_keeps (c, w) u = go c.logger
    where
      of_log : (l : Logger) (o : Out (Filed D) ℤ) → KeepsUnset (closed D H l c o)
      of_log l (done rv (f, v)) = u
      of_log l fault = tt
      of_log l waiting = tt

      go :
          (p : Ptr Logger)
          → KeepsUnset (elim p [
            | bad ↦ fault
            | null ↦ done tt (c, w)
            | live l ↦ closed D H l c (log_close D (l.file, w))
          ])
      go bad = tt
      go null = u
      go (live l) = of_log l (log_close D (l.file, w))

  pub remove_pid_file_keeps :
      (s : Setting D) → Unset (s.0).handle → KeepsUnset (remove_pid_file D H s)
  unfolding remove_pid_file
  remove_pid_file_keeps (c, w) u = go c.pid_file
    where
      go :
          (p : Ptr Bytes)
          → KeepsUnset {A = Unit {0}} (elim p [
            | bad ↦ fault
            | null ↦ done tt (c, w)
            | live path ↦
                let there = Host.access H path w in
                done tt (c, if there.0 then Host.remove H path there.1 else there.1)
          ])
      go bad = tt
      go null = u
      go (live path) = u

  pub chg_work_dir_keeps :
      (conf : Config) (s : Setting D) → Unset (s.0).handle → KeepsUnset (chg_work_dir D H conf s)
  unfolding chg_work_dir
  chg_work_dir_keeps conf s u = fetched 512 conf _ _ _ (change_dir D H) s u go
    where
      go :
          (a : Status × Bytes) (t : Setting D)
          → Unset (t.0).handle
          → KeepsUnset (change_dir D H a t)
      go (failure, path) t v = v
      go (success, path) t v = v

  pub open_logger_keeps :
      (catalog name : Bytes) (l : Logger) (s : Setting D)
      → Unset (s.0).handle
      → KeepsUnset (open_logger D catalog name l s)
  unfolding open_logger
  open_logger_keeps catalog name l (c, w) u = go (log_open D catalog name (l.file, w))
    where
      go : (o : Out (Filed D) ℤ) → KeepsUnset (opened D l c o)
      go (done rv (f, v)) = u
      go fault = tt
      go waiting = tt

  pub set_up_keeps :
      (t : LogTexts) (l : Logger) (s : Setting D) → Unset (s.0).handle → KeepsUnset (set_up D t l s)
  unfolding set_up
  set_up_keeps t l (c, w) u =
      go (numbers (log_parse_crontime (some t.crontime)) (log_parse_maxsize (some t.maxsizes)))
    where
      go :
          (o : Option (ℕ × ℕ))
          → KeepsUnset (elim o [
            | none ↦ fault
            | some (cron, maxsize) ↦
                open_logger D
                  (log_catalog (c.daemonize ==ℤ pos 1) t)
                  (log_name (c.daemonize ==ℤ pos 1) t)
                  (set_options t (c.daemonize ==ℤ pos 1) c.debug cron maxsize l)
                  (c, w)
          ])
      go none = tt
      go (some (cron, maxsize)) = open_logger_keeps _ _ _ (c, w) u

  pub env_log_init_keeps :
      (conf : Config) (l : Logger) (s : Setting D)
      → Unset (s.0).handle
      → KeepsUnset (env_log_init D conf l s)
  unfolding env_log_init
  env_log_init_keeps conf l s u = fetched 64 conf _ _ _ _ s u (λ _ s u.
      fetched 64 conf _ _ _ _ s u (λ _ s u. fetched 128 conf _ _ _ _ s u (λ _ s u.
        fetched 32 conf _ _ _ _ s u (λ _ s u. fetched 128 conf _ _ _ _ s u (λ _ s u.
          fetched 32 conf _ _ _ _ s u
            (λ _ s u. fetched 64 conf _ _ _ _ s u (λ _ s u. set_up_keeps _ l s u)))))))

  pub write_pid_keeps :
      (path : Bytes) (s : Setting D) → Unset (s.0).handle → KeepsUnset (write_pid D H path s)
  unfolding write_pid
  write_pid_keeps path (c, w) u = go (Host.open_truncate H path w).0
    where
      go :
          (o : Option ℤ)
          → KeepsUnset (elim o [
            | none ↦ done failure (record c { pid_file = null }, (Host.open_truncate H path w).1)
            | some fd ↦ done success (
              c,
              Disk.close D fd (
                  Host.write H fd
                    (print_decimal (Host.getpid H) ++ codes "\n")
                    (Host.open_truncate H path w).1),
            )
          ])
      go none = u
      go (some fd) = u

  pub make_place_keeps :
      (path : Bytes) (s : Setting D) → Unset (s.0).handle → KeepsUnset (make_place D H path s)
  unfolding make_place
  make_place_keeps path (c, w) u = go there.0 made.0
    where
      there : Bool × Disk.World D
      there = Host.access H (Host.dirname H path) w

      made : Bool × Disk.World D
      made = Disk.mkdir D (Host.dirname H path) 508 (Host.access H (Host.dirname H path) w).1

      go :
          (a b : Bool)
          → KeepsUnset (
              if a
              then write_pid D H path (c, there.1)
              else if b
              then write_pid D H path (c, made.1)
              else done failure (c, made.1))
      go true b = write_pid_keeps path (c, there.1) u
      go false true = write_pid_keeps path (c, made.1) u
      go false false = u

  pub name_pid_file_keeps :
      (configured : Bytes) (p : Ptr Bytes) (s : Setting D)
      → Unset (s.0).handle
      → KeepsUnset (name_pid_file D H configured p s)
  unfolding name_pid_file
  name_pid_file_keeps configured bad s u = tt
  name_pid_file_keeps configured null (c, w) u = make_place_keeps configured _ u
  name_pid_file_keeps configured (live path) s u = go (ltb (length path) 512)
    where
      go : (b : Bool) → KeepsUnset ((if b then make_place D H path s else fault))
      go true = make_place_keeps path s u
      go false = tt

  pub create_pid_file_keeps :
      (conf : Config) (s : Setting D) → Unset (s.0).handle → KeepsUnset (create_pid_file D H conf s)
  unfolding create_pid_file
  create_pid_file_keeps conf s u =
      fetched 512 conf _ _ _ _ s u (λ found t v. name_pid_file_keeps found.1 (t.0).pid_file t v)

  pub if_there_keeps :
      (conf : Config) (name : Bytes) (m : Prog (Setting D) Status) (s : Setting D)
      → Unset (s.0).handle
      → KeepsUnset (m s)
      → KeepsUnset (if_there World conf name m s)
  if_there_keeps conf name m s u k =
      go (is_success (check_config_is_section_exist (some conf) (some name)))
    where
      go : (b : Bool) → KeepsUnset ((if b then m else pure failure) s)
      go true = k
      go false = u

  pub read_database_keeps :
      (conf : Config) (db : Bytes) (s : Setting D)
      → Unset (s.0).handle
      → KeepsUnset (read_database World conf db s)
  unfolding read_database
  read_database_keeps conf db s u =
      fetched 64 conf _ _ _ _ s u
        (λ _ s u. fetched 64 conf _ _ _ _ s u (λ _ s u. fetched 64 conf _ _ _ _ s u (λ _ s u. u)))

  pub choose_database_keeps :
      (conf : Config) (db : Bytes) (s : Setting D)
      → Unset (s.0).handle
      → KeepsUnset (choose_database World conf db s)
  unfolding choose_database
  choose_database_keeps conf [] s u = u
  choose_database_keeps conf (c ∷ db) s u =
      if_there_keeps conf (c ∷ db) (read_database World conf (c ∷ db)) s u
        (read_database_keeps conf (c ∷ db) s u)

  pub env_database_init_keeps :
      (conf : Config) (s : Setting D)
      → Unset (s.0).handle
      → KeepsUnset (env_database_init World conf s)
  unfolding env_database_init
  env_database_init_keeps conf s u =
      fetched 64 conf _ _ _ _ s u (λ db t v. choose_database_keeps conf db.1 t v)

  pub take_rtimeo_keeps :
      (found : Status × Bytes) (s : Setting D)
      → Unset (s.0).handle
      → KeepsUnset (take_rtimeo World found s)
  take_rtimeo_keeps (failure, text) s u = u
  take_rtimeo_keeps (success, text) s u = keeps_then _ _ (number_of_keeps text s u) (λ _ t v. v)

  pub read_memcache_keeps :
      (conf : Config) (name : Bytes) (s : Setting D)
      → Unset (s.0).handle
      → KeepsUnset (read_memcache World conf name s)
  unfolding read_memcache
  read_memcache_keeps conf name s u = fetched 64 conf _ _ _ _ s u (λ _ s u.
      fetched 64 conf _ _ _ _ s u (λ _ s u. fetched 64 conf _ _ _ _ s u (λ _ s u.
        fetched 64 conf _ _ _ _ s u (λ _ s u. fetched 64 conf _ _ _ _ s u (λ _ s u.
          keeps_then _ _ (number_of_keeps _ s u) (λ _ s u.
            keeps_then _ _ (number_of_keeps _ s u) (λ _ s u.
              fetched 64 conf _ _ _ _ _ u (λ found s u. take_rtimeo_keeps found s u))))))))

  pub env_memcache_init_keeps :
      (conf : Config) (s : Setting D)
      → Unset (s.0).handle
      → KeepsUnset (env_memcache_init World conf s)
  unfolding env_memcache_init
  env_memcache_init_keeps conf s u = fetched 64 conf _ _ _ _ s u (λ name t v.
      if_there_keeps conf name.1 (read_memcache World conf name.1) t v
        (read_memcache_keeps conf name.1 t v))

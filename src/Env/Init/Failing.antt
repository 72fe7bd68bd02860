-- ===== src/Env/Init/Failing.antt =====
-- sqlbus_env_init where a step fails: the label error_exit frees the pointer recv_channel, which
-- nothing has set.
use sqlbus.Prelude.{◌≡◌, ap, Bool, true, false, Status, success, failure, if◌then◌else◌}
use sqlbus.Config.{Config}
use sqlbus.Disk.{Disk}
use sqlbus.Server.State.{Ptr, bad, null, live, is_valid, Handle}
use sqlbus.Server.Exec.{Out, done, fault, waiting, Prog, resume, pure}
use mathlib.Core.Bool.{true≢false}
use sqlbus.Env.Init.{free_channel, error_exit, env_steps, env_init}
use sqlbus.Env.{Logger, Setup, Setting, Host}
use sqlbus.Env.Init.{or_exit, with_memory}
use sqlbus.Env.Init.Kept.{
  Unset, KeepsUnset, keeps_then, free_ptr_keeps, env_database_free_keeps, env_memcache_free_keeps,
  close_logger_keeps, remove_pid_file_keeps, chg_work_dir_keeps, env_log_init_keeps,
  create_pid_file_keeps, env_database_init_keeps, env_memcache_init_keeps,
}

module _ (D : Disk) (H : Host D) where
  open D use {World}

  -- An action that does not return failure
  abbrev pub NeverFails : Out (Setting D) Status → Type 0
  NeverFails (done success s) = Unit {0}
  NeverFails (done failure s) = ⊥
  NeverFails fault = Unit {0}
  NeverFails waiting = Unit {0}

  -- An action that does not return at all
  abbrev NeverReturns : {A : Type 0} → Out (Setting D) A → Type 0
  NeverReturns (done a s) = ⊥
  NeverReturns fault = Unit {0}
  NeverReturns waiting = Unit {0}

  NeverFails-then :
      {A : Type 0} (o : Out (Setting D) A) (f : A → Prog (Setting D) Status)
      → KeepsUnset D H o
      → ((a : A) (s : Setting D) → Unset D H (s.0).handle → NeverFails (f a s))
      → NeverFails (resume o f)
  NeverFails-then (done a s) f k h = h a s k
  NeverFails-then fault f k h = tt
  NeverFails-then waiting f k h = tt

  NeverReturns-then :
      {A B : Type 0} (o : Out (Setting D) A) (f : A → Prog (Setting D) B)
      → KeepsUnset D H o
      → ((a : A) (s : Setting D) → Unset D H (s.0).handle → NeverReturns (f a s))
      → NeverReturns (resume o f)
  NeverReturns-then (done a s) f k h = h a s k
  NeverReturns-then fault f k h = tt
  NeverReturns-then waiting f k h = tt

  free_channel_ends : (s : Setting D) → Unset D H (s.0).handle → NeverReturns (free_channel D H s)
  unfolding free_channel
  free_channel_ends (c, w) u = go c.handle u
    where
      go :
          (p : Ptr Handle)
          → Unset D H p
          → NeverReturns {A = Unit {0}} (elim p [
            | bad ↦ fault
            | null ↦ fault
            | live h ↦
                if is_valid h.recv_channel
                then done tt (record c { handle = live (record h { recv_channel = null }) }, w)
                else fault
          ])
      go bad v = absurd v
      go null v = absurd v
      go (live h) v = at_valid (is_valid h.recv_channel) (ap is_valid v)
        where
          at_valid :
              (b : Bool)
              → b ≡ false
              → NeverReturns {A = Unit {0}} (
                  if b
                  then done tt (record c { handle = live (record h { recv_channel = null }) }, w)
                  else fault)
          at_valid true e = true≢false e
          at_valid false e = tt

  error_exit_ends : (s : Setting D) → Unset D H (s.0).handle → NeverReturns (error_exit D H s)
  unfolding error_exit
  error_exit_ends s u = NeverReturns-then _ _ (close_logger_keeps D H s u) (λ _ s u.
      NeverReturns-then _ _ (env_database_free_keeps D H s u) (λ _ s u.
        NeverReturns-then _ _ (env_memcache_free_keeps D H s u) (λ _ s u.
          NeverReturns-then _ _ (remove_pid_file_keeps D H s u) (λ _ s u.
            NeverReturns-then _ _ (free_ptr_keeps D H _ _ s u)
              (λ _ s u. ends_first (free_channel D H s) _ (free_channel_ends s u))))))
    where
      ends_first :
          {A B : Type 0} (o : Out (Setting D) A) (f : A → Prog (Setting D) B)
          → NeverReturns o
          → NeverReturns (resume o f)
      ends_first (done a s) f n = absurd n
      ends_first fault f n = tt
      ends_first waiting f n = tt

  or_exit-NeverFails :
      (st : Status) (next : Prog (Setting D) Status) (s : Setting D)
      → Unset D H (s.0).handle
      → NeverFails (next s)
      → NeverFails (or_exit D H st next s)
  or_exit-NeverFails success next s u n = n
  or_exit-NeverFails failure next s u n = ended (error_exit D H s) (error_exit_ends s u)
    where
      ended : (o : Out (Setting D) Status) → NeverReturns o → NeverFails o
      ended (done rv t) n = absurd n
      ended fault n = tt
      ended waiting n = tt

  succeeds_last : {A : Type 0} (o : Out (Setting D) A) → NeverFails (resume o (λ _. pure success))
  succeeds_last (done a s) = tt
  succeeds_last fault = tt
  succeeds_last waiting = tt

  env_steps-NeverFails :
      (conf : Config) (l : Logger) (s : Setting D)
      → Unset D H (s.0).handle
      → NeverFails (env_steps D H conf l s)
  unfolding env_steps
  env_steps-NeverFails conf l s u =
      NeverFails-then _ _
        (keeps_then D H _ _ (chg_work_dir_keeps D H conf s u)
          (λ _ s u. env_log_init_keeps D H conf l s u))
        (λ logged s u. or_exit-NeverFails logged _ s u (
          NeverFails-then _ _ (create_pid_file_keeps D H conf s u) (λ created s u.
            or_exit-NeverFails created _ s u (
              NeverFails-then _ _ (env_database_init_keeps D H conf s u) (λ database s u.
                or_exit-NeverFails database _ s u (
                  NeverFails-then _ _ (env_memcache_init_keeps D H conf s u)
                    (λ memcache s u. or_exit-NeverFails memcache _ s u (succeeds_last _))))))))

  -- Where a configuration has been loaded, malloc has memory, and what it leaves in the channel of the
  -- request handler is no valid pointer: sqlbus_env_init never returns RETURN_FAILURE. Where a step
  -- fails (the log or the pid file cannot be opened, the database or redis is not configured), the
  -- label error_exit does what C leaves undefined.
  pub env_init-NeverFails :
      (conf : Config) (c : Setup) (w : World)
      → c.config ≡ live conf
      → (Host.malloc H w).0 ≡ true
      → (Host.malloc H (Host.malloc H w).1).0 ≡ true
      → ((u : World) → (Host.new_handle H u).recv_channel ≡ bad)
      → NeverFails (env_init D H (c, w))
  unfolding env_init
  env_init-NeverFails conf c w e l h unset =
      along (c.config) (Host.malloc H w).0 (Host.malloc H (Host.malloc H w).1).0 e l h
        (env_steps-NeverFails conf _ _ (unset (Host.malloc H (Host.malloc H w).1).1))
    where
      along :
          (p : Ptr Config) (a b : Bool)
          → p ≡ live conf
          → a ≡ true
          → b ≡ true
          → NeverFails
              (with_memory D H (live conf) true true c (Host.malloc H (Host.malloc H w).1).1)
          → NeverFails (with_memory D H p a b c (Host.malloc H (Host.malloc H w).1).1)
      along p a b e l h n = rw (e, l, h) n

-- ===== src/Server/Session/Closed.antt =====
-- How sqlbus_disconnect_to_database leaves the cycle.
use sqlbus.Prelude.{◌≡◌, refl, ◌∙◌, Bool-cases, inl, inr, some, ◌==ℤ◌, success}
use sqlbus.Config.{Config}
use sqlbus.Server.Platform.{Platform}
use sqlbus.Server.State.{
  Ptr, null, live, connection_yes, connection_not, Driver, Connection, Statement, Handle, Cycle,
}
use sqlbus.Server.Exec.{Returns, Returns-resume}
use sqlbus.Server.Driver.{unload_driver}
use sqlbus.Server.Database.{call, db_env_finalize}
use sqlbus.Server.Database.Pointers.{deref_live, when_live}
use sqlbus.Server.Database.Connect.{db_disconnect, db_connect_finalize, unload}
use sqlbus.Server.Session.{disconnect_to_database}

module _ (P : Platform) (conf : Config) (st : Ptr Statement) (h : Handle) where
  -- The cycle with a connection, and the same with none.
  abbrev pub IsOpened : Connection → Cycle P → Type 0
  IsOpened c s = (s.hdbc ≡ live c) × (s.henv ≡ live conf) × (s.hstmt ≡ st) × (s.handle ≡ h)

  abbrev pub IsClosed : Cycle P → Type 0
  IsClosed s = (s.hdbc ≡ null) × (s.henv ≡ null) × (s.hstmt ≡ st) × (s.handle ≡ h)

  module _ (c : Connection) (d : Driver) (releasable : unload_driver c.driver ≡ some d) where
    unload-IsOpened :
        (s : Cycle P)
        → IsOpened c s
        → Returns
            (λ r t.
              (r ≡ success) × IsOpened (record c { conn_status = connection_not; driver = d }) t)
            (unload P (record c { conn_status = connection_not }) s)
    unfolding unload
    unload-IsOpened s o = rw releasable (refl, (refl, o.1, o.2, o.3))

    call-IsOpened :
        {A : Type 0} (f : Platform.World P → A × Platform.World P) (s : Cycle P)
        → (c.driver).functions ≡ live 16
        → IsOpened c s
        → Returns (λ r t. IsOpened c t) (call P 2 f s)
    unfolding call
    call-IsOpened f s loaded o =
        deref_live P _ (s.hdbc) c _ s o.0 (deref_live P _ ((c.driver).functions) 16 _ s loaded o)

    db_disconnect-IsOpened :
        (s : Cycle P)
        → (c.driver).functions ≡ live 16
        → IsOpened c s
        → Returns
            (λ r t.
              (r ≡ success) × IsOpened (record c { conn_status = connection_not; driver = d }) t)
            (db_disconnect P s)
    unfolding db_disconnect
    db_disconnect-IsOpened s loaded o = when_live P _ (s.hdbc) c _ _ s o.0 (
        deref_live P _ (s.hdbc) c _ s o.0 (elim (Bool-cases (c.conn_status ==ℤ connection_yes)) [
          | inl e ↦ rw e (
              Returns-resume _ _ (call P 2 (Platform.disconnect P) s) _ (call-IsOpened _ s loaded o)
                (λ a t o'. unload-IsOpened t o'))
          | inr e ↦ rw e (unload-IsOpened s o)
        ]))

    db_connect_finalize-henv :
        (e : Connection) (s : Cycle P)
        → IsOpened e s
        → Returns
            (λ r t. (t.henv ≡ live conf) × (t.hstmt ≡ st) × (t.handle ≡ h))
            (db_connect_finalize P s)
    unfolding db_connect_finalize
    db_connect_finalize-henv e s o = when_live P _ (s.hdbc) e _ _ s o.0 (o.1, o.2, o.3)

    db_env_finalize-success :
        (s : Cycle P)
        → s.henv ≡ live conf
        → Returns
            (λ r t. (r ≡ success) × (t.hstmt ≡ s.hstmt) × (t.handle ≡ s.handle))
            (db_env_finalize P s)
    unfolding db_env_finalize
    db_env_finalize-success s e = when_live P _ (s.henv) conf _ _ s e (refl, refl, refl)

    -- From a cycle whose connection has a loaded driver, whether it is still logged in or not and
    -- whatever the driver answers, sqlbus_disconnect_to_database returns success, resets both
    -- database handles of the cycle to NULL, and leaves the statement and the request alone.
    pub disconnect_to_database-IsClosed :
        (s : Cycle P)
        → (c.driver).functions ≡ live 16
        → IsOpened c s
        → Returns (λ r t. (r ≡ success) × IsClosed t) (disconnect_to_database P s)
    unfolding disconnect_to_database
    disconnect_to_database-IsClosed s loaded o = when_live P _ (s.hdbc) c _ _ s o.0 (
        Returns-resume (λ r t. (t.henv ≡ live conf) × (t.hstmt ≡ st) × (t.handle ≡ h)) _ _ _
          (Returns-resume
            (λ r t. IsOpened (record c { conn_status = connection_not; driver = d }) t) _ _ _
            (Returns-resume _ _ (db_disconnect P s) _ (db_disconnect-IsOpened s loaded o)
              (λ r t q. rw (q.0) (q.1)))
            (λ r t q. db_connect_finalize-henv _ t q))
          (λ r t q.
            Returns-resume _ _ (db_env_finalize P t) _ (db_env_finalize-success t q.0)
              (λ r' u e. rw (e.0) (refl, (refl, refl, e.1 ∙ q.1, e.2 ∙ q.2)))))

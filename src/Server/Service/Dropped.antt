-- ===== src/Server/Service/Dropped.antt =====
-- A request that cannot be parsed, in the main loop.
use sqlbus.Prelude.{ℕ, ◌≡◌, refl, failure}
use sqlbus.Server.Platform.{Platform}
use sqlbus.Server.State.{Handle, Settings, Cycle}
use sqlbus.Server.Exec.{Out, done, fault, waiting, resume, Returns, Returns-map}
use sqlbus.Server.Database.{Act}
use sqlbus.Server.Request.{parse_request, free_request}
use sqlbus.Server.Request.Release.{IsClear, IsReceived, free_request-IsClear}
use sqlbus.Server.Request.Cycle.{parse_request-IsParsed}
use sqlbus.Server.Service.{serve}

Returns-both :
    {S A : Type 0} (Q R : A → S → Type 0) (o : Out S A)
    → Returns Q o
    → Returns R o
    → Returns (λ a s. Q a s × R a s) o
Returns-both Q R (done a s) q r = (q, r)
Returns-both Q R fault q r = q
Returns-both Q R waiting q r = q

module _ (P : Platform) (s : Cycle P) where
  -- The handle holds no request, and nothing else in the cycle has changed.
  abbrev pub IsDropped : Cycle P → Type 0
  IsDropped s' =
      IsClear s'.handle
      × (s'.world ≡ s.world)
      × (s'.henv ≡ s.henv)
      × (s'.hdbc ≡ s.hdbc)
      × (s'.hstmt ≡ s.hstmt)

  freed-IsDropped :
      (o : Out Handle (Unit {0}))
      → Returns (λ _ g. IsClear g) o
      → Returns
          (λ _ s'. IsDropped s')
          (elim o as (λ x. Out (Cycle P) (Unit {0})) [
            | done a h ↦ done a (record s { handle = h })
            | fault ↦ fault
            | waiting ↦ waiting
          ])
  freed-IsDropped (done a h) c = (c, refl, refl, refl, refl)
  freed-IsDropped fault c = c
  freed-IsDropped waiting c = c

  on_handle-Returns :
      {A B : Type 0} (Q : A → Handle → Type 0) (R : B → Cycle P → Type 0) (f : A → Act P B)
      (o : Out Handle A)
      → Returns Q o
      → ((a : A) (h : Handle) → Q a h → Returns R (f a (record s { handle = h })))
      → Returns R (
          resume
            (elim o as (λ x. Out (Cycle P) A) [
              | done a h ↦ done a (record s { handle = h })
              | fault ↦ fault
              | waiting ↦ waiting
            ])
            f)
  on_handle-Returns Q R f (done a h) q k = k a h q
  on_handle-Returns Q R f fault q k = q
  on_handle-Returns Q R f waiting q k = q

  -- A request that is received into a handle that holds nothing else and that sqlbus_parse_request
  -- refuses is dropped: the turn of the main loop ends with every string of it freed, with no
  -- command sent to redis or to the database, and with the connections as they were.
  pub serve-IsDropped :
      (n : ℕ) (t : Settings)
      → IsReceived s.handle
      → Returns (λ r _. r ≡ failure) (parse_request P s.handle)
      → Returns (λ _ s'. IsDropped s') (serve P n t s)
  unfolding serve
  serve-IsDropped n t r f =
      on_handle-Returns _ _ _ (parse_request P s.handle)
        (Returns-both _ _ (parse_request P s.handle) (parse_request-IsParsed P s.handle r) f)
        (λ a h q. rw (q.1) (
          freed-IsDropped (free_request h) (
            Returns-map _ _ (free_request h)
              (free_request-IsClear h (q.0).releasable (q.0).request_string) (λ b i c. c.0))))

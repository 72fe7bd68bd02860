-- ===== src/Server/Database/Pointers.antt =====
-- Following and testing a pointer of the cycle that is known.
use sqlbus.Prelude.{◌≡◌}
use sqlbus.Server.Platform.{Platform}
use sqlbus.Server.State.{Ptr, null, live, Cycle}
use sqlbus.Server.Exec.{Returns}
use sqlbus.Server.Database.{Act, deref, when_set}

module _ (P : Platform) where
  pub deref_live :
      {A B : Type 0} (Q : B → Cycle P → Type 0) (p : Ptr A) (a : A) (f : A → Act P B) (s : Cycle P)
      → p ≡ live a
      → Returns Q (f a s)
      → Returns Q (deref P p f s)
  deref_live Q p a f s e r = rw e r

  pub when_live :
      {A B : Type 0} (Q : B → Cycle P → Type 0) (p : Ptr A) (a : A) (b : B) (m : Act P B)
      (s : Cycle P)
      → p ≡ live a
      → Returns Q (m s)
      → Returns Q (when_set P p b m s)
  when_live Q p a b m s e r = rw e r

  pub when_null :
      {A B : Type 0} (Q : B → Cycle P → Type 0) (p : Ptr A) (b : B) (m : Act P B) (s : Cycle P)
      → p ≡ null
      → Q b s
      → Returns Q (when_set P p b m s)
  when_null Q p b m s e r = rw e r

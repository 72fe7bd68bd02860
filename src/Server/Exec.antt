-- ===== src/Server/Exec.antt =====
-- Actions on a state: a C function that works on the shared structures. An action ends with a
-- result and the new state, does what C leaves undefined (`fault`), or is in one of the endless
-- loops of the server with no rounds left to look at (`waiting`).

pub data Out (S A : Type 0) : Type 0 where
  done : A → S → Out S A
  fault : Out S A
  waiting : Out S A

abbrev pub Prog : Type 0 → Type 0 → Type 0
Prog S A = S → Out S A

module _ {S A B : Type 0} where
  abbrev pub resume : Out S A → (A → Prog S B) → Out S B
  resume (done a s) f = f a s
  resume fault f = fault
  resume waiting f = waiting

  infixl 5 ◌>>=◌ ◌>>◌
  abbrev pub ◌>>=◌ : Prog S A → (A → Prog S B) → Prog S B
  ◌>>=◌ m f s = resume (m s) f

  abbrev pub ◌>>◌ : Prog S A → Prog S B → Prog S B
  m >> n = m >>= λ _. n

module _ {S A : Type 0} where
  abbrev pub pure : A → Prog S A
  pure a s = done a s

  abbrev pub gets : (S → A) → Prog S A
  gets f s = done (f s) s

abbrev pub modify : {S : Type 0} → (S → S) → Prog S (Unit {0})
modify f s = done tt (f s)

-- What holds of the result and of the state behind an action, which does return.
abbrev pub Returns : {S A : Type 0} → (A → S → Type 0) → Out S A → Type 0
Returns Q (done a s) = Q a s
Returns Q fault = ⊥
Returns Q waiting = ⊥

pub Returns-resume :
    {S A B : Type 0} (Q : A → S → Type 0) (R : B → S → Type 0) (r : Out S A) (f : A → Prog S B)
    → Returns Q r
    → ((a : A) (s : S) → Q a s → Returns R (f a s))
    → Returns R (resume r f)
Returns-resume Q R (done a s) f q k = k a s q
Returns-resume Q R fault f q k = q
Returns-resume Q R waiting f q k = q

pub Returns-map :
    {S A : Type 0} (Q R : A → S → Type 0) (r : Out S A)
    → Returns Q r
    → ((a : A) (s : S) → Q a s → R a s)
    → Returns R r
Returns-map Q R (done a s) q k = k a s q
Returns-map Q R fault q k = q
Returns-map Q R waiting q k = q

-- ===== src/Env/Arguments/Order.antt =====
-- Where -f and -b stand among the options makes no difference.
use sqlbus.Prelude.{
  ◌≡◌, refl, ap, ◌∙◌, sym, Bool, true, false, Option, none, some, List, [], ◌∷◌, ℤ, pos, negsuc,
  ◌==ℤ◌, ◌==◌, success, failure, if◌then◌else◌, all, all-cons, Bool-cases, inl, inr, ◌||◌, ◌&&◌,
  arith,
}
use mathlib.Core.Bool.{true≢false}
use sqlbus.Env.{Setup}
use sqlbus.Env.Arguments.{Opt, Parsed, returned, exited, set_option, parse_env_cmd_args}

abbrev pub any : (Opt → Bool) → List Opt → Bool
any test [] = false
any test (o ∷ opts) = test o || any test opts

-- -c, -d, -f, -b and -p
abbrev pub is_known : Opt → Bool
is_known o = o.code == b'c' || o.code == b'd' || o.code == b'f' || o.code == b'b' || o.code == b'p'

-- What -f and -b, each if it is given, make of the setting; and what a list of options does
abbrev pub setting : Bool → Bool → ℤ → ℤ
setting f b before =
    if f
    then negsuc 0
    else if b && (if before ==ℤ negsuc 0 then false else true)
    then pos 1
    else before

abbrev pub daemonized : List Opt → ℤ → ℤ
daemonized opts = setting (any (λ o. o.code == b'f') opts) (any (λ o. o.code == b'b') opts)

abbrev pub DaemonizedBy : List Opt → ℤ → Parsed → Type 0
DaemonizedBy opts before exited = ⊥
DaemonizedBy opts before (returned rv d) = (rv ≡ success) × (d.daemonize ≡ daemonized opts before)

-- One option that is known, and what it makes of the setting
abbrev Sets : Opt → Setup → Option Setup → Type 0
Sets o c none = ⊥
Sets o c (some d) = d.daemonize ≡ daemonized (o ∷ []) c.daemonize

-- An option that is neither -f nor -b
daemonized-other :
    (o : Opt) (z : ℤ)
    → (o.code == b'f') ≡ false
    → (o.code == b'b') ≡ false
    → z ≡ daemonized (o ∷ []) z
daemonized-other o z f b = rw (f, b) refl

daemonized-foreground :
    (o : Opt) (z : ℤ) → (o.code == b'f') ≡ true → negsuc 0 ≡ daemonized (o ∷ []) z
daemonized-foreground o z f = rw (f) refl

daemonized-background :
    (o : Opt) (c : Setup)
    → (o.code == b'f') ≡ false
    → (o.code == b'b') ≡ true
    → (if c.daemonize ==ℤ negsuc 0 then c else record c { daemonize = pos 1 }).daemonize
      ≡ daemonized (o ∷ []) c.daemonize
daemonized-background o c f b = rw (f, b) (go (c.daemonize ==ℤ negsuc 0))
  where
    go :
        (x : Bool)
        → (if x then c else record c { daemonize = pos 1 }).daemonize
          ≡ (if (if x then false else true) then pos 1 else c.daemonize)
    go true = refl
    go false = refl

set_option-Sets : (o : Opt) (c : Setup) → is_known o ≡ true → Sets o c (set_option o c)
unfolding set_option
set_option-Sets o c h = elim (Bool-cases (o.code == b'c')) [
  | inl e ↦ rw (Sets, e) (daemonized-other o c.daemonize (ground (arith, e)) (ground (arith, e)))
  | inr nc ↦ elim (Bool-cases (o.code == b'd')) [
    | inl e ↦
        rw (Sets, nc, e) (daemonized-other o c.daemonize (ground (arith, e)) (ground (arith, e)))
    | inr nd ↦ elim (Bool-cases (o.code == b'f')) [
      | inl e ↦ rw (Sets, nc, nd, e) (daemonized-foreground o c.daemonize e)
      | inr nf ↦ elim (Bool-cases (o.code == b'b')) [
        | inl e ↦ rw (Sets, nc, nd, nf, e) (daemonized-background o c nf e)
        | inr nb ↦ elim (Bool-cases (o.code == b'p')) [
          | inl e ↦ rw (Sets, nc, nd, nf, nb, e) (daemonized-other o c.daemonize nf nb)
          | inr np ↦ absurd (true≢false (sym h ∙ unknown nc nd nf nb np))
        ]
      ]
    ]
  ]
]
  where
    unknown :
        (o.code == b'c') ≡ false
        → (o.code == b'd') ≡ false
        → (o.code == b'f') ≡ false
        → (o.code == b'b') ≡ false
        → (o.code == b'p') ≡ false
        → is_known o ≡ false
    unknown nc nd nf nb np = rw (nc, nd, nf, nb, np) refl

-- Two settings, one behind the other
setting-setting :
    (f g b d : Bool) (z : ℤ)
    → setting g d (setting (f || false) (b || false) z) ≡ setting (f || g) (b || d) z
setting-setting true true b d z = refl
setting-setting true false b true z = refl
setting-setting true false b false z = refl
setting-setting false true b d z = refl
setting-setting false false false d z = refl
setting-setting false false true d z = go (z ==ℤ negsuc 0) refl
  where
    go :
        (x : Bool)
        → (z ==ℤ negsuc 0) ≡ x
        → setting false d (if (if z ==ℤ negsuc 0 then false else true) then pos 1 else z)
          ≡ (if (if z ==ℤ negsuc 0 then false else true) then pos 1 else z)
    go true e = rw (e, e) (stays d)
      where
        stays : (d : Bool) → (if d && false then pos 1 else z) ≡ z
        stays true = refl
        stays false = refl
    go false e = rw (e) (one d)
      where
        one : (d : Bool) → (if d && true then pos 1 else pos 1) ≡ pos 1
        one true = refl
        one false = refl

-- Where all options are among -c, -d, -f, -b and --pidfile, sqlbus_parse_env_cmd_args returns success; the setting of the daemon
-- is -1 if -f is among the options, else 1 if -b is and it was not -1 before, else what it was,
-- whatever the order of the options is.
pub parse_env_cmd_args-DaemonizedBy :
    (opts : List Opt) (c : Setup)
    → all is_known opts ≡ true
    → DaemonizedBy opts c.daemonize (parse_env_cmd_args opts c)
unfolding parse_env_cmd_args
parse_env_cmd_args-DaemonizedBy [] c h = (refl, refl)
parse_env_cmd_args-DaemonizedBy (o ∷ opts) c h =
    let (known, rest) = all-cons is_known o opts h in
    rw (DaemonizedBy, no_help known)
      (step (set_option o c) (set_option-Sets o c known)
        (λ d. parse_env_cmd_args-DaemonizedBy opts d rest))
  where
    no_help : is_known o ≡ true → (o.code == b'h') ≡ false
    no_help k = ground (arith, k)

    step :
        (d : Option Setup)
        → Sets o c d
        → ((e : Setup) → DaemonizedBy opts e.daemonize (parse_env_cmd_args opts e))
        → DaemonizedBy
            (o ∷ opts)
            c.daemonize
            (elim d [ none ↦ returned failure c | some e ↦ parse_env_cmd_args opts e ])
    step none s f = absurd s
    step (some d) s f = along (parse_env_cmd_args opts d) (f d)
      where
        along :
            (r : Parsed) → DaemonizedBy opts d.daemonize r → DaemonizedBy (o ∷ opts) c.daemonize r
        along exited x = x
        along (returned rv e) (ok, x) = (
          ok,
          x
              ∙ ap (daemonized opts) s
              ∙ setting-setting (o.code == b'f') (any (λ o. o.code == b'f') opts) (o.code == b'b')
                  (any (λ o. o.code == b'b') opts) c.daemonize,
        )

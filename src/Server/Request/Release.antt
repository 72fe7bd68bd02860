-- ===== src/Server/Request/Release.antt =====
-- What sqlbus_free_request leaves of a request, and where it frees a pointer that was never set.
use sqlbus.Prelude.{◌≡◌, refl, true, false, Bytes, ◌==◌, arith, Bool-cases, inl, inr}
use sqlbus.Server.State.{Ptr, bad, null, live, Handle, is_valid}
use sqlbus.Server.Exec.{done, fault, Prog, Returns, resume}
use sqlbus.Server.Request.{free_ptr, free_statement, free_request}

-- The strings of a request, all but the request string itself, can be freed, and those of the
-- statement that `kind` does not select are NULL.
pub record IsReleasable (h : Handle) : Type 0 where
  pub uuid : is_valid h.uuid ≡ true
  pub app : is_valid h.app ≡ true
  pub type : is_valid h.type ≡ true
  pub send_channel : is_valid h.send_channel ≡ true
  pub response_string : is_valid h.response_string ≡ true
  pub text : is_valid h.text ≡ true
  pub update : is_valid h.update ≡ true
  pub insert : is_valid h.insert ≡ true
  pub single : (h.kind == 1) ≡ true → (h.update ≡ null) × (h.insert ≡ null)
  pub double : (h.kind == 1) ≡ false → h.text ≡ null

-- No string of a request is held.
pub record IsClear (h : Handle) : Type 0 where
  pub uuid : h.uuid ≡ null
  pub app : h.app ≡ null
  pub type : h.type ≡ null
  pub send_channel : h.send_channel ≡ null
  pub request_string : h.request_string ≡ null
  pub response_string : h.response_string ≡ null
  pub text : h.text ≡ null
  pub update : h.update ≡ null
  pub insert : h.insert ≡ null

-- The same but for the request string, which has just been received.
abbrev pub IsReceived : Handle → Type 0
IsReceived h = IsClear (record h { request_string = null }) × (is_valid h.request_string ≡ true)

module _ {S : Type 0} (field : S → Ptr Bytes) (clear : S → S) where
  -- Freeing a pointer that can be freed resets it.
  free_ptr_valid : (s : S) → is_valid (field s) ≡ true → free_ptr field clear s ≡ done tt (clear s)
  unfolding free_ptr
  free_ptr_valid s v = by_cases (field s) v
    where
      by_cases :
          (p : Ptr Bytes)
          → is_valid p ≡ true
          → elim p [ bad ↦ fault | null ↦ done tt (clear s) | live x ↦ done tt (clear s) ]
            ≡ done tt (clear s)
      by_cases bad v = ground arith
      by_cases null v = refl
      by_cases (live x) v = refl

  free_ptr_then :
      {A : Type 0} (Q : A → S → Type 0) (f : Unit {0} → Prog S A) (s : S)
      → is_valid (field s) ≡ true
      → Returns Q (f tt (clear s))
      → Returns Q (resume (free_ptr field clear s) f)
  free_ptr_then Q f s v e = rw (free_ptr_valid s v) e

  free_ptr_last :
      (Q : Unit {0} → S → Type 0) (s : S)
      → is_valid (field s) ≡ true
      → Q tt (clear s)
      → Returns Q (free_ptr field clear s)
  free_ptr_last Q s v e = rw (free_ptr_valid s v) e

free_statement-IsClear :
    (h : Handle)
    → (is_valid h.text ≡ true)
    → (is_valid h.update ≡ true)
    → (is_valid h.insert ≡ true)
    → ((h.kind == 1) ≡ true → (h.update ≡ null) × (h.insert ≡ null))
    → ((h.kind == 1) ≡ false → h.text ≡ null)
    → ((h.uuid ≡ null)
        × (h.app ≡ null)
        × (h.type ≡ null)
        × (h.send_channel ≡ null)
        × (h.request_string ≡ null)
        × (h.response_string ≡ null))
    → Returns (λ _ g. IsClear g × (g.recv_channel ≡ h.recv_channel)) (free_statement h)
unfolding free_statement
free_statement-IsClear h t u i single double rest = elim (Bool-cases (h.kind == 1)) [
  | inl e ↦ rw e (
      free_ptr_last _ _ _ _ t (
        record {
          uuid = rest.0;
          app = rest.1;
          type = rest.2;
          send_channel = rest.3;
          request_string = rest.4;
          response_string = rest.5;
          text = refl;
          update = (single e).0;
          insert = (single e).1;
        },
        refl,
      ))
  | inr e ↦ rw e (
      free_ptr_then _ _ _ _ _ u (
        free_ptr_last _ _ _ _ i (
          record {
            uuid = rest.0;
            app = rest.1;
            type = rest.2;
            send_channel = rest.3;
            request_string = rest.4;
            response_string = rest.5;
            text = double e;
            update = refl;
            insert = refl;
          },
          refl,
        )))
]

pub free_request-IsClear :
    (h : Handle)
    → IsReleasable h
    → is_valid h.request_string ≡ true
    → Returns (λ _ g. IsClear g × (g.recv_channel ≡ h.recv_channel)) (free_request h)
unfolding free_request
free_request-IsClear h r v = free_ptr_then _ _ _ _ _ r.uuid (
    free_ptr_then _ _ _ _ _ r.app (
      free_ptr_then _ _ _ _ _ r.type (
        free_ptr_then _ _ _ _ _ r.send_channel (
          free_ptr_then _ _ _ _ _ v (
            free_ptr_then _ _ _ _ _ r.response_string (
              free_statement-IsClear _ r.text r.update r.insert r.single r.double
                (refl, refl, refl, refl, refl, refl)))))))

-- ===== src/Server/Request/Fresh.antt =====
-- The response string of a handle from malloc, which sqlbus_env_init does not set.
use sqlbus.Prelude.{◌≡◌, refl, ◌∙◌, Option, none, some, Bytes, arith, Status, success, failure}
use sqlbus.Server.Platform.{Platform, View, text, numeric, boolean, object, other}
use sqlbus.Server.State.{Ptr, bad, null, live, Handle}
use sqlbus.Server.Exec.{done, fault, Prog, resume, ◌>>◌}
use sqlbus.Server.Request.{
  Step, ◌▸◌, read_uuid, read_app, read_pid, read_type, read_sync, read_rchannel, read_timestamp,
  read_update_insert, read_statement, read_fields, read_request, outcome, parse_string,
  parse_request, free_ptr, free_request,
}

-- A step that leaves the response string as it is.
unfoldable KeepsResponse : Step → Type 0
KeepsResponse f = (h : Handle) → (f h).1.response_string ≡ h.response_string

▸-KeepsResponse : (f g : Step) → KeepsResponse f → KeepsResponse g → KeepsResponse (λ h. f h ▸ g)
unfolding ◌▸◌ KeepsResponse
▸-KeepsResponse f g k l h = by_cases (f h) (k h)
  where
    by_cases :
        (x : Status × Handle)
        → x.1.response_string ≡ h.response_string
        → (x ▸ g).1.response_string ≡ h.response_string
    by_cases (success, h') e = l h' ∙ e
    by_cases (failure, h') e = e

read_uuid-KeepsResponse : (v : View) → KeepsResponse (read_uuid v)
unfolding read_uuid KeepsResponse
read_uuid-KeepsResponse (text s) h = refl
read_uuid-KeepsResponse _ h = refl

read_app-KeepsResponse : (v : View) → KeepsResponse (read_app v)
unfolding read_app KeepsResponse
read_app-KeepsResponse (text s) h = refl
read_app-KeepsResponse _ h = refl

read_pid-KeepsResponse : (v : View) → KeepsResponse (read_pid v)
unfolding read_pid KeepsResponse
read_pid-KeepsResponse (numeric i d) h = refl
read_pid-KeepsResponse _ h = refl

read_type-KeepsResponse : (v : View) → KeepsResponse (read_type v)
unfolding read_type KeepsResponse
read_type-KeepsResponse (text s) h = refl
read_type-KeepsResponse _ h = refl

read_sync-KeepsResponse : (v : View) → KeepsResponse (read_sync v)
unfolding read_sync KeepsResponse
read_sync-KeepsResponse (boolean b) h = refl
read_sync-KeepsResponse _ h = refl

read_rchannel-KeepsResponse : (v : View) → KeepsResponse (read_rchannel v)
unfolding read_rchannel KeepsResponse
read_rchannel-KeepsResponse (text s) h = refl
read_rchannel-KeepsResponse (numeric i d) h = ground arith
read_rchannel-KeepsResponse (boolean b) h = ground arith
read_rchannel-KeepsResponse object h = ground arith
read_rchannel-KeepsResponse other h = ground arith

read_timestamp-KeepsResponse : (v : View) → KeepsResponse (read_timestamp v)
unfolding read_timestamp KeepsResponse
read_timestamp-KeepsResponse (numeric i d) h = refl
read_timestamp-KeepsResponse _ h = refl

read_statement-KeepsResponse : (v u i : View) → KeepsResponse (read_statement v u i)
unfolding read_statement read_update_insert KeepsResponse
read_statement-KeepsResponse (text s) u i h = refl
read_statement-KeepsResponse object (text u) (text i) h = refl
read_statement-KeepsResponse object (text u) _ h = refl
read_statement-KeepsResponse object _ i h = refl
read_statement-KeepsResponse _ u i h = refl

module _ {S A : Type 0} (field : S → Ptr Bytes) (clear : S → S) (f : Unit {0} → Prog S A)
    (s : S) where
  -- If what follows faults, then so does freeing a pointer first.
  free_ptr_fault : f tt (clear s) ≡ fault → resume (free_ptr field clear s) f ≡ fault
  unfolding free_ptr
  free_ptr_fault e = by_cases (field s)
    where
      by_cases :
          (p : Ptr Bytes)
          → resume
              (elim p [ bad ↦ fault | null ↦ done tt (clear s) | live x ↦ done tt (clear s) ])
              f
            ≡ fault
      by_cases bad = refl
      by_cases null = e
      by_cases (live x) = e

  free_ptr_bad : field s ≡ bad → resume (free_ptr field clear s) f ≡ fault
  unfolding free_ptr
  free_ptr_bad e = rw (resume, free_ptr, e) refl

free_request-bad : (h : Handle) → h.response_string ≡ bad → free_request h ≡ fault
unfolding free_request
free_request-bad h e = free_ptr_fault _ _ _ _ (
    free_ptr_fault _ _ _ _ (
      free_ptr_fault _ _ _ _
        (free_ptr_fault _ _ _ _ (free_ptr_fault _ _ _ _ (free_ptr_bad _ _ _ _ e)))))

module _ (P : Platform) where
  read_fields-KeepsResponse : (root : Platform.Item P) → KeepsResponse (read_fields P root)
  unfolding read_fields
  read_fields-KeepsResponse root =
      ▸-KeepsResponse _ _
        (▸-KeepsResponse _ _
          (▸-KeepsResponse _ _
            (▸-KeepsResponse _ _
              (▸-KeepsResponse _ _
                (▸-KeepsResponse _ _
                  (▸-KeepsResponse _ _ (read_uuid-KeepsResponse _) (read_app-KeepsResponse _))
                  (read_pid-KeepsResponse _))
                (read_type-KeepsResponse _))
              (read_sync-KeepsResponse _))
            (read_rchannel-KeepsResponse _))
          (read_timestamp-KeepsResponse _))
        (read_statement-KeepsResponse _ _ _)

  -- If response_string has never been set, sqlbus_parse_request followed by sqlbus_free_request
  -- frees a pointer that is not valid, on every request string.
  pub free_request-never_set :
      (h : Handle) → h.response_string ≡ bad → (parse_request P >> free_request) h ≡ fault
  unfolding parse_request parse_string read_request KeepsResponse
  free_request-never_set h e = by_string h.request_string
    where
      by_root :
          (r : Option (Platform.Item P))
          → resume (outcome P (read_request P r h)) (λ _. free_request) ≡ fault
      by_root none = free_request-bad h e
      by_root (some root) =
          free_request-bad (read_fields P root h).1 (read_fields-KeepsResponse root h ∙ e)

      by_string : (p : Ptr Bytes) → resume (parse_string P p h) (λ _. free_request) ≡ fault
      by_string bad = refl
      by_string null = free_request-bad h e
      by_string (live s) = by_root (Platform.json_parse P s)

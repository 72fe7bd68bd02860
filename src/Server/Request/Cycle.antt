-- ===== src/Server/Request/Cycle.antt =====
-- What sqlbus_parse_request leaves in the handle can be released, whatever the request was.
use sqlbus.Prelude.{◌≡◌, refl, ap, true, Option, none, some, Bytes, arith, Status, success, failure}
use sqlbus.Server.Platform.{Platform, View, text, numeric, boolean, object, other}
use sqlbus.Server.State.{Ptr, bad, null, live, Handle, is_valid}
use sqlbus.Server.Exec.{Returns, Returns-resume, Returns-map, ◌>>◌}
use sqlbus.Server.Request.{
  Step, ◌▸◌, read_uuid, read_app, read_pid, read_type, read_sync, read_rchannel, read_timestamp,
  read_update_insert, read_statement, read_fields, read_request, outcome, parse_string,
  parse_request, free_request,
}
use sqlbus.Server.Request.Release.{IsReleasable, IsClear, IsReceived, free_request-IsClear}

-- A handle into which no statement has been written.
unfoldable IsOpen : Ptr Bytes → Handle → Type 0
IsOpen q h =
    (is_valid h.uuid ≡ true)
    × (is_valid h.app ≡ true)
    × (is_valid h.type ≡ true)
    × (is_valid h.send_channel ≡ true)
    × (is_valid h.request_string ≡ true)
    × (is_valid h.response_string ≡ true)
    × (h.text ≡ null)
    × (h.update ≡ null)
    × (h.insert ≡ null)
    × (h.recv_channel ≡ q)

-- The same with a statement, of the selected kind.
pub record IsParsed (q : Ptr Bytes) (h : Handle) : Type 0 where
  pub releasable : IsReleasable h
  pub request_string : is_valid h.request_string ≡ true
  pub recv_channel : h.recv_channel ≡ q

IsOpen-IsParsed : (q : Ptr Bytes) (h : Handle) → IsOpen q h → IsParsed q h
unfolding IsOpen
IsOpen-IsParsed q h o = record {
  releasable = record {
    uuid = o.0;
    app = o.1;
    type = o.2;
    send_channel = o.3;
    response_string = o.5;
    text = ap is_valid o.6;
    update = ap is_valid o.7;
    insert = ap is_valid o.8;
    single = λ e. (o.7, o.8);
    double = λ e. o.6;
  };
  request_string = o.4;
  recv_channel = o.9;
}

abbrev KeepsOpen : Step → Type 0
KeepsOpen f = (q : Ptr Bytes) (h : Handle) → IsOpen q h → IsOpen q (f h).1

▸-IsOpen :
    (q : Ptr Bytes) (x : Status × Handle) (f : Step)
    → IsOpen q x.1
    → KeepsOpen f
    → IsOpen q (x ▸ f).1
unfolding ◌▸◌
▸-IsOpen q (success, h) f o k = k q h o
▸-IsOpen q (failure, h) f o k = o

read_uuid-IsOpen : (v : View) → KeepsOpen (read_uuid v)
unfolding read_uuid IsOpen
read_uuid-IsOpen (text s) q h o = (refl, o.1, o.2, o.3, o.4, o.5, o.6, o.7, o.8, o.9)
read_uuid-IsOpen _ q h o = o

read_app-IsOpen : (v : View) → KeepsOpen (read_app v)
unfolding read_app IsOpen
read_app-IsOpen (text s) q h o = (o.0, refl, o.2, o.3, o.4, o.5, o.6, o.7, o.8, o.9)
read_app-IsOpen _ q h o = o

read_pid-IsOpen : (v : View) → KeepsOpen (read_pid v)
unfolding read_pid IsOpen
read_pid-IsOpen (numeric i d) q h o = o
read_pid-IsOpen _ q h o = o

read_type-IsOpen : (v : View) → KeepsOpen (read_type v)
unfolding read_type IsOpen
read_type-IsOpen (text s) q h o = (o.0, o.1, refl, o.3, o.4, o.5, o.6, o.7, o.8, o.9)
read_type-IsOpen _ q h o = o

read_sync-IsOpen : (v : View) → KeepsOpen (read_sync v)
unfolding read_sync IsOpen
read_sync-IsOpen (boolean b) q h o = o
read_sync-IsOpen _ q h o = o

read_timestamp-IsOpen : (v : View) → KeepsOpen (read_timestamp v)
unfolding read_timestamp IsOpen
read_timestamp-IsOpen (numeric i d) q h o = o
read_timestamp-IsOpen _ q h o = o

read_rchannel-IsOpen : (v : View) → KeepsOpen (read_rchannel v)
unfolding read_rchannel IsOpen
read_rchannel-IsOpen (text s) q h o = (o.0, o.1, o.2, refl, o.4, o.5, o.6, o.7, o.8, o.9)
read_rchannel-IsOpen (numeric i d) q h o = ground arith
read_rchannel-IsOpen (boolean b) q h o = ground arith
read_rchannel-IsOpen object q h o = ground arith
read_rchannel-IsOpen other q h o = ground arith

read_statement-IsParsed :
    (s u i : View) (q : Ptr Bytes) (h : Handle) → IsOpen q h → IsParsed q (read_statement s u i h).1
unfolding read_statement read_update_insert IsOpen
read_statement-IsParsed (text s) u i q h o = record {
  releasable = record {
    uuid = o.0;
    app = o.1;
    type = o.2;
    send_channel = o.3;
    response_string = o.5;
    text = refl;
    update = ap is_valid o.7;
    insert = ap is_valid o.8;
    single = λ e. (o.7, o.8);
    double = λ e. ground arith;
  };
  request_string = o.4;
  recv_channel = o.9;
}
read_statement-IsParsed object (text u) (text i) q h o = record {
  releasable = record {
    uuid = o.0;
    app = o.1;
    type = o.2;
    send_channel = o.3;
    response_string = o.5;
    text = ap is_valid o.6;
    update = refl;
    insert = refl;
    single = λ e. ground arith;
    double = λ e. o.6;
  };
  request_string = o.4;
  recv_channel = o.9;
}
read_statement-IsParsed object (text u) _ q h o = IsOpen-IsParsed q (record h { kind = 2 }) o
read_statement-IsParsed object _ i q h o = IsOpen-IsParsed q (record h { kind = 2 }) o
read_statement-IsParsed _ u i q h o = IsOpen-IsParsed q h o

▸-IsParsed :
    (q : Ptr Bytes) (x : Status × Handle) (f : Step)
    → IsOpen q x.1
    → ((h : Handle) → IsOpen q h → IsParsed q (f h).1)
    → IsParsed q (x ▸ f).1
unfolding ◌▸◌
▸-IsParsed q (success, h) f o k = k h o
▸-IsParsed q (failure, h) f o k = IsOpen-IsParsed q h o

module _ (P : Platform) where
  read_fields-IsParsed :
      (root : Platform.Item P) (q : Ptr Bytes) (h : Handle)
      → IsOpen q h
      → IsParsed q (read_fields P root h).1
  unfolding read_fields
  read_fields-IsParsed root q h o =
      ▸-IsParsed q _ _
        (▸-IsOpen q _ _
          (▸-IsOpen q _ _
            (▸-IsOpen q _ _
              (▸-IsOpen q _ _
                (▸-IsOpen q _ _ (▸-IsOpen q _ _ (read_uuid-IsOpen _ q h o) (read_app-IsOpen _))
                  (read_pid-IsOpen _))
                (read_type-IsOpen _))
              (read_sync-IsOpen _))
            (read_rchannel-IsOpen _))
          (read_timestamp-IsOpen _))
        (read_statement-IsParsed _ _ _ q)

  IsClear-IsOpen : (h : Handle) → IsReceived h → IsOpen h.recv_channel h
  unfolding IsOpen
  IsClear-IsOpen h (c, v) = (
    ap is_valid c.uuid,
    ap is_valid c.app,
    ap is_valid c.type,
    ap is_valid c.send_channel,
    v,
    ap is_valid c.response_string,
    c.text,
    c.update,
    c.insert,
    refl,
  )

  parse_string-IsParsed :
      (p : Ptr Bytes) (q : Ptr Bytes) (h : Handle)
      → is_valid p ≡ true
      → IsOpen q h
      → Returns (λ _ g. IsParsed q g) (parse_string P p h)
  unfolding parse_string read_request
  parse_string-IsParsed bad q h v o = ground arith
  parse_string-IsParsed null q h v o = IsOpen-IsParsed q h o
  parse_string-IsParsed (live s) q h v o = of_root (Platform.json_parse P s)
    where
      of_root :
          (r : Option (Platform.Item P))
          → Returns (λ _ g. IsParsed q g) (outcome P (read_request P r h))
      of_root none = IsOpen-IsParsed q h o
      of_root (some root) = read_fields-IsParsed root q h o

  pub parse_request-IsParsed :
      (h : Handle) → IsReceived h → Returns (λ _ g. IsParsed h.recv_channel g) (parse_request P h)
  unfolding parse_request
  parse_request-IsParsed h r =
      parse_string-IsParsed h.request_string h.recv_channel h r.1 (IsClear-IsOpen h r)

  -- Of a request that is received into a handle that holds nothing else, whatever the string is and
  -- whatever JSON parses to, sqlbus_parse_request followed by sqlbus_free_request frees no
  -- pointer that is not valid, and leaves every string of the handle NULL, as a handle has to be for
  -- the next request. Of blocks that no field of the handle points to, nothing is said.
  pub free_request-parse_request :
      (h : Handle) → IsReceived h → Returns (λ _ g. IsClear g) ((parse_request P >> free_request) h)
  free_request-parse_request h r =
      Returns-resume (λ _ g. IsParsed h.recv_channel g) (λ _ g. IsClear g) (parse_request P h)
        (λ _. free_request) (parse_request-IsParsed h r)
        (λ a g p.
          Returns-map _ _ (free_request g) (free_request-IsClear g p.releasable p.request_string)
            (λ b i c. c.0))

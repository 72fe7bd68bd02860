-- ===== src/Client/Operations/Sent.antt =====
-- mcc_send and mcc_ui_send: from a client to the queue, and what the server parses there.
use sqlbus.Prelude.{
  ℕ, ◌<◌, ◌≡◌, refl, ap, ◌∙◌, sym, Bool, true, false, Option, none, some, ◌∷◌, Bytes, codes, ℤ,
  length, ◌==◌, success,
}
use sqlbus.Server.Platform.{Platform}
use sqlbus.Server.State.{live, Handle}
use sqlbus.Server.Exec.{Out, done, Returns}
use sqlbus.Server.Redis.Queue.{Redis}
use sqlbus.Server.Request.{parse_request}
use sqlbus.Server.Request.Fields.{Sql, single, update_insert, holding}
use sqlbus.Client.{Request, Bus, succeeded}
use sqlbus.Client.Json.{int_max, Codec, Reading}
use sqlbus.Client.Marshall.{marshall_json}
use sqlbus.Client.Marshall.Decoded.{
  filled, meant, parse_request-marshall_json, tree_of, tree_success,
}
use sqlbus.Client.Operations.{
  System, exec_sync, exec_async, mcc_send, mcc_ui_send, send_request, get_uuid, push_request,
  pushed,
}

module _ (P : Platform) (C : Codec P) (R : Reading P C) (S : System P) (Q : Redis P) where
  open Q use {queue, lpush_reply, lpush_queue}
  open P use {World}

  -- The second argument of mcc_send
  abbrev pub flag_of : Bool → ℕ
  flag_of true = exec_sync
  flag_of false = exec_async

  -- A connected client between two requests
  abbrev pub connected : Bus P → Bus P
  connected bus = record bus {
    redis = true;
    request = record (bus.request) { statement = none; update = none; insert = none };
  }

  -- The request of a client that sends statements.
  abbrev pub request_of : (uuid : Bytes) → Sql → Bool → World → Request
  request_of uuid sql sync w =
      filled P C R S.process_name uuid (codes "request") uuid S.getpid (S.now w).0 (flag_of sync)
        sql

  -- The queue has one request more, at its head; the server parses it into what was sent, and the
  -- client waits at the uuid and holds no string of the request any more.
  abbrev pub Sent :
      (uuid : Bytes) → Sql → (text : Bytes) → Bool → Bus P → World → World → Bus P × World → Type 0
  Sent uuid sql text sync bus w0 w t =
      (queue t.1 bus.send_queue ≡ text ∷ queue w0 bus.send_queue)
      × (t.0 ≡ record (connected bus) {
        recv_queue = some uuid;
        request = record (bus.request) {
          message_type = none;
          receive_channel = none;
          client_name = none;
          uuid = none;
          statement = none;
          update = none;
          insert = none;
          timestamp = (S.now w).0;
          pid = S.getpid;
          synchronization_type = flag_of sync;
        };
      })
      × ((h : Handle)
          → h.request_string ≡ live text
          → parse_request P h
            ≡ done success (
                holding
                  (meant P C R S.process_name uuid (codes "request") uuid S.getpid (S.now w).0
                    (flag_of sync) sql)
                  h))

  module _ (uuid : Bytes) (sql : Sql) (text : Bytes) (sync : Bool) (bus : Bus P) (w0 : World)
      (source : (S.read_uuid_source w0).0 ≡ some uuid) (whole : (length uuid == 36) ≡ true)
      (small : S.getpid < int_max) (early : (S.now (S.read_uuid_source w0).1).0 < int_max)
      (printed : (marshall_json P C (request_of uuid sql sync (S.read_uuid_source w0).1)).1
        ≡ some text) where
    built :
        marshall_json P C (request_of uuid sql sync (S.read_uuid_source w0).1)
        ≡ (succeeded, some text)
    built =
        whole_text
        ∙ ap {A = Option Bytes} {B = ℤ × Option Bytes} (λ o. (succeeded, o))
            (sym (ap (λ x. x.1) whole_text) ∙ printed)
      where
        whole_text : marshall_json P C (request_of uuid sql sync (S.read_uuid_source w0).1) ≡ (
          succeeded,
          Codec.print_json C (tree_of P C R (request_of uuid sql sync (S.read_uuid_source w0).1)),
        )
        whole_text =
            tree_success P C R S.process_name uuid (codes "request") uuid S.getpid
              (S.now (S.read_uuid_source w0).1).0 (flag_of sync) sql

    parsed :
        (h : Handle)
        → h.request_string ≡ live text
        → parse_request P h
          ≡ done success (
              holding
                (meant P C R S.process_name uuid
                  (codes "request")
                  uuid
                  S.getpid
                  (S.now (S.read_uuid_source w0).1).0
                  (flag_of sync)
                  sql)
                h)
    parsed h e =
        (parse_request-marshall_json P C R S.process_name uuid (codes "request") uuid S.getpid
          (S.now (S.read_uuid_source w0).1).0 (flag_of sync) sql text h small early printed e).0

    abbrev Delivered : Out (Bus P × World) ℤ → Type 0
    Delivered =
        Returns
          (λ rv t. (rv ≡ succeeded) × Sent uuid sql text sync bus w0 (S.read_uuid_source w0).1 t)

  module _ (uuid text : Bytes) (bus : Bus P) (w0 : World)
      (source : (S.read_uuid_source w0).0 ≡ some uuid) (whole : (length uuid == 36) ≡ true)
      (small : S.getpid < int_max) (early : (S.now (S.read_uuid_source w0).1).0 < int_max)
      (kept : queue (S.now (S.read_uuid_source w0).1).1 bus.send_queue
        ≡ queue w0 bus.send_queue) where
    sent_single :
        (sql : Bytes) (sync : Bool)
        (printed : (marshall_json P C
            (request_of uuid (single sql) sync (S.read_uuid_source w0).1)).1
          ≡ some text)
        → Delivered uuid (single sql) text sync bus w0 source whole small early printed (
            send_request P C S
              (flag_of sync)
              (λ r. record r { statement = some sql })
              (λ r. record r { statement = none })
              (connected bus, w0))
    unfolding send_request get_uuid push_request pushed
    sent_single sql sync printed =
        rw
          (
            source,
            whole,
            built uuid (single sql) text sync bus w0 source whole small early printed,
            lpush_reply bus.send_queue text (S.now (S.read_uuid_source w0).1).1,
          )
          (
            refl,
            (
              lpush_queue bus.send_queue text _ ∙ ap (λ q. text ∷ q) kept,
              refl,
              parsed uuid (single sql) text sync bus w0 source whole small early printed,
            ),
          )

    sent_update_insert :
        (update insert : Bytes)
        (printed : (marshall_json P C
            (request_of uuid (update_insert update insert) false (S.read_uuid_source w0).1)).1
          ≡ some text)
        → Delivered uuid
            (update_insert update insert)
            text
            false
            bus
            w0
            source
            whole
            small
            early
            printed
            (send_request P C S exec_async
              (λ r. record r { update = some update; insert = some insert })
              (λ r. record r { update = none; insert = none })
              (connected bus, w0))
    unfolding send_request get_uuid push_request pushed
    sent_update_insert update insert printed =
        rw
          (
            source,
            whole,
            built uuid (update_insert update insert) text false bus w0 source whole small early
                printed,
            lpush_reply bus.send_queue text (S.now (S.read_uuid_source w0).1).1,
          )
          (
            refl,
            (
              lpush_queue bus.send_queue text _ ∙ ap (λ q. text ∷ q) kept,
              refl,
              parsed uuid (update_insert update insert) text false bus w0 source whole small early
                  printed,
            ),
          )

  -- A connected client with no statement set (connected), a system whose uuid has 36 bytes and whose
  -- pid and whose time are below INT_MAX, a redis that appends as it documents, a JSON library that
  -- parses what it prints and whose keys do not depend on the case. The request is printed as `text`, and reading
  -- the uuid and the clock does not change the queue. mcc_send, synchronous or not, succeeds, and
  -- Sent holds: the queue has `text` at its head, in front of what it had; the client waits on the
  -- uuid; and of every handle with the request string `text`, sqlbus_parse_request succeeds with
  -- the handle that holds just what was sent.
  pub mcc_send-Sent :
      (uuid sql text : Bytes) (sync : Bool) (bus : Bus P) (w0 : World)
      → (S.read_uuid_source w0).0 ≡ some uuid
      → (length uuid == 36) ≡ true
      → S.getpid < int_max
      → (S.now (S.read_uuid_source w0).1).0 < int_max
      → (marshall_json P C (request_of uuid (single sql) sync (S.read_uuid_source w0).1)).1
        ≡ some text
      → queue (S.now (S.read_uuid_source w0).1).1 bus.send_queue ≡ queue w0 bus.send_queue
      → Returns
          (λ rv t.
            (rv ≡ succeeded) × Sent uuid (single sql) text sync bus w0 (S.read_uuid_source w0).1 t)
          (mcc_send P C S sql (flag_of sync) (connected bus, w0))
  unfolding mcc_send
  mcc_send-Sent uuid sql text true bus w0 source whole small early printed kept =
      sent_single uuid text bus w0 source whole small early kept sql true printed
  mcc_send-Sent uuid sql text false bus w0 source whole small early printed kept =
      sent_single uuid text bus w0 source whole small early kept sql false printed

  -- Under the same conditions, mcc_ui_send of an update and an insert succeeds, and Sent holds of
  -- an asynchronous request: the queue has `text` at its head, the client waits on the uuid, and
  -- sqlbus_parse_request of that text gives the handle of the update and the insert, in this order.
  pub mcc_ui_send-Sent :
      (uuid update insert text : Bytes) (bus : Bus P) (w0 : World)
      → (S.read_uuid_source w0).0 ≡ some uuid
      → (length uuid == 36) ≡ true
      → S.getpid < int_max
      → (S.now (S.read_uuid_source w0).1).0 < int_max
      → (marshall_json P C
          (request_of uuid (update_insert update insert) false (S.read_uuid_source w0).1)).1
        ≡ some text
      → queue (S.now (S.read_uuid_source w0).1).1 bus.send_queue ≡ queue w0 bus.send_queue
      → Returns
          (λ rv t.
            (rv ≡ succeeded)
            × Sent uuid (update_insert update insert) text false bus w0 (S.read_uuid_source w0).1 t)
          (mcc_ui_send P C S update insert (connected bus, w0))
  unfolding mcc_ui_send
  mcc_ui_send-Sent uuid update insert text bus w0 source whole small early printed kept =
      sent_update_insert uuid text bus w0 source whole small early kept update insert printed

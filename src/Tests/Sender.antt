-- ===== src/Tests/Sender.antt =====
-- What a client sends, with a JSON library that knows one document.
use sqlbus.Prelude.{
  ◌≡◌, refl, true, false, none, some, [], Bytes, codes, pos, negsuc, strcmp_eq, arith,
}
use sqlbus.Client.Json.{Json, words, number, flag, entries, no_member, member}
use sqlbus.Server.State.{bad}
use sqlbus.Server.Exec.{Returns}
use sqlbus.Server.Request.Fields.{single, update_insert}
use sqlbus.Client.{Bus, succeeded}
use sqlbus.Client.Json.{add_item}
use sqlbus.Client.Marshall.{
  marshall_json, build_request, add_string, add_number, add_boolean, add_statement,
  check_return_values, first_failure,
}
use sqlbus.Client.Operations.{System, mcc_send, mcc_ui_send}
use sqlbus.Client.Operations.Sent.{Sent, connected, mcc_send-Sent, mcc_ui_send-Sent}
use sqlbus.Server.Redis.Queue.{Redis}
use sqlbus.Tests.Demo.{demo_redis}
use sqlbus.Tests.Library.{
  document_text, knowing, codec, reading, json_eq, members_eq, values_eq, flag_eq,
}
use sqlbus.Tests.Client.{sent}

abbrev new_uuid : Bytes
new_uuid = codes "123e4567-e89b-42d3-a456-426614174000"

abbrev sent_tree : Json
sent_tree = entries (
    member (codes "app") (words (codes "app")) (
      member (codes "uuid") (words new_uuid) (
        member (codes "pid") (number (pos 42)) (
          member (codes "type") (words (codes "request")) (
            member (codes "sync") (flag true) (
              member (codes "rchannel") (words new_uuid) (
                member (codes "timestamp") (number (pos 7))
                  (member (codes "statement") (words (codes "select 1")) no_member))))))))

abbrev computer : (t : Json) → System (knowing t)
computer t = record {
  read_uuid_source = λ w. (some new_uuid, w);
  now = λ w. (7, w);
  getpid = 42;
  process_name = codes "app";
}

unfoldable pub lists : (t : Json) → Redis (knowing t)
unfolding demo_redis
lists t = record {
  queue = λ w. w;
  lpush_reply = demo_redis.lpush_reply;
  lpush_queue = demo_redis.lpush_queue;
  brpop_reply = demo_redis.brpop_reply;
  brpop_queue = demo_redis.brpop_queue;
}

abbrev sender : (t : Json) → Bus (knowing t)
sender t = record {
  etag = 0;
  port = 6379;
  host = codes "127.0.0.1";
  perm = [];
  instance_name = [];
  recv_queue = none;
  send_queue = codes "SqlBusDefaultQueue";
  redis = true;
  request = sent;
  response = record {
    status = negsuc 0;
    message_type = bad;
    server_name = bad;
    database_type = bad;
    message_info = bad;
    uuid = bad;
    field_counter = 0;
    row_counter = 0;
    timestamp = 0;
    message_identification = 0;
    pid = 0;
    row_data = bad;
    field_data = bad;
    reserve_data = bad;
  };
}

mcc_send-Sent_example :
    Returns
      (λ rv t.
        (rv ≡ succeeded)
        × Sent
            (knowing sent_tree)
            (codec sent_tree)
            (reading sent_tree)
            (computer sent_tree)
            (lists sent_tree)
            new_uuid
            (single (codes "select 1"))
            document_text
            true
            (sender sent_tree)
            (λ key. [])
            (λ key. [])
            t)
      (mcc_send (knowing sent_tree) (codec sent_tree) (computer sent_tree) (codes "select 1") 0 (
        connected
            (knowing sent_tree)
            (codec sent_tree)
            (reading sent_tree)
            (computer sent_tree)
            (lists sent_tree)
            (sender sent_tree),
        λ key. [],
      ))
unfolding marshall_json build_request add_string add_number add_boolean add_statement add_item
    check_return_values first_failure json_eq members_eq values_eq flag_eq strcmp_eq
mcc_send-Sent_example =
    mcc_send-Sent (knowing sent_tree) (codec sent_tree) (reading sent_tree) (computer sent_tree)
      (lists sent_tree) new_uuid (codes "select 1") document_text true (sender sent_tree)
      (λ key. []) refl refl (omega arith) (omega arith) refl refl

abbrev update_tree : Json
update_tree = entries (
    member (codes "app") (words (codes "app")) (
      member (codes "uuid") (words new_uuid) (
        member (codes "pid") (number (pos 42)) (
          member (codes "type") (words (codes "request")) (
            member (codes "sync") (flag false) (
              member (codes "rchannel") (words new_uuid) (
                member (codes "timestamp") (number (pos 7)) (
                  member (codes "statement")
                    (entries (
                      member (codes "update") (words (codes "update t"))
                        (member (codes "insert") (words (codes "insert t")) no_member)))
                    no_member))))))))

mcc_ui_send-Sent_example :
    Returns
      (λ rv t.
        (rv ≡ succeeded)
        × Sent
            (knowing update_tree)
            (codec update_tree)
            (reading update_tree)
            (computer update_tree)
            (lists update_tree)
            new_uuid
            (update_insert (codes "update t") (codes "insert t"))
            document_text
            false
            (sender update_tree)
            (λ key. [])
            (λ key. [])
            t)
      (mcc_ui_send
        (knowing update_tree)
        (codec update_tree)
        (computer update_tree)
        (codes "update t")
        (codes "insert t")
        (
          connected
              (knowing update_tree)
              (codec update_tree)
              (reading update_tree)
              (computer update_tree)
              (lists update_tree)
              (sender update_tree),
          λ key. [],
        ))
unfolding marshall_json build_request add_string add_number add_boolean add_statement add_item
    check_return_values first_failure json_eq members_eq values_eq flag_eq strcmp_eq
mcc_ui_send-Sent_example =
    mcc_ui_send-Sent (knowing update_tree) (codec update_tree) (reading update_tree)
      (computer update_tree) (lists update_tree) new_uuid (codes "update t") (codes "insert t")
      document_text (sender update_tree) (λ key. []) refl refl (omega arith) (omega arith) refl refl

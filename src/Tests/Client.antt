-- ===== src/Tests/Client.antt =====
-- What a client receives, with a JSON library that knows one document.
use sqlbus.Prelude.{
  ◌≡◌, refl, true, none, some, [], ◌∷◌, codes, pos, negsuc, strcmp_eq, success, arith,
}
use sqlbus.Client.Json.{Json, words, number, flag, entries, values, no_member, member}
use sqlbus.Server.Platform
use sqlbus.Server.Platform.{Platform, array}
use sqlbus.Server.State.{bad, exec_result_succ}
use sqlbus.Server.Exec.{done, Returns}
use sqlbus.Server.Request.{parse_request}
use sqlbus.Server.Request.Fields.{single, holding}
use sqlbus.Server.Response.{message_of, errorid_of}
use sqlbus.Server.Response.Shape.{IsAnswer}
use sqlbus.Client.{Request, Response, Bus, succeeded}
use sqlbus.Client.Json.{add_item}
use sqlbus.Client.Marshall.{
  marshall_json, build_request, add_string, add_number, add_boolean, add_statement,
  check_return_values, first_failure,
}
use sqlbus.Client.Marshall.Decoded.{filled, meant, parse_request-marshall_json}
use sqlbus.Client.Reader.Table.{texts, table}
use sqlbus.Client.Operations.{System, mcc_recv}
use sqlbus.Client.Operations.Answered.{response_tree, Readable, mcc_recv-Readable}
use sqlbus.Tests.Demo.{Lists, run_command, pop_last, received_handle}
use sqlbus.Tests.Library.{
  document_text, knowing, codec, reading, json_eq, members_eq, values_eq, flag_eq,
}

abbrev pub sent : Request
sent =
    filled (knowing (entries no_member)) (codec (entries no_member)) (reading (entries no_member))
      (codes "app") (codes "1-2-3") (codes "request") (codes "1-2-3") 42 7 0
      (single (codes "select 1"))

abbrev request_tree : Json
request_tree = entries (
    member (codes "app") (words (codes "app")) (
      member (codes "uuid") (words (codes "1-2-3")) (
        member (codes "pid") (number (pos 42)) (
          member (codes "type") (words (codes "request")) (
            member (codes "sync") (flag true) (
              member (codes "rchannel") (words (codes "1-2-3")) (
                member (codes "timestamp") (number (pos 7))
                  (member (codes "statement") (words (codes "select 1")) no_member))))))))

parse_request-marshall_json_example :
    (parse_request (knowing request_tree) (received_handle document_text)
      ≡ done success (
          holding
            (meant
              (knowing request_tree)
              (codec request_tree)
              (reading request_tree)
              (codes "app")
              (codes "1-2-3")
              (codes "request")
              (codes "1-2-3")
              42
              7
              0
              (single (codes "select 1")))
            (received_handle document_text)))
    × ((marshall_json (knowing request_tree) (codec request_tree) sent).0 ≡ succeeded)
unfolding marshall_json build_request add_string add_number add_boolean add_statement add_item
    check_return_values first_failure json_eq members_eq values_eq flag_eq strcmp_eq
parse_request-marshall_json_example =
    parse_request-marshall_json (knowing request_tree) (codec request_tree) (reading request_tree)
      (codes "app") (codes "1-2-3") (codes "request") (codes "1-2-3") 42 7 0
      (single (codes "select 1")) document_text (received_handle document_text) (omega arith)
      (omega arith) refl refl

abbrev answer : Platform.Response
answer = record {
  dbtype = codes "oracle";
  uuid = codes "1-2-3";
  message = [];
  errorid = errorid_of exec_result_succ;
  fields = 2;
  field = codes "ID" ∷ codes "NAME" ∷ [];
  rows = 1;
  result = (codes "1" ∷ codes "Ann" ∷ []) ∷ [];
}

answer-IsAnswer :
    IsAnswer (codes "1-2-3") (record { result_code = exec_result_succ; errstr = bad }) answer
unfolding message_of
answer-IsAnswer = record {
  request = refl;
  message = refl;
  errorid = refl;
  field_count = refl;
  row_count = refl;
  value_counts = refl;
}

abbrev pub answer_tree : Json
answer_tree = entries (
    member (codes "type") (words (codes "response")) (
      member (codes "app") (words (codes "SQLBUS-SERVER")) (
        member (codes "pid") (number (pos 99)) (
          member (codes "dbtype") (words (codes "oracle")) (
            member (codes "timestamp") (number (pos 8)) (
              member (codes "uuid") (words (codes "1-2-3")) (
                member (codes "message") (words []) (
                  member (codes "errorid") (number (pos 0)) (
                    member (codes "fields") (number (pos 2)) (
                      member (codes "field") (values (texts (codes "ID" ∷ codes "NAME" ∷ []))) (
                        member (codes "rows") (number (pos 1)) (
                          member (codes "result")
                            (values (table ((codes "1" ∷ codes "Ann" ∷ []) ∷ [])))
                            no_member))))))))))))

abbrev pub system : System (knowing answer_tree)
system = record {
  read_uuid_source = λ w. (some (codes "123e4567-e89b-42d3-a456-426614174000"), w);
  now = λ w. (7, w);
  getpid = 42;
  process_name = codes "app";
}

abbrev new_response : Response (knowing answer_tree)
new_response = record {
  status = negsuc 0;
  message_type = bad;
  server_name = bad;
  database_type = bad;
  message_info = bad;
  uuid = bad;
  field_counter = 0;
  row_counter = 0;
  timestamp = 0;
  message_identification = 0;
  pid = 0;
  row_data = bad;
  field_data = bad;
  reserve_data = bad;
}

abbrev pub client : Bus (knowing answer_tree)
client = record {
  etag = 0;
  port = 6379;
  host = codes "127.0.0.1";
  perm = [];
  instance_name = [];
  recv_queue = some (codes "1-2-3");
  send_queue = codes "SqlBusDefaultQueue";
  redis = true;
  request = record sent { statement = none };
  response = new_response;
}

abbrev waiting_answer : Lists
waiting_answer key = document_text ∷ []

mcc_recv-Readable_example :
    Returns
      (λ rv t.
        (rv ≡ succeeded)
        × Readable
            (knowing answer_tree)
            (codec answer_tree)
            (reading answer_tree)
            system
            answer
            t.0)
      (mcc_recv (knowing answer_tree) (codec answer_tree) system (client, waiting_answer))
unfolding response_tree message_of errorid_of json_eq members_eq values_eq flag_eq strcmp_eq
    run_command pop_last
mcc_recv-Readable_example =
    mcc_recv-Readable (knowing answer_tree) (codec answer_tree) (reading answer_tree) system
      (codes "1-2-3") (record { result_code = exec_result_succ; errstr = bad }) answer
      answer-IsAnswer 99 8 (some (codes "1-2-3")) document_text (codes "1-2-3") client
      waiting_answer (omega arith) (omega arith) refl refl refl refl

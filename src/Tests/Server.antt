-- ===== src/Tests/Server.antt =====
-- The theorems on the server, in the environment of Tests/Demo.antt.
use sqlbus.Prelude.{
  ◌≡◌, true, refl, none, some, [], ◌∷◌, Bytes, codes, pos, strcmp_eq, success, failure,
}
use sqlbus.Server.Platform.{Platform}
use sqlbus.Server.State.{
  Ptr, bad, null, live, connection_yes, Handle, Driver, Connection, Statement, Settings, Cycle,
}
use sqlbus.Server.Exec.{fault, Returns, ◌>>◌}
use sqlbus.Server.Request.{parse_request, free_request, parse_string, read_request, read_fields}
use sqlbus.Server.Request.Fields.{decode, Agrees, read_fields-decode}
use sqlbus.Server.Request.Release.{IsClear, IsReceived}
use sqlbus.Server.Request.Cycle.{free_request-parse_request}
use sqlbus.Server.Request.Fresh.{free_request-never_set}
use sqlbus.Server.Redis.{write_back_to_redis}
use sqlbus.Server.Redis.Queue.{receive_all, write_back_to_redis-receive_all}
use sqlbus.Server.Catalog.{or_empty, expanded, expand_catalog, expand_catalog-variable}
use sqlbus.Server.Driver.{find_functions, fill_functions, with_handle, load_driver, unload_driver}
use sqlbus.Server.Driver.Loads.{load_driver-IsLoaded, unload_driver-never_loaded}
use sqlbus.Server.Response.{generate_response}
use sqlbus.Server.Response.Shape.{
  executed, statement_of, response_for, Responded, generate_response-Responded,
}
use sqlbus.Server.Service.{serve}
use sqlbus.Server.Service.Dropped.{IsDropped, serve-IsDropped}
use sqlbus.Server.Session.{disconnect_to_database}
use sqlbus.Server.Session.Closed.{IsClosed, disconnect_to_database-IsClosed}
use sqlbus.Server.Response.Serving.{Printing}
use sqlbus.Tests.Demo.{
  Lists, request_object, demo, demo_redis, demo_printing, demo_names, demo_rows, demo_result,
  demo_quiet, received_handle, parse_document,
}

abbrev pub document : Bytes
document = codes "{...}"

pub received_handle-IsReceived : (s : Bytes) → IsReceived (received_handle s)
received_handle-IsReceived s = (
  record {
    uuid = refl;
    app = refl;
    type = refl;
    send_channel = refl;
    request_string = refl;
    response_string = refl;
    text = refl;
    update = refl;
    insert = refl;
  },
  refl,
)

read_fields-decode_example :
    Agrees
      (decode demo request_object)
      (received_handle document)
      (read_fields demo request_object (received_handle document))
read_fields-decode_example = read_fields-decode demo request_object (received_handle document)

free_request-parse_request_example :
    Returns (λ _ g. IsClear g) ((parse_request demo >> free_request) (received_handle document))
free_request-parse_request_example =
    free_request-parse_request demo (received_handle document) (received_handle-IsReceived document)

abbrev fresh_handle : Handle
fresh_handle = record (received_handle document) { response_string = bad }

free_request-never_set_example : (parse_request demo >> free_request) fresh_handle ≡ fault
free_request-never_set_example = free_request-never_set demo fresh_handle refl

abbrev waiting_requests : Lists
waiting_requests key = codes "second" ∷ codes "first" ∷ []

abbrev default_queue : Bytes
default_queue = codes "SqlBusDefaultQueue"

write_back_to_redis-receive_all_example :
    Returns
      (λ r w.
        (r ≡ success)
        × (receive_all demo 3 (received_handle document) w
            ≡ some (codes "first" ∷ codes "second" ∷ document ∷ [])))
      (write_back_to_redis demo (received_handle document) waiting_requests)
unfolding demo_redis
write_back_to_redis-receive_all_example =
    write_back_to_redis-receive_all demo demo_redis (codes "first" ∷ codes "second" ∷ [])
      (received_handle document) default_queue document waiting_requests refl refl refl refl

expand_catalog-variable_example :
    expand_catalog (Platform.getenv demo) (codes "$LIB/libora.so")
    ≡ expanded (codes "/usr/lib/libora.so")
unfolding or_empty strcmp_eq
expand_catalog-variable_example =
    expand_catalog-variable (Platform.getenv demo) (codes "LIB") (codes "libora.so") refl refl refl

abbrev new_driver : Driver
new_driver = record { driver_name = bad; functions = bad; dl_handle = bad }

abbrev pub no_requests : Lists
no_requests key = []

abbrev loaded_driver : Driver
loaded_driver = record {
  driver_name = live (codes "/lib/libora.so");
  functions = live 16;
  dl_handle = live tt;
}

load_driver-IsLoaded_example :
    ((load_driver demo (codes "/lib/libora.so") new_driver no_requests).1 ≡ loaded_driver)
    × (unload_driver (load_driver demo (codes "/lib/libora.so") new_driver no_requests).1
        ≡ some (record { driver_name = null; functions = null; dl_handle = bad }))
unfolding load_driver with_handle fill_functions find_functions strcmp_eq
load_driver-IsLoaded_example =
    load_driver-IsLoaded demo (codes "/lib/libora.so") new_driver no_requests refl

unload_driver-never_loaded_example :
    ((load_driver demo (codes "/lib/none.so") new_driver no_requests).0 ≡ failure)
    × (unload_driver (load_driver demo (codes "/lib/none.so") new_driver no_requests).1 ≡ none)
unfolding strcmp_eq
unload_driver-never_loaded_example =
    unload_driver-never_loaded demo (codes "/lib/none.so") new_driver no_requests refl refl

abbrev pub connected : Connection
connected = record {
  credentials = record { username = []; password = []; hostname = []; database = []; port = pos 0 };
  catalog = codes "/lib/libora.so";
  conn_status = connection_yes;
  driver = loaded_driver;
}

abbrev pub settings : Settings
settings = record {
  config_file = codes "/etc/sqlbus.ini";
  dbtype = codes "oracle";
  db_user = some (codes "sqlbus");
  db_auth = some (codes "sqlbus");
  db_host = none;
  db_database = some (codes "ORCL");
  db_port = pos 0;
  memcache_host = codes "127.0.0.1";
  memcache_port = 6379;
  memcache_ctimeo = 5;
  memcache_rtimeo = 600;
  memcache_auth = none;
  memcache_database = some (codes "0");
}

abbrev parsed_handle : Handle
parsed_handle = record (received_handle document) { uuid = live (codes "1-2-3") }

abbrev pub serving : Handle → Ptr Statement → Cycle demo
serving h st = record {
  handle = h;
  henv = live [];
  hdbc = live connected;
  hstmt = st;
  world = no_requests;
}

generate_response-Responded_example :
    Returns
      (λ a s.
        (a ≡ success)
        × Responded demo connected executed bad parsed_handle
            (live [])
            (codes "1-2-3")
            demo_names
            demo_rows
            (λ w. w ≡ no_requests)
            demo_printing
            (demo_quiet (λ w. w ≡ no_requests))
            (demo_result (λ w. w ≡ no_requests))
            (Printing.printer demo_printing
              (response_for (codes "oracle") (codes "1-2-3") executed demo_names demo_rows))
            s)
      (generate_response demo settings (serving parsed_handle (live (statement_of executed bad))))
generate_response-Responded_example =
    generate_response-Responded demo connected executed bad parsed_handle (live []) (codes "1-2-3")
      demo_names demo_rows (λ w. w ≡ no_requests) demo_printing (demo_quiet (λ w. w ≡ no_requests))
      (demo_result (λ w. w ≡ no_requests)) settings
      (serving parsed_handle (live (statement_of executed bad))) refl (refl, refl, refl, refl, refl)
      refl

abbrev synchronous_handle : Handle
synchronous_handle = record parsed_handle { sync = true; send_channel = live (codes "answers") }

abbrev NoAnswers : Lists → Type 0
NoAnswers w = w (codes "answers") ≡ []

serve-IsDropped_example :
    Returns
      (λ _ s. IsDropped demo (serving (received_handle (codes "{")) null) s)
      (serve demo 9 settings (serving (received_handle (codes "{")) null))
unfolding parse_request parse_string read_request parse_document strcmp_eq
serve-IsDropped_example =
    serve-IsDropped demo (serving (received_handle (codes "{")) null) 9 settings
      (received_handle-IsReceived (codes "{")) refl

disconnect_to_database-IsClosed_example :
    Returns
      (λ r t. (r ≡ success) × IsClosed demo [] null parsed_handle t)
      (disconnect_to_database demo (serving parsed_handle null))
unfolding unload_driver
disconnect_to_database-IsClosed_example =
    disconnect_to_database-IsClosed demo [] null parsed_handle connected
      (record { driver_name = null; functions = null; dl_handle = bad }) refl
      (serving parsed_handle null) refl (refl, refl, refl, refl)

-- ===== src/Client/Operations.antt =====
-- client/hisqlbus.c: the functions that create a client, connect it, and send and receive. Memory
-- does not run out but in sqlbusCreate; what is printed on the terminal is left out.
pub mod Answered
pub mod Served
pub mod Sent
use sqlbus.Prelude.{
  ℕ, Bool, true, false, Option, none, some, List, [], ◌∷◌, Bytes, codes, ℤ, pos, negsuc, ◌==ℤ◌,
  ◌==◌, ltb, length, take, if◌then◌else◌, ◌&&◌, ◌||◌, not, strcasecmp_eq,
}
use sqlbus.Server.Platform.{
  Platform, Reply, status, error, string, integer, nil, array, Connected, no_context,
  failed_context, usable_context, Arg, word, number,
}
use sqlbus.Server.Exec.{Out, done, fault, Prog, ◌>>=◌, ◌>>◌, pure, gets, modify}
use sqlbus.Server.Redis.{strstr}
use sqlbus.Client.{Request, Response, Bus, failed, succeeded, set_error}
use sqlbus.Client.Json.{Codec}
use sqlbus.Client.Marshall.{marshall_json}
use sqlbus.Client.Unmarshall.{unmarshall_json}

abbrev default_port : ℕ
default_port = 6379

abbrev default_host : Bytes
default_host = codes "127.0.0.1"

abbrev send_queue_name : Bytes
send_queue_name = codes "SqlBusDefaultQueue"

abbrev connect_timeout : ℕ
connect_timeout = 5

abbrev pub response_timeout : ℕ
response_timeout = 50

-- The arrays host, perm and instance of sqlbusMCClient
abbrev client_array_size : ℕ
client_array_size = 64

-- EXEC_SYNC and EXEC_ASYNC
abbrev pub exec_sync : ℕ
exec_sync = 0

abbrev pub exec_async : ℕ
exec_async = 1

abbrev no_request : Request
no_request = record {
  message_type = none;
  receive_channel = none;
  client_name = none;
  update = none;
  insert = none;
  statement = none;
  uuid = none;
  timestamp = 0;
  synchronization_type = 0;
  pid = 0;
}

abbrev or_default : Option Bytes → Bytes → Bytes
or_default none s = s
or_default (some t) s = t

-- What mcc_auth makes of a reply: only an invalid password is a failure.
unfoldable pub auth_code : Reply → ℤ
auth_code (error s) = if strstr s (codes "invalid password") then failed else succeeded
auth_code _ = succeeded

-- What the system gives to a client: the bytes read in /proc/sys/kernel/random/uuid (none if it
-- cannot be opened), the time, the process and its name.
pub record System (P : Platform) : Type 0 where
  pub read_uuid_source : Platform.World P → Option Bytes × Platform.World P
  pub now : Platform.World P → ℕ × Platform.World P
  pub getpid : ℕ
  pub process_name : Bytes

module _ (P : Platform) (C : Codec P) (S : System P) where
  open P use {World, malloc, redis_connect, redis_command}

  -- A function of a client
  abbrev pub Operation : Type 0 → Type 0
  Operation A = Prog (Bus P × World) A

  abbrev on_bus : (Bus P → Bus P) → Operation (Unit {0})
  on_bus f = modify (λ s. (f s.0, s.1))

  abbrev pub refuse : Operation ℤ
  refuse s = done failed (set_error s.0, s.1)

  abbrev command : List Arg → Operation (Option Reply)
  command args s = done (redis_command args s.1).0 (s.0, (redis_command args s.1).1)

  -- sqlbusCreate, with the response as malloc leaves it: NULL when memory is out, and a fault when
  -- a string does not fit.
  unfoldable pub create : Response P → ℕ → Option Bytes → Option Bytes → Prog World (Option (Bus P))
  create r port host auth w =
      let err = malloc w in
      let bus = malloc err.1 in
      let mc = malloc bus.1 in
      let proto = malloc mc.1 in
      let queue = malloc proto.1 in
      if bus.0 && mc.0 && err.0 && proto.0 && queue.0
      then (if ltb (length (or_default host default_host)) client_array_size
            && ltb (length (or_default auth [])) client_array_size
          then done
              (some (record {
                etag = 0;
                port = if port == 0 then default_port else port;
                host = or_default host default_host;
                perm = or_default auth [];
                instance_name = [];
                recv_queue = none;
                send_queue = send_queue_name;
                redis = false;
                request = no_request;
                response = record r { status = negsuc 0 };
              }))
              queue.1
          else fault)
      else done none queue.1

  -- mcc_conn
  unfoldable pub mcc_conn : Operation ℤ
  mcc_conn (bus, w) =
      let out = redis_connect bus.host bus.port connect_timeout w in
      elim (out.0) [
        | usable_context ↦ done succeeded (record bus { redis = true }, out.1)
        | no_context ↦ done failed (set_error bus, out.1)
        | failed_context ↦ done failed (set_error bus, out.1)
      ]

  abbrev when_connected : Operation ℤ → Operation ℤ
  when_connected m s = if (s.0).redis then m s else refuse s

  -- mcc_auth
  unfoldable pub mcc_auth : Operation ℤ
  mcc_auth = when_connected (λ s.
      (command (word (codes "AUTH") ∷ word (s.0).perm ∷ []) >>= λ reply. elim reply [
        | none ↦ refuse
        | some r ↦ pure (auth_code r)
      ])
        s)

  abbrev put_status : ℤ → Bus P → Bus P
  put_status k bus = record bus { response = record (bus.response) { status = k } }

  -- What mcc_recv does with the reply.
  unfoldable pub take_reply : Reply → Operation ℤ
  take_reply (array (key ∷ element ∷ [])) (bus, w) =
      let out = unmarshall_json P C element bus in
      if out.0 ==ℤ succeeded
      then done succeeded (put_status (pos 1) out.1, w)
      else done failed (put_status (pos 0) out.1, w)
  take_reply _ (bus, w) = done failed (put_status (pos 0) (set_error bus), w)

  abbrev on_received : Option Reply → Operation ℤ
  on_received none = refuse
  on_received (some r) = take_reply r

  abbrev receive_from : Option Bytes → Operation ℤ
  receive_from none = refuse
  receive_from (some queue) =
      command (word (codes "BRPOP") ∷ word queue ∷ number response_timeout ∷ []) >>= on_received

  -- mcc_recv
  unfoldable pub mcc_recv : Operation ℤ
  mcc_recv = when_connected (λ s. receive_from (s.0).recv_queue s)

  -- mcc_close
  unfoldable pub mcc_close : Operation ℤ
  mcc_close s =
      if (s.0).redis then done succeeded (record (s.0) { redis = false }, s.1) else done failed s

  abbrev select_code : Option Reply → Operation ℤ
  select_code (some (status s)) = pure succeeded
  select_code _ = refuse

  -- mcc_select, of an instance that is not NULL; it is cut to 61 bytes.
  unfoldable pub mcc_select : Bytes → Operation ℤ
  mcc_select name s =
      if (s.0).redis
      then (on_bus (λ bus. record bus { instance_name = take 61 name })
            >> command (word (codes "SELECT") ∷ word (take 61 name) ∷ [])
            >>= select_code)
          s
      else done failed s

  -- getUuid
  unfoldable pub get_uuid : Operation (Option Bytes)
  get_uuid s =
      let out = S.read_uuid_source s.1 in
      done (elim (out.0) [ none ↦ none | some b ↦ if length b == 36 then some b else none ])
        (s.0, out.1)

  -- The request that both senders fill; the channel is the uuid.
  abbrev fill_request : Bytes → ℕ → ℕ → Request → Request
  fill_request uuid timestamp sync r = record r {
    uuid = some uuid;
    pid = S.getpid;
    client_name = some S.process_name;
    timestamp = timestamp;
    synchronization_type = sync;
    message_type = some (codes "request");
    receive_channel = some uuid;
  }

  abbrev on_request : (Request → Request) → Bus P → Bus P
  on_request f bus = record bus { request = f bus.request }

  -- The reply to LPUSH
  unfoldable pub pushed : Bytes → Option Reply → Operation ℤ
  pushed channel none = refuse
  pushed channel (some (error s)) = refuse
  pushed channel (some r) =
      on_bus (λ bus. record bus { recv_queue = some channel }) >> pure succeeded

  -- From marshallJson to the label; a string that was not printed is handed to redisCommand as NULL.
  unfoldable pub push_request : Bytes → Operation ℤ
  push_request channel = do
    s ← gets (λ s. s)
    send_built (s.0).send_queue (marshall_json P C (s.0).request)
    where
      send_built : Bytes → ℤ × Option Bytes → Operation ℤ
      send_built queue (rv, some text) =
          if rv ==ℤ succeeded
          then (command (word (codes "LPUSH") ∷ word queue ∷ word text ∷ []) >>= pushed channel)
          else refuse
      send_built queue (rv, none) = if rv ==ℤ succeeded then (λ s. fault) else refuse

  -- What is freed behind the label
  abbrev clear_request : Request → Request
  clear_request r = record r {
    client_name = none;
    message_type = none;
    receive_channel = none;
    uuid = none;
  }

  -- The common part of the senders: `put` sets the statements, and `clear` frees them.
  unfoldable pub send_request : ℕ → (Request → Request) → (Request → Request) → Operation ℤ
  send_request sync put clear = get_uuid >>= λ found. elim found [
    | none ↦ refuse
    | some uuid ↦ (λ s. done (S.now s.1).0 (s.0, (S.now s.1).1)) >>= λ timestamp.
        on_bus (on_request (λ r. put (fill_request uuid timestamp sync r)))
        >> push_request uuid
        >>= λ rv. on_bus (on_request (λ r. clear (clear_request r))) >> pure rv
  ]

  -- mcc_send, of a statement that is not NULL
  unfoldable pub mcc_send : Bytes → ℕ → Operation ℤ
  mcc_send sql sync = when_connected (
      if sync == exec_sync || sync == exec_async
      then send_request sync (λ r. record r { statement = some sql })
          (λ r. record r { statement = none })
      else refuse)

  -- mcc_ui_send, of two statements that are not NULL
  unfoldable pub mcc_ui_send : Bytes → Bytes → Operation ℤ
  mcc_ui_send update insert = when_connected (
      send_request exec_async (λ r. record r { update = some update; insert = some insert })
        (λ r. record r { update = none; insert = none }))

-- ===== src/Server/Request/Fields.antt =====
-- Which requests sqlbus_parse_request accepts, and what it then puts in the handle.
use sqlbus.Prelude.{
  ◌≡◌, refl, Bool, true, false, Option, none, some, Bytes, codes, ℤ, Status, success, failure,
}
use sqlbus.Server.Platform.{Platform, View, text, numeric, boolean, object}
use sqlbus.Server.State.{live, Handle}
use sqlbus.Server.Request.{
  leaf, ◌▸◌, statement_leaf, read_uuid, read_app, read_pid, read_type, read_sync, read_rchannel,
  read_timestamp, read_update_insert, read_statement, read_fields,
}

-- The SQL of a request: one statement, or an update with the insert for when nothing is found.
pub data Sql : Type 0 where
  single : Bytes → Sql
  update_insert : Bytes → Bytes → Sql

pub record Request : Type 0 where
  pub uuid : Bytes
  pub app : Bytes
  pub pid : ℤ
  pub type : Bytes
  pub sync : Bool
  pub channel : Option Bytes
  pub timestamp : ℤ
  pub sql : Sql

infixl 5 ◌>>=◌
abbrev ◌>>=◌ : {A B : Type 0} → Option A → (A → Option B) → Option B
none >>= f = none
some a >>= f = f a

abbrev text_of : View → Option Bytes
text_of (text s) = some s
text_of _ = none

abbrev int_of : View → Option ℤ
int_of (numeric i d) = some i
int_of _ = none

abbrev double_of : View → Option ℤ
double_of (numeric i d) = some d
double_of _ = none

abbrev bool_of : View → Option Bool
bool_of (boolean b) = some b
bool_of _ = none

-- A synchronous request names its response channel.
abbrev channel_of : Bool → View → Option (Option Bytes)
channel_of sync (text s) = some (some s)
channel_of true _ = none
channel_of false _ = some none

abbrev sql_of : View → View → View → Option Sql
sql_of (text s) u i = some (single s)
sql_of object u i = do update ← text_of u; insert ← text_of i; some (update_insert update insert)
sql_of _ u i = none

-- The request that a JSON object stands for, if it has every entry with its type.
unfoldable pub decode : (P : Platform) → Platform.Item P → Option Request
decode P root = do
  uuid ← text_of (leaf P root (codes "UUID"))
  app ← text_of (leaf P root (codes "APP"))
  pid ← int_of (leaf P root (codes "PID"))
  type ← text_of (leaf P root (codes "TYPE"))
  sync ← bool_of (leaf P root (codes "SYNC"))
  channel ← channel_of sync (leaf P root (codes "RCHANNEL"))
  timestamp ← double_of (leaf P root (codes "TIMESTAMP"))
  sql ←
      sql_of (leaf P root (codes "STATEMENT")) (statement_leaf P root (codes "UPDATE"))
        (statement_leaf P root (codes "INSERT"))
  some (record {
    uuid = uuid;
    app = app;
    pid = pid;
    type = type;
    sync = sync;
    channel = channel;
    timestamp = timestamp;
    sql = sql;
  })

abbrev put_channel : Option Bytes → Handle → Handle
put_channel none h = h
put_channel (some c) h = record h { send_channel = live c }

abbrev put_sql : Sql → Handle → Handle
put_sql (single s) h = record h { kind = 1; text = live s }
put_sql (update_insert u i) h = record h { kind = 2; update = live u; insert = live i }

-- The handle that holds a request.
unfoldable pub holding : Request → Handle → Handle
holding r h =
    put_sql r.sql
      (record (put_channel r.channel (record h {
        uuid = live r.uuid;
        app = live r.app;
        pid = r.pid;
        type = live r.type;
        sync = r.sync;
      })) { timestamp = r.timestamp })

-- How the result of the chain depends on what the object decodes to.
abbrev pub Agrees : Option Request → Handle → Status × Handle → Type 0
Agrees (some r) h out = out ≡ (success, holding r h)
Agrees none h out = out.0 ≡ failure

agrees :
    (uuid app pid type sync rchannel timestamp statement u i : View) (h : Handle)
    → Agrees
        (do
          uuid' ← text_of uuid
          app' ← text_of app
          pid' ← int_of pid
          type' ← text_of type
          sync' ← bool_of sync
          channel' ← channel_of sync' rchannel
          timestamp' ← double_of timestamp
          sql' ← sql_of statement u i
          some (record {
            uuid = uuid';
            app = app';
            pid = pid';
            type = type';
            sync = sync';
            channel = channel';
            timestamp = timestamp';
            sql = sql';
          }))
        h
        (read_uuid uuid h
          ▸ read_app app
          ▸ read_pid pid
          ▸ read_type type
          ▸ read_sync sync
          ▸ read_rchannel rchannel
          ▸ read_timestamp timestamp
          ▸ read_statement statement u i)
unfolding read_uuid read_app read_pid read_type read_sync read_rchannel read_timestamp
    read_statement holding ◌▸◌ read_update_insert
agrees (text a) (text b) (numeric c d) (text e) (boolean true) (text g) (numeric t t') (text s) u i
      h =
    refl
agrees (text a) (text b) (numeric c d) (text e) (boolean true) (text g) (numeric t t') object
      (text u) (text i) h =
    refl
agrees (text a) (text b) (numeric c d) (text e) (boolean true) (text g) (numeric t t') object
      (text u) _ h =
    refl
agrees (text a) (text b) (numeric c d) (text e) (boolean false) (text g) (numeric t t') (text s) u i
      h =
    refl
agrees (text a) (text b) (numeric c d) (text e) (boolean false) (text g) (numeric t t') object
      (text u) (text i) h =
    refl
agrees (text a) (text b) (numeric c d) (text e) (boolean false) (text g) (numeric t t') object
      (text u) _ h =
    refl
agrees (text a) (text b) (numeric c d) (text e) (boolean false) _ (numeric t t') (text s) u i h =
    refl
agrees (text a) (text b) (numeric c d) (text e) (boolean false) _ (numeric t t') object (text u)
      (text i) h =
    refl
agrees (text a) (text b) (numeric c d) (text e) (boolean false) _ (numeric t t') object (text u) _
      h =
    refl
agrees _ _ _ _ _ rc ts st u i h = refl

-- sqlbus_parse_request accepts exactly the objects that decode to a request: then it succeeds and
-- the handle holds that request, every other field as it was; on all others it fails.
pub read_fields-decode :
    (P : Platform) (root : Platform.Item P) (h : Handle)
    → Agrees (decode P root) h (read_fields P root h)
unfolding decode read_fields
read_fields-decode P root h =
    agrees (leaf P root (codes "UUID")) (leaf P root (codes "APP")) (leaf P root (codes "PID"))
      (leaf P root (codes "TYPE")) (leaf P root (codes "SYNC")) (leaf P root (codes "RCHANNEL"))
      (leaf P root (codes "TIMESTAMP")) (leaf P root (codes "STATEMENT"))
      (statement_leaf P root (codes "UPDATE")) (statement_leaf P root (codes "INSERT")) h

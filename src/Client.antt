-- ===== src/Client.antt =====
-- The client library (client/hisqlbus.c, client/util.c): the state of a client, and what it calls
-- and does not implement besides the platform of the server.
pub mod Json
pub mod Marshall
pub mod Unmarshall
pub mod Reader
pub mod Operations
use sqlbus.Prelude.{ℕ, Bool, Option, Bytes, ℤ, pos, negsuc}
use sqlbus.Server.Platform.{Platform}
use sqlbus.Server.State.{Ptr}

-- FAILURE, SUCCESS and SUCCESS_WITH_INFO
abbrev pub failed : ℤ
failed = negsuc 0

abbrev pub succeeded : ℤ
succeeded = pos 0

abbrev pub with_info : ℤ
with_info = pos 1

-- sqlbusRequest; a string that is not set is NULL.
pub record Request : Type 0 where
  pub message_type : Option Bytes
  pub receive_channel : Option Bytes
  pub client_name : Option Bytes
  pub update : Option Bytes
  pub insert : Option Bytes
  pub statement : Option Bytes
  pub uuid : Option Bytes
  pub timestamp : ℕ
  pub synchronization_type : ℕ
  pub pid : ℕ

-- sqlbusResponse: the strings, the counters (uint32_t), and the nodes of the parsed response.
pub record Response (P : Platform) : Type 0 where
  pub status : ℤ
  pub message_type : Ptr Bytes
  pub server_name : Ptr Bytes
  pub database_type : Ptr Bytes
  pub message_info : Ptr Bytes
  pub uuid : Ptr Bytes
  pub field_counter : ℕ
  pub row_counter : ℕ
  pub timestamp : ℕ
  pub message_identification : ℕ
  pub pid : ℕ
  pub row_data : Ptr (Platform.Item P)
  pub field_data : Ptr (Platform.Item P)
  pub reserve_data : Ptr (Platform.Item P)

-- sqlbus with its sqlbusMCClient and its two messages; of the error only the tag.
pub record Bus (P : Platform) : Type 0 where
  pub etag : ℕ
  pub port : ℕ
  pub host : Bytes
  pub perm : Bytes
  pub instance_name : Bytes
  pub recv_queue : Option Bytes
  pub send_queue : Bytes
  pub redis : Bool
  pub request : Request
  pub response : Response P

-- serror, and what else tags an error
abbrev pub set_error : {P : Platform} → Bus P → Bus P
set_error bus = record bus { etag = 1 }

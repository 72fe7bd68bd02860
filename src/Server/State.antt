-- ===== src/Server/State.antt =====
-- The state that the server's functions share, and how they are composed.
use sqlbus.Prelude.{ℕ, Bool, true, false, Option, Bytes, ℤ, pos, negsuc, ◌==ℤ◌}
use sqlbus.Config.{Config}
use sqlbus.Server.Platform.{Platform, Credentials}

-- A pointer: with no valid target (never written, or freed and not reset), NULL, or to an object.
pub data Ptr {ℓ} (A : Type ℓ) : Type ℓ where
  bad : Ptr A
  null : Ptr A
  live : A → Ptr A

abbrev pub is_valid {ℓ} : {A : Type ℓ} → Ptr A → Bool
is_valid bad = false
is_valid null = true
is_valid (live a) = true

-- What the functions of driver_manager.h return.
abbrev pub return_success : ℤ
return_success = pos 0

abbrev pub return_failure : ℤ
return_failure = negsuc 0

abbrev pub data_not_found : ℤ
data_not_found = pos 100

abbrev pub connection_not : ℤ
connection_not = pos 99

abbrev pub connection_yes : ℤ
connection_yes = pos 98

abbrev pub exec_result_fail : ℤ
exec_result_fail = pos 97

abbrev pub exec_result_succ : ℤ
exec_result_succ = pos 96

abbrev pub unique_constraint : ℤ
unique_constraint = pos 95

abbrev pub is_zero : ℤ → Bool
is_zero code = code ==ℤ return_success

-- sqlbus_handle_t, less errstr, which only goes to the log. `kind` is `statement.type`, and `text`
-- is `statement.data`.
pub record Handle : Type 0 where
  pub redis : Bool
  pub sync : Bool
  pub priority : ℕ
  pub timestamp : ℤ
  pub oper_timeout : ℕ
  pub pid : ℤ
  pub app : Ptr Bytes
  pub type : Ptr Bytes
  pub uuid : Ptr Bytes
  pub send_channel : Ptr Bytes
  pub recv_channel : Ptr Bytes
  pub request_string : Ptr Bytes
  pub response_string : Ptr Bytes
  pub kind : ℕ
  pub update : Ptr Bytes
  pub insert : Ptr Bytes
  pub text : Ptr Bytes

-- driver_manager
pub record Driver : Type 0 where
  pub driver_name : Ptr Bytes
  -- How many entries of the table have their address; the first of them have.
  pub functions : Ptr ℕ
  pub dl_handle : Ptr (Unit {0})

-- connection_t, less the pointer to the environment, which is the one of the cycle.
pub record Connection : Type 0 where
  pub credentials : Credentials
  pub catalog : Bytes
  pub conn_status : ℤ
  pub driver : Driver

-- statement_t; `connection` is the connection of the cycle, and `errstr` is the text in the array
-- error->errstr, bad where nothing was written yet.
pub record Statement : Type 0 where
  pub result_code : ℤ
  pub errstr : Ptr Bytes

-- sqlbus_cycle_t: the parts that change while requests are served, and those that they are
-- configured by.
pub record Settings : Type 0 where
  pub config_file : Bytes
  pub dbtype : Bytes
  pub db_user : Option Bytes
  pub db_auth : Option Bytes
  pub db_host : Option Bytes
  pub db_database : Option Bytes
  pub db_port : ℤ
  pub memcache_host : Bytes
  pub memcache_port : ℕ
  pub memcache_ctimeo : ℕ
  pub memcache_rtimeo : ℕ
  pub memcache_auth : Option Bytes
  pub memcache_database : Option Bytes

pub record Cycle (P : Platform) : Type 0 where
  pub handle : Handle
  pub henv : Ptr Config
  pub hdbc : Ptr Connection
  pub hstmt : Ptr Statement
  pub world : Platform.World P

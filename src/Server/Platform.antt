-- ===== src/Server/Platform.antt =====
-- What the server calls and does not implement: the allocator, signals, files, dlopen, the database
-- driver that is loaded, redis through hiredis, and JSON through cJSON. Everything that can change
-- by itself is in `World`; a call returns its result and the next world.
use sqlbus.Prelude.{ℕ, Bool, Option, List, Bytes, ℤ}

-- A redisReply: its type, with the text of `str` where there is one. Of an array the text of each
-- element is kept.
pub data Reply : Type 0 where
  status error string : Bytes → Reply
  integer nil : Reply
  array : List (Option Bytes) → Reply

-- What redisConnect returns: NULL, a context with `err` set, or a context to use.
pub data Connected : Type 0 where
  no_context failed_context usable_context : Connected

-- An argument of redisCommand.
pub data Arg : Type 0 where
  word : Bytes → Arg
  number : ℕ → Arg
  signed : ℤ → Arg

-- What cJSON_IsString, cJSON_IsNumber, … say of an item, with the value fields that go with it:
-- `valuestring`; `valueint`, and the int that a conversion of `valuedouble` gives, which C leaves
-- open where the double is out of range; whether `valueint` is 1.
pub data View : Type 0 where
  text : Bytes → View
  numeric : ℤ → ℤ → View
  boolean : Bool → View
  object : View
  other : View

-- SQLBUS_HANDLE_DBC and SQLBUS_HANDLE_STMT
pub data HandleType : Type 0 where
  handle_dbc handle_stmt : HandleType

-- What DBConnect hands to the driver.
pub record Credentials : Type 0 where
  pub username : Bytes
  pub password : Bytes
  pub hostname : Bytes
  pub database : Bytes
  pub port : ℤ

-- The JSON object that sqlbus_generate_response builds, less the constant entries, the pid and the
-- time.
pub record Response : Type 0 where
  pub dbtype : Bytes
  pub uuid : Bytes
  pub message : Bytes
  pub errorid : ℤ
  pub fields : ℕ
  pub field : List Bytes
  pub rows : ℕ
  pub result : List (List Bytes)

pub record Platform : Type 1 where
  pub World : Type 0
  -- malloc: false stands for NULL.
  pub malloc : World → Bool × World
  -- What the arrays of a new connection_t hold.
  pub new_credentials : World → Credentials
  -- gEnvExit, which a signal may set between two reads
  pub exit_flag : World → Bool × World
  -- fopen and the file's bytes, none if it cannot be opened
  pub open_file : Bytes → World → Option Bytes × World
  pub getenv : Bytes → Option Bytes
  pub atoi : Bytes → ℤ
  pub dlopen : Bytes → World → Bool × World
  pub dlsym : Bytes → World → Bool × World
  -- The functions of a loaded driver: their return code, and what stands behind a pointer they are
  -- given, which is an argument too.
  pub connect_initialize : World → ℤ × World
  pub connect : Credentials → World → ℤ × World
  pub disconnect : World → ℤ × World
  pub stmt_initialize : World → ℤ × World
  pub stmt_finalize : World → ℤ × World
  pub execute : Bytes → World → ℤ × World
  pub get_row_count : ℕ → World → ℤ × ℕ × World
  pub get_field_count : ℕ → World → ℤ × ℕ × World
  pub get_field_name : ℕ → Bytes → World → ℤ × Bytes × World
  pub get_next_row : World → ℤ × World
  pub get_field_value_idx : ℕ → ℕ → Bytes → World → ℤ × Bytes × World
  pub get_error_message : HandleType → World → ℤ × Option Bytes × World
  pub get_connection_status : ℤ → World → ℤ × ℤ × World
  pub get_execute_result_code : ℤ → World → ℤ × ℤ × World
  -- hiredis
  pub redis_connect : Bytes → ℕ → ℕ → World → Connected × World
  pub redis_command : List Arg → World → Option Reply × World
  -- cJSON
  pub Item : Type 0
  pub json_parse : Bytes → Option Item
  pub get_object_item : Item → Bytes → Option Item
  pub view : Item → View
  pub print_response : Response → Option Bytes

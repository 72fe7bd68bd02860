-- ===== src/Tests/Demo.antt =====
-- A small environment to run the server in: redis lists by name, a driver with one table, and a
-- JSON parser that knows one document.
use sqlbus.Prelude.{
  ℕ, zero, suc, ap, ◌∙◌, strcmp_refl, ◌≡◌, refl, true, false, Option, none, some, List, [], ◌∷◌,
  ◌++◌, Bytes, codes, pos, if◌then◌else◌, strcmp_eq,
}
use mathlib.Core.Option.{none-ne-some, some-injective}
use sqlbus.Server.Platform.{
  Platform, Reply, status, integer, nil, array, usable_context, Arg, word, number, View, text,
  numeric, boolean, object,
}
use sqlbus.Server.State.{null, live, Handle}
use sqlbus.Server.Redis.Queue.{Redis}
use sqlbus.Server.Response.Serving.{at, Printing, Result, Quiet}
use sqlbus.Server.Service.Delivered.{Appending}

-- The list under each name
abbrev pub Lists : Type 0
Lists = Bytes → List Bytes

unfoldable pub put : Bytes → List Bytes → Lists → Lists
put key xs w k = if strcmp_eq k key then xs else w k

abbrev pub split_last : List Bytes → Option (List Bytes × Bytes)
split_last [] = none
split_last (x ∷ xs) = elim (split_last xs) [ none ↦ some ([], x) | some p ↦ some (x ∷ p.0, p.1) ]

unfoldable pub pop_last : Bytes → Lists → Option (List Bytes × Bytes) → Option Reply × Lists
pop_last key w none = (some nil, w)
pop_last key w (some p) = (some (array (some key ∷ some p.1 ∷ [])), put key p.0 w)

unfoldable pub run_command : List Arg → Lists → Option Reply × Lists
unfolding put pop_last
run_command (word c ∷ word key ∷ word s ∷ []) w =
    if strcmp_eq c (codes "LPUSH")
    then (some integer, put key (s ∷ w key) w)
    else (some integer, put key (w key ++ s ∷ []) w)
run_command (word c ∷ word key ∷ number t ∷ []) w =
    if strcmp_eq c (codes "BRPOP") then pop_last key w (split_last (w key)) else (some integer, w)
run_command args w = (some (status (codes "OK")), w)

-- A document: an object with the entries of a request, or one of their values.
pub data Document : Type 0 where
  request_object : Document
  value : View → Document

unfoldable pub entry : Bytes → View
entry key =
    if strcmp_eq key (codes "UUID")
    then text (codes "1-2-3")
    else if strcmp_eq key (codes "PID")
    then numeric (pos 42) (pos 42)
    else if strcmp_eq key (codes "SYNC")
    then boolean true
    else if strcmp_eq key (codes "TIMESTAMP")
    then numeric (pos 7) (pos 7)
    else text key

unfoldable pub item_of : Document → Bytes → Option Document
item_of request_object key = some (value (entry key))
item_of (value v) key = none

unfoldable pub view_of : Document → View
view_of request_object = object
view_of (value v) = v

unfoldable pub parse_document : Bytes → Option Document
parse_document s = if strcmp_eq s (codes "{...}") then some request_object else none

abbrev pub demo : Platform
demo = record {
  World = Lists;
  malloc = λ w. (true, w);
  new_credentials =
      λ w. record { username = []; password = []; hostname = []; database = []; port = pos 0 };
  exit_flag = λ w. (false, w);
  open_file = λ name w. (none, w);
  getenv = λ name. if strcmp_eq name (codes "LIB") then some (codes "/usr/lib") else none;
  atoi = λ s. pos 0;
  dlopen = λ file w. (strcmp_eq file (codes "/lib/libora.so"), w);
  dlsym = λ name w. (true, w);
  connect_initialize = λ w. (pos 0, w);
  connect = λ c w. (pos 0, w);
  disconnect = λ w. (pos 0, w);
  stmt_initialize = λ w. (pos 0, w);
  stmt_finalize = λ w. (pos 0, w);
  execute = λ s w. (pos 0, w);
  get_row_count = λ n w. (pos 0, 2, w);
  get_field_count = λ n w. (pos 0, 1, w);
  get_field_name = λ i b w. (pos 0, codes "NAME", w);
  get_next_row = λ w. (pos 0, w);
  get_field_value_idx = λ i j b w. (pos 0, codes "Ann", w);
  get_error_message = λ t w. (pos 0, some (codes "no error"), w);
  get_connection_status = λ n w. (pos 0, pos 98, w);
  get_execute_result_code = λ n w. (pos 0, pos 97, w);
  redis_connect = λ host port timeo w. (usable_context, w);
  redis_command = run_command;
  Item = Document;
  json_parse = parse_document;
  get_object_item = item_of;
  view = view_of;
  print_response = λ r. some (r.uuid ++ r.message);
}

pub split_last-snoc : (xs : List Bytes) (x : Bytes) → split_last (xs ++ x ∷ []) ≡ some (xs, x)
split_last-snoc [] x = refl
split_last-snoc (y ∷ xs) x = rw (split_last-snoc xs x) refl

unfoldable pub demo_redis : Redis demo
unfolding run_command put pop_last strcmp_eq
demo_redis = record {
  queue = λ w. w;
  lpush_reply = λ key s w. refl;
  lpush_queue = λ key s w. rw (strcmp_refl key) refl;
  brpop_reply = λ key t w xs x e. rw (e, split_last-snoc xs x) refl;
  brpop_queue = λ key t w xs x e. rw (e, split_last-snoc xs x, strcmp_refl key) refl;
}

pub demo_printing : Printing demo
demo_printing = record { printer = λ r. r.uuid ++ r.message; printed = λ r. refl }

-- The table of the driver: two rows of one value
abbrev pub demo_names : List Bytes
demo_names = codes "NAME" ∷ []

abbrev pub demo_rows : List (List Bytes)
demo_rows = (codes "Ann" ∷ []) ∷ (codes "Ann" ∷ []) ∷ []

one_name : (i : ℕ) (s : Bytes) → at demo_names i ≡ some s → codes "NAME" ≡ s
one_name zero s e = some-injective _ _ e
one_name (suc i) s e = absurd (none-ne-some s e)

one_value :
    (row : List Bytes) (j : ℕ) (s : Bytes)
    → codes "Ann" ∷ [] ≡ row
    → at row j ≡ some s
    → codes "Ann" ≡ s
one_value row zero s e f = some-injective _ _ (ap (λ r. at r 0) e ∙ f)
one_value row (suc j) s e f = absurd (none-ne-some s (ap (λ r. at r (suc j)) e ∙ f))

one_row : (i : ℕ) (row : List Bytes) → at demo_rows i ≡ some row → codes "Ann" ∷ [] ≡ row
one_row zero row e = some-injective _ _ e
one_row (suc zero) row e = some-injective _ _ e
one_row (suc (suc i)) row e = absurd (none-ne-some row e)

pub demo_result : (I : Lists → Type 0) → Result demo I demo_names demo_rows
demo_result I = record {
  row_number = λ w i. refl;
  field_number = λ w i. refl;
  name_at = λ i s buf w q e. (refl, one_name i s e);
  value_at = λ i j row s buf w q e f. (refl, one_value row j s (one_row i row e) f);
  short_names = refl;
  short_values = refl;
  widths = refl;
}

pub demo_quiet : (I : Lists → Type 0) → Quiet demo I
demo_quiet I = record {
  row_count = λ n w i. i;
  field_count = λ n w i. i;
  name = λ n buf w i. i;
  next_row = λ w i. i;
  value = λ n m buf w i. i;
}

unfoldable pub demo_appending : Appending demo (λ w. w)
unfolding run_command put strcmp_eq
demo_appending = record {
  rpush_queue = λ key s w. rw (strcmp_refl key) refl;
  expire_queue = λ key t w. refl;
}

-- A handle that has just received a request, with nothing else in it; and the same with the
-- response string as malloc left it.
abbrev pub received_handle : Bytes → Handle
received_handle s = record {
  redis = true;
  sync = false;
  priority = 0;
  timestamp = pos 0;
  oper_timeout = 3;
  pid = pos 0;
  app = null;
  type = null;
  uuid = null;
  send_channel = null;
  recv_channel = live (codes "SqlBusDefaultQueue");
  request_string = live s;
  response_string = null;
  kind = 0;
  update = null;
  insert = null;
  text = null;
}

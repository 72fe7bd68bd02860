-- ===== src/Client/Operations/Answered.antt =====
-- The response of src/sqlbus.c at the client: mcc_recv, and the tables that it makes readable.
use sqlbus.Prelude.{
  ℕ, ◌<◌, ◌≡◌, refl, ap, ◌∙◌, sym, Bool, true, Option, none, some, List, [], ◌∷◌, Bytes, codes, ℤ,
  pos, ◌==ℤ◌, ◌==◌, lt→ltb, length, all, if◌then◌else◌, strcasecmp_eq, arith,
}
use sqlbus.Server.Platform
use sqlbus.Server.Platform.{Platform, text, numeric, array, word, number}
use sqlbus.Server.State.{live, Statement}
use sqlbus.Server.Exec.{Out, done, Returns}
use sqlbus.Server.Response.Shape.{IsAnswer}
use sqlbus.Client.{Response, Bus, succeeded}
use sqlbus.Client.Json.{
  Json, words, entries, values, no_member, member, find_member, find_entry, view_of, to_int,
  int_max, Codec, Reading, map_tree,
}
use sqlbus.Client.Marshall.{check_return_values, first_failure}
use sqlbus.Client.Marshall.Decoded.{leaf-tree}
use sqlbus.Client.Unmarshall.{
  to_uint, get_string, get_number, get_array, check_member_number, get_entries, keep_nodes,
  unmarshall_root, unmarshall_json,
}
use sqlbus.Client.Reader.Table.{
  texts, table, count-texts, count-table, HasTable, answer_of, field_at, value_in, reader_fname-at,
  reader_rvalue_idx-value,
}
use sqlbus.Client.Reader.{
  reader_fname, reader_rvalue, reader_rvalue_idx, reader_fcount, reader_rcount,
}
use sqlbus.Client.Reader.Named.{column, read_column, reader_rvalue-column}
use sqlbus.Client.Operations.{System, response_timeout, take_reply, receive_from, mcc_recv}

-- The object that sqlbus_generate_response builds, with its pid and its time.
unfoldable pub response_tree : ℕ → ℕ → Platform.Response → Json
response_tree pid now r = entries (
    member (codes "type") (words (codes "response")) (
      member (codes "app") (words (codes "SQLBUS-SERVER")) (
        member (codes "pid") (Json.number (pos pid)) (
          member (codes "dbtype") (words r.dbtype) (
            member (codes "timestamp") (Json.number (pos now)) (
              member (codes "uuid") (words r.uuid) (
                member (codes "message") (words r.message) (
                  member (codes "errorid") (Json.number r.errorid) (
                    member (codes "fields") (Json.number (pos r.fields)) (
                      member (codes "field") (values (texts r.field)) (
                        member (codes "rows") (Json.number (pos r.rows))
                          (member (codes "result") (values (table r.result)) no_member))))))))))))

==-refl : (n : ℕ) → (n == n) ≡ true
==-refl n = ground arith

to_uint-to_int : (n : ℕ) → n < int_max → to_uint (to_int (pos n)) ≡ n
unfolding to_uint to_int
to_uint-to_int n l = rw (lt→ltb n int_max l) (omega arith)

unwrap : Json → Option Json → Json
unwrap d none = d
unwrap d (some j) = j

module _ (P : Platform) (C : Codec P) (R : Reading P C) where
  open R use {tree, parsed, entry_tree, view_tree, array_tree, size_tree}

  -- The node of an entry that the tree has
  node_of :
      (root : Platform.Item P) (key : Bytes) (j : Json)
      → find_entry (tree root) key ≡ some j
      → (i : Platform.Item P) × (Platform.get_object_item P root key ≡ some i) × (tree i ≡ j)
  unfolding unwrap
  node_of root key j e =
      by_item (Platform.get_object_item P root key) refl (entry_tree root key ∙ e)
    where
      by_item :
          (o : Option (Platform.Item P))
          → Platform.get_object_item P root key ≡ o
          → map_tree tree o ≡ some j
          → (i : Platform.Item P) × (Platform.get_object_item P root key ≡ some i) × (tree i ≡ j)
      by_item none f e = ground arith
      by_item (some i) f e = (i, f, ap (unwrap j) e)

  -- A response of tables of the sizes that it counts
  abbrev pub tabular :
      (dbtype uuid message : Bytes) (errorid : ℤ) (names : List Bytes) (rows : List (List Bytes))
      → Platform.Response
  tabular dbtype uuid message errorid names rows = record {
    dbtype = dbtype;
    uuid = uuid;
    message = message;
    errorid = errorid;
    fields = length names;
    field = names;
    rows = length rows;
    result = rows;
  }

  module _ (pid now : ℕ) (dbtype uuid message : Bytes) (errorid : ℤ) (names : List Bytes)
      (rows : List (List Bytes)) (few_names : length names < int_max)
      (few_rows : length rows < int_max) where
    -- What the client keeps of it
    unfoldable read_response :
        Platform.Item P → Platform.Item P → Platform.Item P → Response P → Response P
    read_response root f r resp = record resp {
      message_type = live (codes "response");
      server_name = live (codes "SQLBUS-SERVER");
      database_type = live dbtype;
      message_info = live message;
      uuid = live uuid;
      pid = to_uint (to_int (pos pid));
      timestamp = to_uint (to_int (pos now));
      message_identification = to_uint (to_int errorid);
      field_counter = length names;
      row_counter = length rows;
      row_data = live r;
      field_data = live f;
      reserve_data = live root;
    }

    abbrev answer : Json
    answer = response_tree pid now (tabular dbtype uuid message errorid names rows)

    unmarshall_root-read :
        (root f r : Platform.Item P) (bus : Bus P)
        → tree root ≡ answer
        → Platform.get_object_item P root (codes "field") ≡ some f
        → tree f ≡ values (texts names)
        → Platform.get_object_item P root (codes "result") ≡ some r
        → tree r ≡ values (table rows)
        → unmarshall_root P C root bus
          ≡ (succeeded, record bus { response = read_response root f r bus.response })
    unfolding unmarshall_root keep_nodes get_entries get_array get_string get_number
        check_member_number check_return_values first_failure response_tree find_entry find_member
        strcasecmp_eq view_of read_response
    unmarshall_root-read root f r bus e ef tf er tr =
        rw
          (
            leaf-tree P C R root (codes "type"),
            leaf-tree P C R root (codes "app"),
            leaf-tree P C R root (codes "dbtype"),
            leaf-tree P C R root (codes "uuid"),
            leaf-tree P C R root (codes "message"),
            leaf-tree P C R root (codes "pid"),
            leaf-tree P C R root (codes "timestamp"),
            leaf-tree P C R root (codes "errorid"),
            leaf-tree P C R root (codes "fields"),
            leaf-tree P C R root (codes "rows"),
            e,
            ef,
            er,
            array_tree f,
            array_tree r,
            tf,
            tr,
            size_tree f,
            size_tree r,
            tf,
            tr,
            count-texts names,
            count-table rows,
            to_uint-to_int (length names) few_names,
            to_uint-to_int (length rows) few_rows,
            ==-refl (length names),
            ==-refl (length rows),
          )
          refl

  field_entry :
      (pid now : ℕ) (r : Platform.Response)
      → find_entry (response_tree pid now r) (codes "field") ≡ some (values (texts r.field))
  unfolding response_tree find_entry find_member strcasecmp_eq
  field_entry pid now r = refl

  result_entry :
      (pid now : ℕ) (r : Platform.Response)
      → find_entry (response_tree pid now r) (codes "result") ≡ some (values (table r.result))
  unfolding response_tree find_entry find_member strcasecmp_eq
  result_entry pid now r = refl

  unmarshall_json-root :
      (s : Bytes) (root : Platform.Item P) (bus : Bus P)
      → Platform.json_parse P s ≡ some root
      → unmarshall_json P C (some s) bus ≡ unmarshall_root P C root bus
  unfolding unmarshall_json
  unmarshall_json-root s root bus e = rw (unmarshall_json, e) refl

  module _ (S : System P) where
    open P use {World, redis_command}

    -- Every string of the tables can be read where it stands, and no other.
    abbrev pub Readable : Platform.Response → Bus P → Type 0
    Readable r bus =
        ((idx : ℤ) → reader_fname P C idx bus ≡ answer_of P C R (field_at P C R r.field idx) bus)
        × ((ridx cidx : ℤ)
            → reader_rvalue_idx P C ridx cidx bus
              ≡ answer_of P C R (value_in P C R r.result ridx cidx) bus)
        × ((ridx : ℤ) (fname : Bytes)
            → reader_rvalue P C ridx fname bus ≡ read_column P C R ridx (column r.field fname) bus)
        × (reader_fcount P C bus ≡ done (some r.fields) bus)
        × (reader_rcount P C bus ≡ done (some r.rows) bus)

    ready : (x y : Out (Bus P) (Option ℕ)) (k : ℤ) → k ≡ pos 1 → (if k ==ℤ pos 1 then x else y) ≡ x
    ready x y k e = rw e refl

    HasTable-Readable :
        (r : Platform.Response) (bus : Bus P)
        → HasTable P C R r.field r.result bus
        → length r.field ≡ r.fields
        → length r.result ≡ r.rows
        → all (λ row. length row == r.fields) r.result ≡ true
        → Readable r bus
    unfolding reader_fcount reader_rcount
    HasTable-Readable r bus h n m wide = (
      λ idx. reader_fname-at P C R r.field r.result idx bus h,
      λ ridx cidx.
          reader_rvalue_idx-value P C R r.field r.result ridx cidx bus h
            (ap (λ k. all (λ row. length row == k) r.result) n ∙ wide),
      λ ridx fname. reader_rvalue-column P C R r.field r.result ridx fname bus h,
      ready _ _ _ h.status
          ∙ ap {A = ℕ} {B = Out (Bus P) (Option ℕ)} (λ k. done (some k) bus) (h.field_counter ∙ n),
      ready _ _ _ h.status
          ∙ ap {A = ℕ} {B = Out (Bus P) (Option ℕ)} (λ k. done (some k) bus) (h.row_counter ∙ m),
    )

    if_true-Returns :
        (Q : ℤ → Bus P × World → Type 0) (b : Bool) (x y : Out (Bus P × World) ℤ)
        → b ≡ true
        → Returns Q x
        → Returns Q (if b then x else y)
    if_true-Returns Q b x y e q = rw e q

    receive_from-queue :
        (Q : ℤ → Bus P × World → Type 0) (o : Option Bytes) (queue : Bytes) (element : Option Bytes)
        (key : Option Bytes) (bus : Bus P) (w : World)
        → o ≡ some queue
        → (redis_command (word (codes "BRPOP") ∷ word queue ∷ number response_timeout ∷ []) w).0
          ≡ some (array (key ∷ element ∷ []))
        → ((w' : World) → Returns Q (take_reply P C S (array (key ∷ element ∷ [])) (bus, w')))
        → Returns Q (receive_from P C S o (bus, w))
    receive_from-queue Q o queue element key bus w e reply k = rw (e, reply) (k _)

    module _ (u : Bytes) (st : Statement) (r : Platform.Response) (a : IsAnswer u st r)
        (pid now : ℕ) where
      as_tabular : r ≡ tabular r.dbtype r.uuid r.message r.errorid r.field r.result
      as_tabular =
          ap {A = ℕ} {B = Platform.Response} (λ n. record r { fields = n }) (sym a.field_count)
          ∙ ap {A = ℕ} {B = Platform.Response} (λ n. record r { fields = length r.field; rows = n })
              (sym a.row_count)

      take_reply-Readable :
          (key : Option Bytes) (s : Bytes) (bus : Bus P) (w : World)
          → length r.field < int_max
          → length r.result < int_max
          → Codec.print_json C (response_tree pid now r) ≡ some s
          → Returns
              (λ rv t. (rv ≡ succeeded) × Readable r t.0)
              (take_reply P C S (array (key ∷ some s ∷ [])) (bus, w))
      unfolding take_reply read_response
      take_reply-Readable key s bus w few_names few_rows printed = rw read (
        refl,
        HasTable-Readable r _
            (record {
              status = refl;
              field_counter = refl;
              row_counter = refl;
              fields = f.0;
              field_data = refl;
              field_tree = f.2;
              records = t.0;
              row_data = refl;
              row_tree = t.2;
            })
            a.field_count a.row_count a.value_counts,
      )
        where
          root :
              (i : Platform.Item P) × (Platform.json_parse P s ≡ some i)
              × (tree i ≡ response_tree pid now r)
          root = parsed (response_tree pid now r) s printed

          f :
              (i : Platform.Item P) × (Platform.get_object_item P root.0 (codes "field") ≡ some i)
              × (tree i ≡ values (texts r.field))
          f =
              node_of root.0 (codes "field") _
                (ap (λ t. find_entry t (codes "field")) root.2 ∙ field_entry pid now r)

          t :
              (i : Platform.Item P) × (Platform.get_object_item P root.0 (codes "result") ≡ some i)
              × (tree i ≡ values (table r.result))
          t =
              node_of root.0 (codes "result") _
                (ap (λ t. find_entry t (codes "result")) root.2 ∙ result_entry pid now r)

          read : unmarshall_json P C (some s) bus ≡ (
            succeeded,
            record bus {
              response =
                  read_response pid now r.dbtype r.uuid r.message r.errorid r.field r.result
                    few_names few_rows root.0 f.0 t.0 bus.response;
            },
          )
          read =
              unmarshall_json-root s root.0 bus root.1
              ∙ unmarshall_root-read pid now r.dbtype r.uuid r.message r.errorid r.field r.result
                  few_names few_rows root.0 f.0 t.0 bus
                  (root.2 ∙ ap (response_tree pid now) as_tabular) f.1 f.2 t.1 t.2

      -- A response of the server (IsAnswer) with fewer fields and rows than INT_MAX, printed and
      -- received as the second of two elements by a connected client that has a channel, over a JSON
      -- library that parses what it prints: mcc_recv succeeds, reader_fcount and reader_rcount
      -- return the counts, and reader_fname and reader_rvalue_idx, at every index of type int, return
      -- the name or the value that the response has there, and FAILURE where it has none.
      -- reader_rvalue, of a name, reads as reader_rvalue_idx does at the first column with that name
      -- in whatever case, and is FAILURE where there is none.
      pub mcc_recv-Readable :
          (key : Option Bytes) (s queue : Bytes) (bus : Bus P) (w : World)
          → length r.field < int_max
          → length r.result < int_max
          → Codec.print_json C (response_tree pid now r) ≡ some s
          → bus.redis ≡ true
          → bus.recv_queue ≡ some queue
          → (redis_command (word (codes "BRPOP") ∷ word queue ∷ number response_timeout ∷ []) w).0
            ≡ some (array (key ∷ some s ∷ []))
          → Returns (λ rv t. (rv ≡ succeeded) × Readable r t.0) (mcc_recv P C S (bus, w))
      unfolding mcc_recv
      mcc_recv-Readable key s queue bus w few_names few_rows printed connected named reply =
          if_true-Returns _ bus.redis _ _ connected (
            receive_from-queue _ bus.recv_queue queue (some s) key bus w named reply
              (λ w'. take_reply-Readable key s bus w' few_names few_rows printed))

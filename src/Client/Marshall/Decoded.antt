-- ===== src/Client/Marshall/Decoded.antt =====
-- What the server reads in a request that the client has built.
use sqlbus.Prelude.{
  ℕ, ◌≡◌, ◌<◌, refl, ap, ◌∙◌, sym, Option, none, some, Bytes, ℤ, codes, pos, lt→ltb, ◌==◌,
  strcasecmp_eq, success,
}
use sqlbus.Server.Platform.{Platform, View, other}
use sqlbus.Server.State.{Handle, live}
use sqlbus.Server.Exec.{done}
use sqlbus.Server.Request.{
  leaf, statement_leaf, read_fields, parse_request, parse_string, read_request, outcome,
}
use sqlbus.Server.Request.Fields
use sqlbus.Server.Request.Fields.{
  Sql, single, update_insert, decode, holding, Agrees, read_fields-decode,
}
use sqlbus.Client.{Request, succeeded}
use sqlbus.Client.Json.{
  Json, entries, add_item, find_member, find_entry, view_of, to_int, int_max, Codec, Reading,
  map_tree,
}
use sqlbus.Client.Marshall.{
  build_request, add_string, add_number, add_boolean, add_statement, check_return_values,
  first_failure, marshall_json,
}

abbrev pub view_entry : (ℤ → ℤ) → Option Json → View
view_entry convert none = other
view_entry convert (some j) = view_of convert j

module _ (P : Platform) (C : Codec P) (R : Reading P C) where
  open R use {tree, convert, convert_int, parsed, entry_tree, view_tree}

  pub leaf-tree :
      (root : Platform.Item P) (key : Bytes)
      → leaf P root key ≡ view_entry convert (find_entry (tree root) key)
  leaf-tree root key = by_item (Platform.get_object_item P root key) (entry_tree root key)
    where
      by_item :
          (o : Option (Platform.Item P))
          → map_tree tree o ≡ find_entry (tree root) key
          → elim o [ none ↦ other | some item ↦ Platform.view P item ]
            ≡ view_entry convert (find_entry (tree root) key)
      by_item none e = ap (view_entry convert) e
      by_item (some i) e = view_tree i ∙ ap (view_entry convert) e

  -- The entries of an entry.
  abbrev inner : Option Json → Bytes → View
  inner none key = other
  inner (some j) key = view_entry convert (find_entry j key)

  statement_leaf-tree :
      (root : Platform.Item P) (key : Bytes)
      → statement_leaf P root key ≡ inner (find_entry (tree root) (codes "STATEMENT")) key
  statement_leaf-tree root key =
      by_item (Platform.get_object_item P root (codes "STATEMENT"))
        (entry_tree root (codes "STATEMENT"))
    where
      by_item :
          (o : Option (Platform.Item P))
          → map_tree tree o ≡ find_entry (tree root) (codes "STATEMENT")
          → elim o [ none ↦ other | some item ↦ leaf P item key ]
            ≡ inner (find_entry (tree root) (codes "STATEMENT")) key
      by_item none e = ap (λ x. inner x key) e
      by_item (some i) e = leaf-tree i key ∙ ap (λ x. inner x key) e

  -- A request with all of its strings.
  abbrev pub filled : (app uuid type channel : Bytes) (pid timestamp sync : ℕ) → Sql → Request
  filled app uuid type channel pid timestamp sync sql = record {
    message_type = some type;
    receive_channel = some channel;
    client_name = some app;
    update = elim sql [ single s ↦ none | update_insert u i ↦ some u ];
    insert = elim sql [ single s ↦ none | update_insert u i ↦ some i ];
    statement = elim sql [ single s ↦ some s | update_insert u i ↦ none ];
    uuid = some uuid;
    timestamp = timestamp;
    synchronization_type = sync;
    pid = pid;
  }

  unfoldable pub tree_of : Request → Json
  tree_of r = entries (build_request r).0

  -- The request that these stand for at the server.
  abbrev pub meant : (app uuid type channel : Bytes) (pid timestamp sync : ℕ) → Sql → Fields.Request
  meant app uuid type channel pid timestamp sync sql = record {
    uuid = uuid;
    app = app;
    pid = pos pid;
    type = type;
    sync = sync == 0;
    channel = some channel;
    timestamp = pos timestamp;
    sql = sql;
  }

  decode-tree :
      (app uuid type channel : Bytes) (pid timestamp sync : ℕ) (sql : Sql) (root : Platform.Item P)
      → pid < int_max
      → timestamp < int_max
      → tree root ≡ tree_of (filled app uuid type channel pid timestamp sync sql)
      → decode P root ≡ some (meant app uuid type channel pid timestamp sync sql)
  unfolding decode build_request add_string add_number add_boolean add_statement add_item find_entry
      find_member strcasecmp_eq view_of to_int tree_of
  decode-tree app uuid type channel pid timestamp sync (single s) root small early e =
      rw
        (
          statement_leaf-tree root (codes "UPDATE"),
          statement_leaf-tree root (codes "INSERT"),
          leaf-tree root (codes "UUID"),
          leaf-tree root (codes "APP"),
          leaf-tree root (codes "PID"),
          leaf-tree root (codes "TYPE"),
          leaf-tree root (codes "SYNC"),
          leaf-tree root (codes "RCHANNEL"),
          leaf-tree root (codes "TIMESTAMP"),
          leaf-tree root (codes "STATEMENT"),
          e,
          lt→ltb pid int_max small,
          convert_int timestamp early,
        )
        refl
  decode-tree app uuid type channel pid timestamp sync (update_insert u i) root small early e =
      rw
        (
          statement_leaf-tree root (codes "UPDATE"),
          statement_leaf-tree root (codes "INSERT"),
          leaf-tree root (codes "UUID"),
          leaf-tree root (codes "APP"),
          leaf-tree root (codes "PID"),
          leaf-tree root (codes "TYPE"),
          leaf-tree root (codes "SYNC"),
          leaf-tree root (codes "RCHANNEL"),
          leaf-tree root (codes "TIMESTAMP"),
          leaf-tree root (codes "STATEMENT"),
          e,
          lt→ltb pid int_max small,
          convert_int timestamp early,
        )
        refl

  pub tree_success :
      (app uuid type channel : Bytes) (pid timestamp sync : ℕ) (sql : Sql)
      → marshall_json P C (filled app uuid type channel pid timestamp sync sql) ≡ (
        succeeded,
        Codec.print_json C (tree_of (filled app uuid type channel pid timestamp sync sql)),
      )
  unfolding marshall_json build_request add_string add_number add_boolean add_statement
      check_return_values first_failure tree_of
  tree_success app uuid type channel pid timestamp sync (single s) = refl
  tree_success app uuid type channel pid timestamp sync (update_insert u i) = refl

  -- Of a request with all of its strings and a pid and a time below INT_MAX, marshallJson returns SUCCESS, and
  -- whatever text it is printed as, over a JSON library that parses what it prints, and whose keys do
  -- not depend on the case: sqlbus_parse_request, of a handle with that request string, succeeds
  -- with the handle that holds just this request, be it one statement or an update with an insert.
  pub parse_request-marshall_json :
      (app uuid type channel : Bytes) (pid timestamp sync : ℕ) (sql : Sql) (s : Bytes) (h : Handle)
      → pid < int_max
      → timestamp < int_max
      → (marshall_json P C (filled app uuid type channel pid timestamp sync sql)).1 ≡ some s
      → h.request_string ≡ live s
      → (parse_request P h
          ≡ done success (holding (meant app uuid type channel pid timestamp sync sql) h))
        × ((marshall_json P C (filled app uuid type channel pid timestamp sync sql)).0 ≡ succeeded)
  unfolding parse_request parse_string read_request
  parse_request-marshall_json app uuid type channel pid timestamp sync sql s h small early printed
        received =
      (
        ap (λ p. parse_string P p h) received
            ∙ (ap (λ o. outcome P (read_request P o h)) root.1 ∙ ap (outcome P) held),
        ap (λ x. x.0) built,
      )
    where
      r : Request
      r = filled app uuid type channel pid timestamp sync sql

      built : marshall_json P C r ≡ (succeeded, Codec.print_json C (tree_of r))
      built = tree_success app uuid type channel pid timestamp sync sql

      root : (i : Platform.Item P) × (Platform.json_parse P s ≡ some i) × (tree i ≡ tree_of r)
      root = parsed (tree_of r) s (sym (ap (λ x. x.1) built) ∙ printed)

      held :
          read_fields P root.0 h
          ≡ (success, holding (meant app uuid type channel pid timestamp sync sql) h)
      held =
          rw (decode-tree app uuid type channel pid timestamp sync sql root.0 small early root.2) at
            (read_fields-decode P root.0 h)

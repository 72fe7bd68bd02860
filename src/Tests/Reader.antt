-- ===== src/Tests/Reader.antt =====
-- What a client reads in a response by the name of a field.
use sqlbus.Prelude.{◌≡◌, refl, [], ◌∷◌, codes, pos, strcasecmp_eq}
use sqlbus.Server.State.{live}
use sqlbus.Client.{Bus}
use sqlbus.Client.Json.{values}
use sqlbus.Client.Reader.{reader_rvalue, reader_rvalue_idx}
use sqlbus.Client.Reader.Table.{texts, table, HasTable}
use sqlbus.Client.Reader.Named.{reader_rvalue-column}
use sqlbus.Tests.Library.{knowing, codec, reading}
use sqlbus.Tests.Client.{client, answer_tree}

abbrev reader : Bus (knowing answer_tree)
reader = record client {
  response = record (client.response) {
    status = pos 1;
    field_counter = 2;
    row_counter = 1;
    field_data = live (values (texts (codes "ID" ∷ codes "NAME" ∷ [])));
    row_data = live (values (table ((codes "1" ∷ codes "Ann" ∷ []) ∷ [])));
  };
}

reader-HasTable :
    HasTable
      (knowing answer_tree)
      (codec answer_tree)
      (reading answer_tree)
      (codes "ID" ∷ codes "NAME" ∷ [])
      ((codes "1" ∷ codes "Ann" ∷ []) ∷ [])
      reader
unfolding reading
reader-HasTable = record {
  status = refl;
  field_counter = refl;
  row_counter = refl;
  fields = values (texts (codes "ID" ∷ codes "NAME" ∷ []));
  field_data = refl;
  field_tree = refl;
  records = values (table ((codes "1" ∷ codes "Ann" ∷ []) ∷ []));
  row_data = refl;
  row_tree = refl;
}

reader_rvalue-column_example :
    reader_rvalue (knowing answer_tree) (codec answer_tree) (pos 0) (codes "name") reader
    ≡ reader_rvalue_idx (knowing answer_tree) (codec answer_tree) (pos 0) (pos 1) reader
unfolding strcasecmp_eq
reader_rvalue-column_example =
    reader_rvalue-column (knowing answer_tree) (codec answer_tree) (reading answer_tree)
      (codes "ID" ∷ codes "NAME" ∷ []) ((codes "1" ∷ codes "Ann" ∷ []) ∷ []) (pos 0) (codes "name")
      reader reader-HasTable

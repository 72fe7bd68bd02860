-- ===== src/Server/Response/Shape.antt =====
-- The tables of a response: sqlbus_generate_response puts the result of the driver into it.
use sqlbus.Prelude.{
  ◌≡◌, refl, ap, ◌∙◌, true, some, List, [], Bytes, codes, ℤ, pos, negsuc, ◌==◌, all, length,
  success,
}
use sqlbus.Config.{Config}
use sqlbus.Server.Platform.{Platform, Response}
use sqlbus.Server.State.{Ptr, live, Handle, Settings, Connection, Statement, Cycle}
use sqlbus.Server.Exec.{pure, ◌>>=◌, Returns, Returns-resume}
use sqlbus.Server.Database.Pointers.{deref_live, when_live}
use sqlbus.Server.Database.Execute.{db_get_row_count, db_get_field_count}
use sqlbus.Server.Response.{
  message_of, errorid_of, field_names, all_rows, uuid_of, print, with_rows, with_names, with_counts,
  generate_response,
}
use sqlbus.Server.Response.Serving.{
  at, zero_plus, Printing, Result, Quiet, Serving, row_count-Serving, field_count-Serving,
  field_names-all, all_rows-all,
}

-- A response to the request with the given uuid, for a statement: it says how the statement ended,
-- names as many fields as it counts, and has as many rows as it counts, each with that many values.
pub record IsAnswer (uuid : Bytes) (st : Statement) (r : Response) : Type 0 where
  pub request : r.uuid ≡ uuid
  pub message : message_of st.result_code st.errstr ≡ live r.message
  pub errorid : r.errorid ≡ errorid_of st.result_code
  pub field_count : length r.field ≡ r.fields
  pub row_count : length r.result ≡ r.rows
  pub value_counts : all (λ row. length row == r.fields) r.result ≡ true

-- How a statement ended: it was executed, nothing was found, there is such a record already, or it
-- was refused with a text that the driver has written.
pub data Ending : Type 0 where
  executed missing duplicate : Ending
  refused : Bytes → Ending

-- The statement that has ended so; the array of the error holds what it may.
abbrev pub statement_of : Ending → Ptr Bytes → Statement
statement_of executed p = record { result_code = pos 96; errstr = p }
statement_of missing p = record { result_code = pos 100; errstr = p }
statement_of duplicate p = record { result_code = pos 95; errstr = p }
statement_of (refused s) p = record { result_code = pos 97; errstr = live s }

-- What the client is told
abbrev pub errorid_for : Ending → ℤ
errorid_for executed = pos 0
errorid_for missing = pos 100
errorid_for duplicate = negsuc 0
errorid_for (refused s) = negsuc 0

abbrev pub message_for : Ending → Bytes
message_for executed = []
message_for missing = codes "Record not found"
message_for duplicate = codes "Duplicate records"
message_for (refused s) = s

pub errorid_of-Ending :
    (k : Ending) (p : Ptr Bytes) → errorid_of (statement_of k p).result_code ≡ errorid_for k
unfolding errorid_of
errorid_of-Ending executed p = refl
errorid_of-Ending missing p = refl
errorid_of-Ending duplicate p = refl
errorid_of-Ending (refused s) p = refl

pub message_of-Ending :
    (k : Ending) (p : Ptr Bytes)
    → message_of (statement_of k p).result_code (statement_of k p).errstr ≡ live (message_for k)
unfolding message_of
message_of-Ending executed p = refl
message_of-Ending missing p = refl
message_of-Ending duplicate p = refl
message_of-Ending (refused s) p = refl

-- The response with a result, to the request with a uuid
abbrev pub response_for :
    (dbtype u : Bytes) → Ending → (names : List Bytes) → (rows : List (List Bytes)) → Response
response_for dbtype u k names rows = record {
  dbtype = dbtype;
  uuid = u;
  message = message_for k;
  errorid = errorid_for k;
  fields = length names;
  field = names;
  rows = length rows;
  result = rows;
}

module _ (P : Platform) (c : Connection) (k : Ending) (p : Ptr Bytes) (h : Handle) (e : Ptr Config)
    (u : Bytes) (names : List Bytes) (rows : List (List Bytes)) (I : Platform.World P → Type 0)
    (D : Printing P) (K : Quiet P I) (T : Result P I names rows) where
  open D use {printer, printed}

  abbrev st : Statement
  st = statement_of k p

  -- The handle got a response string, and nothing else changed but the world, which still has I.
  abbrev pub Responded : Bytes → Cycle P → Type 0
  Responded text t =
      (t.handle ≡ record h { response_string = live text })
      × I t.world
      × (t.hdbc ≡ live c)
      × (t.hstmt ≡ live st)
      × (t.henv ≡ e)

  print-Responded :
      (r : Response) (s : Cycle P)
      → Serving c st h e I s
      → Returns (λ a t. (a ≡ success) × Responded (printer r) t) (print P r s)
  unfolding print
  print-Responded r s q = rw (printed r) (
    refl,
    (
      ap {A = Handle} {B = Handle} (λ g. record g { response_string = live (printer r) }) q.2,
      q.3,
      q.0,
      q.1,
      q.4,
    ),
  )

  module _ (t : Settings) (loaded : (c.driver).functions ≡ live 16) where
    abbrev text : Bytes
    text = printer (response_for t.dbtype u k names rows)

    with_rows-Responded :
        (s : Cycle P)
        → Serving c st h e I s
        → Returns
            (λ a s'. (a ≡ success) × Responded text s')
            (with_rows P t st u (length rows) (length names) names (some rows) s)
    unfolding with_rows
    with_rows-Responded s q =
        deref_live P _ (message_of st.result_code st.errstr) (message_for k) _ s
          (message_of-Ending k p)
          (rw (errorid_of-Ending k p) (print-Responded (response_for t.dbtype u k names rows) s q))

    with_names-Responded :
        (s : Cycle P)
        → Serving c st h e I s
        → Returns
            (λ a s'. (a ≡ success) × Responded text s')
            (with_names P t st u (length rows) (length names) (some names) s)
    unfolding with_names
    with_names-Responded s q =
        Returns-resume _ _ (all_rows P (length rows) 0 (length names) [] s) _
          (all_rows-all P c st h e I loaded names rows K T rows 0 [] s T.short_values T.widths
            (λ i. ap (at rows) (zero_plus i)) q)
          (λ o s' y. rw (y.0) (with_rows-Responded s' y.1))

    with_counts-Responded :
        (s : Cycle P)
        → uuid_of P h.uuid ≡ pure u
        → Serving c st h e I s
        → Returns
            (λ a s'. (a ≡ success) × Responded text s')
            (with_counts P t st (length rows) (length names) s)
    unfolding with_counts
    with_counts-Responded s v q = of_uuid ((s.handle).uuid) (ap (λ g. uuid_of P g.uuid) q.2 ∙ v)
      where
        of_uuid :
            (o : Ptr Bytes)
            → uuid_of P o ≡ pure u
            → Returns
                (λ a s'. (a ≡ success) × Responded text s')
                ((uuid_of P o >>= λ uuid.
                    field_names P (length names) 0 []
                    >>= with_names P t st uuid (length rows) (length names))
                  s)
        of_uuid o r = rw r (
            Returns-resume _ _ (field_names P (length names) 0 [] s) _
              (field_names-all P c st h e I loaded names rows K T names 0 [] s T.short_names
                (λ i. ap (at names) (zero_plus i)) q)
              (λ o s' y. rw (y.0) (with_names-Responded s' y.1)))

  -- With a statement that has ended in one of the four ways, on a loaded driver that holds a result
  -- whose names and values fit their arrays (Result), a printer that prints every response, and a
  -- uuid in the handle, sqlbus_generate_response succeeds: the response string is the printed form
  -- of the response with that uuid, the names and the rows of the result, in their order, with their
  -- numbers, and the error number and the message for that end. The rest of the handle is as it was,
  -- and what the driver keeps in the world while it is read, is kept.
  pub generate_response-Responded :
      (t : Settings) (s : Cycle P)
      → (c.driver).functions ≡ live 16
      → Serving c st h e I s
      → h.uuid ≡ live u
      → Returns
          (λ a s'. (a ≡ success) × Responded (printer (response_for t.dbtype u k names rows)) s')
          (generate_response P t s)
  unfolding generate_response
  generate_response-Responded t s loaded q v = when_live P _ (s.hstmt) st _ _ s q.1 (
      deref_live P _ (s.hstmt) st _ s q.1 (
        Returns-resume _ _ (db_get_row_count P s) _
          (row_count-Serving P c st h e I loaded names rows K T s q)
          (λ n s1 q1.
            Returns-resume _ _ (db_get_field_count P s1) _
              (field_count-Serving P c st h e I loaded names rows K T s1 q1.1)
              (λ m s2 q2.
                rw (q1.0, q2.0) (with_counts-Responded t loaded s2 (ap (uuid_of P) v) q2.1)))))

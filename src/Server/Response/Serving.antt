-- ===== src/Server/Response/Serving.antt =====
-- The calls that fill the tables of a response, on a loaded driver that answers them.
use sqlbus.Prelude.{
  ℕ, zero, suc, ◌+◌, ◌≡◌, refl, ap, ◌∙◌, sym, Bool, true, Option, none, some, List, [], ◌∷◌, Bytes,
  pos, ltb, ◌==◌, all, all-cons, length, arith, success,
}
use sqlbus.Config.{Config}
use sqlbus.Server.Platform.{Platform, Response}
use sqlbus.Server.State.{Ptr, live, is_zero, Handle, Connection, Statement, Cycle}
use sqlbus.Server.Exec.{◌>>=◌, ◌>>◌, Returns, Returns-resume}
use sqlbus.Server.Database.{status_of, Act, deref, call}
use sqlbus.Server.Database.Pointers.{deref_live, when_live}
use sqlbus.Server.Database.Execute.{
  with_statement, db_get_row_count, db_get_field_count, db_get_field_name_idx, db_get_next_row,
  db_get_field_value_idx, field_value_code,
}
use sqlbus.Server.Response.{field_size, value_size, fits, field_names, row_values, all_rows}

-- A JSON printer that prints every response.
pub record Printing (P : Platform) : Type 0 where
  pub printer : Response → Bytes
  pub printed : (r : Response) → Platform.print_response P r ≡ some (printer r)

-- The element at a place
abbrev pub at : {A : Type 0} → List A → ℕ → Option A
at [] i = none
at (x ∷ xs) zero = some x
at (x ∷ xs) (suc i) = at xs i

-- Every string leaves room for its end in an array of a size.
abbrev pub is_short : ℕ → List Bytes → Bool
is_short size = all (λ s. ltb (length s) size)

-- What the reading of a result keeps in the world.
pub record Quiet (P : Platform) (I : Platform.World P → Type 0) : Type 0 where
  pub row_count : (n : ℕ) (w : Platform.World P) → I w → I (Platform.get_row_count P n w).2
  pub field_count : (n : ℕ) (w : Platform.World P) → I w → I (Platform.get_field_count P n w).2
  pub name :
      (i : ℕ) (buf : Bytes) (w : Platform.World P) → I w → I (Platform.get_field_name P i buf w).2
  pub next_row : (w : Platform.World P) → I w → I (Platform.get_next_row P w).1
  pub value :
      (i j : ℕ) (buf : Bytes) (w : Platform.World P)
      → I w
      → I (Platform.get_field_value_idx P i j buf w).2

-- A driver that holds a result, the names of the fields and the rows, in every world with I: it tells
-- their numbers, and writes each name and each value that it is asked for, with RETURN_SUCCESS. The
-- names fit the array field, and the values the array value.
pub record Result (P : Platform) (I : Platform.World P → Type 0) (names : List Bytes)
    (rows : List (List Bytes)) : Type 0 where
  pub row_number : (w : Platform.World P) → I w → (Platform.get_row_count P 0 w).1 ≡ length rows
  pub field_number :
      (w : Platform.World P) → I w → (Platform.get_field_count P 0 w).1 ≡ length names
  pub name_at :
      (i : ℕ) (s buf : Bytes) (w : Platform.World P)
      → I w
      → at names i ≡ some s
      → ((Platform.get_field_name P i buf w).0 ≡ pos 0)
        × ((Platform.get_field_name P i buf w).1 ≡ s)
  pub value_at :
      (i j : ℕ) (row : List Bytes) (s buf : Bytes) (w : Platform.World P)
      → I w
      → at rows i ≡ some row
      → at row j ≡ some s
      → ((Platform.get_field_value_idx P i j buf w).0 ≡ pos 0)
        × ((Platform.get_field_value_idx P i j buf w).1 ≡ s)
  pub short_names : is_short field_size names ≡ true
  pub short_values : all (is_short value_size) rows ≡ true
  pub widths : all (λ row. length row == length names) rows ≡ true

-- A cycle that executes a statement through a loaded driver, in a world with I.
abbrev pub Serving :
    {P : Platform}
    → Connection
    → Statement
    → Handle
    → Ptr Config
    → (Platform.World P → Type 0)
    → Cycle P
    → Type 0
Serving c st h e I s =
    (s.hdbc ≡ live c) × (s.hstmt ≡ live st) × (s.handle ≡ h) × I s.world × (s.henv ≡ e)

plus_zero : (i : ℕ) → i + 0 ≡ i
plus_zero i = omega arith

pub zero_plus : (i : ℕ) → 0 + i ≡ i
zero_plus i = omega arith

plus_suc : (i k : ℕ) → i + 1 + k ≡ i + suc k
plus_suc i k = omega arith

same_number : (m n : ℕ) → (m == n) ≡ true → m ≡ n
same_number m n e = ground arith

module _ (P : Platform) (c : Connection) (st : Statement) (h : Handle) (e : Ptr Config)
    (I : Platform.World P → Type 0) (loaded : (c.driver).functions ≡ live 16) where
  pub statement_live :
      {B : Type 0} (Q : B → Cycle P → Type 0) (b : B) (f : Statement → Act P B) (s : Cycle P)
      → s.hstmt ≡ live st
      → Returns Q (f st s)
      → Returns Q (with_statement P b f s)
  statement_live Q b f s e r =
      when_live P Q (s.hstmt) st b (deref P s.hstmt f) s e (deref_live P Q (s.hstmt) st f s e r)

  -- A call through the table of the driver, and what follows it.
  pub call_then :
      {A B : Type 0} (Q : B → Cycle P → Type 0) (i : ℕ)
      (f : Platform.World P → A × Platform.World P) (g : A → Act P B) (s : Cycle P)
      → ltb i 16 ≡ true
      → ((w : Platform.World P) → I w → I (f w).1)
      → Serving c st h e I s
      → ((t : Cycle P) → Serving c st h e I t → Returns Q (g (f s.world).0 t))
      → Returns Q ((call P i f >>= g) s)
  unfolding call
  call_then Q i f g s place keep q k =
      Returns-resume (λ a t. (a ≡ (f s.world).0) × Serving c st h e I t) Q (call P i f s) g called
        (λ a t r. rw (r.0) (k t r.1))
    where
      called : Returns (λ a t. (a ≡ (f s.world).0) × Serving c st h e I t) (call P i f s)
      called = deref_live P _ (s.hdbc) c _ s q.0 (
          deref_live P _ ((c.driver).functions) 16 _ s loaded
            (rw place (refl, (q.0, q.1, q.2, keep s.world q.3, q.4))))

  module _ (names : List Bytes) (rows : List (List Bytes)) (K : Quiet P I)
      (T : Result P I names rows) where
    fits-then :
        {A : Type 0} (Q : A → Cycle P → Type 0) (size : ℕ) (s : Bytes) (m : Act P A) (t : Cycle P)
        → ltb (length s) size ≡ true
        → Returns Q (m t)
        → Returns Q (fits P size s m t)
    fits-then Q size s m t e r = rw e r

    field_name-Serving :
        (i : ℕ) (x buf : Bytes) (s : Cycle P)
        → at names i ≡ some x
        → Serving c st h e I s
        → Returns
            (λ r t. (r.0 ≡ success) × (r.1 ≡ x) × Serving c st h e I t)
            (db_get_field_name_idx P i buf s)
    unfolding db_get_field_name_idx
    field_name-Serving i x buf s here q = statement_live _ _ _ s q.1 (
        call_then _ 8 _ _ s refl (K.name i buf) q (λ t r. (
          ap (λ k. status_of (is_zero k)) (T.name_at i x buf s.world q.3 here).0,
          (T.name_at i x buf s.world q.3 here).1,
          r,
        )))

    field_value-Serving :
        (i j : ℕ) (row : List Bytes) (x buf : Bytes) (s : Cycle P)
        → at rows i ≡ some row
        → at row j ≡ some x
        → Serving c st h e I s
        → Returns
            (λ r t. (is_zero r.0 ≡ true) × (r.1 ≡ x) × Serving c st h e I t)
            (db_get_field_value_idx P i j buf s)
    unfolding db_get_field_value_idx field_value_code
    field_value-Serving i j row x buf s in_rows in_row q = statement_live _ _ _ s q.1 (
        call_then _ 12 _ _ s refl (K.value i j buf) q (λ t r. (
          ap (λ k. is_zero (field_value_code k))
              (T.value_at i j row x buf s.world q.3 in_rows in_row).0,
          (T.value_at i j row x buf s.world q.3 in_rows in_row).1,
          r,
        )))

    next_row-Serving :
        (s : Cycle P)
        → Serving c st h e I s
        → Returns (λ r t. Serving c st h e I t) (db_get_next_row P s)
    unfolding db_get_next_row
    next_row-Serving s q =
        statement_live _ _ _ s q.1 (call_then _ 10 _ _ s refl K.next_row q (λ t r. r))

    pub row_count-Serving :
        (s : Cycle P)
        → Serving c st h e I s
        → Returns (λ r t. (r.1 ≡ length rows) × Serving c st h e I t) (db_get_row_count P s)
    unfolding db_get_row_count
    row_count-Serving s q =
        statement_live _ _ _ s q.1
          (call_then _ 6 _ _ s refl (K.row_count 0) q (λ t r. (T.row_number s.world q.3, r)))

    pub field_count-Serving :
        (s : Cycle P)
        → Serving c st h e I s
        → Returns (λ r t. (r.1 ≡ length names) × Serving c st h e I t) (db_get_field_count P s)
    unfolding db_get_field_count
    field_count-Serving s q =
        statement_live _ _ _ s q.1
          (call_then _ 7 _ _ s refl (K.field_count 0) q (λ t r. (T.field_number s.world q.3, r)))

    pub field_names-all :
        (rest : List Bytes) (i : ℕ) (buf : Bytes) (s : Cycle P)
        → is_short field_size rest ≡ true
        → ((k : ℕ) → at names (i + k) ≡ at rest k)
        → Serving c st h e I s
        → Returns
            (λ r t. (r ≡ some rest) × Serving c st h e I t)
            (field_names P (length rest) i buf s)
    unfolding field_names
    field_names-all [] i buf s short there q = (refl, q)
    field_names-all (x ∷ rest) i buf s short there q =
        let (short_x, short_rest) = all-cons (λ s. ltb (length s) field_size) x rest short in
        Returns-resume _ _ (db_get_field_name_idx P i buf s) _
          (field_name-Serving i x buf s (ap (at names) (sym (plus_zero i)) ∙ there 0) q)
          (λ r t f.
            rw (f.0, f.1)
              (fits-then _ field_size x _ t short_x (
                Returns-resume _ _ (field_names P (length rest) (i + 1) x t) _
                  (field_names-all rest (i + 1) x t short_rest
                    (λ k. ap (at names) (plus_suc i k) ∙ there (suc k)) f.2)
                  (λ o u z. rw (z.0, f.1) (refl, z.1)))))

    row_values-all :
        (i : ℕ) (row rest : List Bytes) (j : ℕ) (buf : Bytes) (s : Cycle P)
        → at rows i ≡ some row
        → is_short value_size rest ≡ true
        → ((k : ℕ) → at row (j + k) ≡ at rest k)
        → Serving c st h e I s
        → Returns
            (λ r t. ((b : Bytes) × (r ≡ some (rest, b))) × Serving c st h e I t)
            (row_values P i (length rest) j buf s)
    unfolding row_values
    row_values-all i row [] j buf s in_rows short there q = ((buf, refl), q)
    row_values-all i row (x ∷ rest) j buf s in_rows short there q =
        let (short_x, short_rest) = all-cons (λ s. ltb (length s) value_size) x rest short in
        Returns-resume _ _ (db_get_field_value_idx P i j buf s) _
          (field_value-Serving i j row x buf s in_rows (ap (at row) (sym (plus_zero j)) ∙ there 0)
            q)
          (λ r t f.
            rw (f.0, f.1)
              (fits-then _ value_size x _ t short_x (
                Returns-resume _ _ (row_values P i (length rest) (j + 1) x t) _
                  (row_values-all i row rest (j + 1) x t in_rows short_rest
                    (λ k. ap (at row) (plus_suc j k) ∙ there (suc k)) f.2)
                  (λ o u z. rw (z.0.1, f.1) ((z.0.0, refl), z.1)))))

    one_row :
        (row : List Bytes) (i n : ℕ) (buf : Bytes) (s : Cycle P)
        → at rows i ≡ some row
        → is_short value_size row ≡ true
        → n ≡ length row
        → Serving c st h e I s
        → Returns
            (λ r t. ((b : Bytes) × (r ≡ some (row, b))) × Serving c st h e I t)
            ((db_get_next_row P >> row_values P i n 0 buf) s)
    one_row row i n buf s in_rows short same q = rw same (
        Returns-resume (λ code t. Serving c st h e I t)
          (λ r t. ((b : Bytes) × (r ≡ some (row, b))) × Serving c st h e I t) (db_get_next_row P s)
          (λ code. row_values P i (length row) 0 buf) (next_row-Serving s q)
          (λ code t g.
            row_values-all i row row 0 buf t in_rows short (λ k. ap (at row) (zero_plus k)) g))

    pub all_rows-all :
        (rest : List (List Bytes)) (i : ℕ) (buf : Bytes) (s : Cycle P)
        → all (is_short value_size) rest ≡ true
        → all (λ row. length row == length names) rest ≡ true
        → ((k : ℕ) → at rows (i + k) ≡ at rest k)
        → Serving c st h e I s
        → Returns
            (λ r t. (r ≡ some rest) × Serving c st h e I t)
            (all_rows P (length rest) i (length names) buf s)
    unfolding all_rows
    all_rows-all [] i buf s short wide there q = (refl, q)
    all_rows-all (row ∷ rest) i buf s short wide there q =
        let (short_row, short_rest) = all-cons (is_short value_size) row rest short in
        let (wide_row, wide_rest) = all-cons (λ r. length r == length names) row rest wide in
        Returns-resume _ _ ((db_get_next_row P >> row_values P i (length names) 0 buf) s) _
          (one_row row i (length names) buf s (ap (at rows) (sym (plus_zero i)) ∙ there 0) short_row
            (sym (same_number (length row) (length names) wide_row)) q)
          (λ r u z. rw (z.0.1) (
            Returns-resume _ _ (all_rows P (length rest) (i + 1) (length names) z.0.0 u) _
              (all_rows-all rest (i + 1) z.0.0 u short_rest wide_rest
                (λ k. ap (at rows) (plus_suc i k) ∙ there (suc k)) z.1)
              (λ o v y. rw (y.0) (refl, y.1))))

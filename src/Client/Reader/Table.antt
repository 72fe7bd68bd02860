-- ===== src/Client/Reader/Table.antt =====
-- The readers on a response that has the tables it counts.
use sqlbus.Prelude.{
  ℕ, zero, suc, ◌≡◌, refl, ap, ◌∙◌, sym, true, false, Option, none, some, List, [], ◌∷◌, Bytes, ℤ,
  pos, negsuc, ◌==ℤ◌, ltb, Bool-cases, inl, inr, length, all, ◌==◌, if◌then◌else◌, arith,
}
use sqlbus.Server.Platform.{Platform, text}
use sqlbus.Server.State.{Ptr, live}
use sqlbus.Server.Exec.{Out, done, Prog, pure}
use sqlbus.Client.{Bus, set_error}
use sqlbus.Client.Json.{
  Json, words, number, flag, entries, values, Values, no_value, one_value, count, nth, value_at,
  is_values, view_of, Codec, Reading, map_tree,
}
use sqlbus.Client.Reader.{
  leaf_string, string_of, row_string, read_node, get_field_name, get_row_value, reader_fname,
  reader_rvalue_idx, fail, when_below,
}

-- A row of strings, and a table of them
abbrev pub texts : List Bytes → Values
texts [] = no_value
texts (s ∷ row) = one_value (words s) (texts row)

abbrev pub table : List (List Bytes) → Values
table [] = no_value
table (row ∷ rows) = one_value (values (texts row)) (table rows)

-- The string at a place of a row, and at a place of a table
abbrev pub at : {A : Type 0} → List A → ℕ → Option A
at [] i = none
at (x ∷ xs) zero = some x
at (x ∷ xs) (suc i) = at xs i

abbrev pub cell : List (List Bytes) → ℕ → ℕ → Option Bytes
cell rows i j = elim (at rows i) [ none ↦ none | some row ↦ at row j ]

words_of : Option Bytes → Option Json
words_of none = none
words_of (some s) = some (words s)

nth-texts : (row : List Bytes) (i : ℕ) → nth (texts row) i ≡ words_of (at row i)
unfolding words_of
nth-texts [] i = refl
nth-texts (s ∷ row) zero = refl
nth-texts (s ∷ row) (suc i) = nth-texts row i

row_of : Option (List Bytes) → Option Json
row_of none = none
row_of (some row) = some (values (texts row))

nth-table : (rows : List (List Bytes)) (i : ℕ) → nth (table rows) i ≡ row_of (at rows i)
unfolding row_of
nth-table [] i = refl
nth-table (row ∷ rows) zero = refl
nth-table (row ∷ rows) (suc i) = nth-table rows i

pub count-texts : (row : List Bytes) → count (texts row) ≡ length row
count-texts [] = refl
count-texts (s ∷ row) = ap suc (count-texts row)

pub count-table : (rows : List (List Bytes)) → count (table rows) ≡ length rows
count-table [] = refl
count-table (row ∷ rows) = ap suc (count-table rows)

abbrev string_at : Option Json → Option Bytes
string_at none = none
string_at (some j) = elim (view_of (λ n. n) j) [ text s ↦ some s | _ ↦ none ]

string_at-words : (o : Option Bytes) → string_at (words_of o) ≡ o
unfolding words_of view_of
string_at-words none = refl
string_at-words (some s) = refl

abbrev row_at : Option Json → ℕ → Option Bytes
row_at none j = none
row_at (some row) j = if is_values row then string_at (value_at row j) else none

row_at-row :
    (o : Option (List Bytes)) (j : ℕ)
    → row_at (row_of o) j ≡ elim o [ none ↦ none | some row ↦ at row j ]
unfolding row_of
row_at-row none j = refl
row_at-row (some row) j = ap string_at (nth-texts row j) ∙ string_at-words (at row j)

module _ (P : Platform) (C : Codec P) (R : Reading P C) where
  open R use {tree, convert, view_tree, array_tree, value_tree}

  -- A string does not depend on how numbers are converted.
  any_conversion : (j : Json) → string_of P C (view_of convert j) ≡ string_at (some j)
  unfolding view_of
  any_conversion (words s) = refl
  any_conversion (number n) = refl
  any_conversion (flag b) = refl
  any_conversion (entries ms) = refl
  any_conversion (values vs) = refl

  leaf_string-tree :
      (o : Option (Platform.Item P)) → leaf_string P C o ≡ string_at (map_tree tree o)
  unfolding leaf_string
  leaf_string-tree none = refl
  leaf_string-tree (some i) = ap (string_of P C) (view_tree i) ∙ any_conversion (tree i)

  row_string-tree :
      (o : Option (Platform.Item P)) (j : ℕ) → row_string P C o j ≡ row_at (map_tree tree o) j
  unfolding row_string
  row_string-tree none j = refl
  row_string-tree (some i) j =
      rw (array_tree i, leaf_string-tree (Codec.array_item C i j), value_tree i j) refl

  pub leaf_string-texts :
      (root : Platform.Item P) (names : List Bytes) (i : ℕ)
      → tree root ≡ values (texts names)
      → leaf_string P C (Codec.array_item C root i) ≡ at names i
  leaf_string-texts root names i e =
      rw (leaf_string-tree (Codec.array_item C root i), value_tree root i, e)
        (ap string_at (nth-texts names i) ∙ string_at-words (at names i))

  get_field_name-texts :
      (root : Platform.Item P) (names : List Bytes) (i : ℕ)
      → tree root ≡ values (texts names)
      → get_field_name P C root i ≡ at names i
  unfolding get_field_name
  get_field_name-texts root names i e = rw (array_tree root, e) (leaf_string-texts root names i e)

  get_row_value-table :
      (root : Platform.Item P) (rows : List (List Bytes)) (i j : ℕ)
      → tree root ≡ values (table rows)
      → get_row_value P C root i j ≡ cell rows i j
  unfolding get_row_value
  get_row_value-table root rows i j e =
      rw (array_tree root, row_string-tree (Codec.array_item C root i) j, value_tree root i, e)
        (ap (λ o. row_at o j) (nth-table rows i) ∙ row_at-row (at rows i) j)

  -- A received response with a table.
  pub record HasTable (names : List Bytes) (rows : List (List Bytes)) (bus : Bus P) : Type 0 where
    pub status : (bus.response).status ≡ pos 1
    pub field_counter : (bus.response).field_counter ≡ length names
    pub row_counter : (bus.response).row_counter ≡ length rows
    pub fields : Platform.Item P
    pub field_data : (bus.response).field_data ≡ live fields
    pub field_tree : tree fields ≡ values (texts names)
    pub records : Platform.Item P
    pub row_data : (bus.response).row_data ≡ live records
    pub row_tree : tree records ≡ values (table rows)

  -- What is read: a value with SUCCESS, or FAILURE with the error tagged.
  abbrev pub answer_of : {A : Type 0} → Option A → Bus P → Out (Bus P) (Option A)
  answer_of none bus = done none (set_error bus)
  answer_of (some s) bus = done (some s) bus

  -- The field at an index, and the value at two, if there is one
  abbrev pub field_at : List Bytes → ℤ → Option Bytes
  field_at names (pos i) = at names i
  field_at names (negsuc i) = none

  abbrev pub value_in : List (List Bytes) → ℤ → ℤ → Option Bytes
  value_in rows (pos i) (pos j) = cell rows i j
  value_in rows _ _ = none

  pub read_node-live :
      {A : Type 0} (p : Ptr (Platform.Item P)) (item : Platform.Item P)
      (f : Platform.Item P → Option A) (o : Option A) (bus : Bus P)
      → p ≡ live item
      → f item ≡ o
      → read_node P C p f bus ≡ answer_of o bus
  read_node-live {A = A} p item f o bus e g = rw e (by_value (f item) g)
    where
      by_value :
          (x : Option A)
          → x ≡ o
          → elim x as (λ x. Prog (Bus P) (Option A)) [ none ↦ fail P C | some a ↦ pure (some a) ]
              bus
            ≡ answer_of o bus
      by_value none e = ap (λ x. answer_of x bus) e
      by_value (some s) e = ap (λ x. answer_of x bus) e

  pub when_ready-status :
      (x y : Out (Bus P) (Option Bytes)) (k : ℤ) → k ≡ pos 1 → (if k ==ℤ pos 1 then x else y) ≡ x
  when_ready-status x y k e = rw e refl

  pub when_below-answer :
      (i n : ℕ) (f : ℕ → Prog (Bus P) (Option Bytes)) (o : Option Bytes) (bus : Bus P)
      → (ltb i n ≡ true → f i bus ≡ answer_of o bus)
      → (ltb i n ≡ false → o ≡ none)
      → when_below P C (pos i) n f bus ≡ answer_of o bus
  when_below-answer i n f o bus k l = elim (Bool-cases (ltb i n)) [
    | inl b ↦ rw b (k b)
    | inr b ↦ rw (b, l b) refl
  ]

  at-beyond : (names : List Bytes) (i : ℕ) → ltb i (length names) ≡ false → at names i ≡ none
  at-beyond [] i e = refl
  at-beyond (s ∷ names) zero e = ground arith
  at-beyond (s ∷ names) (suc i) e = at-beyond names i (ground arith)

  pub reader_fname-at :
      (names : List Bytes) (rows : List (List Bytes)) (idx : ℤ) (bus : Bus P)
      → HasTable names rows bus
      → reader_fname P C idx bus ≡ answer_of (field_at names idx) bus
  unfolding reader_fname
  reader_fname-at names rows (pos i) bus h =
      when_ready-status _ _ _ h.status
      ∙ when_below-answer i _
          (λ k. read_node P C (bus.response).field_data (λ root. get_field_name P C root k))
          (at names i) bus
          (λ b.
            read_node-live _ h.fields (λ root. get_field_name P C root i) _ bus h.field_data
              (get_field_name-texts h.fields names i h.field_tree))
          (λ b. at-beyond names i (sym (ap (ltb i) h.field_counter) ∙ b))
  reader_fname-at names rows (negsuc i) bus h = when_ready-status _ _ _ h.status

  cell-beyond :
      (rows : List (List Bytes)) (i j : ℕ) → ltb i (length rows) ≡ false → cell rows i j ≡ none
  cell-beyond [] i j e = refl
  cell-beyond (row ∷ rows) zero j e = ground arith
  cell-beyond (row ∷ rows) (suc i) j e = cell-beyond rows i j (ground arith)

  cell-wide :
      (n : ℕ) (rows : List (List Bytes)) (i j : ℕ)
      → all (λ row. length row == n) rows ≡ true
      → ltb j n ≡ false
      → cell rows i j ≡ none
  cell-wide n [] i j w e = refl
  cell-wide n (row ∷ rows) zero j w e = at-beyond row j (ground arith)
  cell-wide n (row ∷ rows) (suc i) j w e = cell-wide n rows i j (ground arith) e

  pub reader_rvalue_idx-value :
      (names : List Bytes) (rows : List (List Bytes)) (ridx cidx : ℤ) (bus : Bus P)
      → HasTable names rows bus
      → all (λ row. length row == length names) rows ≡ true
      → reader_rvalue_idx P C ridx cidx bus ≡ answer_of (value_in rows ridx cidx) bus
  unfolding reader_rvalue_idx
  reader_rvalue_idx-value names rows (pos i) (pos j) bus h w =
      when_ready-status _ _ _ h.status
      ∙ when_below-answer i _
          (λ k. when_below P C (pos j) (bus.response).field_counter (value_of k)) (cell rows i j)
          bus
          (λ b.
            when_below-answer j _ (value_of i) (cell rows i j) bus
              (λ c.
                read_node-live _ h.records (λ root. get_row_value P C root i j) _ bus h.row_data
                  (get_row_value-table h.records rows i j h.row_tree))
              (λ c. cell-wide (length names) rows i j w (sym (ap (ltb j) h.field_counter) ∙ c)))
          (λ b. cell-beyond rows i j (sym (ap (ltb i) h.row_counter) ∙ b))
    where
      value_of : ℕ → ℕ → Prog (Bus P) (Option Bytes)
      value_of k l = read_node P C (bus.response).row_data (λ root. get_row_value P C root k l)
  reader_rvalue_idx-value names rows (pos i) (negsuc j) bus h w =
      when_ready-status _ _ _ h.status
      ∙ when_below-answer i _ (λ k. fail P C) none bus (λ b. refl) (λ b. refl)
  reader_rvalue_idx-value names rows (negsuc i) cidx bus h w = when_ready-status _ _ _ h.status

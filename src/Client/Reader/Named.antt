-- ===== src/Client/Reader/Named.antt =====
-- client/hisqlbus.c, reader_rvalue: the value of a field that the caller names.
use sqlbus.Prelude.{
  ℕ, suc, ◌+◌, ◌≡◌, refl, ap, ◌∙◌, sym, true, false, Option, none, some, List, [], ◌∷◌, Bytes, ℤ,
  pos, negsuc, Bool, Bool-cases, inl, inr, ltb, length, if◌then◌else◌, strcasecmp_eq, arith,
}
use sqlbus.Server.Platform.{Platform}
use sqlbus.Server.Exec.{done, resume, Prog, ◌>>=◌, pure}
use sqlbus.Client.{Bus, set_error}
use sqlbus.Client.Json.{values, Codec, Reading}
use sqlbus.Client.Reader.{
  leaf_string, find_field, get_field_idx, read_node, get_row_value, when_below, fail, reader_rvalue,
  reader_rvalue_idx,
}
use sqlbus.Client.Reader.Table.{
  texts, at, count-texts, HasTable, answer_of, read_node-live, leaf_string-texts, when_ready-status,
}

abbrev beside : ℕ → Option ℕ → Option ℕ
beside i none = none
beside i (some j) = some (i + j)

-- The place of the first of the names that is a name, but for the case of its letters.
abbrev pub column : List Bytes → Bytes → Option ℕ
column [] fname = none
column (s ∷ names) fname =
    let rest = column names fname in if strcasecmp_eq fname s then some 0 else beside 1 rest

beside-suc : (i : ℕ) (o : Option ℕ) → beside (i + 1) o ≡ beside i (beside 1 o)
beside-suc i none = refl
beside-suc i (some j) = ap some (ground arith)

beside_zero : (o : Option ℕ) → beside 0 o ≡ o
beside_zero none = refl
beside_zero (some j) = ap some (ground arith)

unwrap : (i j : ℕ) → some i ≡ some j → i ≡ j
unwrap i j e = ap (λ o. elim o [ none ↦ i | some x ↦ x ]) e

column-below :
    (names : List Bytes) (fname : Bytes) (j : ℕ)
    → column names fname ≡ some j
    → ltb j (length names) ≡ true
column-below [] fname j e = ground arith
column-below (s ∷ names) fname j e = elim (Bool-cases (strcasecmp_eq fname s)) [
  | inl b ↦ first (rw b at e)
  | inr b ↦ behind (column names fname) (column-below names fname) (rw b at e)
]
  where
    first : some 0 ≡ some j → ltb j (suc (length names)) ≡ true
    first g = rw (sym (unwrap 0 j g)) (ground arith)

    behind :
        (o : Option ℕ)
        → ((k : ℕ) → o ≡ some k → ltb k (length names) ≡ true)
        → beside 1 o ≡ some j
        → ltb j (suc (length names)) ≡ true
    behind none below g = ground arith
    behind (some k) below g = rw (sym (unwrap (1 + k) j g)) (next (below k refl))
      where
        next : ltb k (length names) ≡ true → ltb (1 + k) (suc (length names)) ≡ true
        next l = ground arith

module _ (P : Platform) (C : Codec P) (R : Reading P C) where
  open R use {tree, array_tree, size_tree}

  find_field-column :
      (root : Platform.Item P) (fname : Bytes) (names : List Bytes) (i : ℕ)
      → ((k : ℕ) → leaf_string P C (Codec.array_item C root (i + k)) ≡ at names k)
      → find_field P C root fname (length names) i ≡ beside i (column names fname)
  unfolding find_field
  find_field-column root fname [] i leaves = refl
  find_field-column root fname (s ∷ names) i leaves =
      ap
        (λ o. elim o [
          | none ↦ none
          | some t ↦
              if strcasecmp_eq fname t
              then some i
              else find_field P C root fname (length names) (i + 1)
        ])
        first
      ∙ (ap (λ o. if strcasecmp_eq fname s then some i else o)
            (find_field-column root fname names (i + 1) (λ k.
                ap (λ n. leaf_string P C (Codec.array_item C root n)) (ground arith)
                ∙ leaves (suc k))
              ∙ beside-suc i (column names fname))
          ∙ pushed (strcasecmp_eq fname s))
    where
      first : leaf_string P C (Codec.array_item C root i) ≡ some s
      first = ap (λ n. leaf_string P C (Codec.array_item C root n)) (ground arith) ∙ leaves 0

      pushed :
          (b : Bool)
          → (if b then some i else beside i (beside 1 (column names fname)))
            ≡ beside i (if b then some 0 else beside 1 (column names fname))
      pushed true = ap some (ground arith)
      pushed false = refl

  get_field_idx-column :
      (root : Platform.Item P) (fname : Bytes) (names : List Bytes)
      → tree root ≡ values (texts names)
      → get_field_idx P C root fname ≡ column names fname
  unfolding get_field_idx
  get_field_idx-column root fname names e =
      rw (array_tree root, size_tree root, e, count-texts names)
        (find_field-column root fname names 0 (λ k.
            ap (λ n. leaf_string P C (Codec.array_item C root n)) (ground arith)
            ∙ leaf_string-texts P C R root names k e)
          ∙ beside_zero (column names fname))

  -- An index below a counter, with the same behind it
  when_below-ap :
      (r : ℤ) (n : ℕ) (f g : ℕ → Prog (Bus P) (Option Bytes)) (bus : Bus P)
      → ((i : ℕ) → f i bus ≡ g i bus)
      → when_below P C r n f bus ≡ when_below P C r n g bus
  when_below-ap (pos i) n f g bus h = elim (Bool-cases (ltb i n)) [
    | inl b ↦ rw b (h i)
    | inr b ↦ rw b refl
  ]
  when_below-ap (negsuc i) n f g bus h = refl

  when_below-fail :
      (r : ℤ) (n : ℕ) (bus : Bus P)
      → when_below P C r n (λ i. fail P C {A = Bytes}) bus ≡ done none (set_error bus)
  when_below-fail (pos i) n bus = elim (Bool-cases (ltb i n)) [
    | inl b ↦ rw b refl
    | inr b ↦ rw b refl
  ]
  when_below-fail (negsuc i) n bus = refl

  -- The value at an index of the column, if there is one
  abbrev pub read_column : ℤ → Option ℕ → Prog (Bus P) (Option Bytes)
  read_column ridx none bus = done none (set_error bus)
  read_column ridx (some j) bus = reader_rvalue_idx P C ridx (pos j) bus

  module _ (names : List Bytes) (rows : List (List Bytes)) (fname : Bytes) (bus : Bus P)
      (h : HasTable P C R names rows bus) where
    abbrev read_at : ℕ → Option ℕ → Prog (Bus P) (Option Bytes)
    read_at i none = pure none
    read_at i (some j) = read_node P C (bus.response).row_data (λ root. get_row_value P C root i j)

    abbrev find_then : ℕ → Prog (Bus P) (Option Bytes)
    find_then i =
        read_node P C (bus.response).field_data (λ root. get_field_idx P C root fname) >>= read_at i

    found :
        (o : Option ℕ) (i : ℕ)
        → column names fname ≡ o
        → find_then i bus ≡ resume (answer_of P C R o bus) (read_at i)
    found o i e =
        ap (λ out. resume out (read_at i))
          (read_node-live P C R _ h.fields (λ root. get_field_idx P C root fname) o bus h.field_data
            (get_field_idx-column h.fields fname names h.field_tree ∙ e))

    by_column :
        (o : Option ℕ) (ridx : ℤ)
        → column names fname ≡ o
        → reader_rvalue P C ridx fname bus ≡ read_column ridx o bus
    unfolding reader_rvalue reader_rvalue_idx
    by_column none ridx e =
        when_ready-status P C R _ _ _ h.status
        ∙ (when_below-ap ridx _ _ (λ i. fail P C) bus (λ i. found none i e)
            ∙ when_below-fail ridx _ bus)
    by_column (some j) ridx e =
        when_ready-status P C R _ _ _ h.status
        ∙ (when_below-ap ridx _ _ _ bus (λ i. found (some j) i e ∙ sym (within i))
            ∙ sym (when_ready-status P C R _ _ _ h.status))
      where
        within :
            (i : ℕ)
            → when_below P C
                (pos j)
                (bus.response).field_counter
                (λ j. read_node P C (bus.response).row_data (λ root. get_row_value P C root i j))
                bus
              ≡ read_at i (some j) bus
        within i = below _ (ap (ltb j) h.field_counter ∙ column-below names fname j e)
          where
            below :
                (n : ℕ)
                → ltb j n ≡ true
                → when_below P C
                    (pos j)
                    n
                    (λ j.
                      read_node P C (bus.response).row_data (λ root. get_row_value P C root i j))
                    bus
                  ≡ read_at i (some j) bus
            below n l = rw l refl

  -- Of a received response with tables (HasTable), for every row index of type int and every name:
  -- reader_rvalue does what reader_rvalue_idx does at that row and at the first field whose name
  -- is the given one but for the case of its letters; where no field has that name, it is FAILURE
  -- with the error tagged, whatever the row.
  pub reader_rvalue-column :
      (names : List Bytes) (rows : List (List Bytes)) (ridx : ℤ) (fname : Bytes) (bus : Bus P)
      → HasTable P C R names rows bus
      → reader_rvalue P C ridx fname bus ≡ read_column ridx (column names fname) bus
  reader_rvalue-column names rows ridx fname bus h =
      by_column names rows fname bus h (column names fname) ridx refl

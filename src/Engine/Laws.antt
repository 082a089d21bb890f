-- ===== src/Engine/Laws.antt =====
-- What the checks of the engine let through, and the range of its `get` (src/storage/lsm/lsm_storage_engine.cpp).
use htap_storage_lsm_tree.Common.{
  ℕ, zero, suc, ◌+◌, ◌≡◌, refl, subst, true, not, Option, none, some, Result, Error, err, ◌>>=◌,
  String, List, [], ◌∷◌, length, get_elem?, if◌then◌else◌, ok, arith, ok_of_bind, throw_if, ◌==◌,
  str_eq, some-injective, runtime_error,
}
use htap_storage_lsm_tree.Common.Assoc.{Assoc, lookup, assign, lookup-assign, string_eq}
use htap_storage_lsm_tree.Types.{ValueType, Key, NullableValue, Value, Row, row_key}
use htap_storage_lsm_tree.Schema.{
  Column, Schema, size, is_valid_value, fits_column, holds_type, is_valid,
}
use htap_storage_lsm_tree.Schema.Laws.{IsValidSchema, HasKey, IsKeyColumn}
use htap_storage_lsm_tree.Cursor.{ICursor}
use htap_storage_lsm_tree.Schema.Rows.{Fits, IsRowOf}
use htap_storage_lsm_tree.Lsm.Tree.{LsmTree}
use htap_storage_lsm_tree.Lsm.Compact.{drain_work}
use htap_storage_lsm_tree.Lsm.Format.{SstFormat}
use htap_storage_lsm_tree.Lsm.Stored.{IsStored}
use htap_storage_lsm_tree.Lsm.Drain.{HasRoom, Drains}
use htap_storage_lsm_tree.Lsm.Insert.{HasSortedMemory, HasRow, insert-Drains}
use htap_storage_lsm_tree.Engine.{check_values, validate_row, LsmStorageEngine, get_tree, insert}

check_values-valid :
    (schema : Schema) (i : ℕ) (values : Row)
    → check_values schema i values ≡ ok tt
    → (n : ℕ) (v : NullableValue) → get_elem? values n ≡ some v
    → is_valid_value schema (i + n) v ≡ true
unfolding check_values
check_values-valid schema i [] h n v e = absurd (ground (arith, e))
check_values-valid schema i (x ∷ values) h zero v e =
    let here : is_valid_value schema i x ≡ true = ground (arith, h) in
    let same : i + 0 ≡ i = omega arith in
    rw same (subst (λ w. is_valid_value schema i w ≡ true) (some-injective _ _ e) here)
check_values-valid schema i (x ∷ values) h (suc m) v e =
    let good : is_valid_value schema i x ≡ true = ground (arith, h) in
    let later : check_values schema (suc i) values ≡ ok tt = simp good at h in
    let same : i + suc m ≡ suc i + m = omega arith in
    rw same (check_values-valid schema (suc i) values later m v e)

key_of_column :
    (c : Column) (x : NullableValue)
    → IsKeyColumn c
    → fits_column c x ≡ true
    → (k : Key) × (x ≡ some (Value.int64 k))
key_of_column c none k h = absurd (ground (arith, h, k.1))
key_of_column c (some (Value.int64 n)) k h = (n, refl)
key_of_column c (some (Value.double d)) k h = absurd (ground (arith, rw (k.0) at h))
key_of_column c (some (Value.string d)) k h = absurd (ground (arith, rw (k.0) at h))

key_value :
    (columns : List Column) (names : Assoc String ℕ) (x : NullableValue)
    → HasKey true columns
    → is_valid_value (record { columns = columns; name_to_index = names }) 0 x ≡ true
    → (k : Key) × (x ≡ some (Value.int64 k))
unfolding is_valid_value
key_value [] names x s h = absurd s
key_value (c ∷ cs) names x s h = key_of_column c x s.0 h

zero_plus : (n : ℕ) → 0 + n ≡ n
zero_plus n = omega arith

key_of_row :
    (columns : List Column) (names : Assoc String ℕ) (row : Row)
    → HasKey true columns
    → length row ≡ length columns
    → ((n : ℕ) (v : NullableValue)
        → get_elem? row n ≡ some v
        → is_valid_value (record { columns = columns; name_to_index = names }) n v ≡ true)
    → (k : Key) × (row_key row ≡ some k)
key_of_row [] names row s w valid = absurd s
key_of_row (c ∷ cs) names [] s w valid = absurd (omega arith)
key_of_row (c ∷ cs) names (x ∷ cells) s w valid =
    let (k, e) = key_value (c ∷ cs) names x s (valid 0 x refl) in (k, rw e refl)

fits_column-Fits : (c : Column) (v : NullableValue) → fits_column c v ≡ true → Fits c v
fits_column-Fits c none h = Fits.null h
fits_column-Fits c (some (Value.int64 n)) h = Fits.int64 (type_int64 c.type h)
  where
    type_int64 : (t : ValueType) → holds_type t (Value.int64 n) ≡ true → t ≡ ValueType.int64
    type_int64 ValueType.int64 h = refl
    type_int64 ValueType.double h = absurd (ground arith)
    type_int64 ValueType.string h = absurd (ground arith)
fits_column-Fits c (some (Value.double d)) h = Fits.double (type_double c.type h)
  where
    type_double : (t : ValueType) → holds_type t (Value.double d) ≡ true → t ≡ ValueType.double
    type_double ValueType.double h = refl
    type_double ValueType.int64 h = absurd (ground arith)
    type_double ValueType.string h = absurd (ground arith)
fits_column-Fits c (some (Value.string s)) h = Fits.string (type_string c.type h)
  where
    type_string : (t : ValueType) → holds_type t (Value.string s) ≡ true → t ≡ ValueType.string
    type_string ValueType.string h = refl
    type_string ValueType.int64 h = absurd (ground arith)
    type_string ValueType.double h = absurd (ground arith)

column_of :
    (schema : Schema) (n : ℕ) (v : NullableValue)
    → is_valid_value schema n v ≡ true
    → (c : Column) × (get_elem? schema.columns n ≡ some c) × Fits c v
unfolding is_valid_value
column_of schema n v h = found (get_elem? schema.columns n) refl h
  where
    found :
        (o : Option Column)
        → get_elem? schema.columns n ≡ o
        → is_valid o v ≡ true
        → (c : Column) × (get_elem? schema.columns n ≡ some c) × Fits c v
    found none e h = absurd (ground arith)
    found (some c) e h = (c, e, fits_column-Fits c v h)

-- A row that `validate_row` accepts under a schema of the builder has the width of the schema, an integer key,
-- and in each column a value that the column allows.
pub validate_row-IsRowOf :
    (schema : Schema) (row : Row)
    → IsValidSchema schema
    → validate_row schema row ≡ ok tt
    → IsRowOf schema row
unfolding validate_row
validate_row-IsRowOf schema row s h =
    let (_, sized, rest) =
      ok_of_bind _
        (throw_if (not (length row == size schema)) (runtime_error "Row size mismatch schema")) h in
    let (_, checked, _) = ok_of_bind _ (check_values schema 0 row) rest in
    let width : length row ≡ size schema = ground (arith, sized) in
    let valid = λ (n : ℕ) (v : NullableValue). λ (e : get_elem? row n ≡ some v).
      subst (λ m. is_valid_value schema m v ≡ true) (zero_plus n)
        (check_values-valid schema 0 row checked n v e) in
    record {
      width = width;
      key = key_of_row schema.columns schema.name_to_index row s.key_first width valid;
      valid = λ n v e. column_of schema n v (valid n v e);
    }

-- What an insertion makes of the engine, by what it makes of the table's tree: the other tables stay.
pub data Stores {S : Type 0} (e : LsmStorageEngine S) (table_name : String)
    : Result (LsmTree S) → Result (LsmStorageEngine S) → Type 0 where
  stored :
      (t' : LsmTree S) (e' : LsmStorageEngine S)
      → ((name : String)
          → lookup name e'.tables
            ≡ (if str_eq table_name name then some t' else lookup name e.tables))
      → Stores e table_name (ok t') (ok e')
  failed : (error : Error) → Stores e table_name (err error) (err error)

stored_tree :
    {S : Type 0} (e : LsmStorageEngine S) (table_name : String) (r : Result (LsmTree S))
    → Stores e table_name r
        (r >>= λ tree'. ok (record e { tables = assign table_name tree' e.tables }))
stored_tree e table_name (ok t') =
    Stores.stored t' (record e { tables = assign table_name t' e.tables })
      (λ name. lookup-assign table_name name t' e.tables)
stored_tree e table_name (err error) = Stores.failed error

module _ {S C F : Type 0} ⦃i : ICursor C⦄ (f : SstFormat S C F) where
  -- A row that `validate_row` accepts, for a table whose schema is one of the builder, whose memtables are sorted, whose
  -- tables have distinct, old ids and their files, with room for the rounds of the work and a trigger of at least one,
  -- goes to the memtables of its table's tree: they hold the row,
  -- the rows of the active memtable with other keys and all rows of the frozen ones, each as often as before; the memtables stay
  -- sorted, the active one is below its threshold or empty, and the SSTables stay. Then the work that is due is done on that tree, and
  -- the engine holds the tree that is left; the other tables stay. If the work throws, the insertion does.
  pub engine_insert-Stores :
      (rounds fuel : ℕ) (e : LsmStorageEngine S) (table_name : String) (t : LsmTree S) (row : Row)
      → lookup table_name e.tables ≡ some t
      → IsValidSchema t.schema
      → HasSortedMemory t
      → IsStored t
      → HasRoom (suc rounds) t
      → validate_row t.schema row ≡ ok tt
      → (k : Key) × (t' : LsmTree S) × (row_key row ≡ some k)
        × HasRow k row t t'
        × Drains f fuel rounds t' (drain_work f rounds fuel t')
        × Stores e table_name (drain_work f rounds fuel t') (insert f rounds fuel e table_name row)
  unfolding insert get_tree
  engine_insert-Stores rounds fuel e table_name t row at s m h room accepted =
      let w = validate_row-IsRowOf t.schema row s accepted in
      let (k, key) = w.key in
      let (t', done, has, drains) = insert-Drains f rounds fuel t row k m h room key in
      (
        k,
        t',
        key,
        has,
        drains,
        simp (at, accepted, done) (stored_tree e table_name (drain_work f rounds fuel t')),
      )

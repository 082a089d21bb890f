-- ===== src/Schema/Rows.antt =====
-- The rows that `validate_row` (src/storage/lsm/lsm_storage_engine.cpp) is for, said without its tests.
use htap_storage_lsm_tree.Types.Float64.{Double}
use htap_storage_lsm_tree.Common.{List, ℕ, ◌≡◌, true, none, some, length, get_elem?}
use htap_storage_lsm_tree.Types.{ValueType, Value, NullableValue, Row, Key, row_key}
use htap_storage_lsm_tree.Schema.{Column, Schema, size}

-- NULL fits a nullable column; a value fits a column of its own type.
pub data Fits (c : Column) : NullableValue → Type 0 where
  null : c.nullable ≡ true → Fits c none
  int64 : {n : Key} → c.type ≡ ValueType.int64 → Fits c (some (Value.int64 n))
  double : {d : Double} → c.type ≡ ValueType.double → Fits c (some (Value.double d))
  string : {s : List ℕ} → c.type ≡ ValueType.string → Fits c (some (Value.string s))

-- A row of the schema: a value for each column that fits it, the first one an integer.
pub record IsRowOf (schema : Schema) (row : Row) : Type 0 where
  pub width : length row ≡ size schema
  pub key : (k : Key) × (row_key row ≡ some k)
  pub valid :
      (n : ℕ) (v : NullableValue)
      → get_elem? row n ≡ some v
      → (c : Column) × (get_elem? schema.columns n ≡ some c) × Fits c v

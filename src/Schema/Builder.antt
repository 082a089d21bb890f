-- ===== src/Schema/Builder.antt =====
-- `SchemaBuilder` (src/storage/model/schema_builder.cpp)
use htap_storage_lsm_tree.Common.{
  String, Bool, true, false, not, ◌||◌, List, [], ◌∷◌, ◌++◌, length, Result, ok, runtime_error,
  invalid_argument, throw_if, ◌>>=◌, ◌>>◌, str_eq, ◌==◌, if◌then◌else◌,
}
use htap_storage_lsm_tree.Types.{ValueType, int64, key_column_index}
use htap_storage_lsm_tree.Schema.{Column, Schema, make_schema}

pub record SchemaBuilder : Type 0 where
  pub columns : List Column
  pub column_names : List String
  pub key_seen : Bool

abbrev pub empty : SchemaBuilder
empty = record { columns = []; column_names = []; key_seen = false }

-- `column_names_.contains(name)`
abbrev pub contains_name : String → List String → Bool
contains_name n [] = false
contains_name n (m ∷ ms) = str_eq m n || contains_name n ms

abbrev pub is_int64 : ValueType → Bool
is_int64 int64 = true
is_int64 _ = false

-- The checks of `if (is_key)`.
unfoldable pub check_key : SchemaBuilder → Column → Result (Unit {0})
check_key b c = do
  throw_if (not (is_int64 c.type)) (runtime_error "Primary key must be INT64")
  throw_if c.nullable (runtime_error "Primary key must not be nullable")
  throw_if b.key_seen (runtime_error "Schema must contain only one primary key")
  throw_if (not (length b.columns == key_column_index))
      (runtime_error "Primary key must be at column index 0")

-- The new state of an accepted column.
abbrev pub with_column : SchemaBuilder → Column → SchemaBuilder
with_column b c = record {
  columns = b.columns ++ c ∷ [];
  column_names = c.name ∷ b.column_names;
  key_seen = b.key_seen || c.is_key;
}

unfoldable pub add_column : SchemaBuilder → Column → Result SchemaBuilder
add_column b c = do
  throw_if (contains_name c.name b.column_names) (invalid_argument "Duplicate column name")
  if c.is_key then check_key b c else ok tt
  ok (with_column b c)

unfoldable pub build : SchemaBuilder → Result Schema
build b = do
  throw_if (length b.columns == 0) (runtime_error "Schema must contain at least one column")
  throw_if (not b.key_seen) (runtime_error "Schema must contain exactly one primary key")
  ok (make_schema b.columns)

-- A chain of `add_column` calls, as `Binder::BindCreateTable` and the clients make it.
unfoldable pub add_columns : SchemaBuilder → List Column → Result SchemaBuilder
add_columns b [] = ok b
add_columns b (c ∷ cs) = do b' ← add_column b c; add_columns b' cs

-- ===== src/Schema.antt =====
-- `Column` and `Schema` (include/storage/model/schema.hpp, src/storage/model/schema.cpp)
pub mod Builder
pub mod Laws
pub mod Rows
use htap_storage_lsm_tree.Common.{
  ℕ, suc, ◌+◌, String, Bool, true, false, Option, none, some, List, [], ◌∷◌, length, get_elem?,
  Result, ok, err, out_of_range, from_option,
}
use htap_storage_lsm_tree.Common.Assoc.{Assoc, lookup, assign, string_eq}
use htap_storage_lsm_tree.Types.{ValueType, Value, NullableValue}

pub record Column : Type 0 where
  pub name : String
  pub type : ValueType
  pub is_key : Bool
  pub nullable : Bool

pub record Schema : Type 0 where
  pub columns : List Column
  pub name_to_index : Assoc String ℕ

-- The loop of the constructor: `name_to_index_[columns_[i].name] = i`.
unfoldable pub index_names : List Column → ℕ → Assoc String ℕ → Assoc String ℕ
index_names [] i m = m
index_names (c ∷ cs) i m = index_names cs (suc i) (assign c.name i m)

unfoldable pub make_schema : List Column → Schema
make_schema columns = record { columns = columns; name_to_index = index_names columns 0 [] }

abbrev pub size : Schema → ℕ
size s = length s.columns

unfoldable pub get_column : Schema → ℕ → Result Column
get_column s i = from_option (get_elem? s.columns i) (out_of_range "Column index out of range")

unfoldable pub get_column_index : Schema → String → Option ℕ
get_column_index s name = lookup name s.name_to_index

-- `std::holds_alternative` for the alternative of the column's type
abbrev pub holds_type : ValueType → Value → Bool
holds_type ValueType.int64 (Value.int64 _) = true
holds_type ValueType.double (Value.double _) = true
holds_type ValueType.string (Value.string _) = true
holds_type _ _ = false

abbrev pub fits_column : Column → NullableValue → Bool
fits_column c none = c.nullable
fits_column c (some v) = holds_type c.type v

-- by the column at the index, if there is one
abbrev pub is_valid : Option Column → NullableValue → Bool
is_valid none value = false
is_valid (some c) value = fits_column c value

unfoldable pub is_valid_value : Schema → ℕ → NullableValue → Bool
is_valid_value s i value = is_valid (get_elem? s.columns i) value

-- ===== src/Types.antt =====
-- include/storage/api/types.hpp and include/storage/read/sstable/key_range.hpp
pub mod Float64
use htap_storage_lsm_tree.Common.{
  ℕ, zero, Bool, true, false, Option, none, some, List, [], ◌∷◌, ltb_ℤ, not, ◌&&◌, ℤ, if◌then◌else◌,
}
use Float64.{Double}

pub data ValueType : Type 0 where
  int64 double string : ValueType

pub data ScanOrder : Type 0 where
  unordered key_ascending : ScanOrder

-- `std::variant<int64_t, double, std::string>`; a string is its bytes.
pub data Value : Type 0 where
  int64 : ℤ → Value
  double : Double → Value
  string : List ℕ → Value

abbrev pub Key : Type 0
Key = ℤ

abbrev pub NullableValue : Type 0
NullableValue = Option Value

abbrev pub Row : Type 0
Row = List NullableValue

abbrev pub key_column_index : ℕ
key_column_index = zero

-- `std::get<Key>(*cell)`: `none` where C++ throws `bad_variant_access` or reads an empty optional.
abbrev pub cell_key : NullableValue → Option Key
cell_key (some (Value.int64 k)) = some k
cell_key _ = none

-- `std::get<Key>(*row[KEY_COLUMN_INDEX])`
abbrev pub row_key : Row → Option Key
row_key [] = none
row_key (cell ∷ _) = cell_key cell

-- A half-open interval of keys; a bound that is left out is infinite.
pub record KeyRange : Type 0 where
  pub from : Option Key
  pub to : Option Key

abbrev pub below_from : KeyRange → Key → Bool
below_from r k = elim r.from [ none ↦ false | some f ↦ ltb_ℤ k f ]

abbrev pub reaches_to : KeyRange → Key → Bool
reaches_to r k = elim r.to [ none ↦ false | some t ↦ not (ltb_ℤ k t) ]

unfoldable pub contains : KeyRange → Key → Bool
contains r k = if below_from r k then false else if reaches_to r k then false else true

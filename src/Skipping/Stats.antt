-- ===== src/Skipping/Stats.antt =====
-- `update_numeric_stats` of the row block builder (src/lsmtree/sstable/build/row_sst_block_builder.cpp), for the
-- statistics of one column.
use htap_storage_lsm_tree.Common.{
  ℕ, true, false, none, some, List, [], ◌∷◌, get_elem?, if◌then◌else◌, Result, ok, err,
  runtime_error, bad_access, from_option, ◌>>=◌, ℤ, min_ℤ, max_ℤ, pos,
}
use htap_storage_lsm_tree.Types.{ValueType, Value, NullableValue, Row}
use htap_storage_lsm_tree.Types.Float64.{Double, lt_double, is_nan, zero_double}
use htap_storage_lsm_tree.Skipping.{NumericValue, int64_value, double_value, NumericBlockStats}

-- The entry of `reset_numeric_stats` for a numeric column.
abbrev pub zero_value : ValueType → NumericValue
zero_value ValueType.double = double_value zero_double
zero_value _ = int64_value (pos 0)

abbrev pub fresh_stats : ℕ → ValueType → NumericBlockStats
fresh_stats column_idx type = record {
  column_idx = column_idx;
  type = type;
  has_value = false;
  min_value = zero_value type;
  max_value = zero_value type;
}

-- `std::min` and `std::max` of doubles
unfoldable pub min_double : Double → Double → Double
min_double a b = if lt_double b a then b else a

unfoldable pub max_double : Double → Double → Double
max_double a b = if lt_double a b then b else a

abbrev pub with_bounds : NumericBlockStats → NumericValue → NumericValue → NumericBlockStats
with_bounds stats lo hi = record stats { has_value = true; min_value = lo; max_value = hi }

abbrev pub widen_int :
    NumericBlockStats → ℤ → NumericValue → NumericValue → Result NumericBlockStats
widen_int stats current (int64_value lo) (int64_value hi) =
    ok (with_bounds stats (int64_value (min_ℤ lo current)) (int64_value (max_ℤ hi current)))
widen_int stats current _ _ = err bad_access

abbrev pub widen_double :
    NumericBlockStats → Double → NumericValue → NumericValue → Result NumericBlockStats
widen_double stats current (double_value lo) (double_value hi) = ok (
    with_bounds stats (double_value (min_double lo current)) (double_value (max_double hi current)))
widen_double stats current _ _ = err bad_access

-- The body of the loop, for a value that is not NULL.
unfoldable pub update_value : NumericBlockStats → ValueType → Value → Result NumericBlockStats
update_value stats ValueType.int64 (Value.int64 current) =
    if stats.has_value
    then widen_int stats current stats.min_value stats.max_value
    else ok (with_bounds stats (int64_value current) (int64_value current))
update_value stats ValueType.double (Value.double current) =
    if is_nan current
    then ok stats
    else if stats.has_value
    then widen_double stats current stats.min_value stats.max_value
    else ok (with_bounds stats (double_value current) (double_value current))
update_value stats ValueType.string value = ok stats
update_value stats _ _ = err bad_access

unfoldable pub update_cell : NumericBlockStats → NullableValue → Result NumericBlockStats
update_cell stats none = ok stats
update_cell stats (some value) = update_value stats stats.type value

unfoldable pub update_stats : NumericBlockStats → Row → Result NumericBlockStats
update_stats stats row = do
  value ←
      from_option (get_elem? row stats.column_idx)
        (runtime_error "RowSSTBlockBuilder: row size mismatch schema")
  update_cell stats value

-- The statistics after the rows of a block.
unfoldable pub block_stats : NumericBlockStats → List Row → Result NumericBlockStats
block_stats stats [] = ok stats
block_stats stats (row ∷ rows) = do stats' ← update_stats stats row; block_stats stats' rows

-- ===== src/Skipping.antt =====
-- `DataSkippingBlockPruner` (src/storage/read/sstable/data_skipping_block_pruner.cpp), with the predicates of
-- include/storage/read/data_skipping_filter.hpp and the statistics of
-- include/storage/read/sstable/numeric_stats.hpp.
pub mod Stats
pub mod Laws
pub mod Compare
pub mod Covers
pub mod Update
pub mod Filter
use htap_storage_lsm_tree.Common.{
  ◌^◌, ◌%◌, ℕ, ◌-◌, Bool, true, false, not, ◌||◌, Option, none, some, List, [], ◌∷◌, length,
  get_elem?, keep, ltb, ltb_ℤ, leb_ℤ, if◌then◌else◌, ℤ,
}
use htap_storage_lsm_tree.Common.Assoc.{Assoc, lookup, ℕ_eq}
use htap_storage_lsm_tree.Types.{ValueType}
use htap_storage_lsm_tree.Types.Float64.{Double, lt_double, le_double}
use htap_storage_lsm_tree.Sstable.Meta.{RowBlockMeta}

pub data NumericComparisonOp : Type 0 where
  equal less less_equal greater greater_equal : NumericComparisonOp

-- `NumericPredicateValue` and `NumericStatsValue`
pub data NumericValue : Type 0 where
  int64_value : ℤ → NumericValue
  double_value : Double → NumericValue

pub record NumericColumnPredicate : Type 0 where
  pub column_idx : ℕ
  pub op : NumericComparisonOp
  pub value : NumericValue

pub record NumericBlockStats : Type 0 where
  pub column_idx : ℕ
  pub type : ValueType
  pub has_value : Bool
  pub min_value : NumericValue
  pub max_value : NumericValue

pub record NumericStatsRange : Type 0 where
  pub first_block_id : ℕ
  pub block_count : ℕ
  pub by_column : Assoc ℕ (List NumericBlockStats)

-- The tests of `switch (predicate.op)` on `int64_t` and on `double`.
unfoldable pub int_may_satisfy : NumericComparisonOp → ℤ → ℤ → ℤ → Bool
int_may_satisfy NumericComparisonOp.equal block_min block_max value =
    not (ltb_ℤ value block_min || ltb_ℤ block_max value)
int_may_satisfy NumericComparisonOp.greater block_min block_max value = ltb_ℤ value block_max
int_may_satisfy NumericComparisonOp.greater_equal block_min block_max value = leb_ℤ value block_max
int_may_satisfy NumericComparisonOp.less block_min block_max value = ltb_ℤ block_min value
int_may_satisfy NumericComparisonOp.less_equal block_min block_max value = leb_ℤ block_min value

unfoldable pub double_may_satisfy : NumericComparisonOp → Double → Double → Double → Bool
double_may_satisfy NumericComparisonOp.equal block_min block_max value =
    not (lt_double value block_min || lt_double block_max value)
double_may_satisfy NumericComparisonOp.greater block_min block_max value = lt_double value block_max
double_may_satisfy NumericComparisonOp.greater_equal block_min block_max value =
    le_double value block_max
double_may_satisfy NumericComparisonOp.less block_min block_max value = lt_double block_min value
double_may_satisfy NumericComparisonOp.less_equal block_min block_max value =
    le_double block_min value

abbrev pub is_empty {ℓ} : {A : Type ℓ} → List A → Bool
is_empty [] = true
is_empty (_ ∷ _) = false

-- `to_double` is the conversion of `static_cast<double>` from `int64_t`.
module _ (to_double : ℤ → Double) where
  unfoldable pub numeric_value_as_double : NumericValue → Double
  numeric_value_as_double (int64_value n) = to_double n
  numeric_value_as_double (double_value d) = d

  abbrev pub compared_as_double : NumericBlockStats → NumericColumnPredicate → Bool
  compared_as_double stats predicate =
      double_may_satisfy predicate.op (numeric_value_as_double stats.min_value)
        (numeric_value_as_double stats.max_value) (numeric_value_as_double predicate.value)

  -- The two comparisons. `std::get<std::int64_t>` of the bounds cannot fail for statistics of type INT64.
  abbrev pub compared :
      ValueType
      → NumericValue
      → NumericValue
      → NumericValue
      → NumericBlockStats
      → NumericColumnPredicate
      → Bool
  compared ValueType.int64 (int64_value lo) (int64_value hi) (int64_value value) stats predicate =
      int_may_satisfy predicate.op lo hi value
  compared _ _ _ _ stats predicate = compared_as_double stats predicate

  unfoldable pub block_may_satisfy_predicate : NumericBlockStats → NumericColumnPredicate → Bool
  block_may_satisfy_predicate stats predicate =
      if not stats.has_value
      then false
      else compared stats.type stats.min_value stats.max_value predicate.value stats predicate

  -- One round of the loop over the predicates, at the block's place in the range; `rest` are the later rounds.
  abbrev pub check_block : NumericColumnPredicate → Option NumericBlockStats → Bool → Bool
  check_block predicate none rest = true
  check_block predicate (some block) rest =
      if not (block_may_satisfy_predicate block predicate) then false else rest

  abbrev pub check_column :
      ℕ → NumericColumnPredicate → Option (List NumericBlockStats) → Bool → Bool
  check_column relative_block_id predicate none rest = rest
  check_column relative_block_id predicate (some column) rest =
      check_block predicate (get_elem? column relative_block_id) rest

  unfoldable pub check_predicates : ℕ → NumericStatsRange → List NumericColumnPredicate → Bool
  check_predicates relative_block_id stats [] = true
  check_predicates relative_block_id stats (predicate ∷ predicates) =
      let rest = check_predicates relative_block_id stats predicates in
      check_column relative_block_id predicate (lookup predicate.column_idx stats.by_column) rest

  unfoldable pub may_satisfy : ℕ → NumericStatsRange → List NumericColumnPredicate → Bool
  may_satisfy block_id stats filter =
      if ltb block_id stats.first_block_id
      then true
      else if not (ltb (block_id - stats.first_block_id) stats.block_count)
      then true
      else check_predicates (block_id - stats.first_block_id) stats filter

  unfoldable pub filter_logical_block_ids :
      List ℕ → NumericStatsRange → List NumericColumnPredicate → List ℕ
  filter_logical_block_ids block_ids stats filter =
      if is_empty block_ids || (is_empty stats.by_column || is_empty filter)
      then block_ids
      else keep (λ block_id. may_satisfy block_id stats filter) block_ids

  unfoldable pub filter_row_blocks :
      List RowBlockMeta → NumericStatsRange → List NumericColumnPredicate → List RowBlockMeta
  filter_row_blocks blocks stats filter =
      if is_empty blocks || (is_empty stats.by_column || is_empty filter)
      then blocks
      else keep (λ block. may_satisfy (block.block_id % 2 ^ 32) stats filter) blocks

-- ===== src/Examples/Skipping.antt =====
-- The statistics of a block with a NULL, and a predicate that one row satisfies.
use htap_storage_lsm_tree.Common.{
  ◌^◌, ◌%◌, ◌≡◌, refl, sym, subst, some-injective, get_elem?, ◌-◌, none, some, List, [], ◌∷◌, Any,
  inl, inr, ok, ℤ, pos, true, arith,
}
use htap_storage_lsm_tree.Types.{ValueType, Value, Row}
use htap_storage_lsm_tree.Types.Float64.{Double, zero_double, is_nan, magnitude}
use htap_storage_lsm_tree.Sstable.Meta.{RowBlockMeta}
use htap_storage_lsm_tree.Skipping.{
  NumericComparisonOp, int64_value, NumericColumnPredicate, NumericBlockStats, NumericStatsRange,
  block_may_satisfy_predicate, int_may_satisfy, filter_row_blocks,
}
use htap_storage_lsm_tree.Skipping.Stats.{
  fresh_stats, update_value, update_cell, update_stats, block_stats,
}
use htap_storage_lsm_tree.Skipping.Compare.{IsMonotone}
use htap_storage_lsm_tree.Skipping.Laws.{block_stats_sound}
use htap_storage_lsm_tree.Skipping.Filter.{IsAdmitted, filter_row_blocks_sound}

-- A conversion that keeps the order; this block compares integers only.
abbrev to_double : ℤ → Double
to_double a = zero_double

to_double-IsMonotone : IsMonotone to_double
unfolding is_nan magnitude
to_double-IsMonotone = record { number = λ a. refl; ordered = λ a b l. omega arith }

abbrev row_of : ℤ → ℤ → Row
row_of k v = some (Value.int64 k) ∷ some (Value.int64 v) ∷ []

abbrev rows : List Row
rows =
    row_of (pos 1) (pos 30)
    ∷ (some (Value.int64 (pos 2)) ∷ none ∷ [])
    ∷ row_of (pos 3) (pos 10)
    ∷ []

abbrev stats : NumericBlockStats
stats = record {
  column_idx = 1;
  type = ValueType.int64;
  has_value = true;
  min_value = int64_value (pos 10);
  max_value = int64_value (pos 30);
}

built : block_stats (fresh_stats 1 ValueType.int64) rows ≡ ok stats
unfolding block_stats update_stats update_cell update_value
built = refl

abbrev predicate : NumericColumnPredicate
predicate = record { column_idx = 1; op = NumericComparisonOp.less; value = int64_value (pos 20) }

block_stats_sound_example : block_may_satisfy_predicate to_double stats predicate ≡ true
block_stats_sound_example =
    block_stats_sound to_double ValueType.int64 rows stats predicate (row_of (pos 3) (pos 10))
      (Value.int64 (pos 10)) to_double-IsMonotone built (inr (inr (inl refl))) refl tt tt refl

admits : block_may_satisfy_predicate to_double stats predicate ≡ true
unfolding block_may_satisfy_predicate int_may_satisfy
admits = refl

abbrev block : RowBlockMeta
block = record {
  min_key = pos 1;
  max_key = pos 3;
  offset = 0;
  size = 54;
  row_count = 3;
  block_id = 5;
}

abbrev range : NumericStatsRange
range = record { first_block_id = 5; block_count = 1; by_column = (1, stats ∷ []) ∷ [] }

filter_row_blocks_sound_example :
    Any (λ b. block ≡ b) (filter_row_blocks to_double (block ∷ []) range (predicate ∷ []))
filter_row_blocks_sound_example =
    filter_row_blocks_sound to_double (block ∷ []) range (predicate ∷ []) block (inl refl)
      (admitted, tt)
  where
    admitted : IsAdmitted to_double range (block.block_id % 2 ^ 32 - range.first_block_id) predicate
    admitted column b e f =
        let same : stats ∷ [] ≡ column = some-injective _ _ e in
        let same' : stats ≡ b =
          some-injective _ _ (subst (λ c. get_elem? c 0 ≡ some b) (sym same) f) in
        subst (λ s. block_may_satisfy_predicate to_double s predicate ≡ true) same' admits

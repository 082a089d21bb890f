-- ===== src/Skipping/Filter.antt =====
-- The pruner keeps a block that every predicate with statistics lets through.
use htap_storage_lsm_tree.Common.{
  ◌^◌, ◌%◌, ℕ, ◌-◌, ◌≡◌, refl, true, ◌||◌, Option, none, some, List, [], ◌∷◌, get_elem?, All, Any,
  keep-Any, ℤ, arith, Bool-cases, Option-cases, inl, inr,
}
use htap_storage_lsm_tree.Common.Assoc.{lookup, ℕ_eq}
use htap_storage_lsm_tree.Types.Float64.{Double}
use htap_storage_lsm_tree.Sstable.Meta.{RowBlockMeta}
use htap_storage_lsm_tree.Skipping.{
  NumericColumnPredicate, NumericBlockStats, NumericStatsRange, block_may_satisfy_predicate,
  check_predicates, may_satisfy, is_empty, filter_row_blocks,
}

module _ (to_double : ℤ → Double) where
  -- The statistics of the block, if there are any for the column, let the predicate through.
  abbrev pub IsAdmitted : NumericStatsRange → ℕ → NumericColumnPredicate → Type 0
  IsAdmitted stats place p =
      (column : List NumericBlockStats) (block : NumericBlockStats)
      → lookup p.column_idx stats.by_column ≡ some column
      → get_elem? column place ≡ some block
      → block_may_satisfy_predicate to_double block p ≡ true

  check_one :
      (place : ℕ) (stats : NumericStatsRange) (p : NumericColumnPredicate)
      (filter : List NumericColumnPredicate) (o : Option (List NumericBlockStats))
      → lookup p.column_idx stats.by_column ≡ o
      → IsAdmitted stats place p
      → check_predicates to_double place stats filter ≡ true
      → check_predicates to_double place stats (p ∷ filter) ≡ true
  unfolding check_predicates
  check_one place stats p filter none e a rest = rw e rest
  check_one place stats p filter (some column) e a rest =
      rw e (elim (Option-cases (get_elem? column place)) [
        | inl gone ↦ rw gone refl
        | inr (block, here) ↦ rw here (rw (a column block e here) rest)
      ])

  check_predicates_sound :
      (place : ℕ) (stats : NumericStatsRange) (filter : List NumericColumnPredicate)
      → All (IsAdmitted stats place) filter
      → check_predicates to_double place stats filter ≡ true
  unfolding check_predicates
  check_predicates_sound place stats [] a = refl
  check_predicates_sound place stats (p ∷ filter) a =
      check_one place stats p filter (lookup p.column_idx stats.by_column) refl a.0
        (check_predicates_sound place stats filter a.1)

  may_satisfy_sound :
      (block_id : ℕ) (stats : NumericStatsRange) (filter : List NumericColumnPredicate)
      → All (IsAdmitted stats (block_id - stats.first_block_id)) filter
      → may_satisfy to_double block_id stats filter ≡ true
  unfolding may_satisfy
  may_satisfy_sound block_id stats filter a =
      ground (arith, check_predicates_sound (block_id - stats.first_block_id) stats filter a)

  -- A candidate block is kept if every predicate that has statistics for the block lets it through, with its number as
  -- 32 bits.
  pub filter_row_blocks_sound :
      (blocks : List RowBlockMeta) (stats : NumericStatsRange)
      (filter : List NumericColumnPredicate) (block : RowBlockMeta)
      → Any (λ b. block ≡ b) blocks
      → All (IsAdmitted stats (block.block_id % 2 ^ 32 - stats.first_block_id)) filter
      → Any (λ b. block ≡ b) (filter_row_blocks to_double blocks stats filter)
  unfolding filter_row_blocks
  filter_row_blocks_sound blocks stats filter block h a =
      elim (Bool-cases (is_empty blocks || (is_empty stats.by_column || is_empty filter))) [
        | inl all ↦ simp all h
        | inr some_stats ↦ simp some_stats (
            keep-Any (λ b. may_satisfy to_double (b.block_id % 2 ^ 32) stats filter) block blocks
              (may_satisfy_sound (block.block_id % 2 ^ 32) stats filter a) h)
      ]

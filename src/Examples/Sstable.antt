-- ===== src/Examples/Sstable.antt =====
-- The registry, the compaction policy and the sparse index.
use htap_storage_lsm_tree.Common.{
  ℕ, zero, suc, ◌+◌, ◌≤◌, ◌<◌, ◌≡◌, refl, true, none, some, List, [], ◌∷◌, ◌++◌, get_elem?, ◌≤ℤ◌,
  ◌<ℤ◌, Any, ok, ℤ, pos, negsuc, arith, inl, inr,
}
use htap_storage_lsm_tree.Types.{contains}
use htap_storage_lsm_tree.Registry.{
  SstLayout, SstableInfo, SstableRegistry, add, remove, overlapping,
}
use htap_storage_lsm_tree.Registry.Laws.{at, at-add, Without, remove-Without, overlapping_complete}
use htap_storage_lsm_tree.Compaction.Policy.{PolicyConfig}
use htap_storage_lsm_tree.Sstable.Meta.{RowBlockMeta, SparseIndexEntry}
use htap_storage_lsm_tree.Sstable.IndexStep.{
  SparseIndexOptions, choose_sparse_index_step, choose_sparse_index_step_bounds, low_step,
  high_step,
}
use htap_storage_lsm_tree.Sstable.Selector.{MetadataBlockRange, intersects, select_metadata_range}
use htap_storage_lsm_tree.Sstable.Selector.Laws.{IsSeparated, select_metadata_range_sound}

abbrev table : ℕ → ℕ → SstableInfo
table id level = record {
  id = id;
  path = [];
  level = level;
  min_key = negsuc 4;
  max_key = pos 9;
  file_size_bytes = 100;
  num_blocks = 1;
  layout = SstLayout.row;
}

abbrev registry : SstableRegistry
registry = record { levels = (table 1 0 ∷ table 2 0 ∷ []) ∷ [] }

at-add_example : at (add registry (table 3 2)) 2 ≡ at registry 2 ++ table 3 2 ∷ []
at-add_example = at-add registry (table 3 2) 2 (omega arith)

remove-Without_example : Without 1 (at registry 0) (at (remove registry 1) 0)
remove-Without_example = remove-Without registry 1 0

overlapping_complete_example :
    Any (λ i. table 2 0 ≡ i) (overlapping registry 0 (some (pos 0)) (some (pos 3)))
unfolding contains
overlapping_complete_example =
    overlapping_complete registry 0 (record { from = some (pos 0); to = some (pos 3) }) (table 2 0)
      (pos 2) (inr (inl refl)) (omega arith) (omega arith) refl

abbrev config : PolicyConfig
config = record {
  level0_compaction_trigger = 2;
  size_ratio = 10;
  base_level_size_bytes = 100;
  row_to_column_level = 2;
}

abbrev options : SparseIndexOptions
options = record { fixed_step = 0; target_index_bytes = 24; min_step = 1; max_step = 4 }

choose_sparse_index_step_bounds_example :
    (1 ≤ choose_sparse_index_step 7 options)
    × (0 < 7 → low_step options ≤ choose_sparse_index_step 7 options)
    × (0 < 7 → choose_sparse_index_step 7 options ≤ high_step options)
choose_sparse_index_step_bounds_example = choose_sparse_index_step_bounds 7 options

adaptive_step : choose_sparse_index_step 7 options ≡ 4
unfolding choose_sparse_index_step
adaptive_step = refl

abbrev block : ℕ → ℤ → ℤ → RowBlockMeta
block i low high = record {
  min_key = low;
  max_key = high;
  offset = 0;
  size = 0;
  row_count = 1;
  block_id = i;
}

abbrev blocks : List RowBlockMeta
blocks = block 0 (negsuc 2) (pos 1) ∷ block 1 (pos 2) (pos 4) ∷ []

blocks-IsSeparated : IsSeparated blocks
blocks-IsSeparated = record {
  proper = λ i b e. proper i b e;
  apart = λ i j b c l e e'. apart i j b c l e e';
}
  where
    proper : (i : ℕ) (b : RowBlockMeta) → get_elem? blocks i ≡ some b → b.min_key ≤ℤ b.max_key
    proper zero b e = ground arith
    proper (suc zero) b e = ground arith
    proper (suc (suc i)) b e = absurd (ground arith)

    apart :
        (i j : ℕ) (b c : RowBlockMeta)
        → i < j
        → get_elem? blocks i ≡ some b
        → get_elem? blocks j ≡ some c
        → b.max_key <ℤ c.min_key
    apart zero zero b c l e e' = absurd (omega arith)
    apart zero (suc zero) b c l e e' = ground arith
    apart zero (suc (suc j)) b c l e e' = absurd (ground arith)
    apart (suc zero) zero b c l e e' = absurd (omega arith)
    apart (suc zero) (suc zero) b c l e e' = absurd (omega arith)
    apart (suc zero) (suc (suc j)) b c l e e' = absurd (ground arith)
    apart (suc (suc i)) j b c l e e' = absurd (ground arith)

abbrev entries : List SparseIndexEntry
entries =
    record { min_key = negsuc 2; block_id = 0 } ∷ record { min_key = pos 2; block_id = 1 } ∷ []

select_metadata_range_sound_example :
    (m : MetadataBlockRange) × (select_metadata_range entries
        (record { from = some (pos 3); to = none })
        2
      ≡ ok m)
    × ((i : ℕ) (b : RowBlockMeta)
        → get_elem? blocks i ≡ some b
        → intersects b.min_key b.max_key (record { from = some (pos 3); to = none }) ≡ true
        → (m.first_block_id ≤ i) × (i < m.first_block_id + m.block_count))
select_metadata_range_sound_example =
    select_metadata_range_sound blocks entries (record { from = some (pos 3); to = none })
      blocks-IsSeparated
      ((block 0 (negsuc 2) (pos 1), refl, refl), ((block 1 (pos 2) (pos 4), refl, refl), tt))

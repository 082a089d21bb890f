-- ===== src/Sstable/IndexStep.antt =====
-- `choose_sparse_index_step` (include/lsmtree/sstable/build/sparse_index_options.hpp) and the entries
-- that `write_sparse_index_file` keeps (src/lsmtree/sstable/build/row_sstable_builder.cpp).
use htap_storage_lsm_tree.Common.{
  ℕ, ◌+◌, ◌-◌, ◌/◌, ◌%◌, ◌^◌, ◌≤◌, ◌<◌, Bool, not, List, keep, min, max, ltb, ◌==◌, if◌then◌else◌,
  arith,
}
use htap_storage_lsm_tree.Sstable.Meta.{SparseIndexEntry}

pub record SparseIndexOptions : Type 0 where
  pub fixed_step : ℕ
  pub target_index_bytes : ℕ
  pub min_step : ℕ
  pub max_step : ℕ

-- `sizeof(Key) + sizeof(uint32_t)`
abbrev pub entry_size : ℕ
entry_size = 12

-- `std::clamp`
abbrev pub clamp : ℕ → ℕ → ℕ → ℕ
clamp v lo hi = if ltb v lo then lo else if ltb hi v then hi else v

abbrev pub low_step : SparseIndexOptions → ℕ
low_step o = max 1 o.min_step

abbrev pub high_step : SparseIndexOptions → ℕ
high_step o = max (low_step o) o.max_step

abbrev pub max_entries : SparseIndexOptions → ℕ
max_entries o = max 1 (o.target_index_bytes / entry_size)

-- The blocks for one entry of an index that fills its budget.
abbrev pub raw_step : ℕ → SparseIndexOptions → ℕ
raw_step num_blocks o = (num_blocks + max_entries o - 1) / max_entries o

unfoldable pub choose_sparse_index_step : ℕ → SparseIndexOptions → ℕ
choose_sparse_index_step num_blocks o =
    if num_blocks == 0
    then 1
    else if not (o.fixed_step == 0)
    then clamp o.fixed_step (low_step o) (high_step o)
    else if ltb o.target_index_bytes entry_size
    then high_step o
    else clamp (min (raw_step num_blocks o) (2 ^ 32 - 1)) (low_step o) (high_step o)

abbrev pub is_indexed : ℕ → SparseIndexEntry → Bool
is_indexed step e = e.block_id % step == 0

unfoldable pub sparse_entries : ℕ → List SparseIndexEntry → List SparseIndexEntry
sparse_entries step candidates = keep (is_indexed step) candidates

-- The step is at least 1, and for a table with blocks it lies between the configured bounds, the lower
-- one raised to 1 and the upper one to the lower.
pub choose_sparse_index_step_bounds :
    (n : ℕ) (o : SparseIndexOptions)
    → (1 ≤ choose_sparse_index_step n o)
      × (0 < n → low_step o ≤ choose_sparse_index_step n o)
      × (0 < n → choose_sparse_index_step n o ≤ high_step o)
unfolding choose_sparse_index_step
choose_sparse_index_step_bounds n o = ground arith

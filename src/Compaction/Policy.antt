-- ===== src/Compaction/Policy.antt =====
-- `CompactionTask` and `CompactionPolicy::pick` (src/lsmtree/compaction/compaction_policy.cpp), with
-- the 64-bit sums and products of the source.
use htap_storage_lsm_tree.Common.{
  ℕ, zero, suc, ◌+◌, ◌*◌, ◌%◌, ◌^◌, Option, none, some, List, [], ◌∷◌, drop, ltb, leb,
  if◌then◌else◌,
}
use htap_storage_lsm_tree.Registry.{SstLayout, SstableInfo, SstableRegistry, sstable_count}

pub record CompactionTask : Type 0 where
  pub src_level : ℕ
  pub dst_level : ℕ
  pub output_layout : SstLayout

-- The settings of `StorageConfig` that the policy reads.
pub record PolicyConfig : Type 0 where
  pub level0_compaction_trigger : ℕ
  pub size_ratio : ℕ
  pub base_level_size_bytes : ℕ
  pub row_to_column_level : ℕ

-- `threshold *= size_ratio`, `level` times, on `uint64_t`
unfoldable pub level_threshold : PolicyConfig → ℕ → ℕ
level_threshold c zero = c.base_level_size_bytes
level_threshold c (suc level) = level_threshold c level * c.size_ratio % 2 ^ 64

-- `total_size += sst.file_size_bytes`, on `uint64_t`
unfoldable pub sum_sizes : ℕ → List SstableInfo → ℕ
sum_sizes total [] = total
sum_sizes total (sst ∷ ssts) = sum_sizes ((total + sst.file_size_bytes) % 2 ^ 64) ssts

abbrev pub task_to : PolicyConfig → ℕ → CompactionTask
task_to c level = record {
  src_level = level;
  dst_level = level + 1;
  output_layout = if leb c.row_to_column_level (level + 1) then SstLayout.column else SstLayout.row;
}

-- The loop over the levels from `level` on.
unfoldable pub pick_by_size : PolicyConfig → List (List SstableInfo) → ℕ → Option CompactionTask
pick_by_size c [] level = none
pick_by_size c ([] ∷ ls) level = pick_by_size c ls (suc level)
pick_by_size c ((sst ∷ ssts) ∷ ls) level =
    let rest = pick_by_size c ls (suc level) in
    if ltb (level_threshold c level) (sum_sizes 0 (sst ∷ ssts))
    then some (task_to c level)
    else rest

unfoldable pub pick : PolicyConfig → SstableRegistry → Option CompactionTask
pick c r =
    let by_size = pick_by_size c (drop 1 r.levels) 1 in
    if leb c.level0_compaction_trigger (sstable_count r 0)
    then some (record {
      src_level = 0;
      dst_level = 1;
      output_layout = if leb c.row_to_column_level 1 then SstLayout.column else SstLayout.row;
    })
    else by_size

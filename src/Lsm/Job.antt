-- ===== src/Lsm/Job.antt =====
-- `CompactionJob` (src/lsmtree/compaction/compaction_job.cpp)
pub mod Laws
use htap_storage_lsm_tree.Common.{
  ℕ, zero, suc, ◌-◌, Bool, Option, none, some, List, [], ◌∷◌, if◌then◌else◌, Result, ok, err,
  runtime_error, cut_off, from_option, ◌>>=◌,
}
use htap_storage_lsm_tree.Common.Assoc.{Assoc, lookup, ℕ_eq}
use htap_storage_lsm_tree.Types.{Row, Value, NullableValue}
use htap_storage_lsm_tree.Schema.{Schema, size}
use htap_storage_lsm_tree.Registry.{SstableInfo}
use htap_storage_lsm_tree.Compaction.Policy.{CompactionTask}
use htap_storage_lsm_tree.Cursor.{ICursor}
use htap_storage_lsm_tree.Cursor.Merge.{
  MergeCursor, make_merge, cursor as merge_instance, valid, next, key, value,
}
use htap_storage_lsm_tree.Cursor.Compose.{valid_cursors}
use htap_storage_lsm_tree.Lsm.Format.{SstFormat, full_range, all_columns}
use htap_storage_lsm_tree.Lsm.Tree.{make_info}

module _ {C : Type 0} ⦃i : ICursor C⦄ where
  -- `merged->value(ci)` for `count` columns from `ci` on.
  unfoldable pub read_values : MergeCursor C → ℕ → ℕ → Result Row
  read_values m zero ci = ok []
  read_values m (suc count) ci = do
    v ← value m ci
    rest ← read_values m count (suc ci)
    ok (v ∷ rest)

  -- The row that the merged cursor stands at.
  unfoldable pub read_row : Schema → MergeCursor C → Result Row
  read_row schema m = do
    k ← key m
    rest ← read_values m (size schema - 1) 1
    ok (some (Value.int64 k) ∷ rest)

  -- The rows of the loop `while (merged->valid())`, for at most `fuel` of them.
  unfoldable pub merged_rows : ℕ → Schema → MergeCursor C → Result (List Row)
  merged_rows zero schema m = if valid m then err cut_off else ok []
  merged_rows (suc fuel) schema m =
      let more = read_row schema m >>= λ row.
      next m >>= λ m'. merged_rows fuel schema m' >>= λ rest. ok (row ∷ rest) in
      if valid m then more else ok []

module _ {S C F : Type 0} ⦃i : ICursor C⦄ (f : SstFormat S C F) where
  -- The loop that opens a cursor over each candidate.
  unfoldable pub open_cursors : Schema → Assoc ℕ S → List SstableInfo → Result (List (Option C))
  open_cursors schema disk [] = ok []
  open_cursors schema disk (sst ∷ ssts) = do
    s ← from_option (lookup sst.id disk) (runtime_error "SSTable files not found")
    c ← f.make_sstable_cursor schema sst s full_range (all_columns schema) f.no_filter
    rest ← open_cursors schema disk ssts
    ok (c ∷ rest)

  -- The rest of `run`, with the cursors that have rows.
  unfoldable pub run_merge :
      ℕ → Schema → List ℕ → CompactionTask → ℕ → List C → Result (S × SstableInfo)
  run_merge fuel schema root_path task new_sst_id [] =
      err (runtime_error "CompactionJob::run: all candidate cursors are empty")
  run_merge fuel schema root_path task new_sst_id (c ∷ cs) = do
    merged ← make_merge (c ∷ cs)
    rows ← merged_rows fuel schema merged
    built ← f.build schema task.output_layout rows
    ok (
      built.0,
      make_info root_path new_sst_id task.dst_level task.output_layout (f.size_bytes built.0)
          built.1,
    )

  unfoldable pub run :
      ℕ
      → Schema
      → List ℕ
      → Assoc ℕ S
      → List SstableInfo
      → CompactionTask
      → ℕ
      → Result (S × SstableInfo)
  run fuel schema root_path disk [] task new_sst_id =
      err (runtime_error "CompactionJob::run: no candidates")
  run fuel schema root_path disk (sst ∷ ssts) task new_sst_id = do
    cursors ← open_cursors schema disk (sst ∷ ssts)
    run_merge fuel schema root_path task new_sst_id (valid_cursors cursors)

-- ===== src/Lsm/Compact.antt =====
-- `compact_one_locked`, `drain_work_locked` and the operations that call it (src/lsmtree/lsmtree.cpp), as the
-- tree runs them without a background thread.
pub mod Laws
use htap_storage_lsm_tree.Common.{
  ℕ, zero, suc, ◌+◌, ◌%◌, ◌^◌, Bool, true, false, ◌||◌, Option, none, some, List, [], ◌∷◌, ltb,
  if◌then◌else◌, Result, ok, err, cut_off, ◌>>=◌,
}
use htap_storage_lsm_tree.Common.Assoc.{Assoc, assign, erase, ℕ_eq}
use htap_storage_lsm_tree.Types.{Row}
use htap_storage_lsm_tree.Mem.Layer.{immutable_count}
use htap_storage_lsm_tree.Registry.{SstableInfo, SstableRegistry, add, remove, sstables_at_level}
use htap_storage_lsm_tree.Compaction.Policy.{CompactionTask, pick}
use htap_storage_lsm_tree.Manifest.{save}
use htap_storage_lsm_tree.Cursor.{ICursor}
use htap_storage_lsm_tree.Lsm.Format.{SstFormat}
use htap_storage_lsm_tree.Lsm.Tree.{LsmTree, insert_row, flush_one}
use htap_storage_lsm_tree.Lsm.Job.{run}

-- The loop that removes the old tables from the registry, and from the disk.
unfoldable pub remove_tables : List SstableInfo → SstableRegistry → SstableRegistry
remove_tables [] r = r
remove_tables (old_sst ∷ olds) r = remove_tables olds (remove r old_sst.id)

unfoldable pub delete_files : {S : Type 0} → List SstableInfo → Assoc ℕ S → Assoc ℕ S
delete_files [] disk = disk
delete_files (old_sst ∷ olds) disk = delete_files olds (erase old_sst.id disk)

-- The last critical section of a compaction.
unfoldable pub register_compaction :
    {S : Type 0} → LsmTree S → List SstableInfo → SstableInfo → Result (LsmTree S)
register_compaction t candidates new_info = do
  let t' = record t {
    registry = remove_tables candidates (add t.registry new_info);
    disk = delete_files candidates t.disk;
  }
  dir ← save t'.dir t'.registry t'.next_sst_id
  ok (record t' { dir = dir })

abbrev pub is_some : Option CompactionTask → Bool
is_some none = false
is_some (some _) = true

unfoldable pub has_pending_work : {S : Type 0} → LsmTree S → Bool
has_pending_work t = ltb 0 (immutable_count t.memory_layer) || is_some (pick t.policy t.registry)

module _ {S C F : Type 0} ⦃i : ICursor C⦄ (f : SstFormat S C F) where
  -- The rest of `compact_one_locked`, with the tables of the level.
  unfoldable pub compact_level :
      ℕ → LsmTree S → CompactionTask → List SstableInfo → Result (Bool × LsmTree S)
  compact_level fuel t task [] = ok (false, t)
  compact_level fuel t task (sst ∷ ssts) = do
    let new_id = t.next_sst_id
    built ← run f fuel t.schema t.root_path t.disk (sst ∷ ssts) task new_id
    let t' = record t {
      next_sst_id = (t.next_sst_id + 1) % 2 ^ 64;
      disk = assign new_id built.0 t.disk;
    }
    t'' ← register_compaction t' (sst ∷ ssts) built.1
    ok (true, t'')

  unfoldable pub compact_task : ℕ → LsmTree S → Option CompactionTask → Result (Bool × LsmTree S)
  compact_task fuel t none = ok (false, t)
  compact_task fuel t (some task) = do
    candidates ← sstables_at_level t.registry task.src_level
    compact_level fuel t task candidates

  unfoldable pub compact_one : ℕ → LsmTree S → Result (Bool × LsmTree S)
  compact_one fuel t = compact_task fuel t (pick t.policy t.registry)

  -- One round of the loop: a flush, or else a compaction. The flag says that the loop goes on.
  unfoldable pub work_one : ℕ → LsmTree S → Result (Bool × LsmTree S)
  work_one fuel t = do
    flushed ← flush_one f t
    if flushed.0 then ok flushed else compact_one fuel flushed.1

  -- At most `rounds` rounds, each of which merges at most `fuel` rows.
  unfoldable pub drain_work : ℕ → ℕ → LsmTree S → Result (LsmTree S)
  drain_work zero fuel t = if has_pending_work t then err cut_off else ok t
  drain_work (suc rounds) fuel t =
      let more = work_one fuel t >>= λ done.
      (let rest = drain_work rounds fuel done.1 in if done.0 then rest else ok done.1) in
      if has_pending_work t then more else ok t

  unfoldable pub insert : ℕ → ℕ → LsmTree S → Row → Result (LsmTree S)
  insert rounds fuel t row = do t' ← insert_row t row; drain_work rounds fuel t'

  unfoldable pub wait_for_compaction : ℕ → ℕ → LsmTree S → Result (LsmTree S)
  wait_for_compaction rounds fuel t = drain_work rounds fuel t

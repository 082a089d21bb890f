-- ===== src/Lsm/Job/Laws.antt =====
-- What `CompactionJob::run` (src/lsmtree/compaction/compaction_job.cpp) hands to the builder.
use mathlib.Core.List.{Permᴰ}
use htap_storage_lsm_tree.Common.Perms.{length-Permᴰ}
use htap_storage_lsm_tree.Common.{
  ℕ, zero, suc, ◌+◌, ◌-◌, ◌≤◌, ◌≡◌, refl, sym, ap, none, some, List, [], ◌∷◌, length, get_elem?,
  drop, drop-eq-cons, drop_all, All, concat, Result, ok, arith, ◌>>=◌, err, ok_of_bind,
}
use htap_storage_lsm_tree.Common.Assoc.{Assoc, ℕ_eq}
use htap_storage_lsm_tree.Types.{Row, Value, NullableValue}
use htap_storage_lsm_tree.Schema.{Schema, size}
use htap_storage_lsm_tree.Registry.{SstableInfo}
use htap_storage_lsm_tree.Compaction.Policy.{CompactionTask}
use htap_storage_lsm_tree.Cursor.{ICursor, Yields}
use htap_storage_lsm_tree.Cursor.Merge.{MergeCursor, make_merge, cursor as merge_instance, value}
use htap_storage_lsm_tree.Cursor.Merge.Rows.{YieldAll}
use htap_storage_lsm_tree.Cursor.Merge.Laws.{make_merge-each}
use htap_storage_lsm_tree.Cursor.Compose.{valid_cursors}
use htap_storage_lsm_tree.Lsm.Format.{SstFormat}
use htap_storage_lsm_tree.Schema.Rows.{IsRowOf}
use htap_storage_lsm_tree.Cursor.Merge.Rows.{IsSortedRows}
use htap_storage_lsm_tree.Lsm.Tree.{make_info}
use htap_storage_lsm_tree.Lsm.Job.{read_values, read_row, merged_rows, open_cursors, run_merge, run}

module _ {C : Type 0} ⦃i : ICursor C⦄ where
  read_values-drop :
      (m : MergeCursor C) (r : Row) (count ci : ℕ)
      → ci + count ≡ length r
      → ((n : ℕ) (v : NullableValue) → get_elem? r n ≡ some v → value m n ≡ ok v)
      → read_values m count ci ≡ ok (drop ci r)
  unfolding read_values
  read_values-drop m r zero ci s h = rw (drop_all r ci (omega arith)) refl
  read_values-drop m r (suc count) ci s h =
      let (v, here, split) = drop-eq-cons r ci (omega arith) in
      simp (h ci v here, split, read_values-drop m r count (suc ci) (omega arith) h) refl

  read_row-eq :
      (schema : Schema) (m : MergeCursor C) (r : Row) (rs : List Row)
      → IsRowOf schema r
      → Yields m (r ∷ rs)
      → read_row schema m ≡ ok r
  unfolding read_row
  read_row-eq schema m [] rs w y = absurd (ground (arith, w.key.1))
  read_row-eq schema m (none ∷ cells) rs w y = absurd (ground (arith, w.key.1))
  read_row-eq schema m (some (Value.double d) ∷ cells) rs w y = absurd (ground (arith, w.key.1))
  read_row-eq schema m (some (Value.string d) ∷ cells) rs w y = absurd (ground (arith, w.key.1))
  read_row-eq schema m (some (Value.int64 k) ∷ cells) rs w y =
      let count : 1 + (size schema - 1) ≡ suc (length cells) = omega (arith, w.width) in
      simp (y.1, read_values-drop m (some (Value.int64 k) ∷ cells) (size schema - 1) 1 count y.2)
        refl

  merged_rows-eq :
      (schema : Schema) (rows : List Row) (fuel : ℕ) (m : MergeCursor C)
      → length rows ≤ fuel
      → All (IsRowOf schema) rows
      → Yields m rows
      → merged_rows fuel schema m ≡ ok rows
  unfolding merged_rows
  merged_rows-eq schema [] zero m l w y = simp y refl
  merged_rows-eq schema [] (suc fuel) m l w y = simp y refl
  merged_rows-eq schema (r ∷ rs) zero m l w y = absurd (omega arith)
  merged_rows-eq schema (r ∷ rs) (suc fuel) m l w y =
      let (m', moved, rest) = y.3 in
      simp
        (
          y.0,
          read_row-eq schema m r rs w.0 y,
          moved,
          merged_rows-eq schema rs fuel m' (omega arith) w.1 rest,
        )
        refl

module _ {S C F : Type 0} ⦃i : ICursor C⦄ (f : SstFormat S C F) where
  -- the table of the rows, with its entry for the registry
  abbrev pub built_from : Schema → List ℕ → CompactionTask → ℕ → List Row → Result (S × SstableInfo)
  built_from schema root_path task id rows = f.build schema task.output_layout rows >>= λ built.
      ok (
        built.0,
        make_info root_path id task.dst_level task.output_layout (f.size_bytes built.0) built.1,
      )

  -- From cursors over sorted rows of the schema, at least one cursor, a compaction with fuel for all rows builds its table of
  -- exactly their rows, each as often as the cursors show it, by ascending key, in the layout of the task and for the
  -- task's level.
  pub run_merge-built_from :
      (schema : Schema) (c : C) (cs : List C) (rss : List (List Row)) (root_path : List ℕ)
      (task : CompactionTask) (id fuel : ℕ)
      → YieldAll (c ∷ cs) rss
      → All IsSortedRows rss
      → All (All (IsRowOf schema)) rss
      → length (concat rss) ≤ fuel
      → (rows : List Row) × IsSortedRows rows
        × Permᴰ rows (concat rss)
        × (run_merge f fuel schema root_path task id (c ∷ cs)
            ≡ built_from schema root_path task id rows)
  unfolding run_merge
  run_merge-built_from schema c cs rss root_path task id fuel y o w l =
      let (m, rows, made, yields, sorted, perm, each) = make_merge-each (c ∷ cs) rss y o in
      let merged : merged_rows fuel schema m ≡ ok rows =
        merged_rows-eq schema rows fuel m (omega (arith, length-Permᴰ perm))
          (each (IsRowOf schema) w) yields in
      (rows, sorted, perm, simp (made, merged) refl)

  abbrev info_or : SstableInfo → Result (S × SstableInfo) → SstableInfo
  info_or info (ok (s, x)) = x
  info_or info (err e) = info

  -- the registry's entry of a table that a compaction has built
  pub run-info :
      (fuel : ℕ) (schema : Schema) (root_path : List ℕ) (disk : Assoc ℕ S) (sst : SstableInfo)
      (ssts : List SstableInfo) (task : CompactionTask) (id : ℕ) (s : S) (info : SstableInfo)
      → run f fuel schema root_path disk (sst ∷ ssts) task id ≡ ok (s, info)
      → (info.id ≡ id) × (info.level ≡ task.dst_level)
  unfolding run run_merge
  run-info fuel schema root_path disk sst ssts task id s info h =
      let (cs, opened, rest) = ok_of_bind _ (open_cursors f schema disk (sst ∷ ssts)) h in
      merge_info (valid_cursors cs) rest
    where
      merge_info :
          (cs : List C)
          → run_merge f fuel schema root_path task id cs ≡ ok (s, info)
          → (info.id ≡ id) × (info.level ≡ task.dst_level)
      merge_info [] h = absurd (ground arith)
      merge_info (c ∷ cs) h =
          let (m, made, h2) = ok_of_bind _ (make_merge (c ∷ cs)) h in
          let (rows, read, h3) = ok_of_bind _ (merged_rows fuel schema m) h2 in
          let (built, done, h4) = ok_of_bind _ (f.build schema task.output_layout rows) h3 in
          (ap (λ r. (info_or info r).id) (sym h4), ap (λ r. (info_or info r).level) (sym h4))

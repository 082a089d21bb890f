-- ===== src/Examples/Lsm.antt =====
-- A tree with one table and one row in memory, over a table format that keeps the rows in one list.
use mathlib.Core.List.{Permᴰ}
use htap_storage_lsm_tree.Common.{
  ℕ, zero, suc, ◌≡◌, refl, none, some, some-injective, List, [], ◌∷◌, length, true, false, Result,
  ok, err, runtime_error, ℤ, pos, arith, take_all, subst, get_elem?, concat,
}
use htap_storage_lsm_tree.Types.{ValueType, Value, NullableValue, Row}
use htap_storage_lsm_tree.Schema.{Schema, make_schema}
use htap_storage_lsm_tree.Schema.{Column}
use htap_storage_lsm_tree.Common.Assoc.{string_eq}
use htap_storage_lsm_tree.Registry.{sstable_count, SstLayout, SstableInfo}
use htap_storage_lsm_tree.Cursor.{Yields}
use htap_storage_lsm_tree.Cursor.Immutable.{
  ImmutableMemTableCursor, make_cursor, Yields-slice, cursor as immutable_cursor,
}
use htap_storage_lsm_tree.Schema.Rows.{Fits, IsRowOf}
use htap_storage_lsm_tree.Cursor.Merge.Rows.{IsSortedRows}
use htap_storage_lsm_tree.Compaction.Policy.{CompactionTask}
use htap_storage_lsm_tree.Lsm.Format.{SstFormat, SstableBuildResult}
use htap_storage_lsm_tree.Lsm.Tree.{LsmTree, flush_one}
use htap_storage_lsm_tree.Lsm.Job.{run_merge}
use htap_storage_lsm_tree.Lsm.Job.Laws.{built_from, run_merge-built_from}
use htap_storage_lsm_tree.Lsm.Compact.{compact_one, drain_work}
use htap_storage_lsm_tree.Lsm.Compact.Laws.{Compacts, compact_one-Compacts}
use htap_storage_lsm_tree.Lsm.Stored.{IsStored}
use htap_storage_lsm_tree.Lsm.Flush.{Flushes, flush_one-Flushes}
use htap_storage_lsm_tree.Lsm.Insert.{HasSortedMemory}
use htap_storage_lsm_tree.Lsm.Enough.{HasOnlyFlushes, drain_work-IsQuiet}
use htap_storage_lsm_tree.Compaction.Choice.{empty_small}
use htap_storage_lsm_tree.Lsm.Drain.{IsQuiet, HasRoom, Drains, drain_work-Drains}

abbrev build_list : Schema → SstLayout → List Row → Result (List Row × SstableBuildResult)
build_list schema layout [] = err (runtime_error "Cannot finish empty SSTable")
build_list schema layout (r ∷ rs) =
    ok (r ∷ rs, record { min_key = pos 0; max_key = pos 100; num_blocks = 1 })

abbrev pub list_format : SstFormat (List Row) ImmutableMemTableCursor (Unit {0})
list_format = record {
  build = build_list;
  size_bytes = λ rows. length rows;
  make_sstable_cursor =
      λ schema info rows range projection filter. ok (some (make_cursor rows 0 (length rows)));
  no_filter = tt;
}

abbrev pub columns : List Column
columns =
    record { name = "id"; type = ValueType.int64; is_key = true; nullable = false }
    ∷ record { name = "v"; type = ValueType.int64; is_key = false; nullable = true }
    ∷ []

abbrev pub schema : Schema
schema = make_schema columns

abbrev pub row_of : ℤ → ℤ → Row
row_of k v = some (Value.int64 k) ∷ some (Value.int64 v) ∷ []

row_of-IsRowOf : (k v : ℤ) → IsRowOf schema (row_of k v)
unfolding make_schema
row_of-IsRowOf k v = record { width = refl; key = (k, refl); valid = valid }
  where
    valid :
        (n : ℕ) (w : NullableValue)
        → get_elem? (row_of k v) n ≡ some w
        → (c : Column) × (get_elem? schema.columns n ≡ some c) × Fits c w
    valid zero w e = (_, refl, subst (Fits _) (some-injective _ _ e) (Fits.int64 refl))
    valid (suc zero) w e = (_, refl, subst (Fits _) (some-injective _ _ e) (Fits.int64 refl))
    valid (suc (suc n)) w e = absurd (ground arith)

abbrev table_rows_of : List Row
table_rows_of = row_of (pos 3) (pos 1) ∷ row_of (pos 5) (pos 2) ∷ []

abbrev table : SstableInfo
table = record {
  id = 0;
  path = [];
  level = 0;
  min_key = pos 3;
  max_key = pos 5;
  file_size_bytes = 2;
  num_blocks = 1;
  layout = SstLayout.row;
}

-- A table, a frozen memtable and an active one, and a compaction as soon as level 0 has one table.
abbrev pub tree : LsmTree (List Row)
tree = record {
  schema = schema;
  root_path = 100 ∷ [];
  policy = record {
    level0_compaction_trigger = 1;
    size_ratio = 10;
    base_level_size_bytes = 100;
    row_to_column_level = 2;
  };
  memory_layer = record {
    threshold = 2;
    active = record { entries = (pos 4, row_of (pos 4) (pos 7)) ∷ [] };
    immutables = (row_of (pos 1) (pos 8) ∷ row_of (pos 3) (pos 9) ∷ []) ∷ [];
  };
  registry = record { levels = (table ∷ []) ∷ [] };
  next_sst_id = 1;
  disk = (0, table_rows_of) ∷ [];
  dir = record { manifest_bin = none; manifest_tmp = none };
}

pub tree-HasSortedMemory : HasSortedMemory tree
tree-HasSortedMemory = record {
  active = record { ascending = (tt, tt); keyed = (refl, tt) };
  immutables = ((pos 1, refl, ((pos 3, refl, omega arith), tt), (pos 3, refl, tt, tt)), tt);
}

pub tree-IsStored : IsStored tree
tree-IsStored = record {
  tables = (record { old_id = omega arith; on_disk = (table_rows_of, refl) }, tt);
  distinct = (tt, tt);
}

pub room : HasRoom 4 tree
room = record { levels = omega arith; ids = omega arith; trigger = omega arith }

flush_one-Flushes_example : Flushes list_format tree (flush_one list_format tree)
flush_one-Flushes_example =
    flush_one-Flushes list_format tree tree-IsStored (omega arith) (omega arith)

compact_one-Compacts_example : Compacts list_format 10 tree (compact_one list_format 10 tree)
compact_one-Compacts_example =
    compact_one-Compacts list_format 10 tree tree-IsStored (omega arith) (omega arith) (omega arith)

drain_work-Drains_example : Drains list_format 10 3 tree (drain_work list_format 3 10 tree)
drain_work-Drains_example = drain_work-Drains list_format 10 3 tree tree-IsStored room

abbrev cursor_over : List Row → ImmutableMemTableCursor
cursor_over rows = make_cursor rows 0 (length rows)

cursor_over-Yields : (rows : List Row) → Yields (cursor_over rows) rows
cursor_over-Yields rows =
    subst (Yields (cursor_over rows)) (take_all rows (length rows) (omega arith))
      (Yields-slice rows (length rows) 0 (length rows) (omega arith) (omega arith))

-- A table with the key 3 twice.
abbrev older_rows : List Row
older_rows = row_of (pos 1) (pos 8) ∷ row_of (pos 3) (pos 9) ∷ []

abbrev task : CompactionTask
task = record { src_level = 0; dst_level = 1; output_layout = SstLayout.row }

run_merge-built_from_example :
    (rows : List Row) × IsSortedRows rows
    × Permᴰ rows (concat (table_rows_of ∷ older_rows ∷ []))
    × (run_merge list_format 4 schema
          (100 ∷ [])
          task
          7
          (cursor_over table_rows_of ∷ cursor_over older_rows ∷ [])
        ≡ built_from list_format schema (100 ∷ []) task 7 rows)
run_merge-built_from_example =
    run_merge-built_from list_format schema (cursor_over table_rows_of)
      (cursor_over older_rows ∷ []) (table_rows_of ∷ older_rows ∷ []) (100 ∷ []) task 7 4
      (cursor_over-Yields table_rows_of, (cursor_over-Yields older_rows, tt))
      (
        (pos 3, refl, ((pos 5, refl, omega arith), tt), (pos 5, refl, tt, tt)),
        ((pos 1, refl, ((pos 3, refl, omega arith), tt), (pos 3, refl, tt, tt)), tt),
      )
      (
        (row_of-IsRowOf (pos 3) (pos 1), (row_of-IsRowOf (pos 5) (pos 2), tt)),
        ((row_of-IsRowOf (pos 1) (pos 8), (row_of-IsRowOf (pos 3) (pos 9), tt)), tt),
      )
      (omega arith)

-- The tree with a trigger that two tables do not reach.
abbrev calm_tree : LsmTree (List Row)
calm_tree = record tree {
  policy = record {
    level0_compaction_trigger = 4;
    size_ratio = 10;
    base_level_size_bytes = 100;
    row_to_column_level = 2;
  };
}

calm_tree-HasOnlyFlushes : HasOnlyFlushes list_format calm_tree calm_tree.memory_layer.immutables
unfolding sstable_count
calm_tree-HasOnlyFlushes = record {
  builds = ((_, refl), tt);
  few = omega arith;
  others = λ level. empty_small calm_tree.policy (suc level);
}

drain_work-IsQuiet_example :
    (t' : LsmTree (List Row)) × (drain_work list_format 1 10 calm_tree ≡ ok t')
    × IsStored t'
    × IsQuiet t'
drain_work-IsQuiet_example =
    drain_work-IsQuiet list_format 10 1 calm_tree
      (record { tables = tree-IsStored.tables; distinct = tree-IsStored.distinct })
      (record { levels = omega arith; ids = omega arith; trigger = omega arith })
      calm_tree-HasOnlyFlushes (omega arith)

-- ===== src/Examples/Engine.antt =====
-- An insertion through the engine, and the range of `get` at the greatest key.
use htap_storage_lsm_tree.Common.{◌≡◌, refl, some, List, [], ◌∷◌, ok, pos}
use htap_storage_lsm_tree.Types.{Row, row_key}
use htap_storage_lsm_tree.Schema.{make_schema, is_valid_value}
use htap_storage_lsm_tree.Schema.Rows.{IsRowOf}
use htap_storage_lsm_tree.Examples.Lsm.{
  schema, columns, row_of, tree, list_format, tree-HasSortedMemory, tree-IsStored, room,
}
use htap_storage_lsm_tree.Lsm.Tree.{LsmTree}
use htap_storage_lsm_tree.Lsm.Compact.{drain_work}
use htap_storage_lsm_tree.Lsm.Drain.{Drains}
use htap_storage_lsm_tree.Lsm.Insert.{HasRow}
use htap_storage_lsm_tree.Cursor.Immutable.{cursor as immutable_cursor}
use htap_storage_lsm_tree.Schema.Builder.{add_column, add_columns, build, check_key}
use htap_storage_lsm_tree.Schema.Laws.{IsValidSchema, build-IsValidSchema}
use htap_storage_lsm_tree.Common.Assoc.{string_eq}
use htap_storage_lsm_tree.Types.{Key}
use htap_storage_lsm_tree.Engine.{
  LsmStorageEngine, insert as engine_insert, validate_row, check_values,
}
use htap_storage_lsm_tree.Engine.Laws.{Stores, engine_insert-Stores, validate_row-IsRowOf}

schema-IsValidSchema : IsValidSchema schema
unfolding add_columns add_column check_key build
schema-IsValidSchema = (build-IsValidSchema columns refl).0

abbrev engine : LsmStorageEngine (List Row)
engine = record {
  config = record {
    root_path = 100 ∷ [];
    memtable_threshold = 2;
    policy = tree.policy;
    sparse_index = record {
      fixed_step = 0;
      target_index_bytes = 1024;
      min_step = 1;
      max_step = 16;
    };
    row_block_target_bytes = 64;
    column_block_target_rows = 8;
    column_block_target_bytes = 64;
  };
  tables = ("t", tree) ∷ [];
}

new_row-valid : validate_row schema (row_of (pos 4) (pos 6)) ≡ ok tt
unfolding validate_row check_values is_valid_value make_schema
new_row-valid = refl

validate_row-IsRowOf_example : IsRowOf schema (row_of (pos 4) (pos 6))
validate_row-IsRowOf_example =
    validate_row-IsRowOf schema (row_of (pos 4) (pos 6)) schema-IsValidSchema new_row-valid

engine_insert-Stores_example :
    (k : Key) × (t' : LsmTree (List Row)) × (row_key (row_of (pos 4) (pos 6)) ≡ some k)
    × HasRow k (row_of (pos 4) (pos 6)) tree t'
    × Drains list_format 10 3 t' (drain_work list_format 3 10 t')
    × Stores engine "t"
        (drain_work list_format 3 10 t')
        (engine_insert list_format 3 10 engine "t" (row_of (pos 4) (pos 6)))
engine_insert-Stores_example =
    engine_insert-Stores list_format 3 10 engine "t" tree (row_of (pos 4) (pos 6)) refl
      schema-IsValidSchema tree-HasSortedMemory tree-IsStored room new_row-valid

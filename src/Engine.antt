-- ===== src/Engine.antt =====
-- `LSMStorageEngine` (src/storage/lsm/lsm_storage_engine.cpp) and the constructor of `LSMTree`
-- (src/lsmtree/lsmtree.cpp). A scan starts with the checks and the key range that are here.
pub mod Laws
use htap_storage_lsm_tree.Common.{
  ℕ, zero, suc, ◌+◌, Bool, true, false, not, Option, none, some, String, List, [], ◌∷◌, length,
  get_elem?, set, replicate, ltb, leb, ◌==◌, if◌then◌else◌, Result, ok, err, runtime_error,
  bad_access, from_option, throw_if, ◌>>=◌, ◌>>◌, ℤ, pos, ◌+ℤ◌, eqb_ℤ, int64_max,
}
use htap_storage_lsm_tree.Common.Assoc.{Assoc, lookup, assign, contains_key, string_eq}
use htap_storage_lsm_tree.Types.{Key, NullableValue, Row, KeyRange}
use htap_storage_lsm_tree.Schema.{Schema, size, is_valid_value}
use htap_storage_lsm_tree.Mem.Layer.{make_layer}
use htap_storage_lsm_tree.Registry.{empty}
use htap_storage_lsm_tree.Compaction.Policy.{PolicyConfig}
use htap_storage_lsm_tree.Sstable.IndexStep.{SparseIndexOptions}
use htap_storage_lsm_tree.Manifest.{TableDir, load}
use htap_storage_lsm_tree.Cursor.{ICursor}
use htap_storage_lsm_tree.Lsm.Format.{SstFormat}
use htap_storage_lsm_tree.Lsm.Tree.{LsmTree}
use htap_storage_lsm_tree.Lsm.Compact.{insert as tree_insert}

-- include/storage/api/config.hpp, without the settings of the background thread
pub record StorageConfig : Type 0 where
  pub root_path : List ℕ
  pub memtable_threshold : ℕ
  pub policy : PolicyConfig
  pub sparse_index : SparseIndexOptions
  pub row_block_target_bytes : ℕ
  pub column_block_target_rows : ℕ
  pub column_block_target_bytes : ℕ

unfoldable pub check_config : StorageConfig → Result (Unit {0})
check_config c = do
  throw_if (c.sparse_index.min_step == 0)
      (runtime_error "LSMTree: sparse index min step must be positive")
  throw_if (ltb c.sparse_index.max_step c.sparse_index.min_step)
      (runtime_error "LSMTree: sparse index max step must be >= min step")
  throw_if
      (if c.sparse_index.target_index_bytes == 0 then c.sparse_index.fixed_step == 0 else false)
      (runtime_error "LSMTree: adaptive sparse index target bytes must be positive")
  throw_if (c.row_block_target_bytes == 0)
      (runtime_error "LSMTree: row block target bytes must be positive")
  throw_if (c.column_block_target_rows == 0)
      (runtime_error "LSMTree: column block target rows must be positive")
  throw_if (c.column_block_target_bytes == 0)
      (runtime_error "LSMTree: column block target bytes must be positive")
  ok tt

-- The constructor, over what the directory of the table holds.
unfoldable pub make_tree :
    {S : Type 0} → Schema → StorageConfig → Assoc ℕ S → TableDir → Result (LsmTree S)
make_tree schema c disk dir = do
  check_config c
  loaded ← load dir empty
  ok (record {
    schema = schema;
    root_path = c.root_path;
    policy = c.policy;
    memory_layer = make_layer c.memtable_threshold;
    registry = loaded.0;
    next_sst_id = loaded.1;
    disk = disk;
    dir = dir;
  })

-- The loop of `validate_projection`, with the flags `used`.
unfoldable pub check_projection : List Bool → List ℕ → Result (Unit {0})
check_projection used [] = ok tt
check_projection used (column_idx ∷ projection) = do
  flag ←
      from_option (get_elem? used column_idx)
        (runtime_error "Projection column index out of schema range")
  throw_if flag (runtime_error "Projection contains duplicate column index")
  check_projection (set used column_idx true) projection

unfoldable pub validate_projection : Schema → List ℕ → Result (Unit {0})
validate_projection schema projection = check_projection (replicate (size schema) false) projection

-- The loop of `validate_row`, from column `column_idx` on.
unfoldable pub check_values : Schema → ℕ → Row → Result (Unit {0})
check_values schema column_idx [] = ok tt
check_values schema column_idx (value ∷ values) = do
  throw_if (not (is_valid_value schema column_idx value)) (runtime_error "Invalid value for column")
  check_values schema (suc column_idx) values

abbrev pub check_key_cell : Row → Result (Unit {0})
check_key_cell [] = err bad_access
check_key_cell (none ∷ _) = err (runtime_error "Key cannot be NULL")
check_key_cell (some _ ∷ _) = ok tt

unfoldable pub validate_row : Schema → Row → Result (Unit {0})
validate_row schema values = do
  throw_if (not (length values == size schema)) (runtime_error "Row size mismatch schema")
  check_values schema 0 values
  check_key_cell values

-- The range of `get`.
unfoldable pub get_range : Key → KeyRange
get_range key = record {
  from = some key;
  to = if not (eqb_ℤ key int64_max) then some (key +ℤ pos 1) else none;
}

pub record LsmStorageEngine (S : Type 0) : Type 0 where
  pub config : StorageConfig
  pub tables : Assoc String (LsmTree S)

module _ {S : Type 0} where
  unfoldable pub get_tree : LsmStorageEngine S → String → Result (LsmTree S)
  get_tree e table_name =
      from_option (lookup table_name e.tables) (runtime_error "Table does not exist")

  unfoldable pub table_exists : LsmStorageEngine S → String → Bool
  table_exists e table_name = contains_key table_name e.tables

  -- `table_path` is the directory of the table; `disk` and `dir` are what it holds.
  unfoldable pub create_table :
      LsmStorageEngine S
      → String
      → Schema
      → List ℕ
      → Assoc ℕ S
      → TableDir
      → Result (LsmStorageEngine S)
  create_table e table_name schema table_path disk dir = do
    throw_if (contains_key table_name e.tables) (runtime_error "Table already exists")
    tree ← make_tree schema (record e.config { root_path = table_path }) disk dir
    ok (record e { tables = assign table_name tree e.tables })

  unfoldable pub get_table_schema : LsmStorageEngine S → String → Result Schema
  get_table_schema e table_name = do tree ← get_tree e table_name; ok tree.schema

  -- What `get` and `scan` do before the tree is read.
  unfoldable pub check_read : LsmStorageEngine S → String → List ℕ → Result (LsmTree S)
  check_read e table_name projection = do
    tree ← get_tree e table_name
    validate_projection tree.schema projection
    ok tree

module _ {S C F : Type 0} ⦃i : ICursor C⦄ (f : SstFormat S C F) where
  unfoldable pub insert : ℕ → ℕ → LsmStorageEngine S → String → Row → Result (LsmStorageEngine S)
  insert rounds fuel e table_name values = do
    tree ← get_tree e table_name
    validate_row tree.schema values
    tree' ← tree_insert f rounds fuel tree values
    ok (record e { tables = assign table_name tree' e.tables })

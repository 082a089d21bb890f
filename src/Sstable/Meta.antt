-- ===== src/Sstable/Meta.antt =====
-- include/storage/read/sstable/row_block_meta.hpp, column_block_meta.hpp and
-- include/lsmtree/sstable/format/sparse_index_entry.hpp
use htap_storage_lsm_tree.Common.{ℕ}
use htap_storage_lsm_tree.Types.{Key}

pub record RowBlockMeta : Type 0 where
  pub min_key : Key
  pub max_key : Key
  pub offset : ℕ
  pub size : ℕ
  pub row_count : ℕ
  pub block_id : ℕ

pub record ColumnBlockMeta : Type 0 where
  pub min_key : Key
  pub max_key : Key
  pub offset : ℕ
  pub size : ℕ
  pub values_count : ℕ
  pub block_id : ℕ
  pub column_idx : ℕ

pub record SparseIndexEntry : Type 0 where
  pub min_key : Key
  pub block_id : ℕ

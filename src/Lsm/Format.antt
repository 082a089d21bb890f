-- ===== src/Lsm/Format.antt =====
-- What the tree uses of a table format: a builder that is given all the rows of a table, and
-- `make_sstable_cursor` (src/storage/read/sstable/sstable_cursor_factory.cpp). The caches of metadata and of
-- blocks belong to the format.
use htap_storage_lsm_tree.Common.{ℕ, zero, suc, Option, none, List, [], ◌∷◌, Result}
use htap_storage_lsm_tree.Types.{Key, Row, KeyRange}
use htap_storage_lsm_tree.Schema.{Schema, size}
use htap_storage_lsm_tree.Registry.{SstLayout, SstableInfo}

-- include/lsmtree/sstable/build/sstable_build_result.hpp
pub record SstableBuildResult : Type 0 where
  pub min_key : Key
  pub max_key : Key
  pub num_blocks : ℕ

-- `S` are the files of a table, `C` the cursors over them, `F` the filters for skipping blocks.
pub record SstFormat (S C F : Type 0) : Type 0 where
  pub build : Schema → SstLayout → List Row → Result (S × SstableBuildResult)
  pub size_bytes : S → ℕ
  pub make_sstable_cursor : Schema → SstableInfo → S → KeyRange → List ℕ → F → Result (Option C)
  pub no_filter : F

abbrev pub full_range : KeyRange
full_range = record { from = none; to = none }

-- `0, 1, …`: `count` numbers from `n` on.
abbrev pub numbers_from : ℕ → ℕ → List ℕ
numbers_from zero n = []
numbers_from (suc count) n = n ∷ numbers_from count (suc n)

abbrev pub all_columns : Schema → List ℕ
all_columns schema = numbers_from (size schema) 0

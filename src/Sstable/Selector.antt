-- ===== src/Sstable/Selector.antt =====
-- src/storage/read/sstable/sparse_block_selector.cpp
pub mod Laws
use htap_storage_lsm_tree.Common.{
  ℕ, suc, ◌+◌, ◌-◌, Bool, true, false, not, ◌&&◌, ◌||◌, Option, none, some, List, [], ◌∷◌, keep,
  leb, ltb, ltb_ℤ, ◌==◌, if◌then◌else◌, Result, ok, err, runtime_error, throw_if, ◌>>=◌, ◌>>◌,
}
use htap_storage_lsm_tree.Types.{Key, KeyRange}
use htap_storage_lsm_tree.Sstable.Meta.{RowBlockMeta, ColumnBlockMeta, SparseIndexEntry}

pub record MetadataBlockRange : Type 0 where
  pub first_block_id : ℕ
  pub block_count : ℕ

abbrev pub ends_before : Key → Option Key → Bool
ends_before max_key none = false
ends_before max_key (some f) = ltb_ℤ max_key f

abbrev pub starts_after : Key → Option Key → Bool
starts_after min_key none = false
starts_after min_key (some t) = not (ltb_ℤ min_key t)

unfoldable pub intersects : Key → Key → KeyRange → Bool
intersects min_key max_key r =
    if ends_before max_key r.from then false else if starts_after min_key r.to then false else true

-- `std::prev(std::upper_bound(…))->block_id`: the last of the leading entries that do not start
-- behind the key, `none` if the first one does.
unfoldable pub last_at_most : Key → List SparseIndexEntry → Option ℕ
last_at_most k [] = none
last_at_most k (e ∷ es) =
    let rest = last_at_most k es in
    if ltb_ℤ k e.min_key then none else elim rest [ none ↦ some e.block_id | some b ↦ some b ]

-- `std::lower_bound(…)->block_id`: the first entry that does not start before the key.
unfoldable pub first_at_least : Key → List SparseIndexEntry → Option ℕ
first_at_least k [] = none
first_at_least k (e ∷ es) = if ltb_ℤ e.min_key k then first_at_least k es else some e.block_id

abbrev pub out_of_index : Result ℕ
out_of_index = err (runtime_error "Sparse index block_id is out of range")

abbrev pub or_first : Option ℕ → ℕ
or_first none = 0
or_first (some b) = b

-- `first_block_id`
unfoldable pub first_block : Option Key → List SparseIndexEntry → ℕ → Result ℕ
first_block none index total = if leb total 0 then out_of_index else ok 0
first_block (some f) index total =
    let b = or_first (last_at_most f index) in if leb total b then out_of_index else ok b

abbrev pub checked_end : Option ℕ → ℕ → Result ℕ
checked_end none total = ok total
checked_end (some b) total = if leb total b then out_of_index else ok b

-- `end_block_id`
unfoldable pub end_block : Option Key → List SparseIndexEntry → ℕ → Result ℕ
end_block none index total = ok total
end_block (some t) index total = checked_end (first_at_least t index) total

abbrev pub block_range : ℕ → ℕ → MetadataBlockRange
block_range first end =
    if leb end first
    then record { first_block_id = first; block_count = 0 }
    else record { first_block_id = first; block_count = end - first }

abbrev pub is_empty : List SparseIndexEntry → Bool
is_empty [] = true
is_empty (_ ∷ _) = false

unfoldable pub select_metadata_range :
    List SparseIndexEntry → KeyRange → ℕ → Result MetadataBlockRange
select_metadata_range index r total =
    if total == 0
    then ok (record { first_block_id = 0; block_count = 0 })
    else if is_empty index
    then ok (record { first_block_id = 0; block_count = total })
    else do
      first ← first_block r.from index total
      end ← end_block r.to index total
      ok (block_range first end)

unfoldable pub filter_candidate_row_blocks : List RowBlockMeta → KeyRange → List RowBlockMeta
filter_candidate_row_blocks bs r = keep (λ b. intersects b.min_key b.max_key r) bs

unfoldable pub filter_candidate_column_blocks :
    List ColumnBlockMeta → KeyRange → List ColumnBlockMeta
filter_candidate_column_blocks bs r = keep (λ b. intersects b.min_key b.max_key r) bs

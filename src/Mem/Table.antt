-- ===== src/Mem/Table.antt =====
-- src/lsmtree/mem/memtable.cpp and imm_memtable.cpp. A `std::map` is the list of its entries in key
-- order; an iterator is the number of entries before it.
use htap_storage_lsm_tree.Common.{
  ℕ, suc, List, [], ◌∷◌, map, length, ltb_ℤ, if◌then◌else◌, Result, ok, bad_access, from_option,
  ◌>>=◌,
}
use htap_storage_lsm_tree.Types.{Key, Row, row_key}

pub record MemTable : Type 0 where
  pub entries : List (Key × Row)

-- `data_[key] = row`
unfoldable pub assign_sorted : Key → Row → List (Key × Row) → List (Key × Row)
assign_sorted k r [] = (k, r) ∷ []
assign_sorted k r ((j, s) ∷ m) =
    if ltb_ℤ k j
    then (k, r) ∷ (j, s) ∷ m
    else if ltb_ℤ j k
    then (j, s) ∷ assign_sorted k r m
    else (j, r) ∷ m

unfoldable pub insert : MemTable → Row → Result MemTable
insert t row = do
  key ← from_option (row_key row) bad_access
  ok (record { entries = assign_sorted key row t.entries })

abbrev pub size : MemTable → ℕ
size t = length t.entries

abbrev pub entry_row : Key × Row → Row
entry_row e = e.1

-- The rows in key order, and the emptied table.
unfoldable pub to_sorted_immutable : MemTable → List Row × MemTable
to_sorted_immutable t = (map entry_row t.entries, record { entries = [] })

-- `std::map::lower_bound`: the first entry whose key is not below `key`.
unfoldable pub lower_bound : Key → List (Key × Row) → ℕ
lower_bound key [] = 0
lower_bound key ((j, r) ∷ m) = if ltb_ℤ j key then suc (lower_bound key m) else 0

-- `ImmutableMemTable::lower_bound`: `std::lower_bound` over rows by their key cells.
unfoldable pub imm_lower_bound : Key → List Row → Result ℕ
imm_lower_bound key [] = ok 0
imm_lower_bound key (r ∷ rs) =
    let rest = imm_lower_bound key rs in
    do
      j ← from_option (row_key r) bad_access
      if ltb_ℤ j key then (do n ← rest; ok (suc n)) else ok 0

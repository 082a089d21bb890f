-- ===== src/Examples/Mem.antt =====
-- Memtables: an insertion, and the cursors of a scan.
use htap_storage_lsm_tree.Common.{
  ◌≡◌, ◌≤◌, refl, some, [], ◌∷◌, map, keep, eqb_ℤ, if◌then◌else◌, ok, ℤ, pos, negsuc, arith,
}
use htap_storage_lsm_tree.Types.{Key, Value, Row, KeyRange, contains}
use htap_storage_lsm_tree.Mem.Table.{MemTable, insert, entry_row, lower_bound}
use htap_storage_lsm_tree.Mem.Laws.{IsOrdered, find, insert-find}
use htap_storage_lsm_tree.Mem.Range.{in_range, range_begin, range_end}
use htap_storage_lsm_tree.Mem.Frozen.{IsFrozen}
use htap_storage_lsm_tree.Cursor.{Yields}
use htap_storage_lsm_tree.Cursor.Active.{cursor as active_cursor}
use htap_storage_lsm_tree.Cursor.Immutable.{ImmutableMemTableCursor, cursor as immutable_cursor}
use htap_storage_lsm_tree.Cursor.Scan.{
  scan_active, scan_immutable, scan_active-Yields, scan_immutable-Yields,
}

abbrev row_of : ℤ → ℤ → Row
row_of k v = some (Value.int64 k) ∷ some (Value.int64 v) ∷ []

abbrev table : MemTable
table = record {
  entries =
      (negsuc 1, row_of (negsuc 1) (pos 7))
      ∷ (pos 3, row_of (pos 3) (pos 8))
      ∷ (pos 5, row_of (pos 5) (pos 9))
      ∷ [];
}

table-IsOrdered : IsOrdered table
table-IsOrdered = record { ascending = omega arith; keyed = (refl, (refl, (refl, tt))) }

insert-find_example :
    (t' : MemTable) × (insert table (row_of (pos 3) (pos 1)) ≡ ok t')
    × IsOrdered t'
    × ((j : Key)
        → find j t'.entries
          ≡ (if eqb_ℤ (pos 3) j then some (row_of (pos 3) (pos 1)) else find j table.entries))
insert-find_example = insert-find table (row_of (pos 3) (pos 1)) (pos 3) refl table-IsOrdered

abbrev range : KeyRange
range = record { from = some (pos 0); to = some (pos 5) }

bounds : range_begin range.from table.entries ≤ range_end range.to table.entries
unfolding range_begin range_end lower_bound
bounds = omega arith

scan_active-Yields_example :
    Yields (scan_active range table) (map entry_row (keep (in_range range) table.entries))
scan_active-Yields_example = scan_active-Yields range table table-IsOrdered bounds

middle_row : keep (in_range range) table.entries ≡ (pos 3, row_of (pos 3) (pos 8)) ∷ []
unfolding contains
middle_row = refl

abbrev frozen : IsFrozen (map entry_row table.entries)
frozen = record {
  entries = table.entries;
  ascending = table-IsOrdered.ascending;
  keyed = table-IsOrdered.keyed;
  same = refl;
}

scan_immutable-Yields_example :
    (c : ImmutableMemTableCursor) × (scan_immutable range (map entry_row table.entries) ≡ ok c)
    × Yields c (map entry_row (keep (in_range range) table.entries))
scan_immutable-Yields_example =
    scan_immutable-Yields range (map entry_row table.entries) frozen bounds

-- ===== src/Cursor/Scan.antt =====
-- The memtable cursors that `LSMTree::scan` makes yield exactly the rows of the range, in key order.
use htap_storage_lsm_tree.Common.{
  ◌-◌, ◌≤◌, ◌==◌, [], ◌∷◌, if◌then◌else◌, ◌≡◌, List, map, drop, take-map, drop-map, length-map,
  keep, Result, ok, ◌>>=◌, arith,
}
use htap_storage_lsm_tree.Types.{Row, KeyRange}
use htap_storage_lsm_tree.Mem.Table.{MemTable, entry_row}
use htap_storage_lsm_tree.Mem.Laws.{IsOrdered}
use htap_storage_lsm_tree.Mem.Range.{
  range_begin, range_end, imm_begin, imm_end, in_range, range_end-le, slice_eq_keep,
}
use htap_storage_lsm_tree.Mem.Frozen.{IsFrozen, imm_begin-map, imm_end-map}
use htap_storage_lsm_tree.Cursor.{Yields}
use htap_storage_lsm_tree.Cursor.Active
use htap_storage_lsm_tree.Cursor.Immutable
use htap_storage_lsm_tree.Cursor.Active.{cursor as active_cursor}
use htap_storage_lsm_tree.Cursor.Immutable.{cursor as immutable_cursor}

-- The active table's cursor of a scan.
unfoldable pub scan_active : KeyRange → MemTable → Active.ActiveMemTableCursor
scan_active r t =
    Active.make_cursor t.entries (range_begin r.from t.entries) (range_end r.to t.entries)

-- `if (active_begin != active_end)`: an empty range adds no cursor.
unfoldable pub active_cursors : KeyRange → MemTable → List Active.ActiveMemTableCursor
unfolding scan_active
active_cursors r t =
    if range_begin r.from t.entries == range_end r.to t.entries then [] else scan_active r t ∷ []

-- An immutable table's cursor of a scan.
unfoldable pub scan_immutable : KeyRange → List Row → Result Immutable.ImmutableMemTableCursor
scan_immutable r rows = do
  begin ← imm_begin r.from rows
  end ← imm_end r.to rows
  ok (Immutable.make_cursor rows begin end)

-- `if (imm_begin != imm_end)`
unfoldable pub immutable_cursors :
    KeyRange → List Row → Result (List Immutable.ImmutableMemTableCursor)
unfolding scan_immutable
immutable_cursors r rows = do
  begin ← imm_begin r.from rows
  end ← imm_end r.to rows
  cursor ← scan_immutable r rows
  if begin == end then ok [] else ok (cursor ∷ [])

-- The cursor over an ordered active table yields, in key order, exactly the rows whose keys the range
-- contains, if the place of the lower bound is not behind the place of the upper bound.
pub scan_active-Yields :
    (r : KeyRange) (t : MemTable)
    → IsOrdered t
    → range_begin r.from t.entries ≤ range_end r.to t.entries
    → Yields (scan_active r t) (map entry_row (keep (in_range r) t.entries))
unfolding scan_active
scan_active-Yields r t h l = rw (← slice_eq_keep r.from r.to t.entries h.ascending l) (
    Active.Yields-slice t.entries (range_end r.to t.entries - range_begin r.from t.entries)
      (range_begin r.from t.entries) (range_end r.to t.entries) h.keyed (omega arith)
      (range_end-le r.to t.entries))

-- The cursor over a frozen table exists and yields, in key order, exactly the rows whose keys the range
-- contains, if the place of the lower bound is not behind the place of the upper bound.
pub scan_immutable-Yields :
    (r : KeyRange) (rows : List Row) (f : IsFrozen rows)
    → range_begin r.from f.entries ≤ range_end r.to f.entries
    → (c : Immutable.ImmutableMemTableCursor) × (scan_immutable r rows ≡ ok c)
      × Yields c (map entry_row (keep (in_range r) f.entries))
unfolding scan_immutable
scan_immutable-Yields r rows f l =
    let m = f.entries in
    let b = range_begin r.from m in
    let e = range_end r.to m in
    (
      Immutable.make_cursor (map entry_row m) b e,
      rw (f.same) (simp (imm_begin-map r.from m f.keyed, imm_end-map r.to m f.keyed)),
      rw (← slice_eq_keep r.from r.to m f.ascending l) (
          rw (← take-map entry_row (e - b) (drop b m)) (
            rw (← drop-map entry_row b m) (
              Immutable.Yields-slice (map entry_row m) (e - b) b e (omega arith)
                (omega (arith, range_end-le r.to m, length-map entry_row m))))),
    )

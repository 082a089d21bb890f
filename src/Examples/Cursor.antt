-- ===== src/Examples/Cursor.antt =====
-- A merge and a composition of two memtable cursors that have a key in common.
use mathlib.Core.List.{Perm}
use htap_storage_lsm_tree.Common.{◌≡◌, refl, none, some, List, [], ◌∷◌, concat, ok, ℤ, pos, arith}
use htap_storage_lsm_tree.Types.{Value, Row, ScanOrder}
use htap_storage_lsm_tree.Cursor.{Yields}
use htap_storage_lsm_tree.Cursor.Immutable.{
  ImmutableMemTableCursor, make_cursor, Yields-slice, cursor as immutable_cursor,
}
use htap_storage_lsm_tree.Cursor.Merge.{MergeCursor, make_merge, cursor as merge_instance}
use htap_storage_lsm_tree.Cursor.Merge.Rows.{IsSortedRows}
use htap_storage_lsm_tree.Cursor.Merge.Laws.{make_merge-Yields}
use htap_storage_lsm_tree.Cursor.Compose.{Composed, compose_cursors, cursor as composed_instance}
use htap_storage_lsm_tree.Cursor.Compose.Laws.{InOrder, compose_cursors-Yields}

abbrev row_of : ℤ → ℤ → Row
row_of k v = some (Value.int64 k) ∷ some (Value.int64 v) ∷ []

abbrev older : List Row
older = row_of (pos 1) (pos 10) ∷ row_of (pos 4) (pos 11) ∷ []

abbrev newer : List Row
newer = row_of (pos 2) (pos 20) ∷ row_of (pos 4) (pos 21) ∷ []

abbrev cursor_of : List Row → ImmutableMemTableCursor
cursor_of rows = make_cursor rows 0 2

older-Yields : Yields (cursor_of older) older
older-Yields = Yields-slice older 2 0 2 refl (omega arith)

newer-Yields : Yields (cursor_of newer) newer
newer-Yields = Yields-slice newer 2 0 2 refl (omega arith)

older-IsSortedRows : IsSortedRows older
older-IsSortedRows = (pos 1, refl, ((pos 4, refl, omega arith), tt), (pos 4, refl, tt, tt))

newer-IsSortedRows : IsSortedRows newer
newer-IsSortedRows = (pos 2, refl, ((pos 4, refl, omega arith), tt), (pos 4, refl, tt, tt))

make_merge-Yields_example :
    (m : MergeCursor ImmutableMemTableCursor) × (rows : List Row) × (make_merge
        (cursor_of older ∷ cursor_of newer ∷ [])
      ≡ ok m)
    × Yields m rows
    × IsSortedRows rows
    × Perm rows (concat (older ∷ newer ∷ []))
make_merge-Yields_example =
    make_merge-Yields (cursor_of older ∷ cursor_of newer ∷ []) (older ∷ newer ∷ [])
      (older-Yields, (newer-Yields, tt)) (older-IsSortedRows, (newer-IsSortedRows, tt))

compose_cursors-Yields_example :
    (c : Composed ImmutableMemTableCursor) × (rows : List Row) × (compose_cursors
        (some (cursor_of older) ∷ none ∷ some (cursor_of newer) ∷ [])
        ScanOrder.key_ascending
      ≡ ok c)
    × Yields c rows
    × InOrder ScanOrder.key_ascending (older ∷ [] ∷ newer ∷ []) rows
compose_cursors-Yields_example =
    compose_cursors-Yields (some (cursor_of older) ∷ none ∷ some (cursor_of newer) ∷ [])
      (older ∷ [] ∷ newer ∷ []) ScanOrder.key_ascending (older-Yields, (refl, (newer-Yields, tt)))
      (older-IsSortedRows, (tt, (newer-IsSortedRows, tt)))

-- ===== src/Cursor/Active.antt =====
-- src/storage/cursor/active_memtable_cursor.cpp: a walk between two iterators of the ordered map, which
-- are places in the list of its entries.
use htap_storage_lsm_tree.Common.{
  ℕ, zero, suc, ◌+◌, ◌≤◌, ◌≡◌, Bool, not, some, List, map, length, get_elem?, take, drop,
  drop-eq-cons, All-get_elem?, Result, ok, logic_error, out_of_range, bad_access, from_option,
  throw_if, ◌>>=◌, ◌>>◌, ◌==◌, if◌then◌else◌, arith,
}
use htap_storage_lsm_tree.Types.{Key, NullableValue, Row, row_key}
use htap_storage_lsm_tree.Mem.Table.{entry_row}
use htap_storage_lsm_tree.Mem.Laws.{IsKeyed}
use htap_storage_lsm_tree.Cursor.{ICursor, Yields}

pub record ActiveMemTableCursor : Type 0 where
  pub entries : List (Key × Row)
  pub current : ℕ
  pub end : ℕ

unfoldable pub valid : ActiveMemTableCursor → Bool
valid c = not (c.current == c.end)

unfoldable pub next : ActiveMemTableCursor → Result ActiveMemTableCursor
next c = ok (if valid c then record c { current = suc c.current } else c)

unfoldable pub key : ActiveMemTableCursor → Result Key
key c = do
  throw_if (not (valid c)) (logic_error "ActiveMemTableCursor::key() called on invalid cursor")
  e ← from_option (get_elem? c.entries c.current) bad_access
  ok e.0

unfoldable pub value : ActiveMemTableCursor → ℕ → Result NullableValue
value c n = do
  throw_if (not (valid c)) (logic_error "ActiveMemTableCursor::value() called on invalid cursor")
  e ← from_option (get_elem? c.entries c.current) bad_access
  from_option (get_elem? e.1 n) (out_of_range "Column index out of range")

instance abbrev pub cursor : ICursor ActiveMemTableCursor
cursor = record { valid = valid; next = next; key = key; value = value }

-- The constructor, over the iterators `begin` and `end`.
abbrev pub make_cursor : List (Key × Row) → ℕ → ℕ → ActiveMemTableCursor
make_cursor entries begin end = record { entries = entries; current = begin; end = end }

-- Between two places of a keyed table the cursor yields the rows from the first up to the second.
pub Yields-slice :
    (m : List (Key × Row)) (n b e : ℕ)
    → IsKeyed m
    → b + n ≡ e
    → e ≤ length m
    → Yields (make_cursor m b e) (map entry_row (take n (drop b m)))
unfolding valid next key value
Yields-slice m zero b e h s l = let s' : b ≡ e = omega arith in rw s' (ground arith)
Yields-slice m (suc n) b e h s l =
    let (x, at, split) = drop-eq-cons m b (omega arith) in
    let keyed : row_key x.1 ≡ some x.0 = All-get_elem? (λ d. row_key d.1 ≡ some d.0) m b h at in
    rw split (
      ground arith,
      ground arith,
      λ i v q. ground arith,
      (make_cursor m (suc b) e, ground arith, Yields-slice m n (suc b) e h (omega arith) l),
    )

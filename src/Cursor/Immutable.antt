-- ===== src/Cursor/Immutable.antt =====
-- src/storage/cursor/immutable_memtable_cursor.cpp: a walk between two iterators of a vector of rows.
use htap_storage_lsm_tree.Common.{
  ℕ, zero, suc, ◌+◌, ◌≤◌, ◌≡◌, Bool, not, List, length, get_elem?, take, drop, drop-eq-cons, Result,
  ok, logic_error, out_of_range, bad_access, from_option, throw_if, ◌>>=◌, ◌>>◌, ◌==◌,
  if◌then◌else◌, arith,
}
use htap_storage_lsm_tree.Types.{Key, NullableValue, Row, row_key}
use htap_storage_lsm_tree.Cursor.{ICursor, Yields}

pub record ImmutableMemTableCursor : Type 0 where
  pub rows : List Row
  pub current : ℕ
  pub end : ℕ

unfoldable pub valid : ImmutableMemTableCursor → Bool
valid c = not (c.current == c.end)

unfoldable pub next : ImmutableMemTableCursor → Result ImmutableMemTableCursor
next c = ok (if valid c then record c { current = suc c.current } else c)

unfoldable pub key : ImmutableMemTableCursor → Result Key
key c = do
  throw_if (not (valid c)) (logic_error "ImmutableMemTableCursor::key() called on invalid cursor")
  row ← from_option (get_elem? c.rows c.current) bad_access
  from_option (row_key row) bad_access

unfoldable pub value : ImmutableMemTableCursor → ℕ → Result NullableValue
value c n = do
  throw_if (not (valid c)) (logic_error "ImmutableMemTableCursor::value() called on invalid cursor")
  row ← from_option (get_elem? c.rows c.current) bad_access
  from_option (get_elem? row n) (out_of_range "Column index out of range")

instance abbrev pub cursor : ICursor ImmutableMemTableCursor
cursor = record { valid = valid; next = next; key = key; value = value }

-- The constructor, over the iterators `begin` and `end`.
abbrev pub make_cursor : List Row → ℕ → ℕ → ImmutableMemTableCursor
make_cursor rows begin end = record { rows = rows; current = begin; end = end }

-- Between two places the cursor yields the rows from the first up to the second.
pub Yields-slice :
    (rows : List Row) (n b e : ℕ)
    → b + n ≡ e
    → e ≤ length rows
    → Yields (make_cursor rows b e) (take n (drop b rows))
unfolding valid next key value
Yields-slice rows zero b e s l = let s' : b ≡ e = omega arith in rw s' (ground arith)
Yields-slice rows (suc n) b e s l =
    let (x, at, split) = drop-eq-cons rows b (omega arith) in
    rw split (
      ground arith,
      ground arith,
      λ i v q. ground arith,
      (make_cursor rows (suc b) e, ground arith, Yields-slice rows n (suc b) e (omega arith) l),
    )

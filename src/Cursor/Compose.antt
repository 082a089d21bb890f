-- ===== src/Cursor/Compose.antt =====
-- `compose_cursors` (src/storage/cursor/cursor_factory.cpp) and `EmptyCursor`
-- (src/storage/cursor/empty_cursor.cpp)
pub mod Laws
use htap_storage_lsm_tree.Common.{
  ℕ, Bool, false, Option, none, some, List, [], ◌∷◌, if◌then◌else◌, Result, ok, err, logic_error,
  ◌>>=◌,
}
use htap_storage_lsm_tree.Types.{Key, NullableValue, ScanOrder}
use htap_storage_lsm_tree.Cursor.{ICursor}
use htap_storage_lsm_tree.Cursor.Merge.{MergeCursor, make_merge}
use htap_storage_lsm_tree.Cursor.Merge as Merge
use htap_storage_lsm_tree.Cursor.Chain.{ChainCursor, make_chain}
use htap_storage_lsm_tree.Cursor.Chain as Chain

-- The classes of the cursor that is returned.
pub data Composed (C : Type 0) : Type 0 where
  empty_cursor : Composed C
  front : C → Composed C
  chain_cursor : ChainCursor C → Composed C
  merge_cursor : MergeCursor C → Composed C

module _ {C : Type 0} ⦃i : ICursor C⦄ where
  unfoldable pub valid : Composed C → Bool
  valid empty_cursor = false
  valid (front c) = i.valid c
  valid (chain_cursor c) = Chain.valid c
  valid (merge_cursor c) = Merge.valid c

  unfoldable pub next : Composed C → Result (Composed C)
  next empty_cursor = ok empty_cursor
  next (front c) = do c' ← i.next c; ok (front c')
  next (chain_cursor c) = do c' ← Chain.next c; ok (chain_cursor c')
  next (merge_cursor c) = do c' ← Merge.next c; ok (merge_cursor c')

  unfoldable pub key : Composed C → Result Key
  key empty_cursor = err (logic_error "EmptyCursor::key() called on invalid cursor")
  key (front c) = i.key c
  key (chain_cursor c) = Chain.key c
  key (merge_cursor c) = Merge.key c

  unfoldable pub value : Composed C → ℕ → Result NullableValue
  value empty_cursor n = err (logic_error "EmptyCursor::value() called on invalid cursor")
  value (front c) n = i.value c n
  value (chain_cursor c) n = Chain.value c n
  value (merge_cursor c) n = Merge.value c n

  instance abbrev pub cursor : ICursor (Composed C)
  cursor = record { valid = valid; next = next; key = key; value = value }

  -- The loop that keeps the cursors that are there and valid.
  unfoldable pub valid_cursors : List (Option C) → List C
  valid_cursors [] = []
  valid_cursors (none ∷ cs) = valid_cursors cs
  valid_cursors (some c ∷ cs) = if i.valid c then c ∷ valid_cursors cs else valid_cursors cs

  unfoldable pub compose_valid : List C → ScanOrder → Result (Composed C)
  compose_valid [] order = ok empty_cursor
  compose_valid (c ∷ []) order = ok (front c)
  compose_valid (c ∷ d ∷ cs) ScanOrder.unordered = ok (chain_cursor (make_chain (c ∷ d ∷ cs)))
  compose_valid (c ∷ d ∷ cs) ScanOrder.key_ascending = do
    m ← make_merge (c ∷ d ∷ cs)
    ok (merge_cursor m)

  unfoldable pub compose_cursors : List (Option C) → ScanOrder → Result (Composed C)
  compose_cursors cursors order = compose_valid (valid_cursors cursors) order

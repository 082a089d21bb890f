-- ===== src/Cursor/Merge.antt =====
-- `MergeCursor` (src/storage/cursor/merge_cursor.cpp). The priority queue of pairs, with `std::greater`,
-- is the list of its items with the least one first.
pub mod Heap
pub mod Rows
pub mod Step
pub mod Laws
use htap_storage_lsm_tree.Common.{
  ℕ, zero, suc, Bool, true, false, not, ◌&&◌, ◌||◌, Option, none, some, List, [], ◌∷◌, get_elem?,
  set, ltb, ltb_ℤ, eqb_ℤ, if◌then◌else◌, Result, ok, err, logic_error, bad_access, from_option,
  ◌>>=◌, length,
}
use htap_storage_lsm_tree.Types.{Key, NullableValue}
use htap_storage_lsm_tree.Cursor.{ICursor}

abbrev pub HeapItem : Type 0
HeapItem = Key × ℕ

-- `operator<` of the pairs
abbrev pub item_less : HeapItem → HeapItem → Bool
item_less a b = ltb_ℤ a.0 b.0 || (eqb_ℤ a.0 b.0 && ltb a.1 b.1)

-- `heap_.push(item)`
unfoldable pub push : HeapItem → List HeapItem → List HeapItem
push e [] = e ∷ []
push e (d ∷ h) = if item_less e d then e ∷ d ∷ h else d ∷ push e h

pub record MergeCursor (C : Type 0) : Type 0 where
  pub cursors : List C
  pub heap : List HeapItem

abbrev pub heap_valid : List HeapItem → Bool
heap_valid [] = false
heap_valid (_ ∷ _) = true

abbrev pub top : List HeapItem → Option HeapItem
top [] = none
top (e ∷ _) = some e

module _ {C : Type 0} ⦃i : ICursor C⦄ where
  unfoldable pub push_if_valid : ℕ → MergeCursor C → Result (MergeCursor C)
  push_if_valid index m = do
    c ← from_option (get_elem? m.cursors index) bad_access
    let pushed = i.key c >>= (λ k. ok (record m { heap = push (k, index) m.heap }))
    if i.valid c then pushed else ok m

  -- The loop of the constructor, over the `count` cursors from `index` on.
  unfoldable pub push_all : ℕ → ℕ → MergeCursor C → Result (MergeCursor C)
  push_all zero index m = ok m
  push_all (suc count) index m = do m' ← push_if_valid index m; push_all count (suc index) m'

  unfoldable pub valid : MergeCursor C → Bool
  valid m = heap_valid m.heap

  -- The rest of `next`, with the item that was on top.
  unfoldable pub advance : MergeCursor C → List HeapItem → Result (MergeCursor C)
  advance m [] = ok m
  advance m ((k, pop_cursor) ∷ h) = do
    c ← from_option (get_elem? m.cursors pop_cursor) bad_access
    c' ← i.next c
    push_if_valid pop_cursor (record { cursors = set m.cursors pop_cursor c'; heap = h })

  unfoldable pub next : MergeCursor C → Result (MergeCursor C)
  unfolding advance
  next m = advance m m.heap

  unfoldable pub key : MergeCursor C → Result Key
  key m = do
    e ← from_option (top m.heap) (logic_error "MergeCursor::key() called on invalid cursor")
    ok e.0

  unfoldable pub value : MergeCursor C → ℕ → Result NullableValue
  value m n = do
    e ← from_option (top m.heap) (logic_error "MergeCursor::value() called on invalid cursor")
    c ← from_option (get_elem? m.cursors e.1) bad_access
    i.value c n

  instance abbrev pub cursor : ICursor (MergeCursor C)
  cursor = record { valid = valid; next = next; key = key; value = value }

-- The constructor.
unfoldable pub make_merge : {C : Type 0} ⦃i : ICursor C⦄ → List C → Result (MergeCursor C)
make_merge cursors = push_all (length cursors) 0 (record { cursors = cursors; heap = [] })

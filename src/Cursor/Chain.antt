-- ===== src/Cursor/Chain.antt =====
-- `ChainCursor` (src/storage/cursor/chain_cursor.cpp)
pub mod Laws
use htap_storage_lsm_tree.Common.{
  ℕ, suc, Bool, true, false, not, Option, none, some, List, [], ◌∷◌, get_elem?, set, drop,
  if◌then◌else◌, Result, ok, logic_error, bad_access, from_option, throw_if, ◌>>=◌, ◌>>◌,
}
use htap_storage_lsm_tree.Types.{Key, NullableValue}
use htap_storage_lsm_tree.Cursor.{ICursor}

pub record ChainCursor (C : Type 0) : Type 0 where
  pub cursors : List C
  pub current : ℕ

module _ {C : Type 0} ⦃i : ICursor C⦄ where
  -- The loop of `skip_invalid_cursors`, over the cursors from number `n` on.
  unfoldable pub first_valid : List C → ℕ → ℕ
  first_valid [] n = n
  first_valid (c ∷ cs) n = if i.valid c then n else first_valid cs (suc n)

  unfoldable pub skip_invalid_cursors : ChainCursor C → ChainCursor C
  skip_invalid_cursors m = record m { current = first_valid (drop m.current m.cursors) m.current }

  abbrev pub shows : Option C → Bool
  shows none = false
  shows (some c) = i.valid c

  unfoldable pub valid : ChainCursor C → Bool
  valid m = shows (get_elem? m.cursors m.current)

  -- The rest of `next`, on a cursor that is valid.
  unfoldable pub move : ChainCursor C → Result (ChainCursor C)
  move m = do
    c ← from_option (get_elem? m.cursors m.current) bad_access
    c' ← i.next c
    ok (skip_invalid_cursors (record m { cursors = set m.cursors m.current c' }))

  unfoldable pub next : ChainCursor C → Result (ChainCursor C)
  next m = if not (valid m) then ok m else move m

  unfoldable pub key : ChainCursor C → Result Key
  key m = do
    throw_if (not (valid m)) (logic_error "ChainCursor::key() called on invalid cursor")
    c ← from_option (get_elem? m.cursors m.current) bad_access
    i.key c

  unfoldable pub value : ChainCursor C → ℕ → Result NullableValue
  value m n = do
    throw_if (not (valid m)) (logic_error "ChainCursor::value() called on invalid cursor")
    c ← from_option (get_elem? m.cursors m.current) bad_access
    i.value c n

  instance abbrev pub cursor : ICursor (ChainCursor C)
  cursor = record { valid = valid; next = next; key = key; value = value }

  -- The constructor.
  unfoldable pub make_chain : List C → ChainCursor C
  make_chain cursors = skip_invalid_cursors (record { cursors = cursors; current = 0 })

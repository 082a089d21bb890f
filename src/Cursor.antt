-- ===== src/Cursor.antt =====
-- `ICursor` (include/storage/api/cursor_interface.hpp), and what it means that a cursor yields rows.
pub mod Active
pub mod Immutable
pub mod Scan
pub mod Merge
pub mod Chain
pub mod Compose
use htap_storage_lsm_tree.Common.{
  ℕ, ◌≡◌, Bool, true, false, Option, none, some, List, [], ◌∷◌, get_elem?, Result, ok, bad_access,
  from_option,
}
use htap_storage_lsm_tree.Types.{Key, NullableValue, Row, row_key}

-- The virtual methods. `next` can fail where it reads the next block of a file.
pub record ICursor (C : Type 0) : Type 0 where
  pub valid : C → Bool
  pub next : C → Result C
  pub key : C → Result Key
  pub value : C → ℕ → Result NullableValue

-- While it is valid the cursor shows the rows of the list, one for each call of `next`, and it is
-- invalid behind the last.
abbrev pub Yields : {C : Type 0} ⦃i : ICursor C⦄ → C → List Row → Type 0
Yields ⦃i⦄ c [] = i.valid c ≡ false
Yields {C} ⦃i⦄ c (r ∷ rs) =
    (i.valid c ≡ true)
    × (i.key c ≡ from_option (row_key r) bad_access)
    × ((n : ℕ) (v : NullableValue) → get_elem? r n ≡ some v → i.value c n ≡ ok v)
    × ((c' : C) × (i.next c ≡ ok c') × Yields c' rs)

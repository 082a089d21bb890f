-- ===== src/Mem/Laws.antt =====
-- The order of the active table, what an insertion changes, and the bounds of a range.
use htap_storage_lsm_tree.Common.{
  ◌≡◌, refl, Option, none, some, List, [], ◌∷◌, All, All-imp, eqb_ℤ, ◌<ℤ◌, if◌then◌else◌,
  eq_of_parts, ok, arith,
}
use htap_storage_lsm_tree.Types.{Key, Row, row_key}
use htap_storage_lsm_tree.Mem.Table.{MemTable, assign_sorted, insert}

abbrev pub IsAscending : List (Key × Row) → Type 0
IsAscending [] = Unit
IsAscending (e ∷ m) = All (λ d. e.0 <ℤ d.0) m × IsAscending m

-- Every entry sits under the key of its row.
abbrev pub IsKeyed : List (Key × Row) → Type 0
IsKeyed m = All (λ e. row_key e.1 ≡ some e.0) m

pub record IsOrdered (t : MemTable) : Type 0 where
  pub ascending : IsAscending t.entries
  pub keyed : IsKeyed t.entries

unfoldable pub find : Key → List (Key × Row) → Option Row
find k [] = none
find k ((j, r) ∷ m) = if eqb_ℤ j k then some r else find k m

assign_sorted_above :
    (b k : Key) (r : Row) (m : List (Key × Row))
    → b <ℤ k
    → All (λ d. b <ℤ d.0) m
    → All (λ d. b <ℤ d.0) (assign_sorted k r m)
unfolding assign_sorted
assign_sorted_above b k r [] h a = (h, tt)
assign_sorted_above b k r ((j, s) ∷ m) h a = ground (arith, assign_sorted_above b k r m)

above_trans :
    (a b : Key) (m : List (Key × Row)) → a <ℤ b → All (λ d. b <ℤ d.0) m → All (λ d. a <ℤ d.0) m
above_trans a b m h = All-imp (λ d k. omega arith) m

pub assign_sorted-IsAscending :
    (k : Key) (r : Row) (m : List (Key × Row)) → IsAscending m → IsAscending (assign_sorted k r m)
unfolding assign_sorted
assign_sorted-IsAscending k r [] h = (tt, tt)
assign_sorted-IsAscending k r ((j, s) ∷ m) h =
    ground (arith, assign_sorted-IsAscending k r m, assign_sorted_above j k r m, above_trans k j m)

pub assign_sorted-IsKeyed :
    (k : Key) (r : Row) (m : List (Key × Row))
    → row_key r ≡ some k
    → IsKeyed m
    → IsKeyed (assign_sorted k r m)
unfolding assign_sorted
assign_sorted-IsKeyed k r [] e h = (e, tt)
assign_sorted-IsKeyed k r ((j, s) ∷ m) e h =
    ground (arith, assign_sorted-IsKeyed k r m e, eq_of_parts j k)

pub find-assign_sorted :
    (k j : Key) (r : Row) (m : List (Key × Row))
    → find j (assign_sorted k r m) ≡ (if eqb_ℤ k j then some r else find j m)
unfolding assign_sorted find
find-assign_sorted k j r [] = refl
find-assign_sorted k j r ((i, s) ∷ m) = ground (arith, find-assign_sorted k j r m)

-- `insert` of a row with a key stores the row under its key, keeps the order of the table, and leaves
-- the row of every other key as it was.
pub insert-find :
    (t : MemTable) (row : Row) (k : Key)
    → row_key row ≡ some k
    → IsOrdered t
    → (t' : MemTable) × (insert t row ≡ ok t')
      × IsOrdered t'
      × ((j : Key) → find j t'.entries ≡ (if eqb_ℤ k j then some row else find j t.entries))
unfolding insert
insert-find t row k e h = (
  record { entries = assign_sorted k row t.entries },
  rw e,
  record {
    ascending = assign_sorted-IsAscending k row t.entries h.ascending;
    keyed = assign_sorted-IsKeyed k row t.entries e h.keyed;
  },
  λ j. find-assign_sorted k j row t.entries,
)

-- ===== src/Mem/Entries.antt =====
-- The rows of an ordered memtable: they are sorted, and an insertion replaces the row of its key.
use mathlib.Core.List.{Permᴰ}
use mathlib.Core.List.Permᴰ
use htap_storage_lsm_tree.Common.{
  ◌≤◌, ◌≡◌, refl, ap, true, false, not, List, [], ◌∷◌, length, map, keep, All, All-imp, arith,
  Bool-cases, inl, inr, ltb_ℤ, eqb_ℤ, ◌<ℤ◌,
}
use htap_storage_lsm_tree.Types.{Key, Row}
use htap_storage_lsm_tree.Mem.Table.{entry_row, assign_sorted}
use htap_storage_lsm_tree.Mem.Laws.{IsAscending, IsKeyed}
use htap_storage_lsm_tree.Cursor.Merge.Rows.{IsSortedRows, KeyAtLeast}

-- The entries of the active memtable with other keys.
abbrev pub without : Key → List (Key × Row) → List (Key × Row)
without k m = keep (λ e. not (eqb_ℤ e.0 k)) m

without_above : (k : Key) (m : List (Key × Row)) → All (λ d. k <ℤ d.0) m → without k m ≡ m
without_above k [] a = refl
without_above k (e ∷ m) a =
    let other : eqb_ℤ e.0 k ≡ false = ground arith in
    simp other (ap (λ l. e ∷ l) (without_above k m a.1))

pub assign_sorted-Permᴰ :
    (k : Key) (r : Row) (m : List (Key × Row))
    → IsAscending m
    → Permᴰ (map entry_row (assign_sorted k r m)) (r ∷ map entry_row (without k m))
unfolding assign_sorted
assign_sorted-Permᴰ k r [] h = Permᴰ.refl (r ∷ [])
assign_sorted-Permᴰ k r ((j, s) ∷ m) h = elim (Bool-cases (ltb_ℤ k j)) [
  | inl below ↦
      let all : All (λ d. k <ℤ d.0) ((j, s) ∷ m) =
        (ground arith, All-imp (λ d q. ground arith) m h.0) in
      simp (below, without_above k ((j, s) ∷ m) all) (Permᴰ.refl _)
  | inr high ↦ elim (Bool-cases (ltb_ℤ j k)) [
    | inl above ↦
        let other : eqb_ℤ j k ≡ false = ground arith in
        simp (high, above, other)
          (Permᴰ.trans (Permᴰ.cons refl (assign_sorted-Permᴰ k r m h.1)) (Permᴰ.swap refl refl))
    | inr low ↦
        let same : eqb_ℤ j k ≡ true = ground arith in
        let all : All (λ d. k <ℤ d.0) m = All-imp (λ d q. ground arith) m h.0 in
        simp (high, low, same, without_above k m all) (Permᴰ.refl _)
  ]
]

pub length-without :
    (k : Key) (m : List (Key × Row))
    → length (map entry_row (without k m)) ≤ length (map entry_row m)
length-without k [] = omega arith
length-without k (e ∷ m) = ground (arith, length-without k m)

pub assign_sorted-rows :
    (P : Row → Type 0) (k : Key) (r : Row) (m : List (Key × Row))
    → P r
    → All P (map entry_row m)
    → All P (map entry_row (assign_sorted k r m))
unfolding assign_sorted
assign_sorted-rows P k r [] p a = (p, tt)
assign_sorted-rows P k r ((j, s) ∷ m) p a = ground (arith, assign_sorted-rows P k r m)

keys_at_least :
    (k : Key) (m : List (Key × Row))
    → All (λ d. k <ℤ d.0) m
    → IsKeyed m
    → All (KeyAtLeast k) (map entry_row m)
keys_at_least k [] a h = tt
keys_at_least k (e ∷ m) a h = ((e.0, h.0, omega arith), keys_at_least k m a.1 h.1)

-- The rows of an ordered memtable are sorted.
pub entries-IsSortedRows :
    (m : List (Key × Row)) → IsAscending m → IsKeyed m → IsSortedRows (map entry_row m)
entries-IsSortedRows [] a h = tt
entries-IsSortedRows (e ∷ m) a h =
    (e.0, h.0, keys_at_least e.0 m a.0 h.1, entries-IsSortedRows m a.1 h.1)

-- ===== src/Mem/Frozen.antt =====
-- Frozen tables: the rows of an ordered table, and their bounds.
use htap_storage_lsm_tree.Common.{
  ◌≡◌, refl, ap, Option, none, some, List, [], ◌∷◌, map, length-map, ltb_ℤ, ok, Bool-cases, inl,
  inr,
}
use htap_storage_lsm_tree.Types.{Key, Row}
use htap_storage_lsm_tree.Mem.Table.{
  MemTable, lower_bound, imm_lower_bound, entry_row, to_sorted_immutable,
}
use htap_storage_lsm_tree.Mem.Laws.{IsAscending, IsKeyed, IsOrdered}
use htap_storage_lsm_tree.Mem.Range.{range_begin, range_end, imm_begin, imm_end}

-- Rows that stand in ascending order of their keys.
pub record IsFrozen (rows : List Row) : Type 0 where
  pub entries : List (Key × Row)
  pub ascending : IsAscending entries
  pub keyed : IsKeyed entries
  pub same : rows ≡ map entry_row entries

pub to_sorted_immutable-IsFrozen : (t : MemTable) → IsOrdered t → IsFrozen (to_sorted_immutable t).0
unfolding to_sorted_immutable
to_sorted_immutable-IsFrozen t h = record {
  entries = t.entries;
  ascending = h.ascending;
  keyed = h.keyed;
  same = refl;
}

pub imm_lower_bound-map :
    (k : Key) (m : List (Key × Row))
    → IsKeyed m
    → imm_lower_bound k (map entry_row m) ≡ ok (lower_bound k m)
unfolding imm_lower_bound lower_bound
imm_lower_bound-map k [] h = refl
imm_lower_bound-map k ((j, r) ∷ m) h = elim (Bool-cases (ltb_ℤ j k)) [
  | inl low ↦ simp (h.0, low, imm_lower_bound-map k m h.1)
  | inr high ↦ simp (h.0, high)
]

pub imm_begin-map :
    (o : Option Key) (m : List (Key × Row))
    → IsKeyed m
    → imm_begin o (map entry_row m) ≡ ok (range_begin o m)
unfolding imm_begin range_begin
imm_begin-map none m h = refl
imm_begin-map (some f) m h = imm_lower_bound-map f m h

pub imm_end-map :
    (o : Option Key) (m : List (Key × Row))
    → IsKeyed m
    → imm_end o (map entry_row m) ≡ ok (range_end o m)
unfolding imm_end range_end
imm_end-map none m h = ap ok (length-map entry_row m)
imm_end-map (some f) m h = imm_lower_bound-map f m h

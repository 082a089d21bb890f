-- ===== src/Mem/Range.antt =====
-- The iterators that `LSMTree::scan` takes of a memtable (src/lsmtree/lsmtree.cpp), and the entries
-- between them.
use htap_storage_lsm_tree.Common.{
  ℕ, suc, ◌-◌, ◌≤◌, ◌≡◌, refl, ap, sym, ◌∙◌, Bool, true, false, Option, none, some, List, [], ◌∷◌,
  All, All-imp, All-of, take, drop, keep, length, ltb_ℤ, ◌<ℤ◌, ◌≤ℤ◌, Result, ok, arith, Bool-cases,
  inl, inr,
}
use htap_storage_lsm_tree.Types.{Key, Row, KeyRange, contains, below_from}
use htap_storage_lsm_tree.Mem.Table.{lower_bound, imm_lower_bound}
use htap_storage_lsm_tree.Mem.Laws.{IsAscending}

-- `range.from ? active.lower_bound(*range.from) : active.begin()`
unfoldable pub range_begin : Option Key → List (Key × Row) → ℕ
range_begin none m = 0
range_begin (some f) m = lower_bound f m

-- `range.to ? active.lower_bound(*range.to) : active.end()`
unfoldable pub range_end : Option Key → List (Key × Row) → ℕ
range_end none m = length m
range_end (some t) m = lower_bound t m

-- The same places of an immutable table.
unfoldable pub imm_begin : Option Key → List Row → Result ℕ
imm_begin none rows = ok 0
imm_begin (some f) rows = imm_lower_bound f rows

unfoldable pub imm_end : Option Key → List Row → Result ℕ
imm_end none rows = ok (length rows)
imm_end (some t) rows = imm_lower_bound t rows

abbrev pub in_range : KeyRange → Key × Row → Bool
in_range r e = contains r e.0

pub lower_bound-le : (k : Key) (m : List (Key × Row)) → lower_bound k m ≤ length m
unfolding lower_bound
lower_bound-le k [] = omega arith
lower_bound-le k ((j, s) ∷ m) = ground (arith, lower_bound-le k m)

pub range_end-le : (o : Option Key) (m : List (Key × Row)) → range_end o m ≤ length m
unfolding range_end
range_end-le none m = omega arith
range_end-le (some t) m = lower_bound-le t m

lower_bound_first :
    (k j : Key) (m : List (Key × Row)) → k ≤ℤ j → All (λ d. j <ℤ d.0) m → lower_bound k m ≡ 0
unfolding lower_bound
lower_bound_first k j [] h a = refl
lower_bound_first k j ((i, s) ∷ m) h a = ground arith

-- Entries that are all at or above the upper bound are all outside the range.
keep_above :
    (from : Option Key) (t : Key) (m : List (Key × Row))
    → All (λ d. t ≤ℤ d.0) m
    → keep (in_range (record { from = from; to = some t })) m ≡ []
unfolding contains
keep_above from t [] a = refl
keep_above from t ((i, s) ∷ m) a = ground (arith, keep_above from t m)

-- A range whose lower bound cuts nothing off: a prefix of the table.
prefix_eq_keep :
    (from to : Option Key) (m : List (Key × Row))
    → IsAscending m
    → All (λ d. below_from (record { from = from; to = to }) d.0 ≡ false) m
    → take (range_end to m) m ≡ keep (in_range (record { from = from; to = to })) m
unfolding range_end lower_bound contains
prefix_eq_keep from none [] h a = refl
prefix_eq_keep from (some t) [] h a = refl
prefix_eq_keep from none ((i, s) ∷ m) h a =
    simp (a.0) (ap (λ l. (i, s) ∷ l) (prefix_eq_keep from none m h.1 a.1))
prefix_eq_keep from (some t) ((i, s) ∷ m) h a = elim (Bool-cases (ltb_ℤ i t)) [
  | inl low ↦ simp (a.0, low) (ap (λ l. (i, s) ∷ l) (prefix_eq_keep from (some t) m h.1 a.1))
  | inr high ↦ simp (a.0, high) (sym (keep_above from t m (All-imp (λ d k. ground arith) m h.0)))
]

slice_of_prefix :
    (from to : Option Key) (m : List (Key × Row))
    → IsAscending m
    → range_begin from m ≡ 0
    → All (λ d. below_from (record { from = from; to = to }) d.0 ≡ false) m
    → take (range_end to m - range_begin from m) (drop (range_begin from m) m)
      ≡ keep (in_range (record { from = from; to = to })) m
slice_of_prefix from to m h z a =
    let e : range_end to m - 0 ≡ range_end to m = omega arith in
    rw z (rw e (prefix_eq_keep from to m h a))

-- The head lies below the lower bound, so both places are behind it.
slice_of_tail :
    (f : Key) (to : Option Key) (i : Key) (s : Row) (m : List (Key × Row))
    → ltb_ℤ i f ≡ true
    → range_begin (some f) ((i, s) ∷ m) ≤ range_end to ((i, s) ∷ m)
    → (take
          (range_end to ((i, s) ∷ m) - range_begin (some f) ((i, s) ∷ m))
          (drop (range_begin (some f) ((i, s) ∷ m)) ((i, s) ∷ m))
        ≡ take (range_end to m - range_begin (some f) m) (drop (range_begin (some f) m) m))
      × (range_begin (some f) m ≤ range_end to m)
unfolding range_begin range_end lower_bound
slice_of_tail f none i s m low l =
    let e : suc (length m) - suc (lower_bound f m) ≡ length m - lower_bound f m = omega arith in
    (simp (low, e), lower_bound-le f m)
slice_of_tail f (some t) i s m low l = elim (Bool-cases (ltb_ℤ i t)) [
  | inl under ↦
      let e : suc (lower_bound t m) - suc (lower_bound f m) ≡ lower_bound t m - lower_bound f m =
        omega arith in
      (simp (low, under, e), ground arith)
  | inr over ↦ absurd (ground arith)
]

-- The entries between the two places are those whose keys the range contains, if the range is not
-- turned round (`range_begin` at most `range_end`).
pub slice_eq_keep :
    (from to : Option Key) (m : List (Key × Row))
    → IsAscending m
    → range_begin from m ≤ range_end to m
    → take (range_end to m - range_begin from m) (drop (range_begin from m) m)
      ≡ keep (in_range (record { from = from; to = to })) m
unfolding range_begin lower_bound
slice_eq_keep none to m h l = slice_of_prefix none to m h refl (All-of _ (λ d. refl) m)
slice_eq_keep (some f) to [] h l = slice_of_prefix (some f) to [] h refl tt
slice_eq_keep (some f) to ((i, s) ∷ m) h l = elim (Bool-cases (ltb_ℤ i f)) [
  | inl low ↦
      let (same, l') = slice_of_tail f to i s m low l in
      let out : contains (record { from = some f; to = to }) i ≡ false =
        unfold contains in rw low in
      simp out (same ∙ slice_eq_keep (some f) to m h.1 l')
  | inr high ↦
      slice_of_prefix (some f) to ((i, s) ∷ m) h (rw high)
        (high, All-imp (λ d k. ground arith) m h.0)
]

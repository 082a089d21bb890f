-- ===== src/Cursor/Merge/Heap.antt =====
-- What the heap of a merge holds: the keys of the first rows that the cursors have left.
use htap_storage_lsm_tree.Common.{
  ℕ, ◌≡◌, ◌≢◌, sym, some, List, [], ◌∷◌, get_elem?, All, All-imp, Any, ◌≤ℤ◌, arith, Bool-cases, ◌⊎◌,
  inl, inr,
}
use htap_storage_lsm_tree.Types.{Key, Row, row_key}
use htap_storage_lsm_tree.Cursor.Merge.{HeapItem, item_less, push}

-- The rows that cursor `n` has left begin with a row of key `k`.
abbrev pub HeadIs : List (List Row) → ℕ → Key → Type 0
HeadIs rss n k =
    (r : Row) × (rs : List Row) × (get_elem? rss n ≡ some (r ∷ rs)) × (row_key r ≡ some k)

abbrev pub IsSortedHeap : List HeapItem → Type 0
IsSortedHeap [] = Unit
IsSortedHeap (e ∷ h) = All (λ d. e.0 ≤ℤ d.0) h × IsSortedHeap h

abbrev pub Misses : ℕ → List HeapItem → Type 0
Misses n h = All (λ d. n ≢ d.1) h

abbrev pub HasDistinct : List HeapItem → Type 0
HasDistinct [] = Unit
HasDistinct (e ∷ h) = Misses e.1 h × HasDistinct h

abbrev pub Holds : ℕ → List HeapItem → Type 0
Holds n h = Any (λ d. d.1 ≡ n) h

-- The heap has one item for each cursor of `D` that has rows left, with the key of its first row.
pub record IsHeap (D : ℕ → Type 0) (rss : List (List Row)) (h : List HeapItem) : Type 0 where
  pub heads : All (λ e. HeadIs rss e.1 e.0) h
  pub covers : (n : ℕ) (r : Row) (rs : List Row) → D n → get_elem? rss n ≡ some (r ∷ rs) → Holds n h
  pub distinct : HasDistinct h
  pub sorted : IsSortedHeap h

module _ (e : HeapItem) where
  pub push-All : (P : HeapItem → Type 0) (h : List HeapItem) → P e → All P h → All P (push e h)
  unfolding push
  push-All P [] p a = (p, tt)
  push-All P (d ∷ h) p a = elim (Bool-cases (item_less e d)) [
    | inl less ↦ simp less (p, a)
    | inr more ↦ simp more (a.0, push-All P h p a.1)
  ]

  pub push-Any : (P : HeapItem → Type 0) (h : List HeapItem) → P e ⊎ Any P h → Any P (push e h)
  unfolding push
  push-Any P [] a = a
  push-Any P (d ∷ h) a = elim (Bool-cases (item_less e d)) [
    | inl less ↦ simp less a
    | inr more ↦ simp more (below (push-Any P h) a)
  ]
    where
      below : (P e ⊎ Any P h → Any P (push e h)) → P e ⊎ (P d ⊎ Any P h) → P d ⊎ Any P (push e h)
      below rest (inl p) = inr (rest (inl p))
      below rest (inr (inl q)) = inl q
      below rest (inr (inr q)) = inr (rest (inr q))

  pub push-HasDistinct : (h : List HeapItem) → Misses e.1 h → HasDistinct h → HasDistinct (push e h)
  unfolding push
  push-HasDistinct [] m d = (tt, tt)
  push-HasDistinct (d ∷ h) m s = elim (Bool-cases (item_less e d)) [
    | inl less ↦ simp less (m, s)
    | inr more ↦
        simp more (push-All (λ x. d.1 ≢ x.1) h (λ q. m.0 (sym q)) s.0, push-HasDistinct h m.1 s.1)
  ]

  pub push-IsSortedHeap : (h : List HeapItem) → IsSortedHeap h → IsSortedHeap (push e h)
  unfolding push
  push-IsSortedHeap [] s = (tt, tt)
  push-IsSortedHeap (d ∷ h) s = elim (Bool-cases (item_less e d)) [
    | inl less ↦
        let le : e.0 ≤ℤ d.0 = ground arith in
        simp less ((le, All-imp (λ x q. omega arith) h s.0), s)
    | inr more ↦
        let le : d.0 ≤ℤ e.0 = ground arith in
        simp more (push-All (λ x. d.0 ≤ℤ x.0) h le s.0, push-IsSortedHeap h s.1)
  ]

-- A cursor that shows a row goes on the heap.
pub push-IsHeap :
    (D E : ℕ → Type 0) (rss : List (List Row)) (h : List HeapItem) (p : ℕ) (k : Key)
    → ((n : ℕ) → E n → (n ≡ p) ⊎ D n)
    → IsHeap D rss h
    → Misses p h
    → HeadIs rss p k
    → IsHeap E rss (push (k, p) h)
push-IsHeap D E rss h p k f s m head = record {
  heads = push-All (k, p) (λ e. HeadIs rss e.1 e.0) h head s.heads;
  covers = λ n r rs b at. elim (f n b) [
    | inl q ↦ push-Any (k, p) (λ d. d.1 ≡ n) h (inl (sym q))
    | inr b' ↦ push-Any (k, p) (λ d. d.1 ≡ n) h (inr (s.covers n r rs b' at))
  ];
  distinct = push-HasDistinct (k, p) h m s.distinct;
  sorted = push-IsSortedHeap (k, p) h s.sorted;
}

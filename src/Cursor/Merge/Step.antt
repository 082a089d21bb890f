-- ===== src/Cursor/Merge/Step.antt =====
-- The steps of a merge: `push_if_valid` and `next` keep the heap in step with the cursors.
use htap_storage_lsm_tree.Common.{
  ℕ, ◌≡◌, ◌≢◌, refl, sym, ◌∙◌, some, List, [], ◌∷◌, get_elem?, set, All, All-zip, All-from_get,
  ◌≤ℤ◌, arith, ok, ◌⊎◌, inl, inr, get_elem?-set, get_elem?-lt, All-get_elem?,
}
use htap_storage_lsm_tree.Types.{Key, Row, row_key}
use htap_storage_lsm_tree.Cursor.{ICursor}
use htap_storage_lsm_tree.Cursor.Merge.{HeapItem, push, push_if_valid}
use htap_storage_lsm_tree.Cursor.Merge.Heap.{HeadIs, IsHeap, Misses, Holds, push-IsHeap, push-All}
use htap_storage_lsm_tree.Cursor.Merge.Rows.{
  KeyAtLeast, IsSortedRows, IsSortedRows-least, KeyAtLeast-trans, YieldAll, YieldAll-get,
}

pub All-Holds :
    (Q : HeapItem → Type 0) (n : ℕ) (h : List HeapItem)
    → All Q h
    → Holds n h
    → (e : HeapItem) × (e.1 ≡ n) × Q e
All-Holds Q n [] a m = absurd m
All-Holds Q n (e ∷ h) a (inl q) = (e, q, a.0)
All-Holds Q n (e ∷ h) a (inr m) = All-Holds Q n h a.1 m

get-set_other :
    (rss : List (List Row)) (p n : ℕ) (l rs : List Row)
    → get_elem? rss p ≡ some l
    → n ≢ p
    → get_elem? (set rss p rs) n ≡ get_elem? rss n
get-set_other rss p n l rs at ne = ground (arith, get_elem?-set rss p n rs (get_elem?-lt rss p at))

head_key :
    (rss : List (List Row)) (n : ℕ) (r : Row) (rs : List Row) (e : HeapItem)
    → get_elem? rss n ≡ some (r ∷ rs)
    → e.1 ≡ n
    → HeadIs rss e.1 e.0
    → row_key r ≡ some e.0
head_key rss n r rs e at same h = ground (arith, h.2, h.3)

abbrev pub Everywhere : ℕ → Type 0
Everywhere _ = Unit

-- No row that is left has a smaller key than the top of the heap.
pub top_least :
    (rss : List (List Row)) (k : Key) (p : ℕ) (h : List HeapItem)
    → IsHeap Everywhere rss ((k, p) ∷ h)
    → All IsSortedRows rss
    → All (All (KeyAtLeast k)) rss
top_least rss k p h s a = All-from_get (All (KeyAtLeast k)) rss each
  where
    each : (n : ℕ) (l : List Row) → get_elem? rss n ≡ some l → All (KeyAtLeast k) l
    each n [] at = tt
    each n (r ∷ rs) at =
        let sorted : IsSortedRows (r ∷ rs) = All-get_elem? IsSortedRows rss n a at in
        let heads : All (λ e. HeadIs rss e.1 e.0 × (k ≤ℤ e.0)) ((k, p) ∷ h) =
          ((s.heads.0, omega arith), All-zip _ _ _ h (λ e x y. (x, y)) s.heads.1 s.sorted.0) in
        let (e, same, head) = All-Holds _ n ((k, p) ∷ h) heads (s.covers n r rs tt at) in
        KeyAtLeast-trans k e.0 head.1 (r ∷ rs)
          (IsSortedRows-least e.0 r rs (head_key rss n r rs e at same head.0) sorted)

-- Every other cursor's item stands, when the cursor on top has shown its row.
pub pop-IsHeap :
    (rss : List (List Row)) (k : Key) (p : ℕ) (h : List HeapItem) (r : Row) (rs : List Row)
    → IsHeap Everywhere rss ((k, p) ∷ h)
    → get_elem? rss p ≡ some (r ∷ rs)
    → IsHeap (λ n. n ≢ p) (set rss p rs) h
pop-IsHeap rss k p h r rs s at = record {
  heads =
      All-zip (λ e. HeadIs rss e.1 e.0) (λ e. p ≢ e.1) _ h
        (λ e x ne. (x.0, x.1, get-set_other rss p e.1 (r ∷ rs) rs at (λ q. ne (sym q)) ∙ x.2, x.3))
        s.heads.1 s.distinct.0;
  covers = λ n x xs ne q.
      elim (s.covers n x xs tt (sym (get-set_other rss p n (r ∷ rs) rs at ne) ∙ q)) [
        | inl same ↦ absurd (ne (sym same))
        | inr m ↦ m
      ];
  distinct = s.distinct.1;
  sorted = s.sorted.1;
}

module _ {C : Type 0} ⦃i : ICursor C⦄ where
  -- `push_if_valid` puts the cursor's first row on the heap, if there is one.
  pub push_if_valid-IsHeap :
      (D E : ℕ → Type 0) (cs : List C) (rss : List (List Row)) (h : List HeapItem) (p : ℕ)
      (rs : List Row)
      → YieldAll cs rss
      → IsHeap D rss h
      → Misses p h
      → get_elem? rss p ≡ some rs
      → IsSortedRows rs
      → ((n : ℕ) → E n → (n ≡ p) ⊎ D n)
      → (h' : List HeapItem) × (push_if_valid p (record { cursors = cs; heap = h })
          ≡ ok (record { cursors = cs; heap = h' }))
        × IsHeap E rss h'
        × ((P : HeapItem → Type 0) → ((j : Key) → P (j, p)) → All P h → All P h')
  unfolding push_if_valid
  push_if_valid-IsHeap D E cs rss h p [] y s m at o f =
      let (c, here, shows) = YieldAll-get cs rss p y at in
      (
        h,
        simp (here, shows) refl,
        record {
          heads = s.heads;
          covers = λ n r rs b q. elim (f n b) [
            | inl same ↦ absurd (ground (arith, same, q, at))
            | inr d ↦ s.covers n r rs d q
          ];
          distinct = s.distinct;
          sorted = s.sorted;
        },
        λ P g a. a,
      )
  push_if_valid-IsHeap D E cs rss h p (r ∷ rs) y s m at o f =
      let (c, here, shows) = YieldAll-get cs rss p y at in
      (
        push (o.0, p) h,
        simp (here, shows.0, shows.1, o.1) refl,
        push-IsHeap D E rss h p o.0 f s m (r, rs, at, o.1),
        λ P g a. push-All (o.0, p) P h (g o.0) a,
      )

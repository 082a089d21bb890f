-- ===== src/Cursor/Merge/Laws.antt =====
-- A merge of cursors over sorted rows yields all the rows, sorted.
use mathlib.Core.List.{Permᴰ, Perm}
use mathlib.Core.List.Permᴰ
use htap_storage_lsm_tree.Common.Perms.{Perm-of_Permᴰ}
use htap_storage_lsm_tree.Common.{
  ℕ, zero, suc, ◌+◌, ◌<◌, ◌≡◌, ◌≢◌, refl, some, List, [], ◌∷◌, get_elem?, set, All, All-imp,
  All-get_elem?, arith, ok, ◌⊎◌, concat, length, drop-eq-cons, get_elem?-lt, get_elem?-set,
}
use htap_storage_lsm_tree.Types.{Row}
use htap_storage_lsm_tree.Cursor.{ICursor, Yields}
use htap_storage_lsm_tree.Cursor.Merge.{
  HeapItem, MergeCursor, push_all, make_merge, cursor, next, advance, valid, key, value,
}
use htap_storage_lsm_tree.Cursor.Merge.Heap.{IsHeap}
use htap_storage_lsm_tree.Cursor.Merge.Rows.{
  KeyAtLeast, IsSortedRows, YieldAll, YieldAll-get, YieldAll-set, YieldAll-length, concat-set,
  length-concat-set,
}
use htap_storage_lsm_tree.Cursor.Merge.Step.{
  Everywhere, top_least, pop-IsHeap, push_if_valid-IsHeap,
}

All-set :
    (P : List Row → Type 0) (rss : List (List Row)) (p : ℕ) (l rs : List Row)
    → get_elem? rss p ≡ some l
    → All P rss
    → P rs
    → All P (set rss p rs)
All-set P [] p l rs at a b = tt
All-set P (_ ∷ rss) zero l rs at a b = (b, a.1)
All-set P (_ ∷ rss) (suc p) l rs at a b = (a.0, All-set P rss p l rs at a.1 b)

concat_empty :
    (rss : List (List Row))
    → ((n : ℕ) (r : Row) (rs : List Row) → ¬ (get_elem? rss n ≡ some (r ∷ rs)))
    → concat rss ≡ []
concat_empty [] f = refl
concat_empty ([] ∷ rss) f = concat_empty rss (λ n. f (suc n))
concat_empty ((r ∷ rs) ∷ rss) f = absurd (f 0 r rs refl)

same_or_other : (n p : ℕ) → (n ≡ p) ⊎ (n ≢ p)
same_or_other n p = ground arith

at_or_below : (n i : ℕ) → n < suc i → (n ≡ i) ⊎ (n < i)
at_or_below n i h = ground arith

module _ {C : Type 0} ⦃i : ICursor C⦄ where
  -- What a merge makes of the rows its cursors have left.
  record Outcome (m : MergeCursor C) (rss : List (List Row)) : Type 1 where
    out : List Row
    yields : Yields m out
    sorted : IsSortedRows out
    perm : Permᴰ out (concat rss)
    each : (P : Row → Type 0) → All (All P) rss → All P out

  run :
      (n : ℕ) (cs : List C) (rss : List (List Row)) (h : List HeapItem)
      → length (concat rss) ≡ n
      → YieldAll cs rss
      → All IsSortedRows rss
      → IsHeap Everywhere rss h
      → Outcome (record { cursors = cs; heap = h }) rss
  unfolding valid next advance key value
  run n cs rss [] len y o s =
      let none_left : concat rss ≡ [] = concat_empty rss (λ p r rs at. s.covers p r rs tt at) in
      record {
        out = [];
        yields = refl;
        sorted = tt;
        perm = rw none_left (Permᴰ.refl []);
        each = λ P a. tt;
      }
  run zero cs rss ((k, p) ∷ h) len y o s =
      let (r, rs, at, e) = s.heads.0 in absurd (omega (arith, length-concat-set rss p r rs at))
  run (suc n) cs rss ((k, p) ∷ h) len y o s =
      let (r, rs, at, e) = s.heads.0 in
      let (c, here, shows) = YieldAll-get cs rss p y at in
      let (c', moved, rest) = shows.3 in
      let sorted : IsSortedRows (r ∷ rs) = All-get_elem? IsSortedRows rss p o at in
      let at' : get_elem? (set rss p rs) p ≡ some rs =
        ground (arith, get_elem?-set rss p p rs (get_elem?-lt rss p at)) in
      let y' = YieldAll-set cs rss p c' rs y rest in
      let (h', pushed, s', _) =
        push_if_valid-IsHeap (λ q. q ≢ p) Everywhere (set cs p c') (set rss p rs) h p rs y'
          (pop-IsHeap rss k p h r rs s at) s.distinct.0 at' sorted.3 (λ q _. same_or_other q p) in
      let o' = All-set IsSortedRows rss p _ rs at o sorted.3 in
      let later =
        run n (set cs p c') (set rss p rs) h' (omega (arith, length-concat-set rss p r rs at)) y' o'
          s' in
      let each : (P : Row → Type 0) → All (All P) rss → All P (r ∷ later.out) = λ P a.
        let b : All P (r ∷ rs) = All-get_elem? (All P) rss p a at in
        (b.0, later.each P (All-set (All P) rss p _ rs at a b.1)) in
      record {
        out = r ∷ later.out;
        yields = (
          refl,
          simp e refl,
          λ j v q. simp (here, shows.2 j v q) refl,
          (
            record { cursors = set cs p c'; heap = h' },
            simp (here, moved, pushed) refl,
            later.yields,
          ),
        );
        sorted = (k, e, (each (KeyAtLeast k) (top_least rss k p h s o)).1, later.sorted);
        perm = Permᴰ.trans (Permᴰ.cons refl later.perm) (Permᴰ.symm (concat-set rss p r rs at));
        each = each;
      }

  -- The constructor's loop puts the first rows of the cursors on the heap.
  push_all-IsHeap :
      (count index : ℕ) (cs : List C) (rss : List (List Row)) (h : List HeapItem)
      → index + count ≡ length rss
      → YieldAll cs rss
      → All IsSortedRows rss
      → IsHeap (λ n. n < index) rss h
      → All (λ d. d.1 < index) h
      → (h' : List HeapItem) × (push_all count index (record { cursors = cs; heap = h })
          ≡ ok (record { cursors = cs; heap = h' }))
        × IsHeap Everywhere rss h'
  unfolding push_all
  push_all-IsHeap zero index cs rss h len y o s below = (
    h,
    refl,
    record {
      heads = s.heads;
      covers = λ n r rs _ at. s.covers n r rs (omega (arith, get_elem?-lt rss n at)) at;
      distinct = s.distinct;
      sorted = s.sorted;
    },
  )
  push_all-IsHeap (suc count) index cs rss h len y o s below =
      let (rs, at, _) = drop-eq-cons rss index (omega arith) in
      let (h', pushed, s', keeps) =
        push_if_valid-IsHeap (λ n. n < index) (λ n. n < suc index) cs rss h index rs y s
          (All-imp (λ d q. omega arith) h below) at (All-get_elem? IsSortedRows rss index o at)
          (λ n q. at_or_below n index q) in
      let (h'', done, all) =
        push_all-IsHeap count (suc index) cs rss h' (omega arith) y o s' (
          keeps (λ d. d.1 < suc index) (λ j. omega arith) (All-imp (λ d q. omega arith) h below)) in
      (h'', simp pushed done, all)

  -- What holds of every row holds of the rows that are merged.
  pub make_merge-each :
      (cs : List C) (rss : List (List Row))
      → YieldAll cs rss
      → All IsSortedRows rss
      → (m : MergeCursor C) × (rows : List Row) × (make_merge cs ≡ ok m)
        × Yields m rows
        × IsSortedRows rows
        × Permᴰ rows (concat rss)
        × ((P : Row → Type 0) → All (All P) rss → All P rows)
  unfolding make_merge
  make_merge-each cs rss y o =
      let (h, made, s) =
        push_all-IsHeap (length cs) 0 cs rss [] (omega (arith, YieldAll-length cs rss y)) y o
          (record {
            heads = tt;
            covers = λ n r rs b. absurd (omega arith);
            distinct = tt;
            sorted = tt;
          })
          tt in
      let r = run (length (concat rss)) cs rss h refl y o s in
      (record { cursors = cs; heap = h }, r.out, made, r.yields, r.sorted, r.perm, r.each)

  -- The merge of cursors that each yield sorted rows can be made, and it yields a list that is sorted by
  -- key and has exactly the rows of all the cursors, each as often as they have it.
  pub make_merge-Yields :
      (cs : List C) (rss : List (List Row))
      → YieldAll cs rss
      → All IsSortedRows rss
      → (m : MergeCursor C) × (rows : List Row) × (make_merge cs ≡ ok m)
        × Yields m rows
        × IsSortedRows rows
        × Perm rows (concat rss)
  make_merge-Yields cs rss y o =
      let (m, rows, made, yields, sorted, perm, _) = make_merge-each cs rss y o in
      (m, rows, made, yields, sorted, Perm-of_Permᴰ perm)

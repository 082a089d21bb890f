-- ===== src/Cursor/Chain/Laws.antt =====
-- A chain of cursors yields the rows of one after the other.
use htap_storage_lsm_tree.Common.{
  ℕ, zero, suc, ◌+◌, ◌≡◌, refl, sym, subst, true, false, List, [], ◌∷◌, ◌++◌, concat, length, set,
  drop, drop-cons, drop-eq-nil, arith,
}
use htap_storage_lsm_tree.Types.{Row}
use htap_storage_lsm_tree.Cursor.{ICursor, Yields}
use htap_storage_lsm_tree.Cursor.Merge.Rows.{YieldAll}
use htap_storage_lsm_tree.Cursor.Chain.{
  first_valid, skip_invalid_cursors, valid, move, next, key, value, cursor, make_chain,
}

module _ {C : Type 0} ⦃i : ICursor C⦄ where
  skips :
      (cs : List C) (k : ℕ) (c : C) (ds : List C)
      → drop k cs ≡ c ∷ ds
      → i.valid c ≡ false
      → skip_invalid_cursors (record { cursors = cs; current = k })
        ≡ skip_invalid_cursors (record { cursors = cs; current = suc k })
  unfolding first_valid skip_invalid_cursors
  skips cs k c ds at off = simp (at, off, (drop-cons cs k c at).1) refl

  stays :
      (cs : List C) (k : ℕ) (c : C) (ds : List C)
      → drop k cs ≡ c ∷ ds
      → i.valid c ≡ true
      → skip_invalid_cursors (record { cursors = cs; current = k })
        ≡ record { cursors = cs; current = k }
  unfolding first_valid skip_invalid_cursors
  stays cs k c ds at on = simp (at, on) refl

  run :
      (n : ℕ) (cs : List C) (k : ℕ) (ds : List C) (rss : List (List Row))
      → length rss + length (concat rss) ≡ n
      → drop k cs ≡ ds
      → YieldAll ds rss
      → Yields (skip_invalid_cursors (record { cursors = cs; current = k })) (concat rss)
  unfolding first_valid skip_invalid_cursors valid move next key value
  run n cs k [] [] len at y = simp (at, drop-eq-nil cs k at) refl
  run n cs k [] (_ ∷ _) len at y = absurd y
  run n cs k (_ ∷ _) [] len at y = absurd y
  run zero cs k (_ ∷ _) (_ ∷ _) len at y = absurd (omega arith)
  run (suc n) cs k (c ∷ ds) ([] ∷ rss) len at y =
      let later = run n cs (suc k) ds rss (omega arith) (drop-cons cs k c at).1 y.1 in
      rw (skips cs k c ds at y.0) later
  run (suc n) cs k (c ∷ ds) ((r ∷ rs) ∷ rss) len at y =
      let (c', moved, rest) = y.0.3 in
      let later =
        run n (set cs k c') k (c' ∷ ds) (rs ∷ rss) (omega arith) (drop-cons cs k c' at).2
          (rest, y.1) in
      let here = (drop-cons cs k c at).0 in
      let shown = y.0 in
      subst (λ m. Yields m ((r ∷ rs) ++ concat rss)) (sym (stays cs k c ds at shown.0))
        (
          simp (here, shown.0) refl,
          simp (here, shown.0, shown.1) refl,
          λ j v q. simp (here, shown.0, shown.2 j v q) refl,
          (
            skip_invalid_cursors (record { cursors = set cs k c'; current = k }),
            simp (here, shown.0, moved) refl,
            later,
          ),
        )

  -- The chain of cursors yields the rows of the first, then those of the second, and so on.
  pub make_chain-Yields :
      (cs : List C) (rss : List (List Row)) → YieldAll cs rss → Yields (make_chain cs) (concat rss)
  unfolding make_chain
  make_chain-Yields cs rss y = run (length rss + length (concat rss)) cs 0 cs rss refl refl y

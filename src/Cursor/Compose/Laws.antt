-- ===== src/Cursor/Compose/Laws.antt =====
-- The composed cursor yields the rows of all the cursors: one cursor after the other, or sorted by key.
use mathlib.Core.List.{Perm}
use mathlib.Core.List.Perm
use htap_storage_lsm_tree.Common.{
  ◌≡◌, refl, ap, ◌∙◌, Option, none, some, List, [], ◌∷◌, ◌++◌, append-nil, concat, All, ok,
}
use htap_storage_lsm_tree.Types.{Row, ScanOrder}
use htap_storage_lsm_tree.Cursor.{ICursor, Yields}
use htap_storage_lsm_tree.Cursor.Merge.Rows.{YieldAll, IsSortedRows}
use htap_storage_lsm_tree.Cursor.Merge.{MergeCursor, cursor as merge_instance}
use htap_storage_lsm_tree.Cursor.Chain.{ChainCursor, cursor as chain_instance}
use htap_storage_lsm_tree.Cursor.Merge.Laws.{make_merge-Yields}
use htap_storage_lsm_tree.Cursor.Chain.Laws.{make_chain-Yields}
use htap_storage_lsm_tree.Cursor.Compose.{
  Composed, empty_cursor, front, chain_cursor, merge_cursor, valid, next, key, value, cursor,
  valid_cursors, compose_valid, compose_cursors,
}

-- Each cursor that is there yields the rows at its place; for a null pointer there are none.
abbrev pub SlotsYield : {C : Type 0} ⦃i : ICursor C⦄ → List (Option C) → List (List Row) → Type 0
SlotsYield [] [] = Unit
SlotsYield [] (_ ∷ _) = ⊥
SlotsYield (_ ∷ _) [] = ⊥
SlotsYield (none ∷ cs) (rs ∷ rss) = (rs ≡ []) × SlotsYield cs rss
SlotsYield (some c ∷ cs) (rs ∷ rss) = Yields c rs × SlotsYield cs rss

-- What a composed cursor has to yield.
abbrev pub InOrder : ScanOrder → List (List Row) → List Row → Type 0
InOrder ScanOrder.unordered rss rows = rows ≡ concat rss
InOrder ScanOrder.key_ascending rss rows = IsSortedRows rows × Perm rows (concat rss)

in_order :
    (order : ScanOrder) (l m : List (List Row)) (rows : List Row)
    → concat l ≡ concat m
    → InOrder order l rows
    → InOrder order m rows
in_order ScanOrder.unordered l m rows e p = p ∙ e
in_order ScanOrder.key_ascending l m rows e p = (p.0, rw (← e) p.1)

module _ {C : Type 0} ⦃i : ICursor C⦄ where
  front-Yields : (c : C) (rs : List Row) → Yields c rs → Yields (front c) rs
  unfolding valid next key value
  front-Yields c [] y = y
  front-Yields c (r ∷ rs) y =
      (y.0, y.1, y.2, (front y.3.0, simp y.3.1 refl, front-Yields y.3.0 rs y.3.2))

  chain-Yields : (c : ChainCursor C) (rs : List Row) → Yields c rs → Yields (chain_cursor c) rs
  unfolding valid next key value
  chain-Yields c [] y = y
  chain-Yields c (r ∷ rs) y =
      (y.0, y.1, y.2, (chain_cursor y.3.0, simp y.3.1 refl, chain-Yields y.3.0 rs y.3.2))

  merge-Yields : (c : MergeCursor C) (rs : List Row) → Yields c rs → Yields (merge_cursor c) rs
  unfolding valid next key value
  merge-Yields c [] y = y
  merge-Yields c (r ∷ rs) y =
      (y.0, y.1, y.2, (merge_cursor y.3.0, simp y.3.1 refl, merge-Yields y.3.0 rs y.3.2))

  -- The cursors that are kept are those with rows.
  pub valid_cursors-YieldAll :
      (P : List Row → Type 0) (cs : List (Option C)) (rss : List (List Row))
      → SlotsYield cs rss
      → All P rss
      → (kept : List (List Row)) × YieldAll (valid_cursors cs) kept
        × All P kept
        × (concat kept ≡ concat rss)
  unfolding valid_cursors
  valid_cursors-YieldAll P [] [] y a = ([], tt, tt, refl)
  valid_cursors-YieldAll P [] (_ ∷ _) y a = absurd y
  valid_cursors-YieldAll P (_ ∷ _) [] y a = absurd y
  valid_cursors-YieldAll P (none ∷ cs) (rs ∷ rss) y a =
      let (kept, z, b, e) = valid_cursors-YieldAll P cs rss y.1 a.1 in (kept, z, b, rw y.0 e)
  valid_cursors-YieldAll P (some c ∷ cs) ([] ∷ rss) y a =
      let (kept, z, b, e) = valid_cursors-YieldAll P cs rss y.1 a.1 in (kept, simp y.0 z, b, e)
  valid_cursors-YieldAll P (some c ∷ cs) ((r ∷ rs) ∷ rss) y a =
      let (kept, z, b, e) = valid_cursors-YieldAll P cs rss y.1 a.1 in
      (
        (r ∷ rs) ∷ kept,
        simp y.0.0 ((refl, y.0.1, y.0.2, y.0.3), z),
        (a.0, b),
        ap (λ t. (r ∷ rs) ++ t) e,
      )

  compose_valid-Yields :
      (cs : List C) (rss : List (List Row)) (order : ScanOrder)
      → YieldAll cs rss
      → All IsSortedRows rss
      → (c : Composed C) × (rows : List Row) × (compose_valid cs order ≡ ok c)
        × Yields c rows
        × InOrder order rss rows
  unfolding compose_valid valid
  compose_valid-Yields [] [] ScanOrder.unordered y o = (empty_cursor, [], refl, refl, refl)
  compose_valid-Yields [] [] ScanOrder.key_ascending y o =
      (empty_cursor, [], refl, refl, (tt, Perm.refl []))
  compose_valid-Yields [] (_ ∷ _) order y o = absurd y
  compose_valid-Yields (_ ∷ _) [] order y o = absurd y
  compose_valid-Yields (c ∷ []) (rs ∷ []) ScanOrder.unordered y o =
      (front c, rs, refl, front-Yields c rs y.0, simp (append-nil rs) refl)
  compose_valid-Yields (c ∷ []) (rs ∷ []) ScanOrder.key_ascending y o =
      (front c, rs, refl, front-Yields c rs y.0, (o.0, rw (append-nil rs) (Perm.refl rs)))
  compose_valid-Yields (c ∷ []) (_ ∷ _ ∷ _) order y o = absurd y.1
  compose_valid-Yields (_ ∷ _ ∷ _) (_ ∷ []) order y o = absurd y.1
  compose_valid-Yields (c ∷ d ∷ cs) (x ∷ z ∷ rss) ScanOrder.unordered y o =
      (_, _, refl, chain-Yields _ _ (make_chain-Yields (c ∷ d ∷ cs) (x ∷ z ∷ rss) y), refl)
  compose_valid-Yields (c ∷ d ∷ cs) (x ∷ z ∷ rss) ScanOrder.key_ascending y o =
      let (m, rows, made, yields, sorted, perm) =
        make_merge-Yields (c ∷ d ∷ cs) (x ∷ z ∷ rss) y o in
      (merge_cursor m, rows, simp made refl, merge-Yields m rows yields, (sorted, perm))

  -- If every cursor that is there yields sorted rows, then the composed cursor exists. It yields the rows of
  -- one cursor after the other where no order is asked for, and otherwise all the rows sorted by key, each as
  -- often as the cursors have it.
  pub compose_cursors-Yields :
      (cs : List (Option C)) (rss : List (List Row)) (order : ScanOrder)
      → SlotsYield cs rss
      → All IsSortedRows rss
      → (c : Composed C) × (rows : List Row) × (compose_cursors cs order ≡ ok c)
        × Yields c rows
        × InOrder order rss rows
  unfolding compose_cursors
  compose_cursors-Yields cs rss order y o =
      let (kept, z, b, e) = valid_cursors-YieldAll IsSortedRows cs rss y o in
      let (c, rows, made, yields, p) = compose_valid-Yields (valid_cursors cs) kept order z b in
      (c, rows, made, yields, in_order order kept rss rows e p)

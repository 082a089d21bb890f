-- ===== src/Executor/Aggregates/Laws.antt =====
-- COUNT, SUM, MIN and MAX over the values of an integer expression (src/executor/executor.cpp), against
-- the list of the values that are not null.
use htap_storage_lsm_tree.Common.{
  ◌+◌, ◌<◌, false, Option, none, some, List, [], ◌∷◌, length, ◌==◌, ◌≡◌, refl, sym, ap, arith,
  if◌then◌else◌, Result, ok, ℤ, pos, ◌≤ℤ◌, int64_max, int64_min, IsInt64, All, inl, inr, ◌⊎◌, subst,
  eq_of_le_le,
}
use htap_storage_lsm_tree.Parser.Ast.{AggregateKind}
use htap_storage_lsm_tree.Executor.Bound.{ExpressionType, ResultValue, NullableResultValue}
use htap_storage_lsm_tree.Executor.Aggregates.{
  GlobalAggregateState, empty_state, finalize_aggregate_state,
}
use htap_storage_lsm_tree.Executor.Aggregates.Runs.{
  IsLeast, IsGreatest, column_values, aggregate, Lowered, run-min, Raised, run-max, run-count,
  sum_from, SumsFit, run-sum, finalize-min, finalize-max,
}

-- Of no numbers there is no result; of some numbers the result has the property.
abbrev pub OnNumbers : (ℤ → List ℤ → Type 0) → List ℤ → Result NullableResultValue → Type 0
OnNumbers P [] r = r ≡ ok none
OnNumbers P (n ∷ ns) r = (m : ℤ) × (r ≡ ok (some (ResultValue.int64 m))) × P m (n ∷ ns)

Lowered-IsLeast :
    (r n : ℤ) (ns : List ℤ)
    → All IsInt64 (n ∷ ns)
    → Lowered int64_max r (n ∷ ns)
    → IsLeast r (n ∷ ns)
Lowered-IsLeast r n ns (i, is) l = record {
  member = elim l.member [
    | inl e ↦ inl (eq_of_le_le r n l.bound.0 (subst (λ z. n ≤ℤ z) (sym e) i.1))
    | inr q ↦ q
  ];
  bound = l.bound;
}

Raised-IsGreatest :
    (r n : ℤ) (ns : List ℤ)
    → All IsInt64 (n ∷ ns)
    → Raised int64_min r (n ∷ ns)
    → IsGreatest r (n ∷ ns)
Raised-IsGreatest r n ns (i, is) l = record {
  member = elim l.member [
    | inl e ↦ inl (eq_of_le_le r n (subst (λ z. z ≤ℤ n) (sym e) i.0) l.bound.0)
    | inr q ↦ q
  ];
  bound = l.bound;
}

min-OnNumbers :
    (vs : List (Option ℤ))
    → All IsInt64 (column_values vs)
    → OnNumbers IsLeast (column_values vs) (aggregate AggregateKind.min vs)
min-OnNumbers vs h =
    let (t, ran, c, l) = run-min vs empty_state in
    simp ran (go (column_values vs) t h c l (finalize-min t))
  where
    go :
        (ns : List ℤ) (t : GlobalAggregateState)
        → All IsInt64 ns
        → t.count ≡ 0 + length ns
        → Lowered int64_max t.int_min ns
        → ((t.count ≡ 0)
            × (finalize_aggregate_state AggregateKind.min ExpressionType.int64 t ≡ ok none))
          ⊎ ((0 < t.count)
              × (finalize_aggregate_state AggregateKind.min ExpressionType.int64 t
                  ≡ ok (some (ResultValue.int64 t.int_min))))
        → OnNumbers IsLeast ns (finalize_aggregate_state AggregateKind.min ExpressionType.int64 t)
    go [] t i c l (inl (z, e)) = e
    go [] t i c l (inr (p, e)) = absurd (omega arith)
    go (n ∷ ns) t i c l (inl (z, e)) = absurd (omega arith)
    go (n ∷ ns) t i c l (inr (p, e)) = (t.int_min, e, Lowered-IsLeast t.int_min n ns i l)

max-OnNumbers :
    (vs : List (Option ℤ))
    → All IsInt64 (column_values vs)
    → OnNumbers IsGreatest (column_values vs) (aggregate AggregateKind.max vs)
max-OnNumbers vs h =
    let (t, ran, c, l) = run-max vs empty_state in
    simp ran (go (column_values vs) t h c l (finalize-max t))
  where
    go :
        (ns : List ℤ) (t : GlobalAggregateState)
        → All IsInt64 ns
        → t.count ≡ 0 + length ns
        → Raised int64_min t.int_max ns
        → ((t.count ≡ 0)
            × (finalize_aggregate_state AggregateKind.max ExpressionType.int64 t ≡ ok none))
          ⊎ ((0 < t.count)
              × (finalize_aggregate_state AggregateKind.max ExpressionType.int64 t
                  ≡ ok (some (ResultValue.int64 t.int_max))))
        → OnNumbers IsGreatest ns
            (finalize_aggregate_state AggregateKind.max ExpressionType.int64 t)
    go [] t i c l (inl (z, e)) = e
    go [] t i c l (inr (p, e)) = absurd (omega arith)
    go (n ∷ ns) t i c l (inl (z, e)) = absurd (omega arith)
    go (n ∷ ns) t i c l (inr (p, e)) = (t.int_max, e, Raised-IsGreatest t.int_max n ns i l)

abbrev pub IsTotal : ℤ → List ℤ → Type 0
IsTotal m ns = m ≡ sum_from (pos 0) ns

sum-OnNumbers :
    (vs : List (Option ℤ))
    → SumsFit (pos 0) (column_values vs)
    → OnNumbers IsTotal (column_values vs) (aggregate AggregateKind.sum vs)
unfolding finalize_aggregate_state
sum-OnNumbers vs h =
    let (t, ran, c, e) = run-sum vs empty_state h in simp ran (go (column_values vs) t c e)
  where
    go :
        (ns : List ℤ) (t : GlobalAggregateState)
        → t.count ≡ 0 + length ns
        → t.int_sum ≡ sum_from (pos 0) ns
        → OnNumbers IsTotal ns
            (if t.count == 0 then ok none else ok (some (ResultValue.int64 t.int_sum)))
    go [] t c e = simp c refl
    go (n ∷ ns) t c e =
        let nonzero : (t.count == 0) ≡ false = ground arith in simp nonzero (t.int_sum, refl, e)

aggregate_count :
    (vs : List (Option ℤ))
    → aggregate AggregateKind.count vs
      ≡ ok (some (ResultValue.int64 (pos (length (column_values vs)))))
unfolding finalize_aggregate_state
aggregate_count vs =
    let (t, ran, c) = run-count vs empty_state in
    simp ran (ap (λ n. ok (some (ResultValue.int64 (pos n)))) (omega arith))

-- Over the int64 values of a column, nulls left out: COUNT is their number, MIN and MAX are the least and
-- the greatest of them and SUM is their sum, as long as no partial sum leaves the range of int64; of no
-- value MIN, MAX and SUM are null.
pub aggregate-OnNumbers :
    (vs : List (Option ℤ))
    → All IsInt64 (column_values vs)
    → SumsFit (pos 0) (column_values vs)
    → (aggregate AggregateKind.count vs
        ≡ ok (some (ResultValue.int64 (pos (length (column_values vs))))))
      × OnNumbers IsLeast (column_values vs) (aggregate AggregateKind.min vs)
      × OnNumbers IsGreatest (column_values vs) (aggregate AggregateKind.max vs)
      × OnNumbers IsTotal (column_values vs) (aggregate AggregateKind.sum vs)
aggregate-OnNumbers vs h s =
    (aggregate_count vs, min-OnNumbers vs h, max-OnNumbers vs h, sum-OnNumbers vs s)

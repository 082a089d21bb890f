-- ===== src/Executor/Aggregates/Runs.antt =====
-- The loop over the values of one aggregate (src/executor/executor.cpp), and what its state holds behind it.
use htap_storage_lsm_tree.Common.{
  ◌+◌, ◌<◌, Option, none, some, List, [], ◌∷◌, length, ◌==◌, ◌≡◌, refl, sym, ap, ◌∙◌, arith,
  if◌then◌else◌, Result, ok, ◌>>=◌, ℤ, ◌+ℤ◌, ltb_ℤ, ◌≤ℤ◌, IsInt64, All, Any, inl, inr, ◌⊎◌,
  Bool-cases, subst,
}
use htap_storage_lsm_tree.Parser.Ast.{AggregateKind}
use htap_storage_lsm_tree.Executor.Bound.{ExpressionType, ResultValue, NullableResultValue}
use htap_storage_lsm_tree.Executor.Aggregates.{
  GlobalAggregateState, empty_state, counted, wrap, update_value, update_global_aggregate_state,
  finalize_aggregate_state, lower_int, raise_int, add_int,
}
use htap_storage_lsm_tree.Bytes.{from_u64-to_u64}

-- the integers among the values of a column
abbrev pub column_values : List (Option ℤ) → List ℤ
column_values [] = []
column_values (none ∷ vs) = column_values vs
column_values (some n ∷ vs) = n ∷ column_values vs

abbrev pub int_value : Option ℤ → NullableResultValue
int_value none = none
int_value (some n) = some (ResultValue.int64 n)

-- The loop over the rows, for one aggregate over an integer expression.
abbrev pub run_aggregate :
    AggregateKind → List (Option ℤ) → GlobalAggregateState → Result GlobalAggregateState
run_aggregate kind [] s = ok s
run_aggregate kind (v ∷ vs) s = do
  next ← update_global_aggregate_state kind ExpressionType.int64 (int_value v) s
  run_aggregate kind vs next

abbrev pub aggregate : AggregateKind → List (Option ℤ) → Result NullableResultValue
aggregate kind vs = do
  s ← run_aggregate kind vs empty_state
  finalize_aggregate_state kind ExpressionType.int64 s

-- `m` is one of the numbers and at or below all of them.
pub record IsLeast (m : ℤ) (ns : List ℤ) : Type 0 where
  pub member : Any (λ n. m ≡ n) ns
  pub bound : All (λ n. m ≤ℤ n) ns

pub record IsGreatest (m : ℤ) (ns : List ℤ) : Type 0 where
  pub member : Any (λ n. m ≡ n) ns
  pub bound : All (λ n. n ≤ℤ m) ns

-- what is known of MIN after some values, from a start `m`
pub record Lowered (m r : ℤ) (ns : List ℤ) : Type 0 where
  pub from_start : r ≤ℤ m
  pub bound : All (λ n. r ≤ℤ n) ns
  pub member : (r ≡ m) ⊎ Any (λ n. r ≡ n) ns

Lowered-cons :
    (m n r : ℤ) (ns : List ℤ) → Lowered (if ltb_ℤ n m then n else m) r ns → Lowered m r (n ∷ ns)
Lowered-cons m n r ns h = elim (Bool-cases (ltb_ℤ n m)) [
  | inl e ↦
      let below : r ≤ℤ n = simp e at h.from_start in
      record {
        from_start = ground arith;
        bound = (below, h.bound);
        member = elim h.member [ inl q ↦ inr (inl (simp e at q)) | inr q ↦ inr (inr q) ];
      }
  | inr e ↦
      let below : r ≤ℤ m = simp e at h.from_start in
      record {
        from_start = below;
        bound = (ground arith, h.bound);
        member = elim h.member [ inl q ↦ inl (simp e at q) | inr q ↦ inr (inr q) ];
      }
]

pub run-min :
    (vs : List (Option ℤ)) (s : GlobalAggregateState)
    → (t : GlobalAggregateState) × (run_aggregate AggregateKind.min vs s ≡ ok t)
      × (t.count ≡ s.count + length (column_values vs))
      × Lowered s.int_min t.int_min (column_values vs)
unfolding update_global_aggregate_state update_value
run-min [] s =
    (s, refl, omega arith, record { from_start = omega arith; bound = tt; member = inl refl })
run-min (none ∷ vs) s = run-min vs s
run-min (some n ∷ vs) s =
    let (t, ran, c, l) = run-min vs (lower_int (counted s) n) in
    (t, ran, omega arith, Lowered-cons s.int_min n t.int_min (column_values vs) l)

pub record Raised (m r : ℤ) (ns : List ℤ) : Type 0 where
  pub from_start : m ≤ℤ r
  pub bound : All (λ n. n ≤ℤ r) ns
  pub member : (r ≡ m) ⊎ Any (λ n. r ≡ n) ns

Raised-cons :
    (m n r : ℤ) (ns : List ℤ) → Raised (if ltb_ℤ m n then n else m) r ns → Raised m r (n ∷ ns)
Raised-cons m n r ns h = elim (Bool-cases (ltb_ℤ m n)) [
  | inl e ↦
      let above : n ≤ℤ r = simp e at h.from_start in
      record {
        from_start = ground arith;
        bound = (above, h.bound);
        member = elim h.member [ inl q ↦ inr (inl (simp e at q)) | inr q ↦ inr (inr q) ];
      }
  | inr e ↦
      let above : m ≤ℤ r = simp e at h.from_start in
      record {
        from_start = above;
        bound = (ground arith, h.bound);
        member = elim h.member [ inl q ↦ inl (simp e at q) | inr q ↦ inr (inr q) ];
      }
]

pub run-max :
    (vs : List (Option ℤ)) (s : GlobalAggregateState)
    → (t : GlobalAggregateState) × (run_aggregate AggregateKind.max vs s ≡ ok t)
      × (t.count ≡ s.count + length (column_values vs))
      × Raised s.int_max t.int_max (column_values vs)
unfolding update_global_aggregate_state update_value
run-max [] s =
    (s, refl, omega arith, record { from_start = omega arith; bound = tt; member = inl refl })
run-max (none ∷ vs) s = run-max vs s
run-max (some n ∷ vs) s =
    let (t, ran, c, l) = run-max vs (raise_int (counted s) n) in
    (t, ran, omega arith, Raised-cons s.int_max n t.int_max (column_values vs) l)

pub run-count :
    (vs : List (Option ℤ)) (s : GlobalAggregateState)
    → (t : GlobalAggregateState) × (run_aggregate AggregateKind.count vs s ≡ ok t)
      × (t.count ≡ s.count + length (column_values vs))
unfolding update_global_aggregate_state update_value
run-count [] s = (s, refl, omega arith)
run-count (none ∷ vs) s = run-count vs s
run-count (some n ∷ vs) s = let (t, ran, c) = run-count vs (counted s) in (t, ran, omega arith)

abbrev pub sum_from : ℤ → List ℤ → ℤ
sum_from a [] = a
sum_from a (n ∷ ns) = sum_from (a +ℤ n) ns

-- Every partial sum is an int64.
abbrev pub SumsFit : ℤ → List ℤ → Type 0
SumsFit a [] = Unit
SumsFit a (n ∷ ns) = IsInt64 (a +ℤ n) × SumsFit (a +ℤ n) ns

pub run-sum :
    (vs : List (Option ℤ)) (s : GlobalAggregateState)
    → SumsFit s.int_sum (column_values vs)
    → (t : GlobalAggregateState) × (run_aggregate AggregateKind.sum vs s ≡ ok t)
      × (t.count ≡ s.count + length (column_values vs))
      × (t.int_sum ≡ sum_from s.int_sum (column_values vs))
unfolding update_global_aggregate_state update_value wrap
run-sum [] s h = (s, refl, omega arith, refl)
run-sum (none ∷ vs) s h = run-sum vs s h
run-sum (some n ∷ vs) s (h, hs) =
    let same = from_u64-to_u64 (s.int_sum +ℤ n) h in
    let (t, ran, c, e) =
      run-sum vs (add_int (counted s) n)
        (subst (λ a. SumsFit a (column_values vs)) (sym same) hs) in
    (t, ran, omega arith, e ∙ ap (λ a. sum_from a (column_values vs)) same)

-- the result of MIN and MAX by the count
pub finalize-min :
    (t : GlobalAggregateState)
    → ((t.count ≡ 0)
        × (finalize_aggregate_state AggregateKind.min ExpressionType.int64 t ≡ ok none))
      ⊎ ((0 < t.count)
          × (finalize_aggregate_state AggregateKind.min ExpressionType.int64 t
              ≡ ok (some (ResultValue.int64 t.int_min))))
unfolding finalize_aggregate_state
finalize-min t = elim (Bool-cases (t.count == 0)) [
  | inl e ↦ inl (ground arith, simp e refl)
  | inr e ↦ inr (ground arith, simp e refl)
]

pub finalize-max :
    (t : GlobalAggregateState)
    → ((t.count ≡ 0)
        × (finalize_aggregate_state AggregateKind.max ExpressionType.int64 t ≡ ok none))
      ⊎ ((0 < t.count)
          × (finalize_aggregate_state AggregateKind.max ExpressionType.int64 t
              ≡ ok (some (ResultValue.int64 t.int_max))))
unfolding finalize_aggregate_state
finalize-max t = elim (Bool-cases (t.count == 0)) [
  | inl e ↦ inl (ground arith, simp e refl)
  | inr e ↦ inr (ground arith, simp e refl)
]

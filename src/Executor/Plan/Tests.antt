-- ===== src/Executor/Plan/Tests.antt =====
-- What a row that a WHERE clause of src/executor/executor.cpp accepts says of its conjuncts.
use htap_storage_lsm_tree.Common.{
  Bool, true, false, Option, none, some, ◌≡◌, refl, arith, ap, ◌∙◌, subst, if◌then◌else◌, Result,
  ok, err, ok_of_bind, ◌>>=◌, All, All-append,
}
use htap_storage_lsm_tree.Types.{Row, NullableValue}
use htap_storage_lsm_tree.Parser.Ast.{BinaryOperation}
use htap_storage_lsm_tree.Executor.Bound.{BoundExpression, ResultValue, NullableResultValue}
use htap_storage_lsm_tree.Executor.Evaluate.{
  evaluate_expression, evaluate_predicate, predicate_of, row_value, result_of, and_values,
  and_right, binary_value,
}
use htap_storage_lsm_tree.Executor.Plan.{
  ColumnTest, column_test, collect_conjuncts, where_conjuncts,
}

pub some_eq : {A : Type 0} {x y : A} → some x ≡ some y → x ≡ y
some_eq {x = x} e = ap (λ o. elim o [ none ↦ x | some z ↦ z ]) e

pub ok_eq : {A : Type 0} {x y : A} → ok x ≡ ok y → x ≡ y
ok_eq {x = x} e = ap (λ o. elim o [ err _ ↦ x | ok z ↦ z ]) e

-- The expression is true on the row.
abbrev pub Accepts : Row → BoundExpression → Type 0
Accepts row e = evaluate_expression row e ≡ ok (some (ResultValue.bool true))

and_right-true :
    (b : Bool) (y : NullableResultValue)
    → and_right b y ≡ ok (some (ResultValue.bool true))
    → y ≡ some (ResultValue.bool true)
and_right-true b none h = absurd (ground arith)
and_right-true b (some (ResultValue.bool true)) h = refl
and_right-true b (some (ResultValue.bool false)) h = absurd (ground arith)
and_right-true b (some (ResultValue.int64 n)) h = absurd (ground arith)
and_right-true b (some (ResultValue.double n)) h = absurd (ground arith)
and_right-true b (some (ResultValue.string n)) h = absurd (ground arith)

and_true :
    (x y : NullableResultValue)
    → and_values x y ≡ ok (some (ResultValue.bool true))
    → (x ≡ some (ResultValue.bool true)) × (y ≡ some (ResultValue.bool true))
unfolding and_values
and_true none none h = absurd (ground arith)
and_true none (some (ResultValue.bool true)) h = absurd (ground arith)
and_true none (some (ResultValue.bool false)) h = absurd (ground arith)
and_true none (some (ResultValue.int64 n)) h = absurd (ground arith)
and_true none (some (ResultValue.double n)) h = absurd (ground arith)
and_true none (some (ResultValue.string n)) h = absurd (ground arith)
and_true (some (ResultValue.bool true)) y h = (refl, and_right-true false y h)
and_true (some (ResultValue.bool false)) y h = absurd (ground arith)
and_true (some (ResultValue.int64 n)) y h = absurd (ground arith)
and_true (some (ResultValue.double n)) y h = absurd (ground arith)
and_true (some (ResultValue.string n)) y h = absurd (ground arith)

Accepts-and :
    (row : Row) (l r : BoundExpression)
    → Accepts row (BoundExpression.binary BinaryOperation.and l r)
    → Accepts row l × Accepts row r
unfolding evaluate_expression
Accepts-and row l r h =
    let (x, hx, later) =
      ok_of_bind (λ a. evaluate_expression row r >>= λ b. and_values a b)
        (evaluate_expression row l) h in
    let (y, hy, result) = ok_of_bind (λ b. and_values x b) (evaluate_expression row r) later in
    let (ex, ey) = and_true x y result in (hx ∙ ap ok ex, hy ∙ ap ok ey)

pub collect_conjuncts-Accepts :
    (row : Row) (e : BoundExpression) → Accepts row e → All (Accepts row) (collect_conjuncts e)
unfolding collect_conjuncts
collect_conjuncts-Accepts row (BoundExpression.binary BinaryOperation.and l r) h =
    let (a, b) = Accepts-and row l r h in
    All-append (Accepts row) (collect_conjuncts l) (collect_conjuncts r)
      (collect_conjuncts-Accepts row l a) (collect_conjuncts-Accepts row r b)
collect_conjuncts-Accepts row e h = (h, tt)

pub predicate-Accepts :
    (row : Row) (e : BoundExpression) → evaluate_predicate row e ≡ ok true → Accepts row e
unfolding evaluate_predicate
predicate-Accepts row e h =
    let (x, hx, result) = ok_of_bind predicate_of (evaluate_expression row e) h in
    hx ∙ ap ok (go x result)
  where
    go : (x : NullableResultValue) → predicate_of x ≡ ok true → x ≡ some (ResultValue.bool true)
    go none p = absurd (ground arith)
    go (some (ResultValue.bool b)) p = ground arith
    go (some (ResultValue.int64 n)) p = absurd (ground arith)
    go (some (ResultValue.double n)) p = absurd (ground arith)
    go (some (ResultValue.string n)) p = absurd (ground arith)

-- the values on the two sides of a comparison of a column with a literal
abbrev pub sides : ColumnTest → NullableValue → Result NullableResultValue
sides test value =
    if test.column_on_left
    then binary_value test.operation (result_of value) (result_of test.literal)
    else binary_value test.operation (result_of test.literal) (result_of value)

abbrev pub TestHolds : Row → ColumnTest → Type 0
TestHolds row test =
    (value : NullableValue) × (row_value row test.column_index ≡ ok value)
    × (sides test value ≡ ok (some (ResultValue.bool true)))

pub column_test-TestHolds :
    (row : Row) (e : BoundExpression) (test : ColumnTest)
    → Accepts row e
    → column_test e ≡ some test
    → TestHolds row test
unfolding column_test evaluate_expression
column_test-TestHolds row
      (BoundExpression.binary operation (BoundExpression.column i t) (BoundExpression.literal v u))
      test h e =
    let (a, ha, later) =
      ok_of_bind (λ a. binary_value operation a (result_of v))
        (row_value row i >>= λ value. ok (result_of value)) h in
    let (value, hv, ea) = ok_of_bind (λ value. ok (result_of value)) (row_value row i) ha in
    subst (TestHolds row) (some_eq e)
      (value, hv, ap (λ z. binary_value operation z (result_of v)) (ok_eq ea) ∙ later)
column_test-TestHolds row
      (BoundExpression.binary operation (BoundExpression.literal v u) (BoundExpression.column i t))
      test h e =
    let (a, ha, later) =
      ok_of_bind (λ a. binary_value operation (result_of v) a)
        (row_value row i >>= λ value. ok (result_of value)) h in
    let (value, hv, ea) = ok_of_bind (λ value. ok (result_of value)) (row_value row i) ha in
    subst (TestHolds row) (some_eq e)
      (value, hv, ap (λ z. binary_value operation (result_of v) z) (ok_eq ea) ∙ later)
column_test-TestHolds row e test h s = absurd (ground arith)

-- The row passes the WHERE clause, if there is one.
abbrev pub Passes : Row → Option BoundExpression → Type 0
Passes row none = Unit
Passes row (some e) = evaluate_predicate row e ≡ ok true

pub Passes-conjuncts :
    (row : Row) (o : Option BoundExpression) → Passes row o → All (Accepts row) (where_conjuncts o)
Passes-conjuncts row none h = tt
Passes-conjuncts row (some e) h = collect_conjuncts-Accepts row e (predicate-Accepts row e h)

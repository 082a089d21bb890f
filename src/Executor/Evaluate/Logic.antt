-- ===== src/Executor/Evaluate/Logic.antt =====
-- The three-valued logic of `Executor::EvaluateExpression` (src/executor/executor.cpp).
use htap_storage_lsm_tree.Common.{
  Result, ℕ, ◌-◌, min, max, Bool, true, false, none, some, ok, ◌≡◌, refl,
}
use htap_storage_lsm_tree.Types.{Row}
use htap_storage_lsm_tree.Parser.Ast.{BinaryOperation, UnaryOperation}
use htap_storage_lsm_tree.Executor.Bound.{BoundExpression, ResultValue, NullableResultValue}
use htap_storage_lsm_tree.Executor.Evaluate.{evaluate_expression, not_value, and_values, or_values}

-- null or a truth value
pub data IsBoolean : NullableResultValue → Type 0 where
  unknown : IsBoolean none
  known : (b : Bool) → IsBoolean (some (ResultValue.bool b))

abbrev pub negation : BoundExpression → BoundExpression
negation = BoundExpression.unary UnaryOperation.not

abbrev pub conjunction : BoundExpression → BoundExpression → BoundExpression
conjunction = BoundExpression.binary BinaryOperation.and

abbrev pub disjunction : BoundExpression → BoundExpression → BoundExpression
disjunction = BoundExpression.binary BinaryOperation.or

-- the place of a truth value between false and true, null in the middle
abbrev pub rank : {x : NullableResultValue} → IsBoolean x → ℕ
rank (known false) = 0
rank unknown = 1
rank (known true) = 2

-- The result is null or a truth value, at the place `n`.
abbrev pub HasRank : ℕ → Result NullableResultValue → Type 0
HasRank n r = (x : NullableResultValue) × (b : IsBoolean x) × (r ≡ ok x) × (rank b ≡ n)

not_value-HasRank : {x : NullableResultValue} (b : IsBoolean x) → HasRank (2 - rank b) (not_value x)
unfolding not_value
not_value-HasRank unknown = (none, unknown, refl, refl)
not_value-HasRank (known true) = (some (ResultValue.bool false), known false, refl, refl)
not_value-HasRank (known false) = (some (ResultValue.bool true), known true, refl, refl)

and_values-HasRank :
    {x y : NullableResultValue} (a : IsBoolean x) (b : IsBoolean y)
    → HasRank (min (rank a) (rank b)) (and_values x y)
unfolding and_values
and_values-HasRank unknown unknown = (none, unknown, refl, refl)
and_values-HasRank unknown (known true) = (none, unknown, refl, refl)
and_values-HasRank unknown (known false) = (some (ResultValue.bool false), known false, refl, refl)
and_values-HasRank (known true) unknown = (none, unknown, refl, refl)
and_values-HasRank (known true) (known true) =
    (some (ResultValue.bool true), known true, refl, refl)
and_values-HasRank (known true) (known false) =
    (some (ResultValue.bool false), known false, refl, refl)
and_values-HasRank (known false) unknown = (some (ResultValue.bool false), known false, refl, refl)
and_values-HasRank (known false) (known true) =
    (some (ResultValue.bool false), known false, refl, refl)
and_values-HasRank (known false) (known false) =
    (some (ResultValue.bool false), known false, refl, refl)

or_values-HasRank :
    {x y : NullableResultValue} (a : IsBoolean x) (b : IsBoolean y)
    → HasRank (max (rank a) (rank b)) (or_values x y)
unfolding or_values
or_values-HasRank unknown unknown = (none, unknown, refl, refl)
or_values-HasRank unknown (known true) = (some (ResultValue.bool true), known true, refl, refl)
or_values-HasRank unknown (known false) = (none, unknown, refl, refl)
or_values-HasRank (known true) unknown = (some (ResultValue.bool true), known true, refl, refl)
or_values-HasRank (known true) (known true) = (some (ResultValue.bool true), known true, refl, refl)
or_values-HasRank (known true) (known false) =
    (some (ResultValue.bool true), known true, refl, refl)
or_values-HasRank (known false) unknown = (none, unknown, refl, refl)
or_values-HasRank (known false) (known true) =
    (some (ResultValue.bool true), known true, refl, refl)
or_values-HasRank (known false) (known false) =
    (some (ResultValue.bool false), known false, refl, refl)

-- Where the operands are null or truth values, with false below null below true, AND gives the lesser of the
-- operands, OR the greater, and NOT turns the order around: the three-valued logic of SQL.
pub evaluate_expression-HasRank :
    (row : Row) (a b : BoundExpression) {x y : NullableResultValue} (p : IsBoolean x)
    (q : IsBoolean y)
    → evaluate_expression row a ≡ ok x
    → evaluate_expression row b ≡ ok y
    → HasRank (min (rank p) (rank q)) (evaluate_expression row (conjunction a b))
      × HasRank (max (rank p) (rank q)) (evaluate_expression row (disjunction a b))
      × HasRank (2 - rank p) (evaluate_expression row (negation a))
unfolding evaluate_expression
evaluate_expression-HasRank row a b p q ha hb = (
  simp (ha, hb) (and_values-HasRank p q),
  simp (ha, hb) (or_values-HasRank p q),
  simp ha (not_value-HasRank p),
)

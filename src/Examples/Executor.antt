-- ===== src/Examples/Executor.antt =====
-- Statements over a table with a key and a value column.
use htap_storage_lsm_tree.Common.{
  ◌≡◌, refl, none, some, List, [], ◌∷◌, Option, ok, ℤ, pos, true, false, arith, ℕ, zero, suc, All,
  IsInt64, negsuc,
}
use htap_storage_lsm_tree.Types.{ValueType, Value, Row, ScanOrder, contains}
use htap_storage_lsm_tree.Schema.{Column, get_column, make_schema}
use htap_storage_lsm_tree.Skipping.{NumericComparisonOp, int64_value}
use htap_storage_lsm_tree.Parser.Ast.{BinaryOperation, AggregateKind}
use htap_storage_lsm_tree.Engine.{validate_projection}
use htap_storage_lsm_tree.Executor.Bound.{
  ExpressionType, BoundExpression, BoundSelectItem, BoundSelectStatement, ResultValue, ResultRow,
}
use htap_storage_lsm_tree.Executor.Evaluate.{
  evaluate_expression, evaluate_predicate, and_values, compare_values, test_comparison,
  compare_result_values,
}
use htap_storage_lsm_tree.Executor.Evaluate.Logic.{
  IsBoolean, negation, conjunction, disjunction, HasRank, evaluate_expression-HasRank,
}
use htap_storage_lsm_tree.Executor.Plan.{
  Read, build_read, build_data_skipping_filter, apply_operation, skipping_predicates, filter_test,
  numeric_literal, convert_operation, reverse_operation,
}
use htap_storage_lsm_tree.Executor.Plan.Filter.{HoldsOn, build_data_skipping_filter-HoldsOn}
use htap_storage_lsm_tree.Executor.Aggregates.Runs.{aggregate, column_values, IsLeast, IsGreatest}
use htap_storage_lsm_tree.Executor.Aggregates.Laws.{OnNumbers, IsTotal, aggregate-OnNumbers}
use htap_storage_lsm_tree.Executor.Plan.Sound.{HasKeyCell, build_read-Covers}
use htap_storage_lsm_tree.Executor.Select.Projection.{
  collect_required_projection, collect_all, collect_projection_from_expression, collect_column,
}
use htap_storage_lsm_tree.Executor.Select.Required.{collect_required_projection-validate_projection}
use htap_storage_lsm_tree.Executor.Select.Rows.{
  unsorted_loop, limited, plain_rows, passes_where, plain_row,
}
use htap_storage_lsm_tree.Executor.Select.Laws.{plain_rows_early}
use htap_storage_lsm_tree.Examples.Lsm.{schema, row_of}

abbrev key_column : BoundExpression
key_column = BoundExpression.column 0 ValueType.int64

abbrev value_column : BoundExpression
value_column = BoundExpression.column 1 ValueType.int64

abbrev number : ℤ → BoundExpression
number n = BoundExpression.literal (some (Value.int64 n)) ExpressionType.int64

-- `key > 2 AND 9 > value`
abbrev clause : BoundExpression
clause =
    conjunction (BoundExpression.binary BinaryOperation.greater key_column (number (pos 2)))
      (BoundExpression.binary BinaryOperation.greater (number (pos 9)) value_column)

-- `SELECT value ... WHERE key > 2 AND 9 > value LIMIT 1`
abbrev statement : BoundSelectStatement
statement = record {
  table_name = "t";
  schema = schema;
  select_items = BoundSelectItem.expression value_column ∷ [];
  where_expression = some clause;
  group_by_items = [];
  order_by_items = [];
  limit = some 1;
}

abbrev rows : List Row
rows = row_of (pos 1) (pos 5) ∷ row_of (pos 3) (pos 7) ∷ row_of (pos 4) (pos 8) ∷ []

abbrev null : BoundExpression
null = BoundExpression.literal none ExpressionType.null

null_value : evaluate_expression (row_of (pos 3) (pos 7)) null ≡ ok none
unfolding evaluate_expression
null_value = refl

clause_value :
    evaluate_expression (row_of (pos 3) (pos 7)) clause ≡ ok (some (ResultValue.bool true))
unfolding evaluate_expression and_values compare_values test_comparison compare_result_values
clause_value = refl

abbrev values : List (Option ℤ)
values = some (pos 4) ∷ none ∷ some (negsuc 2) ∷ []

in_range : All IsInt64 (column_values values)
in_range = ((omega arith, omega arith), ((omega arith, omega arith), tt))

accepted : evaluate_predicate (row_of (pos 3) (pos 7)) clause ≡ ok true
unfolding evaluate_predicate evaluate_expression and_values compare_values test_comparison
    compare_result_values
accepted = refl

reads :
    build_read statement false
    ≡ ok (Read.scan (some (pos 3)) none ScanOrder.unordered (build_data_skipping_filter statement))
unfolding build_read build_data_skipping_filter make_schema apply_operation
reads = refl

has_key : HasKeyCell schema (row_of (pos 3) (pos 7)) (pos 3)
unfolding get_column make_schema
has_key = record { cell = refl; bounded = omega arith; key_first = first }
  where
    first : (i : ℕ) (c : Column) → get_column schema i ≡ ok c → c.is_key ≡ true → i ≡ 0
    first zero c e k = refl
    first (suc zero) c e k = absurd (ground arith)
    first (suc (suc i)) c e k = absurd (ground arith)

evaluate_expression-HasRank_example :
    HasRank 1 (evaluate_expression (row_of (pos 3) (pos 7)) (conjunction null clause))
    × HasRank 2 (evaluate_expression (row_of (pos 3) (pos 7)) (disjunction null clause))
    × HasRank 1 (evaluate_expression (row_of (pos 3) (pos 7)) (negation null))
evaluate_expression-HasRank_example =
    evaluate_expression-HasRank (row_of (pos 3) (pos 7)) null clause IsBoolean.unknown
      (IsBoolean.known true) null_value clause_value

build_read-Covers_example : contains (record { from = some (pos 3); to = none }) (pos 3) ≡ true
build_read-Covers_example =
    build_read-Covers statement false (row_of (pos 3) (pos 7)) (pos 3) has_key accepted reads

build_data_skipping_filter-HoldsOn_example :
    All (HoldsOn (row_of (pos 3) (pos 7))) (build_data_skipping_filter statement)
build_data_skipping_filter-HoldsOn_example =
    build_data_skipping_filter-HoldsOn statement (row_of (pos 3) (pos 7)) accepted

-- the predicate on the value column, turned around
filter :
    build_data_skipping_filter statement
    ≡ record { column_idx = 1; op = NumericComparisonOp.less; value = int64_value (pos 9) } ∷ []
unfolding build_data_skipping_filter make_schema skipping_predicates filter_test numeric_literal
    convert_operation reverse_operation
filter = refl

projection : collect_required_projection statement ≡ ok (1 ∷ 0 ∷ [])
unfolding collect_required_projection collect_all collect_projection_from_expression collect_column
    make_schema
projection = refl

collect_required_projection-validate_projection_example :
    validate_projection schema (1 ∷ 0 ∷ []) ≡ ok tt
collect_required_projection-validate_projection_example =
    collect_required_projection-validate_projection statement projection

abbrev shown : List ResultRow
shown = (some (ResultValue.int64 (pos 7)) ∷ []) ∷ (some (ResultValue.int64 (pos 8)) ∷ []) ∷ []

passing : unsorted_loop statement none [] rows ≡ ok shown
unfolding unsorted_loop passes_where plain_row evaluate_predicate evaluate_expression and_values
    compare_values test_comparison compare_result_values
passing = refl

plain_rows_early_example : plain_rows statement true rows ≡ ok (limited (some 1) shown)
plain_rows_early_example = plain_rows_early statement 1 rows refl (omega arith) passing refl

-- `LIMIT 0` shows a row where the loop stops early.
limit_zero :
    plain_rows (record statement { limit = some 0 }) true rows
    ≡ ok ((some (ResultValue.int64 (pos 7)) ∷ []) ∷ [])
unfolding plain_rows unsorted_loop passes_where plain_row evaluate_predicate evaluate_expression
    and_values compare_values test_comparison compare_result_values
limit_zero = refl

aggregate-OnNumbers_example :
    (aggregate AggregateKind.count values ≡ ok (some (ResultValue.int64 (pos 2))))
    × OnNumbers IsLeast (column_values values) (aggregate AggregateKind.min values)
    × OnNumbers IsGreatest (column_values values) (aggregate AggregateKind.max values)
    × OnNumbers IsTotal (column_values values) (aggregate AggregateKind.sum values)
aggregate-OnNumbers_example =
    aggregate-OnNumbers values in_range
      ((omega arith, omega arith), ((omega arith, omega arith), tt))

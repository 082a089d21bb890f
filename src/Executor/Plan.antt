-- ===== src/Executor/Plan.antt =====
-- How a WHERE clause is read from the storage: the key range and the filter for data skipping
-- (src/executor/executor.cpp).
pub mod Tests
pub mod Range
pub mod Sound
pub mod Compared
pub mod Filter
use htap_storage_lsm_tree.Common.{
  ℕ, Bool, true, false, not, ◌&&◌, ◌||◌, Option, none, some, List, [], ◌∷◌, ◌++◌, leb, ltb,
  if◌then◌else◌, Result, ok, err, bad_access, ◌>>=◌, ℤ, pos, ◌+ℤ◌, ltb_ℤ, leb_ℤ, eqb_ℤ, int64_max,
}
use htap_storage_lsm_tree.Types.{ValueType, Value, NullableValue, Key, ScanOrder}
use htap_storage_lsm_tree.Schema.{Column, Schema, size, get_column}
use htap_storage_lsm_tree.Skipping.{
  NumericComparisonOp, NumericColumnPredicate, NumericValue, int64_value, double_value,
}
use htap_storage_lsm_tree.Parser.Ast.{BinaryOperation}
use htap_storage_lsm_tree.Executor.Bound.{BoundExpression, BoundSelectStatement}

unfoldable pub collect_conjuncts : BoundExpression → List BoundExpression
collect_conjuncts (BoundExpression.binary BinaryOperation.and left right) =
    collect_conjuncts left ++ collect_conjuncts right
collect_conjuncts e = e ∷ []

-- A comparison of a column with a literal.
pub record ColumnTest : Type 0 where
  pub operation : BinaryOperation
  pub column_index : ℕ
  pub literal : NullableValue
  pub column_on_left : Bool

-- `none` where the loops `continue`
unfoldable pub column_test : BoundExpression → Option ColumnTest
column_test
      (BoundExpression.binary operation
        (BoundExpression.column i _)
        (BoundExpression.literal value _)) =
    some
      (record { operation = operation; column_index = i; literal = value; column_on_left = true })
column_test
      (BoundExpression.binary operation
        (BoundExpression.literal value _)
        (BoundExpression.column i _)) =
    some
      (record { operation = operation; column_index = i; literal = value; column_on_left = false })
column_test _ = none

-- The variables of the loop of `BuildCursorForSelect`.
pub record KeyPlan : Type 0 where
  pub point_key : Option Key
  pub from : Option Key
  pub to : Option Key
  pub found_any_range_predicate : Bool
  pub empty_result : Bool

abbrev pub whole_plan : KeyPlan
whole_plan = record {
  point_key = none;
  from = none;
  to = none;
  found_any_range_predicate = false;
  empty_result = false;
}

abbrev pub emptied : KeyPlan → KeyPlan
emptied plan = record plan { empty_result = true }

-- `if (!from.has_value() || key > *from) from = key;`
abbrev pub raised : Option Key → Key → Option Key
raised none key = some key
raised (some f) key = if ltb_ℤ f key then some key else some f

-- `if (!to.has_value() || key < *to) to = key;`
abbrev pub lowered : Option Key → Key → Option Key
lowered none key = some key
lowered (some t) key = if ltb_ℤ key t then some key else some t

unfoldable pub raise_from : Key → KeyPlan → KeyPlan
raise_from key plan = record plan { from = raised plan.from key; found_any_range_predicate = true }

unfoldable pub lower_to : Key → KeyPlan → KeyPlan
lower_to key plan = record plan { to = lowered plan.to key; found_any_range_predicate = true }

abbrev pub found_range : KeyPlan → KeyPlan
found_range plan = record plan { found_any_range_predicate = true }

-- The column is above the key: nothing is, where the key is the greatest.
abbrev pub above : Key → KeyPlan → KeyPlan
above key plan =
    if eqb_ℤ key int64_max then emptied (found_range plan) else raise_from (key +ℤ pos 1) plan

-- The column is at or below the key: all are, where the key is the greatest.
abbrev pub at_most : Key → KeyPlan → KeyPlan
at_most key plan = if eqb_ℤ key int64_max then found_range plan else lower_to (key +ℤ pos 1) plan

unfoldable pub equal_to : Key → KeyPlan → KeyPlan
equal_to key plan = elim plan.point_key [
  | none ↦ record plan { point_key = some key }
  | some p ↦ if eqb_ℤ p key then plan else emptied plan
]

-- the `switch` on the operation, with `column_on_left`
unfoldable pub apply_operation : BinaryOperation → Bool → Key → KeyPlan → KeyPlan
unfolding raise_from lower_to equal_to
apply_operation BinaryOperation.equal left key plan = equal_to key plan
apply_operation BinaryOperation.greater left key plan =
    if left then above key plan else lower_to key plan
apply_operation BinaryOperation.greater_equal left key plan =
    if left then raise_from key plan else at_most key plan
apply_operation BinaryOperation.less left key plan =
    if left then lower_to key plan else above key plan
apply_operation BinaryOperation.less_equal left key plan =
    if left then at_most key plan else raise_from key plan
apply_operation _ left key plan = plan

-- `std::get<std::int64_t>(*key_literal->value)`, and the empty result of a null literal
unfoldable pub apply_literal : ColumnTest → KeyPlan → Result KeyPlan
apply_literal test plan = elim test.literal [
  | none ↦ ok (emptied plan)
  | some value ↦ elim value [
    | Value.int64 key ↦ ok (apply_operation test.operation test.column_on_left key plan)
    | _ ↦ err bad_access
  ]
]

-- one round of the loop
abbrev pub apply_test : Schema → Option ColumnTest → KeyPlan → Result KeyPlan
apply_test schema none plan = ok plan
apply_test schema (some test) plan = do
  column ← get_column schema test.column_index
  if column.is_key then apply_literal test plan else ok plan

-- The loop, which breaks at an empty result.
unfoldable pub key_plan : Schema → List BoundExpression → KeyPlan → Result KeyPlan
unfolding column_test apply_literal
key_plan schema [] plan = ok plan
key_plan schema (e ∷ es) plan = do
  next ← apply_test schema (column_test e) plan
  let later = key_plan schema es next in if next.empty_result then ok next else later

-- What is asked of the storage engine.
pub data Read : Type 0 where
  no_rows : Read
  get : Key → Read
  scan : Option Key → Option Key → ScanOrder → List NumericColumnPredicate → Read

-- `from.has_value() && to.has_value() && *from >= *to`
abbrev pub is_empty_range : Option Key → Option Key → Bool
is_empty_range (some f) (some t) = leb_ℤ t f
is_empty_range _ _ = false

abbrev pub scan_order : Bool → ScanOrder
scan_order requires_key_asc =
    if requires_key_asc then ScanOrder.key_ascending else ScanOrder.unordered

-- `BuildCursorForSelect` behind the loop
unfoldable pub read_of : KeyPlan → Bool → List NumericColumnPredicate → Read
read_of plan requires_key_asc filter = if plan.empty_result then no_rows else elim plan.point_key [
  | some key ↦ get key
  | none ↦
      if plan.found_any_range_predicate
      then (if is_empty_range plan.from plan.to
          then no_rows
          else scan plan.from plan.to (scan_order requires_key_asc) filter)
      else scan none none (scan_order requires_key_asc) filter
]

unfoldable pub convert_operation : BinaryOperation → Option NumericComparisonOp
convert_operation BinaryOperation.equal = some NumericComparisonOp.equal
convert_operation BinaryOperation.less = some NumericComparisonOp.less
convert_operation BinaryOperation.less_equal = some NumericComparisonOp.less_equal
convert_operation BinaryOperation.greater = some NumericComparisonOp.greater
convert_operation BinaryOperation.greater_equal = some NumericComparisonOp.greater_equal
convert_operation _ = none

unfoldable pub reverse_operation : NumericComparisonOp → NumericComparisonOp
reverse_operation NumericComparisonOp.equal = NumericComparisonOp.equal
reverse_operation NumericComparisonOp.less = NumericComparisonOp.greater
reverse_operation NumericComparisonOp.less_equal = NumericComparisonOp.greater_equal
reverse_operation NumericComparisonOp.greater = NumericComparisonOp.less
reverse_operation NumericComparisonOp.greater_equal = NumericComparisonOp.less_equal

-- `is_numeric_literal` and `to_numeric_value`
unfoldable pub numeric_literal : NullableValue → Option NumericValue
numeric_literal (some (Value.int64 n)) = some (int64_value n)
numeric_literal (some (Value.double d)) = some (double_value d)
numeric_literal _ = none

abbrev pub is_numeric_type : ValueType → Bool
is_numeric_type ValueType.string = false
is_numeric_type _ = true

abbrev pub is_filter_column : Column → Bool
is_filter_column c = not c.is_key && is_numeric_type c.type

abbrev pub numeric_predicate :
    ColumnTest → NumericComparisonOp → NumericValue → NumericColumnPredicate
numeric_predicate test op value = record {
  column_idx = test.column_index;
  op = if test.column_on_left then op else reverse_operation op;
  value = value;
}

-- a numeric comparison of a column that is no key
unfoldable pub filter_test : Schema → ColumnTest → List NumericColumnPredicate
unfolding get_column
filter_test schema test = elim (convert_operation test.operation) [
  | none ↦ []
  | some op ↦ elim (numeric_literal test.literal) [
    | none ↦ []
    | some value ↦ elim (get_column schema test.column_index) [
      | err _ ↦ []
      | ok column ↦ if is_filter_column column then numeric_predicate test op value ∷ [] else []
    ]
  ]
]

abbrev pub filter_tests : Schema → Option ColumnTest → List NumericColumnPredicate
filter_tests schema none = []
filter_tests schema (some test) = filter_test schema test

-- the loop of `BuildDataSkippingFilter`
unfoldable pub skipping_predicates : Schema → List BoundExpression → List NumericColumnPredicate
unfolding column_test filter_test
skipping_predicates schema [] = []
skipping_predicates schema (e ∷ es) =
    filter_tests schema (column_test e) ++ skipping_predicates schema es

unfoldable pub build_data_skipping_filter : BoundSelectStatement → List NumericColumnPredicate
unfolding skipping_predicates collect_conjuncts
build_data_skipping_filter statement = elim statement.where_expression [
  | none ↦ []
  | some e ↦ skipping_predicates statement.schema (collect_conjuncts e)
]

abbrev pub where_conjuncts : Option BoundExpression → List BoundExpression
where_conjuncts none = []
where_conjuncts (some e) = collect_conjuncts e

-- `BuildCursorForSelect`, up to the call of the engine
unfoldable pub build_read : BoundSelectStatement → Bool → Result Read
unfolding key_plan read_of build_data_skipping_filter
build_read statement requires_key_asc = do
  plan ← key_plan statement.schema (where_conjuncts statement.where_expression) whole_plan
  ok (read_of plan requires_key_asc (build_data_skipping_filter statement))

-- ===== src/Executor/Evaluate.antt =====
-- Comparison and evaluation (src/executor/executor.cpp). The value of a column is read from the row that
-- the cursor shows.
pub mod Logic
use htap_storage_lsm_tree.Common.{
  ℕ, String, Bool, true, false, not, Option, none, some, List, [], ◌∷◌, get_elem?, ltb, ◌==◌,
  if◌then◌else◌, Result, ok, err, runtime_error, bad_access, from_option, ◌>>=◌, ℤ, pos, negsuc,
  ltb_ℤ, leb_ℤ, eqb_ℤ,
}
use htap_storage_lsm_tree.Types.{Value, NullableValue, Row}
use htap_storage_lsm_tree.Types.Float64.Arithmetic.{of_int}
use htap_storage_lsm_tree.Skipping.Compare.{compare_ints, compare_doubles}
use htap_storage_lsm_tree.Parser.Ast.{BinaryOperation, UnaryOperation}
use htap_storage_lsm_tree.Executor.Bound.{BoundExpression, ResultValue, NullableResultValue}

-- `std::string::compare`, by the bytes
abbrev pub compare_strings : List ℕ → List ℕ → ℤ
compare_strings [] [] = pos 0
compare_strings [] (_ ∷ _) = negsuc 0
compare_strings (_ ∷ _) [] = pos 1
compare_strings (x ∷ xs) (y ∷ ys) =
    let rest = compare_strings xs ys in
    if ltb x y then negsuc 0 else if ltb y x then pos 1 else rest

abbrev pub compare_bools : Bool → Bool → ℤ
compare_bools true true = pos 0
compare_bools false false = pos 0
compare_bools true false = pos 1
compare_bools false true = negsuc 0

abbrev incompatible : Result ℤ
incompatible = err (runtime_error "Incompatible types in comparison")

unfoldable pub compare_result_values : ResultValue → ResultValue → Result ℤ
compare_result_values (ResultValue.int64 a) (ResultValue.int64 b) = ok (compare_ints a b)
compare_result_values (ResultValue.int64 a) (ResultValue.double b) =
    ok (compare_doubles (of_int a) b)
compare_result_values (ResultValue.int64 a) _ = incompatible
compare_result_values (ResultValue.double a) (ResultValue.double b) = ok (compare_doubles a b)
compare_result_values (ResultValue.double a) (ResultValue.int64 b) =
    ok (compare_doubles a (of_int b))
compare_result_values (ResultValue.double a) _ = incompatible
compare_result_values (ResultValue.string a) (ResultValue.string b) = ok (compare_strings a b)
compare_result_values (ResultValue.string a) _ = incompatible
compare_result_values (ResultValue.bool a) (ResultValue.bool b) = ok (compare_bools a b)
compare_result_values (ResultValue.bool a) _ = incompatible

-- A missing value is greater than all others.
unfoldable pub compare_nullable_result_values : NullableResultValue → NullableResultValue → Result ℤ
unfolding compare_result_values
compare_nullable_result_values none none = ok (pos 0)
compare_nullable_result_values none (some b) = ok (pos 1)
compare_nullable_result_values (some a) none = ok (negsuc 0)
compare_nullable_result_values (some a) (some b) = compare_result_values a b

-- the conversion of `std::visit`
abbrev pub result_of_value : Value → ResultValue
result_of_value (Value.int64 n) = ResultValue.int64 n
result_of_value (Value.double d) = ResultValue.double d
result_of_value (Value.string s) = ResultValue.string s

abbrev pub result_of : NullableValue → NullableResultValue
result_of none = none
result_of (some v) = some (result_of_value v)

-- `cursor.value(column_index)` on the row that the cursor shows
abbrev pub row_value : Row → ℕ → Result NullableValue
row_value row i = from_option (get_elem? row i) bad_access

-- `std::get_if<bool>`, and the exception where the value is none
abbrev pub expect_bool : String → ResultValue → Result Bool
expect_bool message (ResultValue.bool b) = ok b
expect_bool message _ = err (runtime_error message)

abbrev pub boolean : Bool → Result NullableResultValue
boolean b = ok (some (ResultValue.bool b))

unfoldable pub not_value : NullableResultValue → Result NullableResultValue
not_value none = ok none
not_value (some v) = do b ← expect_bool "Unary NOT expects BOOLEAN" v; boolean (not b)

-- behind the test of the left operand, which is true or null
abbrev pub and_right : Bool → NullableResultValue → Result NullableResultValue
and_right left_is_null none = ok none
and_right left_is_null (some v) = do
  b ← expect_bool "AND expects BOOLEAN operands" v
  if b then (if left_is_null then ok none else boolean true) else boolean false

unfoldable pub and_values : NullableResultValue → NullableResultValue → Result NullableResultValue
and_values none right = and_right true right
and_values (some v) right = do
  b ← expect_bool "AND expects BOOLEAN operands" v
  if b then and_right false right else boolean false

-- behind the test of the left operand, which is false or null
abbrev pub or_right : Bool → NullableResultValue → Result NullableResultValue
or_right left_is_null none = ok none
or_right left_is_null (some v) = do
  b ← expect_bool "OR expects BOOLEAN operands" v
  if b then boolean true else (if left_is_null then ok none else boolean false)

unfoldable pub or_values : NullableResultValue → NullableResultValue → Result NullableResultValue
or_values none right = or_right true right
or_values (some v) right = do
  b ← expect_bool "OR expects BOOLEAN operands" v
  if b then boolean true else or_right false right

-- the `switch` on the operation behind a comparison
unfoldable pub test_comparison : BinaryOperation → ℤ → Result Bool
test_comparison BinaryOperation.equal c = ok (eqb_ℤ c (pos 0))
test_comparison BinaryOperation.not_equal c = ok (not (eqb_ℤ c (pos 0)))
test_comparison BinaryOperation.less c = ok (ltb_ℤ c (pos 0))
test_comparison BinaryOperation.less_equal c = ok (leb_ℤ c (pos 0))
test_comparison BinaryOperation.greater c = ok (ltb_ℤ (pos 0) c)
test_comparison BinaryOperation.greater_equal c = ok (leb_ℤ (pos 0) c)
test_comparison _ c = err (runtime_error "Unsupported binary operation")

unfoldable pub compare_values :
    BinaryOperation → NullableResultValue → NullableResultValue → Result NullableResultValue
unfolding test_comparison
compare_values operation none right = ok none
compare_values operation (some a) none = ok none
compare_values operation (some a) (some b) = do
  c ← compare_result_values a b
  holds ← test_comparison operation c
  boolean holds

abbrev pub binary_value :
    BinaryOperation → NullableResultValue → NullableResultValue → Result NullableResultValue
binary_value BinaryOperation.and left right = and_values left right
binary_value BinaryOperation.or left right = or_values left right
binary_value operation left right = compare_values operation left right

abbrev pub null_test : NullableResultValue → Bool → Bool
null_test none is_not = not is_not
null_test (some v) is_not = is_not

unfoldable pub evaluate_expression : Row → BoundExpression → Result NullableResultValue
unfolding not_value
evaluate_expression row (BoundExpression.literal value type) = ok (result_of value)
evaluate_expression row (BoundExpression.column i type) = do
  value ← row_value row i
  ok (result_of value)
evaluate_expression row (BoundExpression.unary UnaryOperation.not e) = do
  value ← evaluate_expression row e
  not_value value
evaluate_expression row (BoundExpression.binary operation left right) = do
  a ← evaluate_expression row left
  b ← evaluate_expression row right
  binary_value operation a b
evaluate_expression row (BoundExpression.is_null e is_not) = do
  value ← evaluate_expression row e
  boolean (null_test value is_not)

abbrev pub predicate_of : NullableResultValue → Result Bool
predicate_of none = ok false
predicate_of (some v) = expect_bool "WHERE expression must evaluate to BOOLEAN" v

unfoldable pub evaluate_predicate : Row → BoundExpression → Result Bool
unfolding evaluate_expression
evaluate_predicate row e = do value ← evaluate_expression row e; predicate_of value

-- ===== src/Executor/Binder/Values.antt =====
-- Names and values of `Binder` (src/executor/binder.cpp, include/executor/error.hpp). The parser holds names as
-- bytes, the schema as strings: each byte is the character with its number.
use Prim.Native.Nat.{Ordering, compare}
use Prim.Native.Char.{Char, char, nul}
use Prim.Native.String.{String, [] as no_text, ◌∷◌ as text_cons, ◌++◌ as text_append}
use htap_storage_lsm_tree.Common.{
  ℕ, Bool, true, false, not, ◌&&◌, ◌==◌, none, some, List, [], ◌∷◌, ◌≡◌, refl, if◌then◌else◌,
  Result, ok, err, eqb_ℤ, runtime_error, logic_error, out_of_range, invalid_argument, length_error,
  bad_access, cut_off, Error,
}
use htap_storage_lsm_tree.Types.{ValueType, Value, NullableValue}
use htap_storage_lsm_tree.Types.Float64.{Double, lt_double, is_nan}
use htap_storage_lsm_tree.Parser.Ast.{
  DataType, AggregateKind, UnaryOperation, BinaryOperation, Expression,
}
use htap_storage_lsm_tree.Executor.Bound.{ExpressionType, BoundExpression, expression_type}

abbrev byte_char : (n : ℕ) (o : Ordering) → compare n 55296 ≡ o → Char
byte_char n Ordering.lt e = char n (rw e tt)
byte_char n _ e = nul

unfoldable pub text_of : List ℕ → String
text_of [] = no_text
text_of (b ∷ bs) = text_cons (byte_char b (compare b 55296) refl) (text_of bs)

abbrev pub table_not_found_error : String → Error
table_not_found_error table_name = runtime_error (text_append "Table not found: " table_name)

abbrev pub column_not_found_error : String → Error
column_not_found_error column_name = runtime_error (text_append "Column not found: " column_name)

abbrev pub type_mismatch_error : String → Error
type_mismatch_error message = runtime_error message

abbrev pub invalid_query_error : String → Error
invalid_query_error message = runtime_error message

-- `e.what()`
abbrev pub what : Error → String
what (runtime_error message) = message
what (logic_error message) = message
what (out_of_range message) = message
what (invalid_argument message) = message
what (length_error message) = message
what bad_access = "bad_variant_access"
what cut_off = ""

-- `catch (const std::exception& e) { throw InvalidQueryError(e.what()); }`
unfoldable pub as_invalid_query {ℓ} : {A : Type ℓ} → Result A → Result A
as_invalid_query (ok a) = ok a
as_invalid_query (err e) = err (invalid_query_error (what e))

abbrev pub parser_data_type_to_storage_value_type : DataType → ValueType
parser_data_type_to_storage_value_type DataType.int64 = ValueType.int64
parser_data_type_to_storage_value_type DataType.double = ValueType.double
parser_data_type_to_storage_value_type DataType.string = ValueType.string

abbrev is_numeric : ExpressionType → Bool
is_numeric ExpressionType.int64 = true
is_numeric ExpressionType.double = true
is_numeric _ = false

abbrev numeric_result : ExpressionType → ExpressionType → String → Result ExpressionType
numeric_result argument_type result message =
    if is_numeric argument_type then ok result else err (invalid_query_error message)

unfoldable pub get_aggregate_result_type : AggregateKind → ExpressionType → Result ExpressionType
get_aggregate_result_type AggregateKind.count type = ok ExpressionType.int64
get_aggregate_result_type AggregateKind.avg type =
    numeric_result type ExpressionType.double "AVG supports only INT64 and DOUBLE"
get_aggregate_result_type AggregateKind.max type =
    numeric_result type type "MAX supports only INT64 and DOUBLE"
get_aggregate_result_type AggregateKind.min type =
    numeric_result type type "MIN supports only INT64 and DOUBLE"
get_aggregate_result_type AggregateKind.sum type =
    numeric_result type type "SUM supports only INT64 and DOUBLE"

unfoldable pub convert_literal_expression : Expression → Result NullableValue
convert_literal_expression Expression.null_literal = ok none
convert_literal_expression (Expression.int_literal n) = ok (some (Value.int64 n))
convert_literal_expression (Expression.double_literal d) = ok (some (Value.double d))
convert_literal_expression (Expression.string_literal s) = ok (some (Value.string s))
convert_literal_expression _ = err (invalid_query_error "Expected literal expression")

-- `operator==` of the values
abbrev eqb_double : Double → Double → Bool
eqb_double a b = not (is_nan a) && (not (is_nan b) && (not (lt_double a b) && not (lt_double b a)))

abbrev eqb_bytes : List ℕ → List ℕ → Bool
eqb_bytes [] [] = true
eqb_bytes (x ∷ xs) (y ∷ ys) = x == y && eqb_bytes xs ys
eqb_bytes _ _ = false

abbrev pub eqb_value : Value → Value → Bool
eqb_value (Value.int64 a) (Value.int64 b) = eqb_ℤ a b
eqb_value (Value.double a) (Value.double b) = eqb_double a b
eqb_value (Value.string a) (Value.string b) = eqb_bytes a b
eqb_value _ _ = false

abbrev pub eqb_nullable : NullableValue → NullableValue → Bool
eqb_nullable none none = true
eqb_nullable (some a) (some b) = eqb_value a b
eqb_nullable _ _ = false

abbrev pub type_code : ExpressionType → ℕ
type_code ExpressionType.string = 0
type_code ExpressionType.int64 = 1
type_code ExpressionType.double = 2
type_code ExpressionType.boolean = 3
type_code ExpressionType.null = 4

abbrev pub operation_code : BinaryOperation → ℕ
operation_code BinaryOperation.equal = 0
operation_code BinaryOperation.not_equal = 1
operation_code BinaryOperation.less = 2
operation_code BinaryOperation.less_equal = 3
operation_code BinaryOperation.greater = 4
operation_code BinaryOperation.greater_equal = 5
operation_code BinaryOperation.and = 6
operation_code BinaryOperation.or = 7

abbrev pub eqb_bool : Bool → Bool → Bool
eqb_bool true b = b
eqb_bool false b = not b

-- `left.type == right.type`
abbrev pub same_type : BoundExpression → BoundExpression → Bool
same_type left right = type_code (expression_type left) == type_code (expression_type right)

unfoldable pub are_equivalent_expressions : BoundExpression → BoundExpression → Bool
are_equivalent_expressions (BoundExpression.literal v t) (BoundExpression.literal w u) =
    same_type (BoundExpression.literal v t) (BoundExpression.literal w u) && eqb_nullable v w
are_equivalent_expressions (BoundExpression.column i t) (BoundExpression.column j u) =
    same_type (BoundExpression.column i t) (BoundExpression.column j u) && i == j
are_equivalent_expressions (BoundExpression.unary UnaryOperation.not e)
      (BoundExpression.unary UnaryOperation.not f) =
    are_equivalent_expressions e f
are_equivalent_expressions (BoundExpression.binary o l r) (BoundExpression.binary p m s) =
    operation_code o == operation_code p
    && (are_equivalent_expressions l m && are_equivalent_expressions r s)
are_equivalent_expressions (BoundExpression.is_null e n) (BoundExpression.is_null f m) =
    eqb_bool n m && are_equivalent_expressions e f
are_equivalent_expressions _ _ = false

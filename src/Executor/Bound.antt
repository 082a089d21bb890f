-- ===== src/Executor/Bound.antt =====
-- include/executor/bound_expression.hpp, bound_statement.hpp and execution_result.hpp
use htap_storage_lsm_tree.Common.{ℕ, ℤ, String, Bool, List, Option}
use htap_storage_lsm_tree.Types.{ValueType, NullableValue, Row}
use htap_storage_lsm_tree.Types.Float64.{Double}
use htap_storage_lsm_tree.Schema.{Schema}
use htap_storage_lsm_tree.Parser.Ast.{
  AggregateKind, BinaryOperation, UnaryOperation, OrderDirection,
}

pub data ExpressionType : Type 0 where
  string int64 double boolean null : ExpressionType

abbrev pub value_type_to_expression_type : ValueType → ExpressionType
value_type_to_expression_type ValueType.int64 = ExpressionType.int64
value_type_to_expression_type ValueType.double = ExpressionType.double
value_type_to_expression_type ValueType.string = ExpressionType.string

pub data BoundExpression : Type 0 where
  literal : NullableValue → ExpressionType → BoundExpression
  column : ℕ → ValueType → BoundExpression
  unary : UnaryOperation → BoundExpression → BoundExpression
  binary : BinaryOperation → BoundExpression → BoundExpression → BoundExpression
  -- the operand, and `is_not`
  is_null : BoundExpression → Bool → BoundExpression

-- `type`, which the constructors of the classes set
abbrev pub expression_type : BoundExpression → ExpressionType
expression_type (BoundExpression.literal value type) = type
expression_type (BoundExpression.column i type) = value_type_to_expression_type type
expression_type _ = ExpressionType.boolean

pub data BoundSelectItem : Type 0 where
  expression : BoundExpression → BoundSelectItem
  -- the function, its argument and the type of its result
  aggregate : AggregateKind → BoundExpression → ExpressionType → BoundSelectItem

pub record BoundOrderByItem : Type 0 where
  pub expression : BoundExpression
  pub direction : OrderDirection

pub record BoundInsertStatement : Type 0 where
  pub table_name : String
  pub schema : Schema
  pub row_values : Row

pub record BoundSelectStatement : Type 0 where
  pub table_name : String
  pub schema : Schema
  pub select_items : List BoundSelectItem
  pub where_expression : Option BoundExpression
  pub group_by_items : List BoundExpression
  pub order_by_items : List BoundOrderByItem
  pub limit : Option ℕ

pub data BoundStatement : Type 0 where
  create_table : String → Schema → BoundStatement
  insert : BoundInsertStatement → BoundStatement
  select : BoundSelectStatement → BoundStatement

-- `std::variant<int64_t, double, std::string, bool>`
pub data ResultValue : Type 0 where
  int64 : ℤ → ResultValue
  double : Double → ResultValue
  string : List ℕ → ResultValue
  bool : Bool → ResultValue

abbrev pub NullableResultValue : Type 0
NullableResultValue = Option ResultValue

abbrev pub ResultRow : Type 0
ResultRow = List NullableResultValue

pub record SelectResult : Type 0 where
  pub column_names : List String
  pub rows : List ResultRow

pub data ExecutionResult : Type 0 where
  create_table : ExecutionResult
  -- the number of inserted rows
  insert : ℕ → ExecutionResult
  select : SelectResult → ExecutionResult

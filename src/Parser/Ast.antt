-- ===== src/Parser/Ast.antt =====
-- include/parser/ast.hpp: the syntax trees. A class hierarchy is one data type, with a constructor
-- for each class that has instances.
use htap_storage_lsm_tree.Common.{ℕ, ℤ, Bool, List, Option}
use htap_storage_lsm_tree.Types.Float64.{Double}

pub data OrderDirection : Type 0 where
  asc desc : OrderDirection

pub data DataType : Type 0 where
  string int64 double : DataType

pub data AggregateKind : Type 0 where
  count sum avg min max : AggregateKind

pub data UnaryOperation : Type 0 where
  not : UnaryOperation

pub data BinaryOperation : Type 0 where
  equal not_equal less less_equal greater greater_equal and or : BinaryOperation

pub record ColumnDefinition : Type 0 where
  pub name : List ℕ
  pub type : DataType
  pub nullable : Bool
  pub is_key : Bool

pub data Expression : Type 0 where
  null_literal : Expression
  int_literal : ℤ → Expression
  double_literal : Double → Expression
  string_literal : List ℕ → Expression
  unary : UnaryOperation → Expression → Expression
  binary : BinaryOperation → Expression → Expression → Expression
  column : List ℕ → Expression
  -- the operand, and `is_not`
  is_null : Expression → Bool → Expression

pub data SelectItem : Type 0 where
  star : SelectItem
  expression : Expression → SelectItem
  aggregate : AggregateKind → Expression → SelectItem

pub record OrderByItem : Type 0 where
  pub expression : Expression
  pub direction : OrderDirection

pub record CreateTableStatement : Type 0 where
  pub table_name : List ℕ
  pub columns : List ColumnDefinition

pub record InsertStatement : Type 0 where
  pub table_name : List ℕ
  pub column_names : List (List ℕ)
  pub values : List Expression

pub record SelectStatement : Type 0 where
  pub table_name : List ℕ
  pub select_items : List SelectItem
  pub where_expression : Option Expression
  pub group_by_items : List Expression
  pub order_by_items : List OrderByItem
  pub limit : Option ℕ

pub data Statement : Type 0 where
  create_table : CreateTableStatement → Statement
  insert : InsertStatement → Statement
  select : SelectStatement → Statement

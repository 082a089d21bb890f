-- ===== src/Executor/Binder/Expressions.antt =====
-- The expressions of `Binder` (src/executor/binder.cpp), against the schema of their table.
use htap_storage_lsm_tree.Common.{
  ℕ, suc, Option, none, some, List, [], ◌∷◌, ◌++◌, Result, ok, from_option, ◌>>=◌,
}
use htap_storage_lsm_tree.Types.{Value}
use htap_storage_lsm_tree.Schema.{Column, Schema, get_column, get_column_index}
use htap_storage_lsm_tree.Parser.Ast.{Expression, SelectItem, OrderByItem}
use htap_storage_lsm_tree.Executor.Bound.{
  ExpressionType, BoundExpression, BoundSelectItem, BoundOrderByItem, expression_type,
}
use htap_storage_lsm_tree.Executor.Binder.Values.{
  text_of, column_not_found_error, get_aggregate_result_type,
}

-- the column of a name, with what `find` throws
abbrev pub column_of : Schema → List ℕ → Result ℕ
column_of schema name =
    from_option (get_column_index schema (text_of name)) (column_not_found_error (text_of name))

unfoldable pub bind_expression : Schema → Expression → Result BoundExpression
bind_expression schema Expression.null_literal =
    ok (BoundExpression.literal none ExpressionType.null)
bind_expression schema (Expression.int_literal n) =
    ok (BoundExpression.literal (some (Value.int64 n)) ExpressionType.int64)
bind_expression schema (Expression.double_literal d) =
    ok (BoundExpression.literal (some (Value.double d)) ExpressionType.double)
bind_expression schema (Expression.string_literal s) =
    ok (BoundExpression.literal (some (Value.string s)) ExpressionType.string)
bind_expression schema (Expression.column name) = do
  i ← column_of schema name
  column ← get_column schema i
  ok (BoundExpression.column i column.type)
bind_expression schema (Expression.unary operation e) = do
  operand ← bind_expression schema e
  ok (BoundExpression.unary operation operand)
bind_expression schema (Expression.binary operation left right) = do
  l ← bind_expression schema left
  r ← bind_expression schema right
  ok (BoundExpression.binary operation l r)
bind_expression schema (Expression.is_null e is_not) = do
  operand ← bind_expression schema e
  ok (BoundExpression.is_null operand is_not)

-- the items of `*`, from column `i` on
abbrev pub star_items : ℕ → List Column → List BoundSelectItem
star_items i [] = []
star_items i (c ∷ cs) =
    BoundSelectItem.expression (BoundExpression.column i c.type) ∷ star_items (suc i) cs

unfoldable pub bind_select_item : Schema → SelectItem → Result (List BoundSelectItem)
unfolding bind_expression
bind_select_item schema SelectItem.star = ok (star_items 0 schema.columns)
bind_select_item schema (SelectItem.expression e) = do
  bound ← bind_expression schema e
  ok (BoundSelectItem.expression bound ∷ [])
bind_select_item schema (SelectItem.aggregate kind e) = do
  argument ← bind_expression schema e
  result_type ← get_aggregate_result_type kind (expression_type argument)
  ok (BoundSelectItem.aggregate kind argument result_type ∷ [])

unfoldable pub bind_select_items : Schema → List SelectItem → Result (List BoundSelectItem)
unfolding bind_select_item
bind_select_items schema [] = ok []
bind_select_items schema (item ∷ items) = do
  bound ← bind_select_item schema item
  later ← bind_select_items schema items
  ok (bound ++ later)

unfoldable pub bind_expressions : Schema → List Expression → Result (List BoundExpression)
unfolding bind_expression
bind_expressions schema [] = ok []
bind_expressions schema (e ∷ es) = do
  bound ← bind_expression schema e
  later ← bind_expressions schema es
  ok (bound ∷ later)

unfoldable pub bind_order_by_items : Schema → List OrderByItem → Result (List BoundOrderByItem)
unfolding bind_expression
bind_order_by_items schema [] = ok []
bind_order_by_items schema (item ∷ items) = do
  bound ← bind_expression schema item.expression
  later ← bind_order_by_items schema items
  ok (record { expression = bound; direction = item.direction } ∷ later)

unfoldable pub bind_where : Schema → Option Expression → Result (Option BoundExpression)
unfolding bind_expression
bind_where schema none = ok none
bind_where schema (some e) = do bound ← bind_expression schema e; ok (some bound)

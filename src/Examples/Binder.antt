-- ===== src/Examples/Binder.antt =====
-- Statements as the parser gives them, bound to a schema.
use htap_storage_lsm_tree.Common.{◌≡◌, refl, none, some, List, [], ◌∷◌, ok, ℕ, pos}
use htap_storage_lsm_tree.Types.{ValueType, Value}
use htap_storage_lsm_tree.Schema.{
  make_schema, index_names, get_column, get_column_index, is_valid_value,
}
use htap_storage_lsm_tree.Schema.Builder.{add_column, add_columns, build, check_key}
use htap_storage_lsm_tree.Schema.Laws.{IsValidSchema, build-IsValidSchema}
use htap_storage_lsm_tree.Parser.Ast.{
  BinaryOperation, Expression, SelectItem, InsertStatement, SelectStatement,
}
use htap_storage_lsm_tree.Engine.{validate_row, validate_projection}
use htap_storage_lsm_tree.Executor.Bound.{
  ExpressionType, BoundExpression, BoundSelectItem, BoundSelectStatement,
}
use htap_storage_lsm_tree.Executor.Select.Names.{has_aggregate_select_items}
use htap_storage_lsm_tree.Executor.Select.Projection.{collect_required_projection}
use htap_storage_lsm_tree.Executor.Binder.Values.{text_of, convert_literal_expression}
use htap_storage_lsm_tree.Executor.Binder.Expressions.{
  bind_expression, bind_select_item, bind_select_items, bind_expressions, bind_order_by_items,
  bind_where,
}
use htap_storage_lsm_tree.Executor.Binder.Statements.{
  assign_values, check_row, bind_row, made_select, checked_select, bind_select_over, validate_where,
  validate_grouped_select,
}
use htap_storage_lsm_tree.Executor.Binder.Accepted.{bind_row-validate_row}
use htap_storage_lsm_tree.Executor.Binder.Collects.{bind_select_over-collect_required_projection}
use htap_storage_lsm_tree.Examples.Lsm.{schema, columns, row_of}

schema-IsValidSchema : IsValidSchema schema
unfolding add_columns add_column check_key build
schema-IsValidSchema = (build-IsValidSchema columns refl).0

-- `v` and `id`
abbrev names : List (List ℕ)
names = (118 ∷ []) ∷ (105 ∷ 100 ∷ []) ∷ []

abbrev insertion : InsertStatement
insertion = record {
  table_name = 116 ∷ [];
  column_names = names;
  values = Expression.int_literal (pos 6) ∷ Expression.int_literal (pos 4) ∷ [];
}

binds_row : bind_row schema insertion ≡ ok (row_of (pos 4) (pos 6))
unfolding bind_row assign_values check_row make_schema index_names get_column_index text_of
    is_valid_value convert_literal_expression
binds_row = refl

bind_row-validate_row_example : validate_row schema (row_of (pos 4) (pos 6)) ≡ ok tt
bind_row-validate_row_example =
    bind_row-validate_row schema insertion schema-IsValidSchema binds_row

-- `SELECT * FROM t WHERE v = 6`
abbrev selection : SelectStatement
selection = record {
  table_name = 116 ∷ [];
  select_items = SelectItem.star ∷ [];
  where_expression = some (
      Expression.binary BinaryOperation.equal (Expression.column (118 ∷ []))
        (Expression.int_literal (pos 6)));
  group_by_items = [];
  order_by_items = [];
  limit = none;
}

abbrev bound : BoundSelectStatement
bound =
    made_select schema selection
      (BoundSelectItem.expression (BoundExpression.column 0 ValueType.int64)
        ∷ BoundSelectItem.expression (BoundExpression.column 1 ValueType.int64)
        ∷ [])
      (some (
        BoundExpression.binary BinaryOperation.equal (BoundExpression.column 1 ValueType.int64)
          (BoundExpression.literal (some (Value.int64 (pos 6))) ExpressionType.int64)))
      [] []

binds_select : bind_select_over schema selection ≡ ok bound
unfolding bind_select_over bind_select_items bind_select_item bind_where bind_expression
    bind_expressions bind_order_by_items checked_select validate_where validate_grouped_select
    make_schema index_names get_column_index get_column text_of has_aggregate_select_items
binds_select = refl

bind_select_over-collect_required_projection_example :
    (projection : List ℕ) × (collect_required_projection bound ≡ ok projection)
    × (validate_projection bound.schema projection ≡ ok tt)
bind_select_over-collect_required_projection_example =
    bind_select_over-collect_required_projection schema selection binds_select

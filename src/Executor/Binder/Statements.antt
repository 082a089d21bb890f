-- ===== src/Executor/Binder/Statements.antt =====
-- The statements of `Binder` (src/executor/binder.cpp), with the checks on grouped selects and on rows.
use Prim.Native.String.{◌++◌ as text_append}
use htap_storage_lsm_tree.Common.{
  ℕ, suc, String, Bool, true, false, not, ◌&&◌, ◌||◌, ◌==◌, Option, none, some, List, [], ◌∷◌,
  length, get_elem?, set, replicate, if◌then◌else◌, Result, ok, err, bad_access, from_option,
  throw_if, ◌>>=◌, ◌>>◌,
}
use htap_storage_lsm_tree.Types.{Row}
use htap_storage_lsm_tree.Schema.{Column, Schema, size, get_column, is_valid_value}
use htap_storage_lsm_tree.Schema.Builder.{empty, add_columns, build}
use htap_storage_lsm_tree.Parser.Ast.{
  ColumnDefinition, Expression, CreateTableStatement, InsertStatement, SelectStatement, Statement,
}
use htap_storage_lsm_tree.Executor.Bound.{
  ExpressionType, BoundExpression, BoundSelectItem, BoundOrderByItem, BoundInsertStatement,
  BoundSelectStatement, BoundStatement, expression_type,
}
use htap_storage_lsm_tree.Executor.Select.Names.{is_aggregate, has_aggregate_select_items, is_empty}
use htap_storage_lsm_tree.Executor.Select.Engine.{IStorageEngine}
use htap_storage_lsm_tree.Executor.Binder.Values.{
  text_of, table_not_found_error, type_mismatch_error, invalid_query_error, as_invalid_query,
  parser_data_type_to_storage_value_type, convert_literal_expression, type_code,
  are_equivalent_expressions,
}
use htap_storage_lsm_tree.Executor.Binder.Expressions.{
  column_of, bind_select_items, bind_expressions, bind_order_by_items, bind_where,
}

abbrev is_boolean : ExpressionType → Bool
is_boolean type = type_code type == type_code ExpressionType.boolean

unfoldable pub validate_where : Option BoundExpression → Result (Unit {0})
validate_where none = ok tt
validate_where (some e) =
    throw_if (not (is_boolean (expression_type e)))
      (invalid_query_error "WHERE expression must be BOOLEAN")

unfoldable pub all_aggregates : List BoundSelectItem → Bool
all_aggregates [] = true
all_aggregates (item ∷ items) = is_aggregate item && all_aggregates items

abbrev pub in_group_by : List BoundExpression → BoundExpression → Bool
in_group_by [] e = false
in_group_by (g ∷ gs) e = are_equivalent_expressions e g || in_group_by gs e

-- the loop over the select list of a grouped select
unfoldable pub check_grouped : List BoundExpression → List BoundSelectItem → Result (Unit {0})
check_grouped group_by_items [] = ok tt
check_grouped group_by_items (BoundSelectItem.aggregate _ _ _ ∷ items) =
    check_grouped group_by_items items
check_grouped group_by_items (BoundSelectItem.expression e ∷ items) = do
  throw_if (not (in_group_by group_by_items e))
      (invalid_query_error "Non-aggregate SELECT item must appear in GROUP BY")
  check_grouped group_by_items items

unfoldable pub validate_grouped_select : BoundSelectStatement → Result (Unit {0})
unfolding check_grouped
validate_grouped_select statement =
    if is_empty statement.group_by_items
    then (if has_aggregate_select_items statement.select_items
        then throw_if (not (all_aggregates statement.select_items)) (
            invalid_query_error
              "Non-aggregate SELECT item is not allowed without GROUP BY when aggregates are present")
        else ok tt)
    else check_grouped statement.group_by_items statement.select_items

-- the loop over the columns of an insertion
unfoldable pub assign_values :
    Schema → List (List ℕ) → List Expression → Row → List Bool → Result Row
assign_values schema (name ∷ names) (e ∷ es) row assigned = do
  i ← column_of schema name
  taken ← from_option (get_elem? assigned i) bad_access
  throw_if taken (invalid_query_error (text_append "Duplicate insert column: " (text_of name)))
  value ← convert_literal_expression e
  assign_values schema names es (set row i value) (set assigned i true)
assign_values schema [] [] row assigned = ok row
assign_values schema _ _ row assigned = err bad_access

-- the loop over the values of the row, from column `i` on
unfoldable pub check_row : Schema → ℕ → Row → Result (Unit {0})
check_row schema i [] = ok tt
check_row schema i (value ∷ values) =
    let later = check_row schema (suc i) values in
    if is_valid_value schema i value
    then later
    else (get_column schema i >>= λ c.
        err (type_mismatch_error (text_append "Invalid value for column: " c.name)))

unfoldable pub bind_row : Schema → InsertStatement → Result Row
unfolding assign_values check_row
bind_row schema statement = do
  throw_if (not (length statement.column_names == length statement.values))
      (invalid_query_error "The number of insert values does not match the number of columns")
  row ←
      assign_values schema statement.column_names statement.values (replicate (size schema) none)
        (replicate (size schema) false)
  check_row schema 0 row
  ok row

abbrev pub column_definition : ColumnDefinition → Column
column_definition c = record {
  name = text_of c.name;
  type = parser_data_type_to_storage_value_type c.type;
  is_key = c.is_key;
  nullable = c.nullable;
}

abbrev pub column_definitions : List ColumnDefinition → List Column
column_definitions [] = []
column_definitions (c ∷ cs) = column_definition c ∷ column_definitions cs

unfoldable pub bind_create_table : CreateTableStatement → Result BoundStatement
bind_create_table statement = as_invalid_query (
    add_columns empty (column_definitions statement.columns) >>= λ builder.
    build builder >>= λ schema.
    ok (BoundStatement.create_table (text_of statement.table_name) schema))

abbrev pub made_select :
    Schema
    → SelectStatement
    → List BoundSelectItem
    → Option BoundExpression
    → List BoundExpression
    → List BoundOrderByItem
    → BoundSelectStatement
made_select schema statement select_items where_expression group_by_items order_by_items = record {
  table_name = text_of statement.table_name;
  schema = schema;
  select_items = select_items;
  where_expression = where_expression;
  group_by_items = group_by_items;
  order_by_items = order_by_items;
  limit = statement.limit;
}

unfoldable pub checked_select : BoundSelectStatement → Result BoundSelectStatement
unfolding validate_where validate_grouped_select
checked_select bound = do
  validate_where bound.where_expression
  validate_grouped_select bound
  ok bound

-- `BindSelect`, behind `GetSchema`
unfoldable pub bind_select_over : Schema → SelectStatement → Result BoundSelectStatement
unfolding checked_select
bind_select_over schema statement = do
  select_items ← bind_select_items schema statement.select_items
  where_expression ← bind_where schema statement.where_expression
  group_by_items ← bind_expressions schema statement.group_by_items
  order_by_items ← bind_order_by_items schema statement.order_by_items
  checked_select
      (made_select schema statement select_items where_expression group_by_items order_by_items)

module _ {E : Type 0} (i : IStorageEngine E) (engine : E) where
  unfoldable pub get_schema : String → Result Schema
  get_schema table_name =
      if i.table_exists engine table_name
      then i.get_table_schema engine table_name
      else err (table_not_found_error table_name)

  unfoldable pub bind_insert : InsertStatement → Result BoundInsertStatement
  unfolding get_schema bind_row
  bind_insert statement = do
    schema ← get_schema (text_of statement.table_name)
    row ← bind_row schema statement
    ok (record { table_name = text_of statement.table_name; schema = schema; row_values = row })

  unfoldable pub bind_select : SelectStatement → Result BoundSelectStatement
  unfolding get_schema bind_select_over
  bind_select statement = do
    schema ← get_schema (text_of statement.table_name)
    bind_select_over schema statement

  unfoldable pub bind : Statement → Result BoundStatement
  unfolding bind_create_table bind_insert bind_select
  bind (Statement.create_table statement) = bind_create_table statement
  bind (Statement.insert statement) = do
    bound ← bind_insert statement
    ok (BoundStatement.insert bound)
  bind (Statement.select statement) = do
    bound ← bind_select statement
    ok (BoundStatement.select bound)

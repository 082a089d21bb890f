-- ===== src/Executor/Select/Engine.antt =====
-- `Executor` over a storage engine (src/executor/executor.cpp, include/storage/api/storage_engine_interface.hpp).
use htap_storage_lsm_tree.Common.{
  ℕ, String, Bool, Option, List, [], ◌&&◌, not, if◌then◌else◌, Result, ok, ◌>>=◌,
}
use htap_storage_lsm_tree.Types.{Row, Key, ScanOrder}
use htap_storage_lsm_tree.Schema.{Schema}
use htap_storage_lsm_tree.Skipping.{NumericColumnPredicate}
use htap_storage_lsm_tree.Executor.Bound.{
  BoundStatement, BoundSelectStatement, ResultRow, SelectResult, ExecutionResult,
}
use htap_storage_lsm_tree.Executor.Plan.{Read, build_read}
use htap_storage_lsm_tree.Executor.Select.Names.{
  build_select_column_names, has_aggregate_select_items, can_apply_early_limit, is_required_key_asc,
  is_empty,
}
use htap_storage_lsm_tree.Executor.Select.Projection.{collect_required_projection}
use htap_storage_lsm_tree.Executor.Select.Rows.{Aggregate, make_aggregates, plain_rows, global_rows}
use htap_storage_lsm_tree.Executor.Select.Grouped.{grouped_rows}

-- `IStorageEngine`; a cursor is the list of the rows that it yields.
pub record IStorageEngine (E : Type 0) : Type 0 where
  pub create_table : E → String → Schema → Result E
  pub table_exists : E → String → Bool
  pub get_table_schema : E → String → Result Schema
  pub insert : E → String → Row → Result E
  pub get : E → String → Key → List ℕ → Result (List Row)
  pub scan :
      E
      → String
      → Option Key
      → Option Key
      → List ℕ
      → ScanOrder
      → List NumericColumnPredicate
      → Result (List Row)

-- the branches of `ExecuteSelect`
abbrev pub rows_of : BoundSelectStatement → List Row → Result (List ResultRow)
rows_of statement rows =
    if is_empty statement.group_by_items
    then (if has_aggregate_select_items statement.select_items
        then global_rows statement rows
        else plain_rows statement (can_apply_early_limit statement) rows)
    else grouped_rows statement rows

module _ {E : Type 0} (i : IStorageEngine E) where
  -- the calls of `BuildCursorForSelect`; no row is read for an empty result
  unfoldable pub read_rows : E → String → List ℕ → Read → Result (List Row)
  read_rows engine table_name projection Read.no_rows = ok []
  read_rows engine table_name projection (Read.get key) = i.get engine table_name key projection
  read_rows engine table_name projection (Read.scan from to order filter) =
      i.scan engine table_name from to projection order filter

  -- `ExecuteGlobalAggregateSelect` looks at the items before it reads.
  abbrev pub expected_aggregates : BoundSelectStatement → Result (List Aggregate)
  expected_aggregates statement =
      if is_empty statement.group_by_items && has_aggregate_select_items statement.select_items
      then make_aggregates statement.select_items
      else ok []

  -- the order that the read asks for: only the plain select sets it
  abbrev pub asks_key_asc : BoundSelectStatement → Bool
  asks_key_asc statement =
      is_empty statement.group_by_items
      && (not (has_aggregate_select_items statement.select_items)
          && is_required_key_asc statement.order_by_items)

  unfoldable pub execute_select : E → BoundSelectStatement → Result SelectResult
  unfolding read_rows
  execute_select engine statement = do
    column_names ← build_select_column_names statement
    projection ← collect_required_projection statement
    start ← expected_aggregates statement
    read ← build_read statement (asks_key_asc statement)
    rows ← read_rows engine statement.table_name projection read
    out ← rows_of statement rows
    ok (record { column_names = column_names; rows = out })

  unfoldable pub execute : E → BoundStatement → Result (E × ExecutionResult)
  unfolding execute_select
  execute engine (BoundStatement.create_table table_name schema) = do
    next ← i.create_table engine table_name schema
    ok (next, ExecutionResult.create_table)
  execute engine (BoundStatement.insert statement) = do
    next ← i.insert engine statement.table_name statement.row_values
    ok (next, ExecutionResult.insert 1)
  execute engine (BoundStatement.select statement) = do
    result ← execute_select engine statement
    ok (engine, ExecutionResult.select result)

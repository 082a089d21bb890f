-- ===== src/Executor/Select/Rows.antt =====
-- `Executor::ExecutePlainSelect` and `ExecuteGlobalAggregateSelect` (src/executor/executor.cpp), over the
-- rows that the cursor yields.
use htap_storage_lsm_tree.Common.{
  ℕ, Bool, true, false, ◌||◌, Option, none, some, List, [], ◌∷◌, ◌++◌, length, take, ltb, leb,
  if◌then◌else◌, Result, ok, err, runtime_error, ◌>>=◌,
}
use htap_storage_lsm_tree.Types.{Row}
use htap_storage_lsm_tree.Parser.Ast.{AggregateKind}
use htap_storage_lsm_tree.Executor.Bound.{
  BoundExpression, BoundSelectItem, BoundOrderByItem, BoundSelectStatement, ResultRow,
  ExpressionType,
}
use htap_storage_lsm_tree.Executor.Evaluate.{evaluate_expression, evaluate_predicate}
use htap_storage_lsm_tree.Executor.Aggregates.{
  GlobalAggregateState, empty_state, update_global_aggregate_state, finalize_aggregate_state,
}
use htap_storage_lsm_tree.Executor.Select.Names.{is_empty, is_required_key_asc}
use htap_storage_lsm_tree.Executor.Select.Sorting.{SortRow, sort_rows}

-- the test of the loops: no WHERE clause, or a true one
unfoldable pub passes_where : Option BoundExpression → Row → Result Bool
passes_where none row = ok true
passes_where (some e) row = evaluate_predicate row e

unfoldable pub evaluate_all : Row → List BoundExpression → Result ResultRow
evaluate_all row [] = ok []
evaluate_all row (e ∷ es) = do
  value ← evaluate_expression row e
  later ← evaluate_all row es
  ok (value ∷ later)

unfoldable pub plain_row : Row → List BoundSelectItem → Result ResultRow
plain_row row [] = ok []
plain_row row (BoundSelectItem.aggregate _ _ _ ∷ items) =
    err (runtime_error "Plain SELECT does not support aggregate select items")
plain_row row (BoundSelectItem.expression e ∷ items) = do
  value ← evaluate_expression row e
  later ← plain_row row items
  ok (value ∷ later)

-- `can_apply_early_limit && limit.has_value() && result.rows.size() >= *limit`; the limit of the early
-- stop, if there is one
abbrev pub reached : Option ℕ → List ResultRow → Bool
reached none rows = false
reached (some n) rows = leb n (length rows)

module _ (statement : BoundSelectStatement) where
  -- The loop where nothing is sorted: `rows` is what the result holds so far.
  unfoldable pub unsorted_loop : Option ℕ → List ResultRow → List Row → Result (List ResultRow)
  unfolding passes_where plain_row
  unsorted_loop early rows [] = ok rows
  unsorted_loop early rows (r ∷ rs) = do
    passes ← passes_where statement.where_expression r
    let skipped = unsorted_loop early rows rs in
        let added = (do
          row ← plain_row r statement.select_items
          let longer = rows ++ row ∷ [] in
              let later = unsorted_loop early longer rs in
              if reached early longer then ok longer else later) in
        if passes then added else skipped

  -- The loop where the rows are sorted behind it.
  unfoldable pub sorted_loop : List Row → Result (List SortRow)
  unfolding passes_where plain_row evaluate_all
  sorted_loop [] = ok []
  sorted_loop (r ∷ rs) = do
    passes ← passes_where statement.where_expression r
    let skipped = sorted_loop rs in
        let added = (do
          row ← plain_row r statement.select_items
          keys ← evaluate_all r (order_keys statement.order_by_items)
          later ← sorted_loop rs
          ok (record { sort_keys = keys; row = row } ∷ later)) in
        if passes then added else skipped
    where
      order_keys : List BoundOrderByItem → List BoundExpression
      order_keys [] = []
      order_keys (item ∷ items) = item.expression ∷ order_keys items

abbrev pub sorted_rows : List SortRow → List ResultRow
sorted_rows [] = []
sorted_rows (r ∷ rs) = r.row ∷ sorted_rows rs

-- `if (result.rows.size() > *statement.limit) result.rows.resize(*statement.limit);`
unfoldable pub limited : Option ℕ → List ResultRow → List ResultRow
limited none rows = rows
limited (some n) rows = if ltb n (length rows) then take n rows else rows

abbrev pub early_limit : Bool → Option ℕ → Option ℕ
early_limit true limit = limit
early_limit false limit = none

-- the rows of the result; `early` is `can_apply_early_limit` as it was passed in
unfoldable pub plain_rows : BoundSelectStatement → Bool → List Row → Result (List ResultRow)
unfolding unsorted_loop sorted_loop limited is_required_key_asc
plain_rows statement early rows =
    let requires_key_asc = is_required_key_asc statement.order_by_items in
    let early = requires_key_asc || early in
    let plain = unsorted_loop statement (early_limit early statement.limit) [] rows in
    let sorted = (do
      found ← sorted_loop statement rows
      sort_rows statement.order_by_items found) in
    if is_empty statement.order_by_items || requires_key_asc
    then (plain >>= λ out. ok (if early then out else limited statement.limit out))
    else (sorted >>= λ found.
        ok (if early then sorted_rows found else limited statement.limit (sorted_rows found)))

-- an aggregate of the select list with its state
pub record Aggregate : Type 0 where
  pub kind : AggregateKind
  pub expression : BoundExpression
  pub result_type : ExpressionType
  pub state : GlobalAggregateState

unfoldable pub make_aggregates : List BoundSelectItem → Result (List Aggregate)
make_aggregates [] = ok []
make_aggregates (BoundSelectItem.expression _ ∷ items) =
    err (runtime_error "Global aggregate SELECT expects aggregate select items only")
make_aggregates (BoundSelectItem.aggregate kind e type ∷ items) = do
  later ← make_aggregates items
  ok (record { kind = kind; expression = e; result_type = type; state = empty_state } ∷ later)

unfoldable pub update_aggregates : Row → List Aggregate → Result (List Aggregate)
update_aggregates row [] = ok []
update_aggregates row (a ∷ more) = do
  value ← evaluate_expression row a.expression
  state ← update_global_aggregate_state a.kind a.result_type value a.state
  later ← update_aggregates row more
  ok (record a { state = state } ∷ later)

unfoldable pub aggregate_loop :
    Option BoundExpression → List Row → List Aggregate → Result (List Aggregate)
unfolding passes_where update_aggregates
aggregate_loop clause [] aggregates = ok aggregates
aggregate_loop clause (r ∷ rs) aggregates = do
  passes ← passes_where clause r
  next ← if passes then update_aggregates r aggregates else ok aggregates
  aggregate_loop clause rs next

unfoldable pub finalize_all : List Aggregate → Result ResultRow
finalize_all [] = ok []
finalize_all (a ∷ more) = do
  value ← finalize_aggregate_state a.kind a.result_type a.state
  later ← finalize_all more
  ok (value ∷ later)

-- `!statement.limit.has_value() || *statement.limit > 0`
abbrev pub shows_a_row : Option ℕ → Bool
shows_a_row none = true
shows_a_row (some n) = ltb 0 n

unfoldable pub global_rows : BoundSelectStatement → List Row → Result (List ResultRow)
unfolding make_aggregates aggregate_loop finalize_all
global_rows statement rows = do
  start ← make_aggregates statement.select_items
  states ← aggregate_loop statement.where_expression rows start
  row ← finalize_all states
  ok (if shows_a_row statement.limit then row ∷ [] else [])

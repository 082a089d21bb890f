-- ===== src/Executor/Select/Grouped.antt =====
-- `Executor::ExecuteGroupedAggregateSelect` (src/executor/executor.cpp). The map of the groups is the list
-- of its entries, sorted by `GroupKeyLess`.
use htap_storage_lsm_tree.Common.{
  none, List, [], ◌∷◌, if◌then◌else◌, Result, ok, err, bad_access, ◌>>=◌,
}
use htap_storage_lsm_tree.Types.{Row}
use htap_storage_lsm_tree.Executor.Bound.{
  BoundSelectItem, BoundSelectStatement, NullableResultValue, ResultRow,
}
use htap_storage_lsm_tree.Executor.Evaluate.{evaluate_expression}
use htap_storage_lsm_tree.Executor.Aggregates.{
  GlobalAggregateState, empty_state, update_global_aggregate_state, finalize_aggregate_state,
}
use htap_storage_lsm_tree.Executor.Select.Names.{is_empty}
use htap_storage_lsm_tree.Executor.Select.Projection.{order_expressions}
use htap_storage_lsm_tree.Executor.Select.Sorting.{SortKeys, SortRow, sort_rows, group_key_less}
use htap_storage_lsm_tree.Executor.Select.Rows.{passes_where, evaluate_all, sorted_rows, limited}

pub record GroupState : Type 0 where
  pub select_expression_values : List NullableResultValue
  pub order_by_values : List NullableResultValue
  pub aggregate_states : List GlobalAggregateState

abbrev pub Groups : Type 0
Groups = List (SortKeys × GroupState)

-- the values of the expression items in the first row of a group
unfoldable pub first_values : Row → List BoundSelectItem → Result (List NullableResultValue)
first_values row [] = ok []
first_values row (BoundSelectItem.expression e ∷ items) = do
  value ← evaluate_expression row e
  later ← first_values row items
  ok (value ∷ later)
first_values row (BoundSelectItem.aggregate _ _ _ ∷ items) = do
  later ← first_values row items
  ok (none ∷ later)

abbrev pub empty_states : List BoundSelectItem → List GlobalAggregateState
empty_states [] = []
empty_states (_ ∷ items) = empty_state ∷ empty_states items

-- the state of a group that was inserted for `row`
unfoldable pub new_group : BoundSelectStatement → Row → Result GroupState
unfolding first_values
new_group statement row = do
  values ← first_values row statement.select_items
  keys ← evaluate_all row (order_expressions statement.order_by_items)
  ok (record {
    select_expression_values = values;
    order_by_values = keys;
    aggregate_states = empty_states statement.select_items;
  })

-- the loop over the select list, with the states of the group
unfoldable pub update_states :
    Row → List BoundSelectItem → List GlobalAggregateState → Result (List GlobalAggregateState)
update_states row [] states = ok states
update_states row (item ∷ items) [] = err bad_access
update_states row (BoundSelectItem.expression _ ∷ items) (s ∷ states) = do
  later ← update_states row items states
  ok (s ∷ later)
update_states row (BoundSelectItem.aggregate kind e type ∷ items) (s ∷ states) = do
  value ← evaluate_expression row e
  next ← update_global_aggregate_state kind type value s
  later ← update_states row items states
  ok (next ∷ later)

unfoldable pub updated_group : BoundSelectStatement → Row → GroupState → Result GroupState
unfolding update_states
updated_group statement row g = do
  states ← update_states row statement.select_items g.aggregate_states
  ok (record g { aggregate_states = states })

unfoldable pub added_group : BoundSelectStatement → Row → SortKeys → Result (SortKeys × GroupState)
unfolding new_group updated_group
added_group statement row key = do
  fresh ← new_group statement row
  g ← updated_group statement row fresh
  ok (key, g)

-- `groups.emplace` with what follows it: the group of the key is updated, or made
unfoldable pub update_groups : BoundSelectStatement → Row → SortKeys → Groups → Result Groups
unfolding added_group
update_groups statement row key [] = do entry ← added_group statement row key; ok (entry ∷ [])
update_groups statement row key ((k, g) ∷ groups) = do
  before ← group_key_less key k
  after ← group_key_less k key
  let later = update_groups statement row key groups in
      if before
      then (added_group statement row key >>= λ entry. ok (entry ∷ (k, g) ∷ groups))
      else if after
      then (later >>= λ rest. ok ((k, g) ∷ rest))
      else (updated_group statement row g >>= λ h. ok ((k, h) ∷ groups))

unfoldable pub group_loop : BoundSelectStatement → List Row → Groups → Result Groups
unfolding update_groups
group_loop statement [] groups = ok groups
group_loop statement (r ∷ rs) groups = do
  passes ← passes_where statement.where_expression r
  next ←
      if passes
      then (evaluate_all r statement.group_by_items >>= λ key. update_groups statement r key groups)
      else ok groups
  group_loop statement rs next

-- the row of a group
unfoldable pub group_row :
    List BoundSelectItem → List NullableResultValue → List GlobalAggregateState → Result ResultRow
group_row [] values states = ok []
group_row (BoundSelectItem.expression _ ∷ items) (value ∷ values) (_ ∷ states) = do
  later ← group_row items values states
  ok (value ∷ later)
group_row (BoundSelectItem.aggregate kind _ type ∷ items) (_ ∷ values) (s ∷ states) = do
  value ← finalize_aggregate_state kind type s
  later ← group_row items values states
  ok (value ∷ later)
group_row (_ ∷ items) _ _ = err bad_access

unfoldable pub group_rows : BoundSelectStatement → Groups → Result (List SortRow)
unfolding group_row
group_rows statement [] = ok []
group_rows statement ((_, g) ∷ groups) = do
  row ← group_row statement.select_items g.select_expression_values g.aggregate_states
  later ← group_rows statement groups
  ok (record { sort_keys = g.order_by_values; row = row } ∷ later)

unfoldable pub grouped_rows : BoundSelectStatement → List Row → Result (List ResultRow)
unfolding group_loop group_rows
grouped_rows statement rows = do
  groups ← group_loop statement rows []
  found ← group_rows statement groups
  ordered ←
      if is_empty statement.order_by_items
      then ok found
      else sort_rows statement.order_by_items found
  ok (limited statement.limit (sorted_rows ordered))

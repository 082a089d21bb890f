-- ===== src/Executor/Select/Reading.antt =====
-- A select over the rows that the storage shows for the key range and the filter of its WHERE clause
-- (src/executor/executor.cpp) against the select over all rows of the table.
use htap_storage_lsm_tree.Common.{
  ℕ, Bool, Option, List, [], ◌∷◌, ◌++◌, if◌then◌else◌, ◌≡◌, Result, ok, IsOk, ◌>>=◌, All, ◌⊎◌,
}
use htap_storage_lsm_tree.Types.{Row, Key}
use htap_storage_lsm_tree.Executor.Bound.{BoundSelectStatement, ResultRow}
use htap_storage_lsm_tree.Executor.Plan.{Read, build_read, build_data_skipping_filter}
use htap_storage_lsm_tree.Executor.Plan.Sound.{HasKeyCell, Covers}
use htap_storage_lsm_tree.Executor.Plan.Filter.{HoldsOn}
use htap_storage_lsm_tree.Executor.Select.Grouped.{Groups, update_groups, group_loop}
use htap_storage_lsm_tree.Executor.Select.Rows.{
  passes_where, evaluate_all, plain_row, reached, unsorted_loop, Aggregate, aggregate_loop,
  update_aggregates,
}

-- The storage leaves out rows only whose key the read does not cover, or on which a predicate of the filter
-- does not hold.
pub data Reads (statement : BoundSelectStatement) (read : Read) : List Row → List Row → Type 0 where
  all_read : Reads statement read [] []
  shown :
      (r : Row) {rs out : List Row}
      → Reads statement read rs out
      → Reads statement read (r ∷ rs) (r ∷ out)
  left_out :
      (r : Row) (k : Key) {rs out : List Row}
      → HasKeyCell statement.schema r k
      → ¬ Covers read k ⊎ ¬ All (HoldsOn r) (build_data_skipping_filter statement)
      → Reads statement read rs out
      → Reads statement read (r ∷ rs) out

module _ (statement : BoundSelectStatement) (asc : Bool) {read : Read}
    (planned : build_read statement asc ≡ ok read) where
  abbrev Evaluates : List Row → Type 0
  Evaluates rows = All (λ r. IsOk (passes_where statement.where_expression r)) rows

  -- one round of the loop, with the rest of the loop
  abbrev unsorted_round :
      Option ℕ
      → Row
      → (List ResultRow → Result (List ResultRow))
      → List ResultRow
      → Result (List ResultRow)
  unsorted_round early r rest acc = passes_where statement.where_expression r >>= λ passes.
      if passes
      then (plain_row r statement.select_items >>= λ row.
          if reached early (acc ++ row ∷ []) then ok (acc ++ row ∷ []) else rest (acc ++ row ∷ []))
      else rest acc

  -- the loop as a function of what the result holds
  abbrev Loop : Type 0
  Loop = List ResultRow → Result (List ResultRow)

  abbrev loop : Option ℕ → List Row → Loop
  loop early rows acc = unsorted_loop statement early acc rows

  abbrev aggregate_round :
      Row → (List Aggregate → Result (List Aggregate)) → List Aggregate → Result (List Aggregate)
  aggregate_round r rest aggregates = passes_where statement.where_expression r >>= λ passes.
      (if passes then update_aggregates r aggregates else ok aggregates) >>= rest

  abbrev aggregates_over : List Row → List Aggregate → Result (List Aggregate)
  aggregates_over rows aggregates = aggregate_loop statement.where_expression rows aggregates

  abbrev group_round : Row → (Groups → Result Groups) → Groups → Result Groups
  group_round r rest groups = passes_where statement.where_expression r >>= λ passes.
      (if passes
        then (evaluate_all r statement.group_by_items >>= λ key.
            update_groups statement r key groups)
        else ok groups)
      >>= rest

  abbrev groups_over : List Row → Groups → Result Groups
  groups_over rows groups = group_loop statement rows groups

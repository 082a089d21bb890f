-- ===== src/Executor/Select/Projection.antt =====
-- `Executor::CollectRequiredProjection` (src/executor/executor.cpp)
use htap_storage_lsm_tree.Common.{
  ℕ, Bool, true, false, Option, none, some, List, [], ◌∷◌, ◌++◌, get_elem?, set, replicate,
  if◌then◌else◌, Result, ok, bad_access, from_option, ◌>>=◌,
}
use htap_storage_lsm_tree.Schema.{Schema, size}
use htap_storage_lsm_tree.Executor.Bound.{
  BoundExpression, BoundSelectItem, BoundOrderByItem, BoundSelectStatement,
}

-- The list of the columns and the flags of the columns that are in it.
pub record Collected : Type 0 where
  pub projection : List ℕ
  pub used_columns : List Bool

abbrev pub with_column : ℕ → Collected → Bool → Collected
with_column i c used =
    if used
    then c
    else record { projection = c.projection ++ i ∷ []; used_columns = set c.used_columns i true }

-- `bad_access` is the read past the end of the flags.
unfoldable pub collect_column : ℕ → Collected → Result Collected
collect_column i c = do
  used ← from_option (get_elem? c.used_columns i) bad_access
  ok (with_column i c used)

unfoldable pub collect_projection_from_expression : BoundExpression → Collected → Result Collected
unfolding collect_column
collect_projection_from_expression (BoundExpression.literal _ _) c = ok c
collect_projection_from_expression (BoundExpression.column i _) c = collect_column i c
collect_projection_from_expression (BoundExpression.unary _ e) c =
    collect_projection_from_expression e c
collect_projection_from_expression (BoundExpression.binary _ left right) c = do
  next ← collect_projection_from_expression left c
  collect_projection_from_expression right next
collect_projection_from_expression (BoundExpression.is_null e _) c =
    collect_projection_from_expression e c

-- one of the loops, over expressions
unfoldable pub collect_all : List BoundExpression → Collected → Result Collected
unfolding collect_projection_from_expression
collect_all [] c = ok c
collect_all (e ∷ es) c = do next ← collect_projection_from_expression e c; collect_all es next

abbrev pub item_expression : BoundSelectItem → BoundExpression
item_expression (BoundSelectItem.expression e) = e
item_expression (BoundSelectItem.aggregate _ e _) = e

abbrev pub item_expressions : List BoundSelectItem → List BoundExpression
item_expressions [] = []
item_expressions (item ∷ items) = item_expression item ∷ item_expressions items

abbrev pub order_expressions : List BoundOrderByItem → List BoundExpression
order_expressions [] = []
order_expressions (item ∷ items) = item.expression ∷ order_expressions items

abbrev pub where_expressions : Option BoundExpression → List BoundExpression
where_expressions none = []
where_expressions (some e) = e ∷ []

abbrev pub no_columns : Schema → Collected
no_columns schema = record { projection = []; used_columns = replicate (size schema) false }

unfoldable pub collect_required_projection : BoundSelectStatement → Result (List ℕ)
unfolding collect_all
collect_required_projection statement = do
  a ← collect_all (item_expressions statement.select_items) (no_columns statement.schema)
  b ← collect_all (where_expressions statement.where_expression) a
  c ← collect_all statement.group_by_items b
  d ← collect_all (order_expressions statement.order_by_items) c
  ok d.projection

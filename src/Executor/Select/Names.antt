-- ===== src/Executor/Select/Names.antt =====
-- `Executor::BuildSelectColumnNames` and the tests on a statement (src/executor/executor.cpp)
use htap_storage_lsm_tree.Common.{
  ℕ, zero, suc, ◌+◌, ◌/◌, ◌%◌, String, Bool, true, false, not, ◌&&◌, ◌||◌, Option, none, some, List,
  [], ◌∷◌, ◌==◌, if◌then◌else◌, Result, ok, ◌>>=◌,
}
use Prim.Native.String.{◌++◌ as text_append}
use htap_storage_lsm_tree.Types.{key_column_index}
use htap_storage_lsm_tree.Schema.{Schema, get_column}
use htap_storage_lsm_tree.Parser.Ast.{AggregateKind, OrderDirection}
use htap_storage_lsm_tree.Executor.Bound.{
  BoundExpression, BoundSelectItem, BoundOrderByItem, BoundSelectStatement,
}

abbrev digit : ℕ → String
digit n =
    if n == 0
    then "0"
    else if n == 1
    then "1"
    else if n == 2
    then "2"
    else if n == 3
    then "3"
    else if n == 4
    then "4"
    else if n == 5
    then "5"
    else if n == 6
    then "6"
    else if n == 7
    then "7"
    else if n == 8
    then "8"
    else "9"

-- `std::to_string`, on at most `fuel` digits
unfoldable pub to_string : ℕ → ℕ → String
to_string zero n = ""
to_string (suc fuel) n =
    let front = to_string fuel (n / 10) in
    if n / 10 == 0 then digit (n % 10) else text_append front (digit (n % 10))

abbrev pub kind_name : AggregateKind → String
kind_name AggregateKind.count = "count"
kind_name AggregateKind.sum = "sum"
kind_name AggregateKind.avg = "avg"
kind_name AggregateKind.min = "min"
kind_name AggregateKind.max = "max"

-- "expression" with the place of the item, from 1 on; twenty digits hold any `std::size_t`
abbrev pub numbered : ℕ → String
numbered i = text_append "expression" (to_string 20 (i + 1))

abbrev pub operand_name : Schema → ℕ → BoundExpression → Result String
operand_name schema i (BoundExpression.column c _) = do column ← get_column schema c; ok column.name
operand_name schema i _ = ok (numbered i)

unfoldable pub item_name : Schema → ℕ → BoundSelectItem → Result String
unfolding to_string
item_name schema i (BoundSelectItem.expression e) = operand_name schema i e
item_name schema i (BoundSelectItem.aggregate kind e _) = do
  operand ← operand_name schema i e
  ok (text_append (kind_name kind) (text_append "(" (text_append operand ")")))

-- the loop, from item `i` on
unfoldable pub item_names : Schema → ℕ → List BoundSelectItem → Result (List String)
unfolding item_name
item_names schema i [] = ok []
item_names schema i (item ∷ items) = do
  name ← item_name schema i item
  later ← item_names schema (suc i) items
  ok (name ∷ later)

abbrev pub build_select_column_names : BoundSelectStatement → Result (List String)
build_select_column_names statement = item_names statement.schema 0 statement.select_items

abbrev pub is_aggregate : BoundSelectItem → Bool
is_aggregate (BoundSelectItem.aggregate _ _ _) = true
is_aggregate (BoundSelectItem.expression _) = false

unfoldable pub has_aggregate_select_items : List BoundSelectItem → Bool
has_aggregate_select_items [] = false
has_aggregate_select_items (item ∷ items) = is_aggregate item || has_aggregate_select_items items

abbrev pub is_empty {ℓ} : {A : Type ℓ} → List A → Bool
is_empty [] = true
is_empty (_ ∷ _) = false

abbrev pub has_value {ℓ} : {A : Type ℓ} → Option A → Bool
has_value none = false
has_value (some _) = true

unfoldable pub can_apply_early_limit : BoundSelectStatement → Bool
unfolding has_aggregate_select_items
can_apply_early_limit statement =
    has_value statement.limit
    && (is_empty statement.order_by_items
        && (is_empty statement.group_by_items
            && not (has_aggregate_select_items statement.select_items)))

abbrev pub is_ascending : OrderDirection → Bool
is_ascending OrderDirection.asc = true
is_ascending OrderDirection.desc = false

abbrev pub is_key_column : BoundExpression → Bool
is_key_column (BoundExpression.column i _) = i == key_column_index
is_key_column _ = false

-- `IsRuquiredKeyAsc`, which looks at the first item of ORDER BY only
unfoldable pub is_required_key_asc : List BoundOrderByItem → Bool
is_required_key_asc [] = false
is_required_key_asc (first ∷ _) = is_ascending first.direction && is_key_column first.expression

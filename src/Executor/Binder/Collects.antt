-- ===== src/Executor/Binder/Collects.antt =====
-- The executor collects the projection of a select that `Binder` (src/executor/binder.cpp) makes.
use htap_storage_lsm_tree.Common.{
  ℕ, suc, zero, ◌<◌, Bool, true, false, Option, none, some, List, [], ◌∷◌, length, get_elem?, ◌≡◌,
  refl, ap, ◌∙◌, subst, Result, ok, bad_access, from_option, ◌>>=◌, ◌>>◌, ok_of_bind, length-set,
  length-replicate, arith, All,
}
use htap_storage_lsm_tree.Schema.{Schema, size}
use htap_storage_lsm_tree.Engine.{validate_projection}
use htap_storage_lsm_tree.Parser.Ast.{SelectStatement}
use htap_storage_lsm_tree.Executor.Plan.Tests.{ok_eq}
use htap_storage_lsm_tree.Executor.Bound.{BoundExpression, BoundSelectStatement}
use htap_storage_lsm_tree.Executor.Select.Projection.{
  Collected, with_column, collect_column, collect_projection_from_expression, collect_all,
  no_columns, item_expressions, order_expressions, where_expressions, collect_required_projection,
}
use htap_storage_lsm_tree.Executor.Select.Required.{collect_required_projection-validate_projection}
use htap_storage_lsm_tree.Executor.Binder.Expressions.{
  bind_select_items, bind_expressions, bind_order_by_items, bind_where,
}
use htap_storage_lsm_tree.Executor.Binder.Statements.{
  bind_select_over, made_select, checked_select, validate_where, validate_grouped_select,
}
use htap_storage_lsm_tree.Executor.Binder.Scope.{
  InScope, bind_select_items-InScope, bind_expressions-InScope, bind_order_by_items-InScope,
  bind_where-InScope,
}

get_elem?-none : {A : Type 0} (xs : List A) (i : ℕ) → i < length xs → get_elem? xs i ≡ none → ⊥
get_elem?-none [] i h e = omega arith
get_elem?-none (x ∷ xs) zero h e = ground arith
get_elem?-none (x ∷ xs) (suc i) h e = get_elem?-none xs i (omega arith) e

-- The step gives columns with flags for the `n` columns of the schema.
abbrev pub Collects : ℕ → Result Collected → Type 0
Collects n r = (d : Collected) × (r ≡ ok d) × (length d.used_columns ≡ n)

collect_column-Collects :
    (n i : ℕ) (c : Collected) → length c.used_columns ≡ n → i < n → Collects n (collect_column i c)
unfolding collect_column
collect_column-Collects n i c l h = go (get_elem? c.used_columns i) refl
  where
    go :
        (o : Option Bool)
        → get_elem? c.used_columns i ≡ o
        → Collects n (from_option o bad_access >>= λ used. ok (with_column i c used))
    go none e = absurd (get_elem?-none c.used_columns i (omega arith) e)
    go (some true) e = (c, refl, l)
    go (some false) e = (_, refl, length-set c.used_columns i true ∙ l)

collect_projection_from_expression-Collects :
    (n : ℕ) (e : BoundExpression) (c : Collected)
    → length c.used_columns ≡ n
    → InScope n e
    → Collects n (collect_projection_from_expression e c)
unfolding collect_projection_from_expression
collect_projection_from_expression-Collects n (BoundExpression.literal _ _) c l h = (c, refl, l)
collect_projection_from_expression-Collects n (BoundExpression.column i _) c l h =
    collect_column-Collects n i c l h
collect_projection_from_expression-Collects n (BoundExpression.unary _ e) c l h =
    collect_projection_from_expression-Collects n e c l h
collect_projection_from_expression-Collects n (BoundExpression.binary _ left right) c l h =
    let (next, first, ln) = collect_projection_from_expression-Collects n left c l h.0 in
    let (d, second, ld) = collect_projection_from_expression-Collects n right next ln h.1 in
    (d, ap (λ r. r >>= collect_projection_from_expression right) first ∙ second, ld)
collect_projection_from_expression-Collects n (BoundExpression.is_null e _) c l h =
    collect_projection_from_expression-Collects n e c l h

collect_all-Collects :
    (n : ℕ) (es : List BoundExpression) (c : Collected)
    → length c.used_columns ≡ n
    → All (InScope n) es
    → Collects n (collect_all es c)
unfolding collect_all
collect_all-Collects n [] c l h = (c, refl, l)
collect_all-Collects n (e ∷ es) c l h =
    let (next, first, ln) = collect_projection_from_expression-Collects n e c l h.0 in
    let (d, second, ld) = collect_all-Collects n es next ln h.1 in
    (d, ap (λ r. r >>= collect_all es) first ∙ second, ld)

-- the expressions of a select are in the scope of its schema
record IsScoped (bound : BoundSelectStatement) : Type 0 where
  items : All (InScope (size bound.schema)) (item_expressions bound.select_items)
  conditions : All (InScope (size bound.schema)) (where_expressions bound.where_expression)
  groups : All (InScope (size bound.schema)) bound.group_by_items
  order : All (InScope (size bound.schema)) (order_expressions bound.order_by_items)

collect_required_projection_total :
    (bound : BoundSelectStatement)
    → IsScoped bound
    → (projection : List ℕ) × (collect_required_projection bound ≡ ok projection)
unfolding collect_required_projection
collect_required_projection_total bound s =
    let n = size bound.schema in
    let (a, ea, la) =
      collect_all-Collects n (item_expressions bound.select_items) (no_columns bound.schema)
        (length-replicate n false) s.items in
    let (b, eb, lb) =
      collect_all-Collects n (where_expressions bound.where_expression) a la s.conditions in
    let (c, ec, lc) = collect_all-Collects n bound.group_by_items b lb s.groups in
    let (d, ed, _) = collect_all-Collects n (order_expressions bound.order_by_items) c lc s.order in
    (d.projection, simp (ea, eb, ec, ed) refl)

checked_select_eq :
    (b : BoundSelectStatement) {bound : BoundSelectStatement}
    → checked_select b ≡ ok bound
    → b ≡ bound
unfolding checked_select
checked_select_eq b h =
    let (_, _, h1) =
      ok_of_bind (λ (_ : Unit {0}). validate_grouped_select b >> ok b)
        (validate_where b.where_expression) h in
    let (_, _, h2) = ok_of_bind (λ (_ : Unit {0}). ok b) (validate_grouped_select b) h1 in ok_eq h2

bind_select_over-IsScoped :
    (schema : Schema) (statement : SelectStatement) {bound : BoundSelectStatement}
    → bind_select_over schema statement ≡ ok bound
    → IsScoped bound
unfolding bind_select_over
bind_select_over-IsScoped schema statement h =
    let made = made_select schema statement in
    let (items, ei, h1) =
      ok_of_bind
        (λ items. bind_where schema statement.where_expression >>= λ conditions.
          bind_expressions schema statement.group_by_items >>= λ groups.
          bind_order_by_items schema statement.order_by_items >>= λ order.
          checked_select (made items conditions groups order))
        (bind_select_items schema statement.select_items) h in
    let (conditions, ec, h2) =
      ok_of_bind
        (λ conditions. bind_expressions schema statement.group_by_items >>= λ groups.
          bind_order_by_items schema statement.order_by_items >>= λ order.
          checked_select (made items conditions groups order))
        (bind_where schema statement.where_expression) h1 in
    let (groups, eg, h3) =
      ok_of_bind
        (λ groups. bind_order_by_items schema statement.order_by_items >>= λ order.
          checked_select (made items conditions groups order))
        (bind_expressions schema statement.group_by_items) h2 in
    let (order, eo, h4) =
      ok_of_bind (λ order. checked_select (made items conditions groups order))
        (bind_order_by_items schema statement.order_by_items) h3 in
    subst IsScoped (checked_select_eq (made items conditions groups order) h4) (record {
      items = bind_select_items-InScope schema statement.select_items ei;
      conditions = bind_where-InScope schema statement.where_expression ec;
      groups = bind_expressions-InScope schema statement.group_by_items eg;
      order = bind_order_by_items-InScope schema statement.order_by_items eo;
    })

-- Of a select that the binder accepts the executor collects a projection without an access out of range,
-- and it is one that the storage engine accepts.
pub bind_select_over-collect_required_projection :
    (schema : Schema) (statement : SelectStatement) {bound : BoundSelectStatement}
    → bind_select_over schema statement ≡ ok bound
    → (projection : List ℕ) × (collect_required_projection bound ≡ ok projection)
      × (validate_projection bound.schema projection ≡ ok tt)
bind_select_over-collect_required_projection schema statement {bound} h =
    let (projection, e) =
      collect_required_projection_total bound (bind_select_over-IsScoped schema statement h) in
    (projection, e, collect_required_projection-validate_projection bound e)

-- ===== src/Executor/Binder/Scope.antt =====
-- The columns of the expressions that `Binder` (src/executor/binder.cpp) makes, against the schema.
use htap_storage_lsm_tree.Common.{
  ℕ, suc, zero, ◌+◌, ◌<◌, Option, none, some, List, [], ◌∷◌, ◌++◌, length, get_elem?, ◌≡◌, refl, ap,
  sym, subst, ok, from_option, ◌>>=◌, ok_of_bind, arith, All, All-append, out_of_range,
}
use htap_storage_lsm_tree.Schema.{Column, Schema, size, get_column}
use htap_storage_lsm_tree.Parser.Ast.{Expression, SelectItem, OrderByItem}
use htap_storage_lsm_tree.Executor.Plan.Tests.{ok_eq}
use htap_storage_lsm_tree.Executor.Bound.{
  BoundExpression, BoundSelectItem, BoundOrderByItem, expression_type,
}
use htap_storage_lsm_tree.Executor.Select.Projection.{
  item_expression, item_expressions, order_expressions, where_expressions,
}
use htap_storage_lsm_tree.Executor.Binder.Values.{get_aggregate_result_type}
use htap_storage_lsm_tree.Executor.Binder.Expressions.{
  column_of, bind_expression, star_items, bind_select_item, bind_select_items, bind_expressions,
  bind_order_by_items, bind_where,
}

-- the columns of the expression are below `n`
abbrev pub InScope : ℕ → BoundExpression → Type 0
InScope n (BoundExpression.literal _ _) = Unit
InScope n (BoundExpression.column i _) = i < n
InScope n (BoundExpression.unary _ e) = InScope n e
InScope n (BoundExpression.binary _ l r) = InScope n l × InScope n r
InScope n (BoundExpression.is_null e _) = InScope n e

get_elem?-below :
    {A : Type 0} (xs : List A) (i : ℕ) {c : A}
    → from_option (get_elem? xs i) (out_of_range "Column index out of range") ≡ ok c
    → i < length xs
get_elem?-below [] zero e = absurd (ground arith)
get_elem?-below [] (suc i) e = absurd (ground arith)
get_elem?-below (x ∷ xs) zero e = omega arith
get_elem?-below (x ∷ xs) (suc i) e = let h = get_elem?-below xs i e in omega arith

bind_expression-InScope :
    (schema : Schema) (e : Expression) {b : BoundExpression}
    → bind_expression schema e ≡ ok b
    → InScope (size schema) b
unfolding bind_expression get_column
bind_expression-InScope schema Expression.null_literal h =
    subst (InScope (size schema)) (ok_eq h) tt
bind_expression-InScope schema (Expression.int_literal n) h =
    subst (InScope (size schema)) (ok_eq h) tt
bind_expression-InScope schema (Expression.double_literal d) h =
    subst (InScope (size schema)) (ok_eq h) tt
bind_expression-InScope schema (Expression.string_literal s) h =
    subst (InScope (size schema)) (ok_eq h) tt
bind_expression-InScope schema (Expression.column name) h =
    let (i, found, h1) =
      ok_of_bind (λ i. get_column schema i >>= λ column. ok (BoundExpression.column i column.type))
        (column_of schema name) h in
    let (column, read, h2) =
      ok_of_bind (λ (column : Column). ok (BoundExpression.column i column.type))
        (get_column schema i) h1 in
    subst (InScope (size schema)) (ok_eq h2) (get_elem?-below schema.columns i read)
bind_expression-InScope schema (Expression.unary operation e) h =
    let (o, bound, h1) =
      ok_of_bind (λ o. ok (BoundExpression.unary operation o)) (bind_expression schema e) h in
    subst (InScope (size schema)) (ok_eq h1) (bind_expression-InScope schema e bound)
bind_expression-InScope schema (Expression.binary operation left right) h =
    let (l, bl, h1) =
      ok_of_bind
        (λ l. bind_expression schema right >>= λ r. ok (BoundExpression.binary operation l r))
        (bind_expression schema left) h in
    let (r, br, h2) =
      ok_of_bind (λ r. ok (BoundExpression.binary operation l r)) (bind_expression schema right)
        h1 in
    subst (InScope (size schema)) (ok_eq h2)
      (bind_expression-InScope schema left bl, bind_expression-InScope schema right br)
bind_expression-InScope schema (Expression.is_null e is_not) h =
    let (o, bound, h1) =
      ok_of_bind (λ o. ok (BoundExpression.is_null o is_not)) (bind_expression schema e) h in
    subst (InScope (size schema)) (ok_eq h1) (bind_expression-InScope schema e bound)

star_items-InScope :
    (n i : ℕ) (cs : List Column)
    → i + length cs ≡ n
    → All (InScope n) (item_expressions (star_items i cs))
star_items-InScope n i [] h = tt
star_items-InScope n i (c ∷ cs) h = (omega arith, star_items-InScope n (suc i) cs (omega arith))

bind_select_item-InScope :
    (schema : Schema) (item : SelectItem) {bs : List BoundSelectItem}
    → bind_select_item schema item ≡ ok bs
    → All (InScope (size schema)) (item_expressions bs)
unfolding bind_select_item
bind_select_item-InScope schema SelectItem.star h =
    subst (λ bs. All (InScope (size schema)) (item_expressions bs)) (ok_eq h)
      (star_items-InScope (size schema) 0 schema.columns (omega arith))
bind_select_item-InScope schema (SelectItem.expression e) h =
    let (b, bound, h1) =
      ok_of_bind (λ b. ok (BoundSelectItem.expression b ∷ [])) (bind_expression schema e) h in
    subst (λ bs. All (InScope (size schema)) (item_expressions bs)) (ok_eq h1)
      (bind_expression-InScope schema e bound, tt)
bind_select_item-InScope schema (SelectItem.aggregate kind e) h =
    let (b, bound, h1) =
      ok_of_bind
        (λ b. get_aggregate_result_type kind (expression_type b) >>= λ t.
          ok (BoundSelectItem.aggregate kind b t ∷ []))
        (bind_expression schema e) h in
    let (t, _, h2) =
      ok_of_bind (λ t. ok (BoundSelectItem.aggregate kind b t ∷ []))
        (get_aggregate_result_type kind (expression_type b)) h1 in
    subst (λ bs. All (InScope (size schema)) (item_expressions bs)) (ok_eq h2)
      (bind_expression-InScope schema e bound, tt)

item_expressions-append :
    (xs ys : List BoundSelectItem)
    → item_expressions (xs ++ ys) ≡ item_expressions xs ++ item_expressions ys
item_expressions-append [] ys = refl
item_expressions-append (x ∷ xs) ys =
    ap (λ es. item_expression x ∷ es) (item_expressions-append xs ys)

pub bind_select_items-InScope :
    (schema : Schema) (items : List SelectItem) {bs : List BoundSelectItem}
    → bind_select_items schema items ≡ ok bs
    → All (InScope (size schema)) (item_expressions bs)
unfolding bind_select_items
bind_select_items-InScope schema [] h =
    subst (λ bs. All (InScope (size schema)) (item_expressions bs)) (ok_eq h) tt
bind_select_items-InScope schema (item ∷ items) h =
    let (b, bound, h1) =
      ok_of_bind (λ b. bind_select_items schema items >>= λ later. ok (b ++ later))
        (bind_select_item schema item) h in
    let (later, bs, h2) =
      ok_of_bind (λ later. ok (b ++ later)) (bind_select_items schema items) h1 in
    subst (λ bs. All (InScope (size schema)) (item_expressions bs)) (ok_eq h2)
      (subst (All (InScope (size schema))) (sym (item_expressions-append b later)) (
        All-append (InScope (size schema)) (item_expressions b) (item_expressions later)
          (bind_select_item-InScope schema item bound) (bind_select_items-InScope schema items bs)))

pub bind_expressions-InScope :
    (schema : Schema) (es : List Expression) {bs : List BoundExpression}
    → bind_expressions schema es ≡ ok bs
    → All (InScope (size schema)) bs
unfolding bind_expressions
bind_expressions-InScope schema [] h = subst (All (InScope (size schema))) (ok_eq h) tt
bind_expressions-InScope schema (e ∷ es) h =
    let (b, bound, h1) =
      ok_of_bind (λ b. bind_expressions schema es >>= λ later. ok (b ∷ later))
        (bind_expression schema e) h in
    let (later, bs, h2) = ok_of_bind (λ later. ok (b ∷ later)) (bind_expressions schema es) h1 in
    subst (All (InScope (size schema))) (ok_eq h2)
      (bind_expression-InScope schema e bound, bind_expressions-InScope schema es bs)

pub bind_order_by_items-InScope :
    (schema : Schema) (items : List OrderByItem) {bs : List BoundOrderByItem}
    → bind_order_by_items schema items ≡ ok bs
    → All (InScope (size schema)) (order_expressions bs)
unfolding bind_order_by_items
bind_order_by_items-InScope schema [] h =
    subst (λ bs. All (InScope (size schema)) (order_expressions bs)) (ok_eq h) tt
bind_order_by_items-InScope schema (item ∷ items) h =
    let (b, bound, h1) =
      ok_of_bind
        (λ b. bind_order_by_items schema items >>= λ later.
          ok (record { expression = b; direction = item.direction } ∷ later))
        (bind_expression schema item.expression) h in
    let (later, bs, h2) =
      ok_of_bind
        (λ (later : List BoundOrderByItem).
          ok (record { expression = b; direction = item.direction } ∷ later))
        (bind_order_by_items schema items) h1 in
    subst (λ bs. All (InScope (size schema)) (order_expressions bs)) (ok_eq h2)
      (
        bind_expression-InScope schema item.expression bound,
        bind_order_by_items-InScope schema items bs,
      )

pub bind_where-InScope :
    (schema : Schema) (o : Option Expression) {b : Option BoundExpression}
    → bind_where schema o ≡ ok b
    → All (InScope (size schema)) (where_expressions b)
unfolding bind_where
bind_where-InScope schema none h =
    subst (λ b. All (InScope (size schema)) (where_expressions b)) (ok_eq h) tt
bind_where-InScope schema (some e) h =
    let (b, bound, h1) = ok_of_bind (λ b. ok (some b)) (bind_expression schema e) h in
    subst (λ b. All (InScope (size schema)) (where_expressions b)) (ok_eq h1)
      (bind_expression-InScope schema e bound, tt)

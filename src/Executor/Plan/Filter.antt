-- ===== src/Executor/Plan/Filter.antt =====
-- The predicates that `Executor::BuildDataSkippingFilter` (src/executor/executor.cpp) takes from a WHERE
-- clause hold on every row that the clause accepts.
use htap_storage_lsm_tree.Common.{
  true, Option, none, some, List, [], ◌∷◌, ◌≡◌, refl, arith, ap, ap₂, ◌∙◌, subst, sym,
  if◌then◌else◌, Result, ok, err, All, All-append, Bool-cases, inl, inr,
}
use htap_storage_lsm_tree.Types.{Row, Value, NullableValue}
use htap_storage_lsm_tree.Types.Float64.Arithmetic.{of_int}
use htap_storage_lsm_tree.Schema.{Schema, Column, get_column}
use htap_storage_lsm_tree.Skipping.{NumericComparisonOp, NumericColumnPredicate, NumericValue}
use htap_storage_lsm_tree.Skipping.Compare.{satisfies}
use htap_storage_lsm_tree.Executor.Bound.{BoundExpression, ResultValue, BoundSelectStatement}
use htap_storage_lsm_tree.Executor.Evaluate.{
  row_value, result_of, result_of_value, compare_result_values,
}
use htap_storage_lsm_tree.Executor.Plan.{
  ColumnTest, column_test, collect_conjuncts, convert_operation, numeric_literal, numeric_predicate,
  is_filter_column, filter_test, filter_tests, skipping_predicates, build_data_skipping_filter,
}
use htap_storage_lsm_tree.Executor.Plan.Tests.{
  some_eq, Accepts, TestHolds, column_test-TestHolds, Passes, Passes-conjuncts,
}
use htap_storage_lsm_tree.Executor.Plan.Compared.{
  literal_result, converted_test, binary_value-Compared, left_holds, right_holds,
}

-- The row has a value in the column, and the comparison of the value with the literal is true.
abbrev pub HoldsOn : Row → NumericColumnPredicate → Type 0
HoldsOn row p =
    (v : Value) × (row_value row p.column_idx ≡ ok (some v))
    × (satisfies of_int p.op v p.value ≡ true)

numeric_literal-result :
    (l : NullableValue) (value : NumericValue)
    → numeric_literal l ≡ some value
    → result_of l ≡ some (literal_result value)
unfolding numeric_literal
numeric_literal-result none value e = absurd (ground arith)
numeric_literal-result (some (Value.int64 n)) value e =
    subst (λ z. some (ResultValue.int64 n) ≡ some (literal_result z)) (some_eq e) refl
numeric_literal-result (some (Value.double n)) value e =
    subst (λ z. some (ResultValue.double n) ≡ some (literal_result z)) (some_eq e) refl
numeric_literal-result (some (Value.string n)) value e = absurd (ground arith)

-- a cell with a result has a value
result_of-some :
    (value : NullableValue) (a : ResultValue)
    → result_of value ≡ some a
    → (v : Value) × (value ≡ some v) × (result_of_value v ≡ a)
result_of-some none a e = absurd (ground arith)
result_of-some (some v) a e = (v, refl, some_eq e)

test-HoldsOn :
    (row : Row) (test : ColumnTest) (op : NumericComparisonOp) (value : NumericValue)
    → TestHolds row test
    → convert_operation test.operation ≡ some op
    → numeric_literal test.literal ≡ some value
    → HoldsOn row (numeric_predicate test op value)
test-HoldsOn row test op value (cell, read, h) e l =
    let literal_is = numeric_literal-result test.literal value l in
    elim (Bool-cases test.column_on_left) [
      | inl left ↦
          let (a, b, ea, eb, (c, made, tested)) =
            binary_value-Compared test.operation op (result_of cell) (result_of test.literal) e
              (simp left at h) in
          let (v, some_v, is_v) = result_of-some cell a ea in
          let compared : compare_result_values (result_of_value v) (literal_result value) ≡ ok c =
            ap₂ compare_result_values is_v (some_eq (sym literal_is ∙ eb)) ∙ made in
          (
            v,
            read ∙ ap ok some_v,
            simp left
                (left_holds op v value c compared (converted_test test.operation op c e tested)),
          )
      | inr right ↦
          let (b, a, eb, ea, (c, made, tested)) =
            binary_value-Compared test.operation op (result_of test.literal) (result_of cell) e
              (simp right at h) in
          let (v, some_v, is_v) = result_of-some cell a ea in
          let compared : compare_result_values (literal_result value) (result_of_value v) ≡ ok c =
            ap₂ compare_result_values (some_eq (sym literal_is ∙ eb)) is_v ∙ made in
          (
            v,
            read ∙ ap ok some_v,
            simp right
                (right_holds op v value c compared (converted_test test.operation op c e tested)),
          )
    ]

filter_test-HoldsOn :
    (schema : Schema) (row : Row) (test : ColumnTest)
    → TestHolds row test
    → All (HoldsOn row) (filter_test schema test)
unfolding filter_test
filter_test-HoldsOn schema row test h =
    go (convert_operation test.operation) refl (numeric_literal test.literal) refl
  where
    go :
        (o : Option NumericComparisonOp)
        → convert_operation test.operation ≡ o
        → (l : Option NumericValue) → numeric_literal test.literal ≡ l
        → All (HoldsOn row) (elim o [
          | none ↦ []
          | some op ↦ elim l [
            | none ↦ []
            | some value ↦ elim (get_column schema test.column_index) [
              | err _ ↦ []
              | ok column ↦
                  if is_filter_column column then numeric_predicate test op value ∷ [] else []
            ]
          ]
        ])
    go none _ l _ = tt
    go (some op) _ none _ = tt
    go (some op) e (some value) l = found (get_column schema test.column_index)
      where
        found :
            (r : Result Column)
            → All (HoldsOn row) (elim r [
              | err _ ↦ []
              | ok column ↦
                  if is_filter_column column then numeric_predicate test op value ∷ [] else []
            ])
        found (err _) = tt
        found (ok column) = elim (Bool-cases (is_filter_column column)) [
          | inl b ↦ simp b (test-HoldsOn row test op value h e l, tt)
          | inr b ↦ simp b tt
        ]

skipping_predicates-HoldsOn :
    (schema : Schema) (row : Row) (es : List BoundExpression)
    → All (Accepts row) es
    → All (HoldsOn row) (skipping_predicates schema es)
unfolding skipping_predicates
skipping_predicates-HoldsOn schema row [] h = tt
skipping_predicates-HoldsOn schema row (e ∷ es) (h, hs) =
    All-append (HoldsOn row) (filter_tests schema (column_test e)) (skipping_predicates schema es)
      (go (column_test e) refl) (skipping_predicates-HoldsOn schema row es hs)
  where
    go : (o : Option ColumnTest) → column_test e ≡ o → All (HoldsOn row) (filter_tests schema o)
    go none _ = tt
    go (some test) t = filter_test-HoldsOn schema row test (column_test-TestHolds row e test h t)

-- Every predicate of the filter holds on a row that passes the WHERE clause: the column of the row has a
-- value, and its comparison with the literal, turned around where the literal stands on the left, is true.
pub build_data_skipping_filter-HoldsOn :
    (statement : BoundSelectStatement) (row : Row)
    → Passes row statement.where_expression
    → All (HoldsOn row) (build_data_skipping_filter statement)
unfolding build_data_skipping_filter
build_data_skipping_filter-HoldsOn statement row h = go statement.where_expression h
  where
    go :
        (o : Option BoundExpression)
        → Passes row o
        → All (HoldsOn row) (elim o [
          | none ↦ []
          | some e ↦ skipping_predicates statement.schema (collect_conjuncts e)
        ])
    go none _ = tt
    go (some e) h =
        skipping_predicates-HoldsOn statement.schema row (collect_conjuncts e)
          (Passes-conjuncts row (some e) h)

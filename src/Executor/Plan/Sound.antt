-- ===== src/Executor/Plan/Sound.antt =====
-- A row that a WHERE clause accepts is within what `Executor::BuildCursorForSelect`
-- (src/executor/executor.cpp) asks of the storage engine.
use htap_storage_lsm_tree.Common.{
  ℕ, Bool, true, false, Option, none, some, List, [], ◌∷◌, ◌≡◌, ◌≢◌, refl, arith, ap, ◌∙◌, subst,
  sym, if◌then◌else◌, ok, err, ok_of_bind, ℤ, ◌≤ℤ◌, int64_max, All, Bool-cases, inl, inr,
  bad_access,
}
use htap_storage_lsm_tree.Types.{Key, Row, Value, NullableValue, contains}
use htap_storage_lsm_tree.Schema.{Schema, Column, get_column}
use htap_storage_lsm_tree.Parser.Ast.{BinaryOperation}
use htap_storage_lsm_tree.Skipping.{NumericColumnPredicate}
use htap_storage_lsm_tree.Skipping.Compare.{compare_ints}
use htap_storage_lsm_tree.Executor.Bound.{BoundExpression, ResultValue, BoundSelectStatement}
use htap_storage_lsm_tree.Executor.Evaluate.{
  row_value, result_of, and_values, or_values, compare_values, compare_result_values,
  test_comparison, boolean, binary_value,
}
use htap_storage_lsm_tree.Executor.Plan.{
  ColumnTest, column_test, KeyPlan, whole_plan, apply_literal, apply_test, apply_operation,
  key_plan, Read, read_of, build_read, where_conjuncts, is_empty_range, scan_order,
  build_data_skipping_filter,
}
use htap_storage_lsm_tree.Executor.Plan.Range.{
  Admits, AtLeast, Below, IsPoint, compare_sides, apply_operation-Admits,
}
use htap_storage_lsm_tree.Executor.Plan.Tests.{
  some_eq, ok_eq, Accepts, sides, TestHolds, column_test-TestHolds, Passes, Passes-conjuncts,
}

-- The key of the row, in the column of the schema's key.
pub record HasKeyCell (schema : Schema) (row : Row) (k : Key) : Type 0 where
  pub cell : row_value row 0 ≡ ok (some (Value.int64 k))
  pub bounded : k ≤ℤ int64_max
  pub key_first : (i : ℕ) (c : Column) → get_column schema i ≡ ok c → c.is_key ≡ true → i ≡ 0

-- A comparison with null is not true, on either side.
null_side :
    (operation : BinaryOperation) (left : Bool) (k : ℤ)
    → (if left
        then binary_value operation (some (ResultValue.int64 k)) none
        else binary_value operation none (some (ResultValue.int64 k)))
      ≢ ok (some (ResultValue.bool true))
unfolding and_values or_values compare_values
null_side BinaryOperation.and true k h = ground arith
null_side BinaryOperation.and false k h = ground arith
null_side BinaryOperation.or true k h = ground arith
null_side BinaryOperation.or false k h = ground arith
null_side _ true k h = ground arith
null_side _ false k h = ground arith

compared_ints :
    (operation : BinaryOperation) (a b : ℤ)
    → compare_values operation (some (ResultValue.int64 a)) (some (ResultValue.int64 b))
      ≡ ok (some (ResultValue.bool true))
    → test_comparison operation (compare_ints a b) ≡ ok true
unfolding compare_values compare_result_values
compared_ints operation a b h =
    let (holds, tested, e) = ok_of_bind boolean (test_comparison operation (compare_ints a b)) h in
    tested ∙ ap ok (bool_eq (some_eq (ok_eq e)))
  where
    bool_eq : {x : Bool} → ResultValue.bool x ≡ ResultValue.bool true → x ≡ true
    bool_eq e = ground arith

int_sides :
    (operation : BinaryOperation) (a b : ℤ)
    → binary_value operation (some (ResultValue.int64 a)) (some (ResultValue.int64 b))
      ≡ ok (some (ResultValue.bool true))
    → test_comparison operation (compare_ints a b) ≡ ok true
unfolding and_values or_values
int_sides BinaryOperation.and a b h = absurd (ground arith)
int_sides BinaryOperation.or a b h = absurd (ground arith)
int_sides BinaryOperation.equal a b h = compared_ints BinaryOperation.equal a b h
int_sides BinaryOperation.not_equal a b h = compared_ints BinaryOperation.not_equal a b h
int_sides BinaryOperation.less a b h = compared_ints BinaryOperation.less a b h
int_sides BinaryOperation.less_equal a b h = compared_ints BinaryOperation.less_equal a b h
int_sides BinaryOperation.greater a b h = compared_ints BinaryOperation.greater a b h
int_sides BinaryOperation.greater_equal a b h = compared_ints BinaryOperation.greater_equal a b h

int_comparison :
    (operation : BinaryOperation) (left : Bool) (k key : ℤ)
    → (if left
        then binary_value operation (some (ResultValue.int64 k)) (some (ResultValue.int64 key))
        else binary_value operation (some (ResultValue.int64 key)) (some (ResultValue.int64 k)))
      ≡ ok (some (ResultValue.bool true))
    → test_comparison operation (compare_sides left k key) ≡ ok true
int_comparison operation true k key h = int_sides operation k key h
int_comparison operation false k key h = int_sides operation key k h

apply_literal-Admits :
    (test : ColumnTest) (k : Key) (plan plan' : KeyPlan)
    → sides test (some (Value.int64 k)) ≡ ok (some (ResultValue.bool true))
    → k ≤ℤ int64_max
    → Admits plan k
    → apply_literal test plan ≡ ok plan'
    → Admits plan' k
unfolding apply_literal
apply_literal-Admits test k plan plan' h m a e =
    go test.operation test.column_on_left test.literal h e
  where
    go :
        (operation : BinaryOperation) (left : Bool) (literal : NullableValue)
        → (if left
            then binary_value operation (result_of (some (Value.int64 k))) (result_of literal)
            else binary_value operation (result_of literal) (result_of (some (Value.int64 k))))
          ≡ ok (some (ResultValue.bool true))
        → elim literal [
          | none ↦ ok (record plan { empty_result = true })
          | some value ↦ elim value [
            | Value.int64 key ↦ ok (apply_operation operation left key plan)
            | _ ↦ err bad_access
          ]
        ]
          ≡ ok plan'
        → Admits plan' k
    go operation left none h e = absurd (null_side operation left k h)
    go operation left (some (Value.int64 key)) h e =
        subst (λ q. Admits q k) (ok_eq e)
          (apply_operation-Admits operation left plan k key a m
            (int_comparison operation left k key h))
    go operation left (some (Value.double d)) h e = absurd (ground arith)
    go operation left (some (Value.string d)) h e = absurd (ground arith)

apply_test-Admits :
    (schema : Schema) (row : Row) (k : Key) (e : BoundExpression) (plan plan' : KeyPlan)
    → HasKeyCell schema row k
    → Accepts row e
    → Admits plan k
    → apply_test schema (column_test e) plan ≡ ok plan'
    → Admits plan' k
apply_test-Admits schema row k e plan plan' c h a s = go (column_test e) refl s
  where
    tested :
        (test : ColumnTest) (column : Column) (b : Bool)
        → TestHolds row test
        → get_column schema test.column_index ≡ ok column
        → column.is_key ≡ b
        → (if b then apply_literal test plan else ok plan) ≡ ok plan'
        → Admits plan' k
    tested test column false t g f s = subst (λ q. Admits q k) (ok_eq s) a
    tested test column true (value, read, holds) g f s =
        let place = c.key_first test.column_index column g f in
        let same : value ≡ some (Value.int64 k) =
          ok_eq (sym read ∙ ap (row_value row) place ∙ c.cell) in
        apply_literal-Admits test k plan plan'
          (subst (λ v. sides test v ≡ ok (some (ResultValue.bool true))) same holds) c.bounded a s

    go :
        (o : Option ColumnTest)
        → column_test e ≡ o
        → apply_test schema o plan ≡ ok plan'
        → Admits plan' k
    go none _ s = subst (λ q. Admits q k) (ok_eq s) a
    go (some test) t s =
        let (column, g, later) =
          ok_of_bind (λ column. if column.is_key then apply_literal test plan else ok plan)
            (get_column schema test.column_index) s in
        tested test column column.is_key (column_test-TestHolds row e test h t) g refl later

key_plan-Admits :
    (schema : Schema) (row : Row) (k : Key) (es : List BoundExpression) (plan plan' : KeyPlan)
    → HasKeyCell schema row k
    → All (Accepts row) es
    → Admits plan k
    → key_plan schema es plan ≡ ok plan'
    → Admits plan' k
unfolding key_plan
key_plan-Admits schema row k [] plan plan' c h a s = subst (λ q. Admits q k) (ok_eq s) a
key_plan-Admits schema row k (e ∷ es) plan plan' c (h, hs) a s =
    let (next, stepped, later) =
      ok_of_bind (λ next. if next.empty_result then ok next else key_plan schema es next)
        (apply_test schema (column_test e) plan) s in
    let b = apply_test-Admits schema row k e plan next c h a stepped in
    key_plan-Admits schema row k es next plan' c hs b (simp b.not_empty at later)

-- What is read has the key `k`.
abbrev pub Covers : Read → Key → Type 0
Covers Read.no_rows k = ⊥
Covers (Read.get key) k = key ≡ k
Covers (Read.scan f t order filter) k = contains (record { from = f; to = t }) k ≡ true

range-contains :
    (f t : Option Key) (k : Key)
    → AtLeast f k
    → Below t k
    → contains (record { from = f; to = t }) k ≡ true
unfolding contains
range-contains none none k l u = refl
range-contains none (some t) k l u = ground arith
range-contains (some f) none k l u = ground arith
range-contains (some f) (some t) k l u = ground arith

nonempty_range : (f t : Option Key) (k : Key) → AtLeast f k → Below t k → is_empty_range f t ≡ false
nonempty_range none none k l u = refl
nonempty_range none (some t) k l u = refl
nonempty_range (some f) none k l u = refl
nonempty_range (some f) (some t) k l u = ground arith

read_of-Covers :
    (plan : KeyPlan) (asc : Bool) (filter : List NumericColumnPredicate) (k : Key)
    → Admits plan k
    → Covers (read_of plan asc filter) k
unfolding read_of
read_of-Covers plan asc filter k a = simp a.not_empty (go plan.point_key a.point)
  where
    go :
        (o : Option Key)
        → IsPoint o k
        → Covers
            (elim o [
              | some key ↦ Read.get key
              | none ↦
                  if plan.found_any_range_predicate
                  then (if is_empty_range plan.from plan.to
                      then Read.no_rows
                      else Read.scan plan.from plan.to (scan_order asc) filter)
                  else Read.scan none none (scan_order asc) filter
            ])
            k
    go (some key) e = e
    go none _ = elim (Bool-cases plan.found_any_range_predicate) [
      | inl f ↦
          simp (f, nonempty_range plan.from plan.to k a.lower a.upper)
            (range-contains plan.from plan.to k a.lower a.upper)
      | inr f ↦ simp f (range-contains none none k tt tt)
    ]

-- A row whose key stands in the key column, and that passes the WHERE clause, is not lost by the key
-- range: the read is not empty, a point read is at the row's key, and a scan's half-open range holds it,
-- with the keys at the end of the int64 range included.
pub build_read-Covers :
    (statement : BoundSelectStatement) (asc : Bool) (row : Row) (k : Key) {read : Read}
    → HasKeyCell statement.schema row k
    → Passes row statement.where_expression
    → build_read statement asc ≡ ok read
    → Covers read k
unfolding build_read
build_read-Covers statement asc row k c h e =
    let conjuncts = where_conjuncts statement.where_expression in
    let finish = λ (plan : KeyPlan). ok (read_of plan asc (build_data_skipping_filter statement)) in
    let (plan, planned, made) =
      ok_of_bind finish (key_plan statement.schema conjuncts whole_plan) e in
    let a =
      key_plan-Admits statement.schema row k conjuncts whole_plan plan c
        (Passes-conjuncts row statement.where_expression h)
        (record { not_empty = refl; point = tt; lower = tt; upper = tt }) planned in
    subst (λ r. Covers r k) (ok_eq made)
      (read_of-Covers plan asc (build_data_skipping_filter statement) k a)

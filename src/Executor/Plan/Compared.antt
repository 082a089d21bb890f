-- ===== src/Executor/Plan/Compared.antt =====
-- A true comparison of a column with a literal in src/executor/executor.cpp, as the predicate of the filter for
-- data skipping sees it.
use htap_storage_lsm_tree.Common.{
  Bool, true, false, none, some, ◌≡◌, refl, arith, ap, ◌∙◌, subst, sym, if◌then◌else◌, ok,
  ok_of_bind, ◌>>=◌, ℤ, pos, negsuc,
}
use htap_storage_lsm_tree.Types.{Value}
use htap_storage_lsm_tree.Types.Float64.{Double, lt_double}
use htap_storage_lsm_tree.Types.Float64.Arithmetic.{of_int}
use htap_storage_lsm_tree.Parser.Ast.{BinaryOperation}
use htap_storage_lsm_tree.Skipping.{NumericComparisonOp, NumericValue, int64_value, double_value}
use htap_storage_lsm_tree.Skipping.Compare.{compare_ints, compare_doubles, accepts, satisfies}
use htap_storage_lsm_tree.Executor.Bound.{ResultValue, NullableResultValue}
use htap_storage_lsm_tree.Executor.Evaluate.{
  result_of_value, compare_values, compare_result_values, test_comparison, boolean, binary_value,
}
use htap_storage_lsm_tree.Executor.Plan.{convert_operation, reverse_operation}
use htap_storage_lsm_tree.Executor.Plan.Tests.{some_eq, ok_eq}

flip_ints :
    (op : NumericComparisonOp) (a b : ℤ)
    → accepts op (compare_ints a b) ≡ accepts (reverse_operation op) (compare_ints b a)
unfolding reverse_operation
flip_ints NumericComparisonOp.equal a b = ground arith
flip_ints NumericComparisonOp.less a b = ground arith
flip_ints NumericComparisonOp.less_equal a b = ground arith
flip_ints NumericComparisonOp.greater a b = ground arith
flip_ints NumericComparisonOp.greater_equal a b = ground arith

lt_asym : (a b : Double) → lt_double a b ≡ true → lt_double b a ≡ false
lt_asym a b h = ground arith

flip_signs :
    (op : NumericComparisonOp) (x y : Bool)
    → (x ≡ true → y ≡ false)
    → accepts op (if x then negsuc 0 else if y then pos 1 else pos 0)
      ≡ accepts (reverse_operation op) (if y then negsuc 0 else if x then pos 1 else pos 0)
unfolding reverse_operation
flip_signs op true true h = absurd (ground (arith, h refl))
flip_signs NumericComparisonOp.equal true false h = refl
flip_signs NumericComparisonOp.less true false h = refl
flip_signs NumericComparisonOp.less_equal true false h = refl
flip_signs NumericComparisonOp.greater true false h = refl
flip_signs NumericComparisonOp.greater_equal true false h = refl
flip_signs NumericComparisonOp.equal false true h = refl
flip_signs NumericComparisonOp.less false true h = refl
flip_signs NumericComparisonOp.less_equal false true h = refl
flip_signs NumericComparisonOp.greater false true h = refl
flip_signs NumericComparisonOp.greater_equal false true h = refl
flip_signs NumericComparisonOp.equal false false h = refl
flip_signs NumericComparisonOp.less false false h = refl
flip_signs NumericComparisonOp.less_equal false false h = refl
flip_signs NumericComparisonOp.greater false false h = refl
flip_signs NumericComparisonOp.greater_equal false false h = refl

flip_doubles :
    (op : NumericComparisonOp) (a b : Double)
    → accepts op (compare_doubles a b) ≡ accepts (reverse_operation op) (compare_doubles b a)
flip_doubles op a b = flip_signs op (lt_double a b) (lt_double b a) (lt_asym a b)

-- The two comparisons of `CompareResultValues` between a numeric value and a literal.
abbrev pub literal_result : NumericValue → ResultValue
literal_result (int64_value n) = ResultValue.int64 n
literal_result (double_value d) = ResultValue.double d

pub converted_test :
    (operation : BinaryOperation) (op : NumericComparisonOp) (c : ℤ)
    → convert_operation operation ≡ some op
    → test_comparison operation c ≡ ok true
    → accepts op c ≡ true
unfolding convert_operation test_comparison
converted_test BinaryOperation.equal op c e h =
    subst (λ o. accepts o c ≡ true) (some_eq e) (ok_eq h)
converted_test BinaryOperation.not_equal op c e h = absurd (ground arith)
converted_test BinaryOperation.less op c e h = subst (λ o. accepts o c ≡ true) (some_eq e) (ok_eq h)
converted_test BinaryOperation.less_equal op c e h =
    subst (λ o. accepts o c ≡ true) (some_eq e) (ok_eq h)
converted_test BinaryOperation.greater op c e h =
    subst (λ o. accepts o c ≡ true) (some_eq e) (ok_eq h)
converted_test BinaryOperation.greater_equal op c e h =
    subst (λ o. accepts o c ≡ true) (some_eq e) (ok_eq h)
converted_test BinaryOperation.and op c e h = absurd (ground arith)
converted_test BinaryOperation.or op c e h = absurd (ground arith)

-- a comparison that is true: the two sides have a result, which the operation accepts
abbrev Compared : BinaryOperation → NullableResultValue → NullableResultValue → Type 0
Compared operation x y =
    (a : ResultValue) × (b : ResultValue) × (x ≡ some a)
    × (y ≡ some b)
    × ((c : ℤ) × (compare_result_values a b ≡ ok c) × (test_comparison operation c ≡ ok true))

bool_eq : {x : Bool} → ResultValue.bool x ≡ ResultValue.bool true → x ≡ true
bool_eq e = ground arith

compare_values-Compared :
    (operation : BinaryOperation) (x y : NullableResultValue)
    → compare_values operation x y ≡ ok (some (ResultValue.bool true))
    → Compared operation x y
unfolding compare_values
compare_values-Compared operation none y h = absurd (ground arith)
compare_values-Compared operation (some a) none h = absurd (ground arith)
compare_values-Compared operation (some a) (some b) h =
    let (c, made, later) =
      ok_of_bind (λ c. test_comparison operation c >>= λ holds. boolean holds)
        (compare_result_values a b) h in
    let (holds, tested, e) = ok_of_bind boolean (test_comparison operation c) later in
    (a, b, refl, refl, (c, made, tested ∙ ap ok (bool_eq (some_eq (ok_eq e)))))

pub binary_value-Compared :
    (operation : BinaryOperation) (op : NumericComparisonOp) (x y : NullableResultValue)
    → convert_operation operation ≡ some op
    → binary_value operation x y ≡ ok (some (ResultValue.bool true))
    → Compared operation x y
unfolding convert_operation
binary_value-Compared BinaryOperation.and op x y e h = absurd (ground arith)
binary_value-Compared BinaryOperation.or op x y e h = absurd (ground arith)
binary_value-Compared BinaryOperation.not_equal op x y e h = absurd (ground arith)
binary_value-Compared BinaryOperation.equal op x y e h =
    compare_values-Compared BinaryOperation.equal x y h
binary_value-Compared BinaryOperation.less op x y e h =
    compare_values-Compared BinaryOperation.less x y h
binary_value-Compared BinaryOperation.less_equal op x y e h =
    compare_values-Compared BinaryOperation.less_equal x y h
binary_value-Compared BinaryOperation.greater op x y e h =
    compare_values-Compared BinaryOperation.greater x y h
binary_value-Compared BinaryOperation.greater_equal op x y e h =
    compare_values-Compared BinaryOperation.greater_equal x y h

pub left_holds :
    (op : NumericComparisonOp) (v : Value) (value : NumericValue) (c : ℤ)
    → compare_result_values (result_of_value v) (literal_result value) ≡ ok c
    → accepts op c ≡ true
    → satisfies of_int op v value ≡ true
unfolding compare_result_values
left_holds op (Value.int64 a) (int64_value b) c e h =
    subst (λ z. accepts op z ≡ true) (sym (ok_eq e)) h
left_holds op (Value.int64 a) (double_value b) c e h =
    subst (λ z. accepts op z ≡ true) (sym (ok_eq e)) h
left_holds op (Value.double a) (int64_value b) c e h =
    subst (λ z. accepts op z ≡ true) (sym (ok_eq e)) h
left_holds op (Value.double a) (double_value b) c e h =
    subst (λ z. accepts op z ≡ true) (sym (ok_eq e)) h
left_holds op (Value.string a) (int64_value b) c e h = absurd (ground arith)
left_holds op (Value.string a) (double_value b) c e h = absurd (ground arith)

pub right_holds :
    (op : NumericComparisonOp) (v : Value) (value : NumericValue) (c : ℤ)
    → compare_result_values (literal_result value) (result_of_value v) ≡ ok c
    → accepts op c ≡ true
    → satisfies of_int (reverse_operation op) v value ≡ true
unfolding compare_result_values
right_holds op (Value.int64 a) (int64_value b) c e h =
    sym (flip_ints op b a) ∙ subst (λ z. accepts op z ≡ true) (sym (ok_eq e)) h
right_holds op (Value.int64 a) (double_value b) c e h =
    sym (flip_doubles op b (of_int a)) ∙ subst (λ z. accepts op z ≡ true) (sym (ok_eq e)) h
right_holds op (Value.double a) (int64_value b) c e h =
    sym (flip_doubles op (of_int b) a) ∙ subst (λ z. accepts op z ≡ true) (sym (ok_eq e)) h
right_holds op (Value.double a) (double_value b) c e h =
    sym (flip_doubles op b a) ∙ subst (λ z. accepts op z ≡ true) (sym (ok_eq e)) h
right_holds op (Value.string a) (int64_value b) c e h = absurd (ground arith)
right_holds op (Value.string a) (double_value b) c e h = absurd (ground arith)

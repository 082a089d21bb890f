-- ===== src/Executor/Aggregates.antt =====
-- `GlobalAggregateState` with its update and its result (src/executor/executor.cpp). A sum of integers
-- wraps around, as the hardware does where the C++ standard leaves it open.
pub mod Runs
pub mod Laws
use htap_storage_lsm_tree.Common.{
  ℕ, suc, ◌+◌, String, Bool, true, false, Option, none, some, List, [], ◌∷◌, ◌==◌, if◌then◌else◌,
  Result, ok, err, runtime_error, bad_access, ◌>>=◌, ℤ, pos, ◌+ℤ◌, ltb_ℤ, int64_max, int64_min,
}
use htap_storage_lsm_tree.Bytes.{to_u64, from_u64}
use htap_storage_lsm_tree.Types.Float64.{Double, lt_double, zero_double}
use htap_storage_lsm_tree.Types.Float64.Arithmetic.{add_double, div_double, of_int}
use htap_storage_lsm_tree.Parser.Ast.{AggregateKind}
use htap_storage_lsm_tree.Executor.Bound.{ExpressionType, ResultValue, NullableResultValue}

pub record GlobalAggregateState : Type 0 where
  pub count : ℕ
  pub int_sum : ℤ
  pub int_min : ℤ
  pub int_max : ℤ
  pub double_sum : Double
  pub double_min : Double
  pub double_max : Double

abbrev pub empty_state : GlobalAggregateState
empty_state = record {
  count = 0;
  int_sum = pos 0;
  int_min = int64_max;
  int_max = int64_min;
  double_sum = zero_double;
  double_min = record { bits = 0x7fefffffffffffff };
  double_max = record { bits = 0xffefffffffffffff };
}

-- `++aggregate_state.count`
abbrev pub counted : GlobalAggregateState → GlobalAggregateState
counted s = record s { count = suc s.count }

unfoldable pub wrap : ℤ → ℤ
wrap a = from_u64 (to_u64 a)

-- `std::get<std::int64_t>(*value)` and `std::get<double>(*value)`
abbrev pub get_int : ResultValue → Result ℤ
get_int (ResultValue.int64 n) = ok n
get_int _ = err bad_access

abbrev pub get_double : ResultValue → Result Double
get_double (ResultValue.double d) = ok d
get_double _ = err bad_access

-- the branches of a function whose result is an integer or a double
abbrev pub by_type {ℓ} : {A : Type ℓ} → ExpressionType → Result A → Result A → String → Result A
by_type ExpressionType.int64 int double message = int
by_type ExpressionType.double int double message = double
by_type _ int double message = err (runtime_error message)

unfoldable pub update_avg : ResultValue → GlobalAggregateState → Result GlobalAggregateState
update_avg (ResultValue.double d) s = ok (record s { double_sum = add_double s.double_sum d })
update_avg (ResultValue.int64 n) s =
    ok (record s { double_sum = add_double s.double_sum (of_int n) })
update_avg _ s = err (runtime_error "AVG expects numeric value")

abbrev pub add_int : GlobalAggregateState → ℤ → GlobalAggregateState
add_int s n = record s { int_sum = wrap (s.int_sum +ℤ n) }

abbrev pub add_real : GlobalAggregateState → Double → GlobalAggregateState
add_real s d = record s { double_sum = add_double s.double_sum d }

abbrev pub lower_int : GlobalAggregateState → ℤ → GlobalAggregateState
lower_int s n = record s { int_min = if ltb_ℤ n s.int_min then n else s.int_min }

abbrev pub lower_real : GlobalAggregateState → Double → GlobalAggregateState
lower_real s d = record s { double_min = if lt_double d s.double_min then d else s.double_min }

abbrev pub raise_int : GlobalAggregateState → ℤ → GlobalAggregateState
raise_int s n = record s { int_max = if ltb_ℤ s.int_max n then n else s.int_max }

abbrev pub raise_real : GlobalAggregateState → Double → GlobalAggregateState
raise_real s d = record s { double_max = if lt_double s.double_max d then d else s.double_max }

-- the `switch`, for a value that is there; `s` has counted it
unfoldable pub update_value :
    AggregateKind
    → ExpressionType
    → ResultValue
    → GlobalAggregateState
    → Result GlobalAggregateState
unfolding update_avg
update_value AggregateKind.count type v s = ok s
update_value AggregateKind.avg type v s = update_avg v s
update_value AggregateKind.sum type v s =
    by_type type (do n ← get_int v; ok (add_int s n)) (do d ← get_double v; ok (add_real s d))
      "Unsupported SUM result type"
update_value AggregateKind.min type v s =
    by_type type (do n ← get_int v; ok (lower_int s n)) (do d ← get_double v; ok (lower_real s d))
      "Unsupported MIN result type"
update_value AggregateKind.max type v s =
    by_type type (do n ← get_int v; ok (raise_int s n)) (do d ← get_double v; ok (raise_real s d))
      "Unsupported MAX result type"

unfoldable pub update_global_aggregate_state :
    AggregateKind
    → ExpressionType
    → NullableResultValue
    → GlobalAggregateState
    → Result GlobalAggregateState
unfolding update_value
update_global_aggregate_state kind type none s = ok s
update_global_aggregate_state kind type (some v) s = update_value kind type v (counted s)

abbrev pub int_result : ℤ → Result NullableResultValue
int_result n = ok (some (ResultValue.int64 n))

abbrev pub double_result : Double → Result NullableResultValue
double_result d = ok (some (ResultValue.double d))

abbrev pub average : ExpressionType → GlobalAggregateState → Result NullableResultValue
average ExpressionType.double s = double_result (div_double s.double_sum s.count)
average _ s = err (runtime_error "Unsupported AVG result type")

unfoldable pub finalize_aggregate_state :
    AggregateKind → ExpressionType → GlobalAggregateState → Result NullableResultValue
finalize_aggregate_state AggregateKind.count type s = int_result (pos s.count)
finalize_aggregate_state AggregateKind.avg type s = if s.count == 0 then ok none else average type s
finalize_aggregate_state AggregateKind.sum type s =
    if s.count == 0
    then ok none
    else by_type type (int_result s.int_sum) (double_result s.double_sum)
        "Unsupported SUM result type"
finalize_aggregate_state AggregateKind.min type s =
    if s.count == 0
    then ok none
    else by_type type (int_result s.int_min) (double_result s.double_min)
        "Unsupported MIN result type"
finalize_aggregate_state AggregateKind.max type s =
    if s.count == 0
    then ok none
    else by_type type (int_result s.int_max) (double_result s.double_max)
        "Unsupported MAX result type"

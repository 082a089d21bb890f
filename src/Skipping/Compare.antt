-- ===== src/Skipping/Compare.antt =====
-- Comparisons of a value with a literal, and what they say of bounds of the value.
use htap_storage_lsm_tree.Common.{
  ◌≡◌, Bool, true, false, if◌then◌else◌, ℤ, pos, negsuc, ltb_ℤ, leb_ℤ, eqb_ℤ, ◌≤ℤ◌, arith,
}
use htap_storage_lsm_tree.Types.{Value}
use htap_storage_lsm_tree.Types.Float64.{Double, lt_double, is_nan, order_key}
use htap_storage_lsm_tree.Skipping.{
  NumericComparisonOp, NumericValue, int64_value, double_value, int_may_satisfy, double_may_satisfy,
}

-- `CompareResultValues` (src/executor/executor.cpp) of two integers and of two doubles
abbrev pub compare_ints : ℤ → ℤ → ℤ
compare_ints a b = if ltb_ℤ a b then negsuc 0 else if ltb_ℤ b a then pos 1 else pos 0

abbrev pub compare_doubles : Double → Double → ℤ
compare_doubles a b = if lt_double a b then negsuc 0 else if lt_double b a then pos 1 else pos 0

-- The test of a comparison operator on the result of the comparison
abbrev pub accepts : NumericComparisonOp → ℤ → Bool
accepts NumericComparisonOp.equal c = eqb_ℤ c (pos 0)
accepts NumericComparisonOp.less c = ltb_ℤ c (pos 0)
accepts NumericComparisonOp.less_equal c = leb_ℤ c (pos 0)
accepts NumericComparisonOp.greater c = ltb_ℤ (pos 0) c
accepts NumericComparisonOp.greater_equal c = leb_ℤ (pos 0) c

pub int_sound :
    (op : NumericComparisonOp) (lo hi k x : ℤ)
    → lo ≤ℤ k
    → k ≤ℤ hi
    → accepts op (compare_ints k x) ≡ true
    → int_may_satisfy op lo hi x ≡ true
unfolding int_may_satisfy
int_sound NumericComparisonOp.equal lo hi k x a b h = ground arith
int_sound NumericComparisonOp.less lo hi k x a b h = ground arith
int_sound NumericComparisonOp.less_equal lo hi k x a b h = ground arith
int_sound NumericComparisonOp.greater lo hi k x a b h = ground arith
int_sound NumericComparisonOp.greater_equal lo hi k x a b h = ground arith

-- Among numbers, `<=` is the order of the keys.
pub record LeDouble (a b : Double) : Type 0 where
  pub left : is_nan a ≡ false
  pub right : is_nan b ≡ false
  pub ordered : order_key a ≤ℤ order_key b

pub double_sound :
    (op : NumericComparisonOp) (lo hi d x : Double)
    → LeDouble lo d
    → LeDouble d hi
    → is_nan x ≡ false
    → accepts op (compare_doubles d x) ≡ true
    → double_may_satisfy op lo hi x ≡ true
unfolding double_may_satisfy
double_sound NumericComparisonOp.equal lo hi d x a b n h =
    simp (a.left, b.right, n) (ground (arith, a.ordered, b.ordered, simp (b.left, n) at h))
double_sound NumericComparisonOp.less lo hi d x a b n h =
    simp (a.left, n) (ground (arith, a.ordered, simp (b.left, n) at h))
double_sound NumericComparisonOp.less_equal lo hi d x a b n h =
    simp (a.left, n) (ground (arith, a.ordered, simp (b.left, n) at h))
double_sound NumericComparisonOp.greater lo hi d x a b n h =
    simp (b.right, n) (ground (arith, b.ordered, simp (b.left, n) at h))
double_sound NumericComparisonOp.greater_equal lo hi d x a b n h =
    simp (b.right, n) (ground (arith, b.ordered, simp (b.left, n) at h))

-- `static_cast<double>` keeps the order and gives numbers.
pub record IsMonotone (to_double : ℤ → Double) : Type 0 where
  pub number : (a : ℤ) → is_nan (to_double a) ≡ false
  pub ordered : (a b : ℤ) → a ≤ℤ b → order_key (to_double a) ≤ℤ order_key (to_double b)

-- The comparison of a value of the column with the literal of the predicate, as `CompareResultValues` makes it.
abbrev pub satisfies : (ℤ → Double) → NumericComparisonOp → Value → NumericValue → Bool
satisfies to_double op (Value.int64 k) (int64_value x) = accepts op (compare_ints k x)
satisfies to_double op (Value.int64 k) (double_value x) =
    accepts op (compare_doubles (to_double k) x)
satisfies to_double op (Value.double d) (int64_value x) =
    accepts op (compare_doubles d (to_double x))
satisfies to_double op (Value.double d) (double_value x) = accepts op (compare_doubles d x)
satisfies to_double op (Value.string s) x = false

abbrev pub IsNumberLiteral : NumericValue → Type 0
IsNumberLiteral (int64_value x) = Unit
IsNumberLiteral (double_value x) = is_nan x ≡ false

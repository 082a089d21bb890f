-- ===== src/Executor/Plan/Range.antt =====
-- The key range of a WHERE clause keeps every key that the clause accepts.
use htap_storage_lsm_tree.Common.{
  Bool, true, false, Option, none, some, ◌≡◌, arith, ◌∙◌, sym, if◌then◌else◌, ok, ℤ, pos, ◌+ℤ◌,
  eqb_ℤ, ◌≤ℤ◌, ◌<ℤ◌, int64_max, Bool-cases, inl, inr, eq_of_parts, +ℤ_parts,
}
use htap_storage_lsm_tree.Types.{Key}
use htap_storage_lsm_tree.Skipping.Compare.{compare_ints}
use htap_storage_lsm_tree.Parser.Ast.{BinaryOperation}
use htap_storage_lsm_tree.Executor.Evaluate.{test_comparison}
use htap_storage_lsm_tree.Executor.Plan.{
  KeyPlan, emptied, raised, lowered, found_range, raise_from, lower_to, above, at_most, equal_to,
  apply_operation,
}

abbrev pub AtLeast : Option Key → Key → Type 0
AtLeast none k = Unit
AtLeast (some f) k = f ≤ℤ k

abbrev pub Below : Option Key → Key → Type 0
Below none k = Unit
Below (some t) k = k <ℤ t

abbrev pub IsPoint : Option Key → Key → Type 0
IsPoint none k = Unit
IsPoint (some p) k = p ≡ k

-- The plan does not lose the key `k`.
pub record Admits (plan : KeyPlan) (k : Key) : Type 0 where
  pub not_empty : plan.empty_result ≡ false
  pub point : IsPoint plan.point_key k
  pub lower : AtLeast plan.from k
  pub upper : Below plan.to k

raised-AtLeast : (o : Option Key) (k key : Key) → AtLeast o k → key ≤ℤ k → AtLeast (raised o key) k
raised-AtLeast none k key l h = h
raised-AtLeast (some f) k key l h = ground arith

lowered-Below : (o : Option Key) (k key : Key) → Below o k → k <ℤ key → Below (lowered o key) k
lowered-Below none k key l h = h
lowered-Below (some t) k key l h = ground arith

eqb_refl : (p key : Key) → p ≡ key → eqb_ℤ p key ≡ true
eqb_refl p key h = ground arith

module _ (plan : KeyPlan) (k key : Key) (a : Admits plan k) where
  raise_from-Admits : key ≤ℤ k → Admits (raise_from key plan) k
  unfolding raise_from
  raise_from-Admits h = record {
    not_empty = a.not_empty;
    point = a.point;
    lower = raised-AtLeast plan.from k key a.lower h;
    upper = a.upper;
  }

  lower_to-Admits : k <ℤ key → Admits (lower_to key plan) k
  unfolding lower_to
  lower_to-Admits h = record {
    not_empty = a.not_empty;
    point = a.point;
    lower = a.lower;
    upper = lowered-Below plan.to k key a.upper h;
  }

  found_range-Admits : Admits (found_range plan) k
  found_range-Admits = record {
    not_empty = a.not_empty;
    point = a.point;
    lower = a.lower;
    upper = a.upper;
  }

  equal_to-Admits : k ≡ key → Admits (equal_to key plan) k
  unfolding equal_to
  equal_to-Admits h = go plan.point_key a.point
    where
      go :
          (o : Option Key)
          → IsPoint o k
          → Admits
              (elim o [
                | none ↦ record plan { point_key = some key }
                | some p ↦ if eqb_ℤ p key then plan else emptied plan
              ])
              k
      go none _ = record {
        not_empty = a.not_empty;
        point = sym h;
        lower = a.lower;
        upper = a.upper;
      }
      go (some p) e = simp (eqb_refl p key (e ∙ h)) a

below_successor : (k key : Key) → k ≤ℤ key → k <ℤ (key +ℤ pos 1)
below_successor k key h = omega (arith, +ℤ_parts key (pos 1))

successor_at_most : (k key : Key) → key <ℤ k → (key +ℤ pos 1) ≤ℤ k
successor_at_most k key h = omega (arith, +ℤ_parts key (pos 1))

above-Admits :
    (plan : KeyPlan) (k key : Key)
    → Admits plan k
    → k ≤ℤ int64_max
    → key <ℤ k
    → Admits (above key plan) k
above-Admits plan k key a m h = elim (Bool-cases (eqb_ℤ key int64_max)) [
  | inl e ↦ absurd (ground arith)
  | inr e ↦ simp e (raise_from-Admits plan k (key +ℤ pos 1) a (successor_at_most k key h))
]

at_most-Admits :
    (plan : KeyPlan) (k key : Key) → Admits plan k → k ≤ℤ key → Admits (at_most key plan) k
at_most-Admits plan k key a h = elim (Bool-cases (eqb_ℤ key int64_max)) [
  | inl e ↦ simp e (found_range-Admits plan k key a)
  | inr e ↦ simp e (lower_to-Admits plan k (key +ℤ pos 1) a (below_successor k key h))
]

-- the comparison as it stands in the clause
abbrev pub compare_sides : Bool → Key → Key → ℤ
compare_sides true k key = compare_ints k key
compare_sides false k key = compare_ints key k

pub apply_operation-Admits :
    (operation : BinaryOperation) (left : Bool) (plan : KeyPlan) (k key : Key)
    → Admits plan k
    → k ≤ℤ int64_max
    → test_comparison operation (compare_sides left k key) ≡ ok true
    → Admits (apply_operation operation left key plan) k
unfolding apply_operation test_comparison
apply_operation-Admits BinaryOperation.equal true plan k key a m h =
    equal_to-Admits plan k key a (eq_of_parts k key (ground arith))
apply_operation-Admits BinaryOperation.equal false plan k key a m h =
    equal_to-Admits plan k key a (eq_of_parts k key (ground arith))
apply_operation-Admits BinaryOperation.not_equal left plan k key a m h = a
apply_operation-Admits BinaryOperation.less true plan k key a m h =
    lower_to-Admits plan k key a (ground arith)
apply_operation-Admits BinaryOperation.less false plan k key a m h =
    above-Admits plan k key a m (ground arith)
apply_operation-Admits BinaryOperation.less_equal true plan k key a m h =
    at_most-Admits plan k key a (ground arith)
apply_operation-Admits BinaryOperation.less_equal false plan k key a m h =
    raise_from-Admits plan k key a (ground arith)
apply_operation-Admits BinaryOperation.greater true plan k key a m h =
    above-Admits plan k key a m (ground arith)
apply_operation-Admits BinaryOperation.greater false plan k key a m h =
    lower_to-Admits plan k key a (ground arith)
apply_operation-Admits BinaryOperation.greater_equal true plan k key a m h =
    raise_from-Admits plan k key a (ground arith)
apply_operation-Admits BinaryOperation.greater_equal false plan k key a m h =
    at_most-Admits plan k key a (ground arith)
apply_operation-Admits BinaryOperation.and left plan k key a m h = a
apply_operation-Admits BinaryOperation.or left plan k key a m h = a

-- ===== src/Skipping/Update.antt =====
-- What one value changes in the statistics of its column.
use htap_storage_lsm_tree.Common.{
  ◌≡◌, refl, sym, subst, true, false, some, some-injective, ok, ℤ, arith, Bool-cases, ◌⊎◌, inl, inr,
}
use htap_storage_lsm_tree.Types.{ValueType, Value, NullableValue}
use htap_storage_lsm_tree.Types.Float64.{Double, is_nan}
use htap_storage_lsm_tree.Skipping.{NumericValue, int64_value, double_value, NumericBlockStats}
use htap_storage_lsm_tree.Skipping.Stats.{widen_int, widen_double, update_value}
use htap_storage_lsm_tree.Skipping.Compare.{LeDouble}
use htap_storage_lsm_tree.Skipping.Covers.{Covers, IsNumber, ok_injective, update_keeps}

abbrev pub SameColumn : NumericBlockStats → NumericBlockStats → Type 0
SameColumn st st' = (st'.type ≡ st.type) × (st'.column_idx ≡ st.column_idx)

widen_int_same :
    (st st' : NumericBlockStats) (c : ℤ) (lo hi : NumericValue)
    → widen_int st c lo hi ≡ ok st'
    → SameColumn st st'
widen_int_same st st' c (int64_value lo) (int64_value hi) h =
    subst (SameColumn st) (ok_injective _ st' h) (refl, refl)
widen_int_same st st' c (int64_value lo) (double_value hi) h = absurd (ground (arith, h))
widen_int_same st st' c (double_value lo) hi h = absurd (ground (arith, h))

widen_double_same :
    (st st' : NumericBlockStats) (c : Double) (lo hi : NumericValue)
    → widen_double st c lo hi ≡ ok st'
    → SameColumn st st'
widen_double_same st st' c (double_value lo) (double_value hi) h =
    subst (SameColumn st) (ok_injective _ st' h) (refl, refl)
widen_double_same st st' c (double_value lo) (int64_value hi) h = absurd (ground (arith, h))
widen_double_same st st' c (int64_value lo) hi h = absurd (ground (arith, h))

-- Either no value was counted, or the bounds are those of counted values.
abbrev pub IsReady : NumericBlockStats → ValueType → Type 0
IsReady st type = (st.has_value ≡ false) ⊎ ((v : Value) × Covers st type v)

-- What an update of the statistics does.
pub record Updated (st st' : NumericBlockStats) (type : ValueType) (cell : NullableValue)
    : Type 0 where
  pub same : SameColumn st st'
  pub ready : IsReady st' type
  pub keeps : (v : Value) → Covers st type v → Covers st' type v
  pub adds : (w : Value) → cell ≡ some w → IsNumber type w → Covers st' type w

update_covered :
    (st st' : NumericBlockStats) (type : ValueType) (w v : Value)
    → update_value st type w ≡ ok st'
    → SameColumn st st'
    → Covers st type v
    → Updated st st' type (some w)
update_covered st st' type w v h same c = record {
  same = same;
  ready = inr (v, (update_keeps st st' type v w h c).0);
  keeps = λ u d. (update_keeps st st' type u w h d).0;
  adds = λ u e n.
      subst (λ x. IsNumber type x → Covers st' type x) (some-injective _ _ e)
        (update_keeps st st' type v w h c).1 n;
}

-- The first counted value gives both bounds.
update_first :
    (st st' : NumericBlockStats) (type : ValueType) (w : Value)
    → st.has_value ≡ false
    → SameColumn st st'
    → Covers st' type w
    → ((v : Value) → Covers st type v → st.has_value ≡ true)
    → Updated st st' type (some w)
update_first st st' type w unset same c has = record {
  same = same;
  ready = inr (w, c);
  keeps = λ v d. absurd (ground (arith, unset, has v d));
  adds = λ u e n. subst (Covers st' type) (some-injective _ _ e) c;
}

Covers-has_value :
    (st : NumericBlockStats) (type : ValueType) (v : Value) → Covers st type v → st.has_value ≡ true
Covers-has_value st ValueType.int64 (Value.int64 k) c = c.0
Covers-has_value st ValueType.int64 (Value.double k) c = absurd c
Covers-has_value st ValueType.int64 (Value.string k) c = absurd c
Covers-has_value st ValueType.double (Value.int64 k) c = absurd c
Covers-has_value st ValueType.double (Value.double k) c = c.0
Covers-has_value st ValueType.double (Value.string k) c = absurd c
Covers-has_value st ValueType.string v c = absurd c

pub update_value-Updated :
    (st st' : NumericBlockStats) (type : ValueType) (w : Value)
    → update_value st type w ≡ ok st'
    → IsReady st type
    → Updated st st' type (some w)
unfolding update_value
update_value-Updated st st' ValueType.int64 (Value.int64 c) h (inl unset) =
    let e = ok_injective _ st' (simp unset at h) in
    subst (λ (s : NumericBlockStats). Updated st s ValueType.int64 (some (Value.int64 c))) e
      (update_first st _ ValueType.int64 (Value.int64 c) unset (refl, refl)
        (refl, c, c, refl, refl, omega arith, omega arith) (Covers-has_value st ValueType.int64))
update_value-Updated st st' ValueType.int64 (Value.int64 c) h (inr (v, d)) =
    let has = Covers-has_value st ValueType.int64 v d in
    update_covered st st' ValueType.int64 (Value.int64 c) v h
      (widen_int_same st st' c st.min_value st.max_value (simp has at h)) d
update_value-Updated st st' ValueType.int64 (Value.double c) h r = absurd (ground (arith, h))
update_value-Updated st st' ValueType.int64 (Value.string c) h r = absurd (ground (arith, h))
update_value-Updated st st' ValueType.double (Value.int64 c) h r = absurd (ground (arith, h))
update_value-Updated st st' ValueType.double (Value.string c) h r = absurd (ground (arith, h))
update_value-Updated st st' ValueType.double (Value.double c) h r = elim (Bool-cases (is_nan c)) [
  | inl nan ↦
      subst (λ (s : NumericBlockStats). Updated st s ValueType.double (some (Value.double c)))
        (ok_injective st st' (simp nan at h))
        (record {
          same = (refl, refl);
          ready = r;
          keeps = λ v d. d;
          adds = λ u e n. absurd (not_number u e nan n);
        })
  | inr number ↦ update_double r number
]
  where
    not_number :
        (u : Value)
        → some (Value.double c) ≡ some u
        → is_nan c ≡ true
        → ¬ (IsNumber ValueType.double u)
    not_number u e nan n =
        let n' : is_nan c ≡ false =
          subst (IsNumber ValueType.double) (sym (some-injective _ _ e)) n in
        ground (arith, nan, n')

    update_double :
        IsReady st ValueType.double
        → is_nan c ≡ false
        → Updated st st' ValueType.double (some (Value.double c))
    update_double (inl unset) number =
        let e = ok_injective _ st' (simp (number, unset) at h) in
        let l : LeDouble c c = record { left = number; right = number; ordered = omega arith } in
        subst (λ (s : NumericBlockStats). Updated st s ValueType.double (some (Value.double c))) e
          (update_first st _ ValueType.double (Value.double c) unset (refl, refl)
            (refl, c, c, refl, refl, l, l) (Covers-has_value st ValueType.double))
    update_double (inr (v, d)) number =
        let has = Covers-has_value st ValueType.double v d in
        update_covered st st' ValueType.double (Value.double c) v h
          (widen_double_same st st' c st.min_value st.max_value (simp (number, has) at h)) d
update_value-Updated st st' ValueType.string w h r =
    subst (λ (s : NumericBlockStats). Updated st s ValueType.string (some w))
      (ok_injective st st' h)
      (record { same = (refl, refl); ready = r; keeps = λ v d. d; adds = λ u e n. absurd n })

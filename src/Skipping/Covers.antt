-- ===== src/Skipping/Covers.antt =====
-- The values that lie between the bounds of the statistics.
use htap_storage_lsm_tree.Common.{
  ◌≡◌, refl, ap, subst, true, false, ok, err, ℤ, ◌≤ℤ◌, min_ℤ, max_ℤ, arith, Bool-cases, inl, inr,
}
use htap_storage_lsm_tree.Types.{ValueType, Value}
use htap_storage_lsm_tree.Types.Float64.{Double, lt_double, is_nan}
use htap_storage_lsm_tree.Skipping.{int64_value, double_value, NumericBlockStats}
use htap_storage_lsm_tree.Skipping.Stats.{min_double, max_double, update_value}
use htap_storage_lsm_tree.Skipping.Compare.{LeDouble}

-- The statistics have bounds of the column's type, and a value lies between them.
abbrev pub Covers : NumericBlockStats → ValueType → Value → Type 0
Covers st ValueType.int64 (Value.int64 k) =
    (st.has_value ≡ true)
    × (lo : ℤ) × (hi : ℤ) × (st.min_value ≡ int64_value lo)
    × (st.max_value ≡ int64_value hi)
    × (lo ≤ℤ k)
    × (k ≤ℤ hi)
Covers st ValueType.double (Value.double d) =
    (st.has_value ≡ true)
    × (lo : Double) × (hi : Double) × (st.min_value ≡ double_value lo)
    × (st.max_value ≡ double_value hi)
    × LeDouble lo d
    × LeDouble d hi
Covers st _ _ = ⊥

-- A value that the statistics count: of a numeric type, and a number.
abbrev pub IsNumber : ValueType → Value → Type 0
IsNumber ValueType.int64 (Value.int64 k) = Unit
IsNumber ValueType.double (Value.double d) = is_nan d ≡ false
IsNumber _ _ = ⊥

pub ok_injective : (a b : NumericBlockStats) → ok a ≡ ok b → a ≡ b
ok_injective a b e = ap (λ r. elim r [ ok x ↦ x | err _ ↦ a ]) e

min_double-le : (lo c d : Double) → is_nan c ≡ false → LeDouble lo d → LeDouble (min_double lo c) d
unfolding min_double
min_double-le lo c d n l = elim (Bool-cases (lt_double c lo)) [
  | inl less ↦
      rw less (record { left = n; right = l.right; ordered = ground (arith, l.ordered, less) })
  | inr more ↦ rw more l
]

max_double-le : (hi c d : Double) → is_nan c ≡ false → LeDouble d hi → LeDouble d (max_double hi c)
unfolding max_double
max_double-le hi c d n l = elim (Bool-cases (lt_double hi c)) [
  | inl less ↦
      rw less (record { left = l.left; right = n; ordered = ground (arith, l.ordered, less) })
  | inr more ↦ rw more l
]

min_double-le_new :
    (lo c d : Double) → is_nan c ≡ false → LeDouble lo d → LeDouble (min_double lo c) c
unfolding min_double
min_double-le_new lo c d n l = elim (Bool-cases (lt_double c lo)) [
  | inl less ↦ rw less (record { left = n; right = n; ordered = omega arith })
  | inr more ↦
      rw more
        (record { left = l.left; right = n; ordered = ground (arith, simp (n, l.left) at more) })
]

max_double-le_new :
    (hi c d : Double) → is_nan c ≡ false → LeDouble d hi → LeDouble c (max_double hi c)
unfolding max_double
max_double-le_new hi c d n l = elim (Bool-cases (lt_double hi c)) [
  | inl less ↦ rw less (record { left = n; right = n; ordered = omega arith })
  | inr more ↦
      rw more
        (record { left = n; right = l.right; ordered = ground (arith, simp (n, l.right) at more) })
]

-- An update covers its value, and what was covered before.
pub update_keeps :
    (st st' : NumericBlockStats) (type : ValueType) (v w : Value)
    → update_value st type w ≡ ok st'
    → Covers st type v
    → Covers st' type v × (IsNumber type w → Covers st' type w)
unfolding update_value
update_keeps st st' ValueType.int64 (Value.int64 k) (Value.int64 c) h (has, lo, hi, a, b, l, u) =
    let h' = ok_injective _ st' (simp (has, a, b) at h) in
    subst
      (λ (s : NumericBlockStats).
        Covers s ValueType.int64 (Value.int64 k)
        × (Unit → Covers s ValueType.int64 (Value.int64 c)))
      h'
      (
        (refl, min_ℤ lo c, max_ℤ hi c, refl, refl, ground arith, ground arith),
        λ n. (refl, min_ℤ lo c, max_ℤ hi c, refl, refl, ground arith, ground arith),
      )
update_keeps st st' ValueType.int64 (Value.int64 k) (Value.double c) h v =
    absurd (ground (arith, h))
update_keeps st st' ValueType.int64 (Value.int64 k) (Value.string c) h v =
    absurd (ground (arith, h))
update_keeps st st' ValueType.int64 (Value.double k) w h v = absurd v
update_keeps st st' ValueType.int64 (Value.string k) w h v = absurd v
update_keeps st st' ValueType.double (Value.double d) (Value.double c) h (has, lo, hi, a, b, l, u) =
    elim (Bool-cases (is_nan c)) [
      | inl nan ↦
          let h' = ok_injective st st' (simp nan at h) in
          (
            subst (λ (s : NumericBlockStats). Covers s ValueType.double (Value.double d)) h'
                (has, lo, hi, a, b, l, u),
            λ n. absurd (ground (arith, nan, n)),
          )
      | inr number ↦
          let h' = ok_injective _ st' (simp (number, has, a, b) at h) in
          subst
            (λ (s : NumericBlockStats).
              Covers s ValueType.double (Value.double d)
              × (is_nan c ≡ false → Covers s ValueType.double (Value.double c)))
            h'
            (
              (
                refl,
                min_double lo c,
                max_double hi c,
                refl,
                refl,
                min_double-le lo c d number l,
                max_double-le hi c d number u,
              ),
              λ n. (
                refl,
                min_double lo c,
                max_double hi c,
                refl,
                refl,
                min_double-le_new lo c d number l,
                max_double-le_new hi c d number u,
              ),
            )
    ]
update_keeps st st' ValueType.double (Value.double d) (Value.int64 c) h v =
    absurd (ground (arith, h))
update_keeps st st' ValueType.double (Value.double d) (Value.string c) h v =
    absurd (ground (arith, h))
update_keeps st st' ValueType.double (Value.int64 k) w h v = absurd v
update_keeps st st' ValueType.double (Value.string k) w h v = absurd v
update_keeps st st' ValueType.string v w h c = absurd c

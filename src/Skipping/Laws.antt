-- ===== src/Skipping/Laws.antt =====
-- No block that holds a row of the result is skipped.
use htap_storage_lsm_tree.Common.{
  ◌≡◌, refl, ◌∙◌, subst, true, Option, none, some, List, [], ◌∷◌, ok, ℤ, arith, inl, inr, get_elem?,
  Any, Error, ok_of_bind, from_option, runtime_error,
}
use htap_storage_lsm_tree.Types.{ValueType, Value, NullableValue, Row}
use htap_storage_lsm_tree.Types.Float64.{Double}
use htap_storage_lsm_tree.Skipping.{
  NumericValue, int64_value, double_value, NumericColumnPredicate, NumericBlockStats,
  numeric_value_as_double, block_may_satisfy_predicate,
}
use htap_storage_lsm_tree.Skipping.Stats.{
  fresh_stats, update_value, update_cell, update_stats, block_stats,
}
use htap_storage_lsm_tree.Skipping.Compare.{
  int_sound, double_sound, IsMonotone, satisfies, IsNumberLiteral,
}
use htap_storage_lsm_tree.Skipping.Covers.{Covers, IsNumber, ok_injective}
use htap_storage_lsm_tree.Skipping.Update.{IsReady, Updated, update_value-Updated}

-- If the statistics of a block cover a value that satisfies the predicate, by the comparison that the executor
-- makes, with a literal that is a number, then the block is not skipped for the predicate. The conversion of
-- integers to doubles has to keep the order.
block_may_satisfy_predicate_sound :
    (to_double : ℤ → Double) (type : ValueType) (st : NumericBlockStats)
    (p : NumericColumnPredicate) (v : Value)
    → IsMonotone to_double
    → st.type ≡ type
    → Covers st type v
    → IsNumberLiteral p.value
    → satisfies to_double p.op v p.value ≡ true
    → block_may_satisfy_predicate to_double st p ≡ true
unfolding block_may_satisfy_predicate numeric_value_as_double
block_may_satisfy_predicate_sound to_double type st p v m same c n h =
    by_literal type v (p.value) refl same c n h
  where
    by_literal :
        (type : ValueType) (v : Value) (x : NumericValue)
        → p.value ≡ x
        → st.type ≡ type
        → Covers st type v
        → IsNumberLiteral x
        → satisfies to_double p.op v x ≡ true
        → block_may_satisfy_predicate to_double st p ≡ true
    by_literal ValueType.int64 (Value.int64 k) (int64_value x) e same (has, lo, hi, a, b, l, u) n
          h =
        simp (has, same, a, b, e) (int_sound p.op lo hi k x l u h)
    by_literal ValueType.int64 (Value.int64 k) (double_value x) e same (has, lo, hi, a, b, l, u) n
          h =
        simp (has, same, a, b, e)
          (double_sound p.op (to_double lo) (to_double hi) (to_double k) x
            (record { left = m.number lo; right = m.number k; ordered = m.ordered lo k l })
            (record { left = m.number k; right = m.number hi; ordered = m.ordered k hi u }) n h)
    by_literal ValueType.double (Value.double d) (int64_value x) e same (has, lo, hi, a, b, l, u) n
          h =
        simp (has, same, a, b, e) (double_sound p.op lo hi d (to_double x) l u (m.number x) h)
    by_literal ValueType.double (Value.double d) (double_value x) e same (has, lo, hi, a, b, l, u) n
          h =
        simp (has, same, a, b, e) (double_sound p.op lo hi d x l u n h)
    by_literal ValueType.int64 (Value.double d) x e same c n h = absurd c
    by_literal ValueType.int64 (Value.string d) x e same c n h = absurd c
    by_literal ValueType.double (Value.int64 d) x e same c n h = absurd c
    by_literal ValueType.double (Value.string d) x e same c n h = absurd c
    by_literal ValueType.string v x e same c n h = absurd c

update_cell-Updated :
    (st st' : NumericBlockStats) (type : ValueType) (cell : NullableValue)
    → st.type ≡ type
    → update_cell st cell ≡ ok st'
    → IsReady st type
    → Updated st st' type cell
unfolding update_cell
update_cell-Updated st st' type none t h r =
    subst (λ (s : NumericBlockStats). Updated st s type none) (ok_injective st st' h)
      (record {
        same = (refl, refl);
        ready = r;
        keeps = λ v d. d;
        adds = λ u e n. absurd (ground (arith, e));
      })
update_cell-Updated st st' type (some w) t h r =
    update_value-Updated st st' type w (subst (λ ty. update_value st ty w ≡ ok st') t h) r

read_cell :
    (o : Option NullableValue) (cell : NullableValue) (v : Value) (e : Error)
    → from_option o e ≡ ok cell
    → o ≡ some (some v)
    → cell ≡ some v
read_cell none cell v e r h = absurd (ground (arith, h))
read_cell (some x) cell v e r h = ground (arith, r, h)

-- After the rows of a block the statistics cover what they covered before and every number in the column.
block_stats-Covers :
    (rows : List Row) (st st' : NumericBlockStats) (type : ValueType)
    → st.type ≡ type
    → block_stats st rows ≡ ok st'
    → IsReady st type
    → (st'.type ≡ type)
      × ((v : Value) → Covers st type v → Covers st' type v)
      × ((row : Row) (v : Value)
          → Any (λ r. row ≡ r) rows
          → get_elem? row st.column_idx ≡ some (some v)
          → IsNumber type v
          → Covers st' type v)
unfolding block_stats update_stats
block_stats-Covers [] st st' type t h r =
    subst
      (λ (s : NumericBlockStats).
        (s.type ≡ type)
        × ((v : Value) → Covers st type v → Covers s type v)
        × ((row : Row) (v : Value)
            → Any (λ r. row ≡ r) []
            → get_elem? row st.column_idx ≡ some (some v)
            → IsNumber type v
            → Covers s type v))
      (ok_injective st st' h) (t, λ v c. c, λ row v a. absurd a)
block_stats-Covers (first ∷ rows) st st' type t h r =
    let (st1, updated, rest) = ok_of_bind _ (update_stats st first) h in
    let (cell, read, counted) =
      ok_of_bind _
        (from_option (get_elem? first st.column_idx)
          (runtime_error "RowSSTBlockBuilder: row size mismatch schema"))
        updated in
    let u = update_cell-Updated st st1 type cell t counted r in
    let (t', keeps, covers) = block_stats-Covers rows st1 st' type (u.same.0 ∙ t) rest u.ready in
    (
      t',
      λ v c. keeps v (u.keeps v c),
      λ row v a e n. elim a [
        | inl here ↦ keeps v (
            u.adds v
              (read_cell (get_elem? first st.column_idx) cell v _ read
                (subst (λ x. get_elem? x st.column_idx ≡ some (some v)) here e))
              n)
        | inr later ↦ covers row v later (rw (u.same.1) e) n
      ],
    )

-- If a row of a block has a number in the column of a predicate and satisfies the predicate, by the comparison that
-- the executor makes, with a literal that is a number, then the block is not skipped for the predicate: the
-- statistics that the builder makes of the rows let it through. The conversion of integers to doubles has to keep
-- the order.
pub block_stats_sound :
    (to_double : ℤ → Double) (type : ValueType) (rows : List Row) (st : NumericBlockStats)
    (p : NumericColumnPredicate) (row : Row) (v : Value)
    → IsMonotone to_double
    → block_stats (fresh_stats p.column_idx type) rows ≡ ok st
    → Any (λ r. row ≡ r) rows
    → get_elem? row p.column_idx ≡ some (some v)
    → IsNumber type v
    → IsNumberLiteral p.value
    → satisfies to_double p.op v p.value ≡ true
    → block_may_satisfy_predicate to_double st p ≡ true
block_stats_sound to_double type rows st p row v m built a at number literal h =
    let (same, _, covers) =
      block_stats-Covers rows (fresh_stats p.column_idx type) st type refl built (inl refl) in
    block_may_satisfy_predicate_sound to_double type st p v m same (covers row v a at number)
      literal h

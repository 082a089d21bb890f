-- ===== src/Executor/Select/Laws.antt =====
-- The early stop of `ExecutePlainSelect` (src/executor/executor.cpp) gives the rows that the limit behind the
-- loop would give.
use htap_storage_lsm_tree.Common.{
  ℕ, suc, ◌<◌, Bool, true, false, ◌||◌, Option, none, some, List, [], ◌∷◌, ◌++◌, length, take, ltb,
  leb, ◌≡◌, refl, sym, ap, ◌∙◌, arith, append_assoc, append-nil, if◌then◌else◌, Result, ok,
  ok_of_bind, ◌>>=◌, Bool-cases, inl, inr, length-append, take-length, take_all,
}
use htap_storage_lsm_tree.Types.{Row}
use htap_storage_lsm_tree.Executor.Bound.{BoundSelectStatement, ResultRow}
use htap_storage_lsm_tree.Executor.Select.Names.{is_required_key_asc, is_empty}
use htap_storage_lsm_tree.Executor.Select.Rows.{
  passes_where, plain_row, reached, unsorted_loop, limited, plain_rows,
}
use htap_storage_lsm_tree.Executor.Plan.Tests.{ok_eq}

or_true : (b : Bool) → b || true ≡ true
or_true true = refl
or_true false = refl

module _ (statement : BoundSelectStatement) where
  -- a round of the loop for a row that passes
  abbrev add_row : Option ℕ → List ResultRow → List Row → ResultRow → Result (List ResultRow)
  add_row early rows rs row =
      let longer = rows ++ row ∷ [] in
      let later = unsorted_loop statement early longer rs in
      if reached early longer then ok longer else later

  abbrev round : Option ℕ → List ResultRow → Row → List Row → Bool → Result (List ResultRow)
  round early rows r rs passes =
      if passes
      then (plain_row r statement.select_items >>= add_row early rows rs)
      else unsorted_loop statement early rows rs

  abbrev Extends : List ResultRow → List ResultRow → Type 0
  Extends rows out = (more : List ResultRow) × (out ≡ rows ++ more)

  -- without a stop the rows so far stand in front of the result
  loop-front :
      (rows : List ResultRow) (rs : List Row) {out : List ResultRow}
      → unsorted_loop statement none rows rs ≡ ok out
      → Extends rows out
  unfolding unsorted_loop
  loop-front rows [] e = ([], sym (ok_eq e) ∙ sym (append-nil rows))
  loop-front rows (r ∷ rs) {out} e =
      let (passes, tested, later) =
        ok_of_bind (round none rows r rs) (passes_where statement.where_expression r) e in
      elim passes as (λ b. round none rows r rs b ≡ ok out → Extends rows out) [
        | false ↦ λ l. loop-front rows rs l
        | true ↦ λ l.
            let (row, made, rest) =
              ok_of_bind (add_row none rows rs) (plain_row r statement.select_items) l in
            let (m, q) = loop-front (rows ++ row ∷ []) rs rest in
            (row ∷ m, q ∙ append_assoc rows (row ∷ []) m)
      ]
        later

  -- With the stop at `n`, the loop gives the first `n` rows of what it gives without it.
  loop-take :
      (n : ℕ) (rows : List ResultRow) (rs : List Row) {out : List ResultRow}
      → length rows < n
      → unsorted_loop statement none rows rs ≡ ok out
      → unsorted_loop statement (some n) rows rs ≡ ok (take n out)
  unfolding unsorted_loop
  loop-take n rows [] h e = ap ok (sym (take_all rows n (omega arith)) ∙ ap (take n) (ok_eq e))
  loop-take n rows (r ∷ rs) {out} h e =
      let (passes, tested, later) =
        ok_of_bind (round none rows r rs) (passes_where statement.where_expression r) e in
      ap (λ (t : Result Bool). t >>= round (some n) rows r rs) tested
      ∙ elim passes
            as (λ b.
              round none rows r rs b ≡ ok out → round (some n) rows r rs b ≡ ok (take n out)) [
                | false ↦ λ l. loop-take n rows rs h l
                | true ↦ λ l.
                    let (row, made, rest) =
                      ok_of_bind (add_row none rows rs) (plain_row r statement.select_items) l in
                    let longer = rows ++ row ∷ [] in
                    let grown : length longer ≡ suc (length rows) =
                      length-append rows (row ∷ []) ∙ omega arith in
                    ap (λ (t : Result ResultRow). t >>= add_row (some n) rows rs) made
                    ∙ elim (Bool-cases (leb n (length longer))) [
                      | inl full ↦
                          let (m, q) = loop-front longer rs rest in
                          let same : n ≡ length longer = ground arith in
                          simp full (
                            ap ok (
                              sym (ap (λ k. take k (longer ++ m)) same ∙ take-length longer m)
                              ∙ ap (take n) (sym q)))
                      | inr room ↦ simp room (loop-take n longer rs (ground arith) rest)
                    ]
              ]
          later

  limited-take : (n : ℕ) (out : List ResultRow) → limited (some n) out ≡ take n out
  unfolding limited
  limited-take n out = elim (Bool-cases (ltb n (length out))) [
    | inl e ↦ simp e refl
    | inr e ↦ simp e (sym (take_all out n (ground arith)))
  ]

  -- Where a plain select has no ORDER BY, or is in the order of the key, and a limit of at least one row,
  -- the loop that stops early returns the rows that the limit behind the whole loop returns.
  pub plain_rows_early :
      (n : ℕ) (rows : List Row) {out : List ResultRow}
      → statement.limit ≡ some n
      → 0 < n
      → unsorted_loop statement none [] rows ≡ ok out
      → is_empty statement.order_by_items || is_required_key_asc statement.order_by_items ≡ true
      → plain_rows statement true rows ≡ ok (limited statement.limit out)
  unfolding plain_rows
  plain_rows_early n rows {out} l h e o =
      simp
        (
          o,
          or_true (is_required_key_asc statement.order_by_items),
          l,
          loop-take n [] rows h e,
          limited-take n out,
        )
        refl

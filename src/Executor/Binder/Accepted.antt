-- ===== src/Executor/Binder/Accepted.antt =====
-- The row of an insertion that `Binder` (src/executor/binder.cpp) accepts is one that the storage engine accepts.
use htap_storage_lsm_tree.Common.{
  ℕ, suc, Bool, true, false, not, ◌==◌, none, some, List, [], ◌∷◌, length, get_elem?, set,
  replicate, ◌≡◌, refl, ap, sym, ◌∙◌, subst, if◌then◌else◌, Result, ok, err, bad_access, Error,
  from_option, throw_if, ◌>>=◌, ◌>>◌, ok_of_bind, length-set, length-replicate, arith,
  runtime_error, ==_iff,
}
use Prim.Native.String.{◌++◌ as text_append}
use htap_storage_lsm_tree.Types.{Row}
use htap_storage_lsm_tree.Schema.{Column, Schema, size, get_column, is_valid, is_valid_value}
use htap_storage_lsm_tree.Schema.Laws.{IsValidSchema, HasKey}
use htap_storage_lsm_tree.Engine.{check_values, check_key_cell, validate_row}
use htap_storage_lsm_tree.Parser.Ast.{Expression, InsertStatement}
use htap_storage_lsm_tree.Executor.Plan.Tests.{ok_eq}
use htap_storage_lsm_tree.Executor.Binder.Values.{
  text_of, type_mismatch_error, invalid_query_error, convert_literal_expression,
}
use htap_storage_lsm_tree.Executor.Binder.Expressions.{column_of}
use htap_storage_lsm_tree.Executor.Binder.Statements.{assign_values, check_row, bind_row}

length-assign_values :
    (schema : Schema) (names : List (List ℕ)) (es : List Expression) (row : Row)
    (assigned : List Bool) {out : Row}
    → assign_values schema names es row assigned ≡ ok out
    → length out ≡ length row
unfolding assign_values
length-assign_values schema [] [] row assigned e = ap length (sym (ok_eq e))
length-assign_values schema [] (_ ∷ _) row assigned e = absurd (ground arith)
length-assign_values schema (_ ∷ _) [] row assigned e = absurd (ground arith)
length-assign_values schema (name ∷ names) (x ∷ es) row assigned e =
    let (i, found, e1) =
      ok_of_bind
        (λ i. from_option (get_elem? assigned i) bad_access >>= λ taken.
          throw_if taken
            (invalid_query_error (text_append "Duplicate insert column: " (text_of name)))
          >> (convert_literal_expression x >>= λ value.
              assign_values schema names es (set row i value) (set assigned i true)))
        (column_of schema name) e in
    let (taken, read, e2) =
      ok_of_bind
        (λ taken.
          throw_if taken
            (invalid_query_error (text_append "Duplicate insert column: " (text_of name)))
          >> (convert_literal_expression x >>= λ value.
              assign_values schema names es (set row i value) (set assigned i true)))
        (from_option (get_elem? assigned i) bad_access) e1 in
    let (_, free, e3) =
      ok_of_bind
        (λ _. convert_literal_expression x >>= λ value.
          assign_values schema names es (set row i value) (set assigned i true))
        (throw_if taken
          (invalid_query_error (text_append "Duplicate insert column: " (text_of name))))
        e2 in
    let (value, made, e4) =
      ok_of_bind (λ value. assign_values schema names es (set row i value) (set assigned i true))
        (convert_literal_expression x) e3 in
    length-assign_values schema names es (set row i value) (set assigned i true) e4
    ∙ length-set row i value

no_value :
    (r : Result Column) (f : Column → Error) → ◌>>=◌ {T = Unit {0}} r (λ c. err (f c)) ≡ ok tt → ⊥
no_value (err e) f h = ground arith
no_value (ok c) f h = ground arith

no_throw : (b : Bool) (e : Error) → b ≡ false → throw_if (not b) e ≡ ok tt → ⊥
no_throw true e p h = ground arith
no_throw false e p h = ground arith

check_row-check_values :
    (schema : Schema) (i : ℕ) (row : Row)
    → check_row schema i row ≡ ok tt
    → check_values schema i row ≡ ok tt
unfolding check_row check_values
check_row-check_values schema i [] e = refl
check_row-check_values schema i (value ∷ values) e =
    elim (is_valid_value schema i value)
        as (λ b.
          (if b
              then check_row schema (suc i) values
              else (get_column schema i >>= λ c.
                  err (type_mismatch_error (text_append "Invalid value for column: " c.name))))
            ≡ ok tt
          → (throw_if (not b) (runtime_error "Invalid value for column")
              >> check_values schema (suc i) values)
            ≡ ok tt) [
              | true ↦ λ l. check_row-check_values schema (suc i) values l
              | false ↦ λ l. absurd (
                  no_value (get_column schema i)
                    (λ c. type_mismatch_error (text_append "Invalid value for column: " c.name)) l)
            ]
      e

-- A row of a valid schema whose values fit has a key.
check_key_cell-ok :
    (schema : Schema) (row : Row)
    → IsValidSchema schema
    → length row ≡ size schema
    → check_values schema 0 row ≡ ok tt
    → check_key_cell row ≡ ok tt
unfolding check_values is_valid_value
check_key_cell-ok schema row h l e = go schema.columns row refl h.key_first l e
  where
    go :
        (cs : List Column) (row : Row)
        → schema.columns ≡ cs
        → HasKey true cs
        → length row ≡ length cs
        → check_values schema 0 row ≡ ok tt
        → check_key_cell row ≡ ok tt
    go [] row q k l e = absurd k
    go (c ∷ cs) [] q k l e = absurd (ground arith)
    go (c ∷ cs) (some v ∷ vs) q k l e = refl
    go (c ∷ cs) (none ∷ vs) q k l e =
        let valid : List Column → Bool = λ x. is_valid (get_elem? x 0) none in
        let (_, passed, _) =
          ok_of_bind (λ (_ : Unit {0}). check_values schema 1 vs)
            (throw_if (not (valid schema.columns)) (runtime_error "Invalid value for column")) e in
        absurd (
          no_throw (valid schema.columns) (runtime_error "Invalid value for column")
            (ap valid q ∙ k.0.1) passed)

-- Over a valid schema, a row that the binder makes of an insertion passes the check of the storage engine:
-- it has the width of the schema, each value fits its column, and the key is there.
pub bind_row-validate_row :
    (schema : Schema) (statement : InsertStatement) {row : Row}
    → IsValidSchema schema
    → bind_row schema statement ≡ ok row
    → validate_row schema row ≡ ok tt
unfolding bind_row validate_row
bind_row-validate_row schema statement {row} h e =
    let blank = replicate (size schema) none in
    let flags = replicate (size schema) false in
    let (_, _, e1) =
      ok_of_bind
        (λ (_ : Unit {0}).
          assign_values schema statement.column_names statement.values blank flags >>= λ row.
          check_row schema 0 row >> ok row)
        (throw_if (not (length statement.column_names == length statement.values))
          (invalid_query_error "The number of insert values does not match the number of columns"))
        e in
    let (made, assigned, e2) =
      ok_of_bind (λ row. check_row schema 0 row >> ok row)
        (assign_values schema statement.column_names statement.values blank flags) e1 in
    let (_, checked, e3) = ok_of_bind (λ (_ : Unit {0}). ok made) (check_row schema 0 made) e2 in
    let width =
      length-assign_values schema statement.column_names statement.values blank flags assigned
      ∙ length-replicate (size schema) none in
    let valid = check_row-check_values schema 0 made checked in
    subst (λ r. validate_row schema r ≡ ok tt) (ok_eq e3)
      (simp ((==_iff (length made) (size schema)).1 width, valid)
        (check_key_cell-ok schema made h width valid))

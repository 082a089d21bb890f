-- ===== src/Executor/Select/Required.antt =====
-- The projection that `Executor::CollectRequiredProjection` (src/executor/executor.cpp) collects is one that
-- the storage engine accepts.
use htap_storage_lsm_tree.Common.{
  ℕ, Bool, true, false, Option, none, some, List, [], ◌∷◌, ◌++◌, get_elem?, set, replicate, ◌≡◌,
  refl, sym, ap, ◌∙◌, subst, Result, ok, ok_of_bind, from_option, throw_if, ◌>>=◌, ◌>>◌, bad_access,
  runtime_error, arith,
}
use htap_storage_lsm_tree.Schema.{size}
use htap_storage_lsm_tree.Engine.{check_projection, validate_projection}
use htap_storage_lsm_tree.Executor.Bound.{BoundExpression, BoundSelectStatement}
use htap_storage_lsm_tree.Executor.Select.Projection.{
  Collected, with_column, collect_column, collect_projection_from_expression, collect_all,
  no_columns, item_expressions, order_expressions, where_expressions, collect_required_projection,
}
use htap_storage_lsm_tree.Executor.Plan.Tests.{ok_eq}

-- the flags after the columns
abbrev marked : List Bool → List ℕ → List Bool
marked used [] = used
marked used (i ∷ is) = marked (set used i true) is

-- The check accepts the columns so far, and its flags are the collected ones.
record IsAccepted (start : List Bool) (c : Collected) : Type 0 where
  accepted : check_projection start c.projection ≡ ok tt
  flags : marked start c.projection ≡ c.used_columns

marked-append :
    (start : List Bool) (is : List ℕ) (i : ℕ)
    → marked start (is ++ i ∷ []) ≡ set (marked start is) i true
marked-append start [] i = refl
marked-append start (j ∷ is) i = marked-append (set start j true) is i

read_eq : {A : Type 0} {a : A} (o : Option A) → from_option o bad_access ≡ ok a → o ≡ some a
read_eq none e = absurd (ground arith)
read_eq (some a) e = ap some (ok_eq e)

check-append :
    (start : List Bool) (is : List ℕ) (i : ℕ)
    → check_projection start is ≡ ok tt
    → get_elem? (marked start is) i ≡ some false
    → check_projection start (is ++ i ∷ []) ≡ ok tt
unfolding check_projection
check-append start [] i e g = simp g refl
check-append start (j ∷ is) i e g =
    let (flag, read, rest) =
      ok_of_bind
        (λ (used : Bool).
          throw_if used (runtime_error "Projection contains duplicate column index")
          >> check_projection (set start j true) is)
        (from_option (get_elem? start j)
          (runtime_error "Projection column index out of schema range"))
        e in
    ap
      (λ (t : Result Bool). t >>= λ used.
        throw_if used (runtime_error "Projection contains duplicate column index")
        >> check_projection (set start j true) (is ++ i ∷ []))
      read
    ∙ elim flag
          as (λ b.
            (throw_if b (runtime_error "Projection contains duplicate column index")
                >> check_projection (set start j true) is)
              ≡ ok tt
            → (throw_if b (runtime_error "Projection contains duplicate column index")
                >> check_projection (set start j true) (is ++ i ∷ []))
              ≡ ok tt) [
                | true ↦ λ l. absurd (ground arith)
                | false ↦ λ l. check-append (set start j true) is i l g
              ]
        rest

collect_column-IsAccepted :
    (start : List Bool) (i : ℕ) (c : Collected) {d : Collected}
    → IsAccepted start c
    → collect_column i c ≡ ok d
    → IsAccepted start d
unfolding collect_column
collect_column-IsAccepted start i c {d} h e =
    let (flag, read, rest) =
      ok_of_bind (λ used. ok (with_column i c used))
        (from_option (get_elem? c.used_columns i) bad_access) e in
    subst (IsAccepted start) (ok_eq rest) (
      elim flag
          as (λ b.
            from_option (get_elem? c.used_columns i) bad_access ≡ ok b
            → IsAccepted start (with_column i c b)) [
              | true ↦ λ _. h
              | false ↦ λ f. record {
                accepted =
                    check-append start c.projection i h.accepted
                      (ap (λ u. get_elem? u i) h.flags ∙ read_eq (get_elem? c.used_columns i) f);
                flags = marked-append start c.projection i ∙ ap (λ u. set u i true) h.flags;
              }
            ]
        read)

collect_projection_from_expression-IsAccepted :
    (start : List Bool) (e : BoundExpression) (c : Collected) {d : Collected}
    → IsAccepted start c
    → collect_projection_from_expression e c ≡ ok d
    → IsAccepted start d
unfolding collect_projection_from_expression
collect_projection_from_expression-IsAccepted start (BoundExpression.literal _ _) c h r =
    subst (IsAccepted start) (ok_eq r) h
collect_projection_from_expression-IsAccepted start (BoundExpression.column i _) c h r =
    collect_column-IsAccepted start i c h r
collect_projection_from_expression-IsAccepted start (BoundExpression.unary _ e) c h r =
    collect_projection_from_expression-IsAccepted start e c h r
collect_projection_from_expression-IsAccepted start (BoundExpression.binary _ left right) c h r =
    let (next, first, rest) =
      ok_of_bind (collect_projection_from_expression right)
        (collect_projection_from_expression left c) r in
    collect_projection_from_expression-IsAccepted start right next
      (collect_projection_from_expression-IsAccepted start left c h first) rest
collect_projection_from_expression-IsAccepted start (BoundExpression.is_null e _) c h r =
    collect_projection_from_expression-IsAccepted start e c h r

collect_all-IsAccepted :
    (start : List Bool) (es : List BoundExpression) (c : Collected) {d : Collected}
    → IsAccepted start c
    → collect_all es c ≡ ok d
    → IsAccepted start d
unfolding collect_all
collect_all-IsAccepted start [] c h r = subst (IsAccepted start) (ok_eq r) h
collect_all-IsAccepted start (e ∷ es) c h r =
    let (next, first, rest) =
      ok_of_bind (collect_all es) (collect_projection_from_expression e c) r in
    collect_all-IsAccepted start es next
      (collect_projection_from_expression-IsAccepted start e c h first) rest

-- The projection that a select collects from its items, its conditions, its groups and its order is one
-- that the storage engine accepts: each column is in the schema, and none stands twice.
pub collect_required_projection-validate_projection :
    (statement : BoundSelectStatement) {projection : List ℕ}
    → collect_required_projection statement ≡ ok projection
    → validate_projection statement.schema projection ≡ ok tt
unfolding collect_required_projection validate_projection check_projection
collect_required_projection-validate_projection statement {projection} r =
    let start = replicate (size statement.schema) false in
    let (a, ha, ra) =
      ok_of_bind
        (λ a. collect_all (where_expressions statement.where_expression) a >>= λ b.
          collect_all statement.group_by_items b >>= λ c.
          collect_all (order_expressions statement.order_by_items) c >>= λ d. ok d.projection)
        (collect_all (item_expressions statement.select_items) (no_columns statement.schema)) r in
    let (b, hb, rb) =
      ok_of_bind
        (λ b. collect_all statement.group_by_items b >>= λ c.
          collect_all (order_expressions statement.order_by_items) c >>= λ d. ok d.projection)
        (collect_all (where_expressions statement.where_expression) a) ra in
    let (c, hc, rc) =
      ok_of_bind
        (λ c. collect_all (order_expressions statement.order_by_items) c >>= λ d. ok d.projection)
        (collect_all statement.group_by_items b) rb in
    let (d, hd, rd) =
      ok_of_bind (λ d. ok d.projection) (collect_all (order_expressions statement.order_by_items) c)
        rc in
    let ia =
      collect_all-IsAccepted start (item_expressions statement.select_items)
        (no_columns statement.schema) (record { accepted = refl; flags = refl }) ha in
    let ib = collect_all-IsAccepted start (where_expressions statement.where_expression) a ia hb in
    let ic = collect_all-IsAccepted start statement.group_by_items b ib hc in
    let id = collect_all-IsAccepted start (order_expressions statement.order_by_items) c ic hd in
    ap (check_projection start) (sym (ok_eq rd)) ∙ id.accepted

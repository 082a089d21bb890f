-- ===== src/Executor/Select/Sorting.antt =====
-- The order of ORDER BY and of GROUP BY (src/executor/executor.cpp)
use htap_storage_lsm_tree.Common.{
  Bool, true, false, List, [], ◌∷◌, if◌then◌else◌, Result, ok, err, ◌>>=◌, ℤ, pos, ltb_ℤ, eqb_ℤ,
  bad_access,
}
use htap_storage_lsm_tree.Parser.Ast.{OrderDirection}
use htap_storage_lsm_tree.Executor.Bound.{NullableResultValue, ResultRow, BoundOrderByItem}
use htap_storage_lsm_tree.Executor.Evaluate.{compare_nullable_result_values}

abbrev pub SortKeys : Type 0
SortKeys = List NullableResultValue

-- `PlainSortRow` and `GroupedSortRow`
pub record SortRow : Type 0 where
  pub sort_keys : SortKeys
  pub row : ResultRow

-- what a comparison other than 0 gives in a direction
abbrev pub in_direction : OrderDirection → ℤ → Bool
in_direction OrderDirection.asc cmp = ltb_ℤ cmp (pos 0)
in_direction OrderDirection.desc cmp = ltb_ℤ (pos 0) cmp

-- the comparison of the lambda: whether the left row stands first
unfoldable pub keys_before : List BoundOrderByItem → SortKeys → SortKeys → Result Bool
keys_before [] xs ys = ok false
keys_before (item ∷ items) (x ∷ xs) (y ∷ ys) = do
  cmp ← compare_nullable_result_values x y
  let later = keys_before items xs ys in
      if eqb_ℤ cmp (pos 0) then later else ok (in_direction item.direction cmp)
keys_before (item ∷ items) _ _ = err bad_access

-- a row goes in front of the first row that it stands before
unfoldable pub insert_sorted :
    List BoundOrderByItem → SortRow → List SortRow → Result (List SortRow)
unfolding keys_before
insert_sorted items x [] = ok (x ∷ [])
insert_sorted items x (y ∷ ys) = do
  first ← keys_before items x.sort_keys y.sort_keys
  let later = insert_sorted items x ys in
      if first then ok (x ∷ y ∷ ys) else (later >>= λ zs. ok (y ∷ zs))

unfoldable pub sort_onto :
    List BoundOrderByItem → List SortRow → List SortRow → Result (List SortRow)
unfolding insert_sorted
sort_onto items [] sorted = ok sorted
sort_onto items (x ∷ xs) sorted = do next ← insert_sorted items x sorted; sort_onto items xs next

-- `std::sort`
abbrev pub sort_rows : List BoundOrderByItem → List SortRow → Result (List SortRow)
sort_rows items rows = sort_onto items rows []

-- `GroupKeyLess`
unfoldable pub group_key_less : SortKeys → SortKeys → Result Bool
group_key_less [] [] = ok false
group_key_less [] (_ ∷ _) = ok true
group_key_less (_ ∷ _) [] = ok false
group_key_less (x ∷ xs) (y ∷ ys) = do
  cmp ← compare_nullable_result_values x y
  let later = group_key_less xs ys in
      if ltb_ℤ cmp (pos 0) then ok true else if ltb_ℤ (pos 0) cmp then ok false else later

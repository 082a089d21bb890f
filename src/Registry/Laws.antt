-- ===== src/Registry/Laws.antt =====
-- The registry as a function from levels to lists of tables, and that a range misses no table.
use htap_storage_lsm_tree.Common.{
  ℕ, zero, suc, ◌+◌, ◌-◌, ◌%◌, ◌^◌, ◌<◌, ◌≤◌, ◌≡◌, refl, ap, ◌∙◌, Bool, true, List, [], ◌∷◌, ◌++◌,
  map, length, length-append, get_elem?, keep, keep-Any, replicate, Any, leb, ◌==◌, ◌≤ℤ◌,
  if◌then◌else◌, arith, Bool-cases, inl, inr, subst, sym, ◌≢◌, ==_iff,
}
use htap_storage_lsm_tree.Types.{Key, KeyRange, contains}
use htap_storage_lsm_tree.Registry.{
  SstableInfo, SstableRegistry, add, remove, overlapping, overlaps, or_empty, push_back,
  has_other_id,
}

-- The tables of a level, none where the registry has no such level.
abbrev pub at : SstableRegistry → ℕ → List SstableInfo
at r level = or_empty (get_elem? r.levels level)

or_empty-append_replicate :
    (ls : List (List SstableInfo)) (n l : ℕ)
    → or_empty (get_elem? (ls ++ replicate n []) l) ≡ or_empty (get_elem? ls l)
or_empty-append_replicate [] zero l = refl
or_empty-append_replicate [] (suc n) zero = refl
or_empty-append_replicate [] (suc n) (suc l) = or_empty-append_replicate [] n l
or_empty-append_replicate (x ∷ ls) n zero = refl
or_empty-append_replicate (x ∷ ls) n (suc l) = or_empty-append_replicate ls n l

or_empty-push_back :
    (ls : List (List SstableInfo)) (i : ℕ) (info : SstableInfo) (l : ℕ)
    → i < length ls
    → or_empty (get_elem? (push_back i info ls) l)
      ≡ (if l == i then or_empty (get_elem? ls l) ++ info ∷ [] else or_empty (get_elem? ls l))
or_empty-push_back [] i info l h = elim h [ ]
or_empty-push_back (x ∷ ls) zero info zero h = refl
or_empty-push_back (x ∷ ls) zero info (suc l) h = ground arith
or_empty-push_back (x ∷ ls) (suc i) info zero h = ground arith
or_empty-push_back (x ∷ ls) (suc i) info (suc l) h =
    or_empty-push_back ls i info l (omega arith) ∙ ground arith

length-replicate : (n : ℕ) → length (replicate {A = List SstableInfo} n []) ≡ n
length-replicate zero = refl
length-replicate (suc n) = ap suc (length-replicate n)

at-push_back :
    (r : SstableRegistry) (ls : List (List SstableInfo)) (info : SstableInfo) (l : ℕ)
    → info.level < length ls
    → ((l : ℕ) → or_empty (get_elem? ls l) ≡ at r l)
    → or_empty (get_elem? (push_back info.level info ls) l)
      ≡ (if l == info.level then at r l ++ info ∷ [] else at r l)
at-push_back r ls info l h same = or_empty-push_back ls info.level info l h ∙ rw (same l)

pub length-resize :
    (ls : List (List SstableInfo)) (n : ℕ)
    → length ls ≤ n
    → length (ls ++ replicate (n - length ls) []) ≡ n
length-resize ls n h =
    length-append ls (replicate (n - length ls) [])
    ∙ omega (arith, length-replicate (n - length ls))

-- `add` appends the table to its level, makes missing levels, and leaves every other level as it was
-- (for a level number that does not overflow 32 bits).
pub at-add :
    (r : SstableRegistry) (info : SstableInfo) (l : ℕ)
    → info.level + 1 < 2 ^ 32
    → at (add r info) l ≡ (if l == info.level then at r l ++ info ∷ [] else at r l)
unfolding add
at-add r info l h = elim (Bool-cases (leb (length r.levels) info.level)) [
  | inl short ↦
      let n = (info.level + 1) % 2 ^ 32 in
      rw short (
        at-push_back r (r.levels ++ replicate (n - length r.levels) []) info l
          (omega (arith, length-resize r.levels n (ground arith)))
          (λ j. or_empty-append_replicate r.levels (n - length r.levels) j))
  | inr long ↦ rw long (at-push_back r r.levels info l (ground arith) (λ j. refl))
]

at_map-keep :
    (p : SstableInfo → Bool) (ls : List (List SstableInfo)) (l : ℕ)
    → or_empty (get_elem? (map (keep p) ls) l) ≡ keep p (or_empty (get_elem? ls l))
at_map-keep p [] l = refl
at_map-keep p (x ∷ ls) zero = refl
at_map-keep p (x ∷ ls) (suc l) = at_map-keep p ls l

-- The second list is the first without the tables of the id, in the same order.
pub data Without (sst_id : ℕ) : List SstableInfo → List SstableInfo → Type 0 where
  done : Without sst_id [] []
  left :
      (info : SstableInfo) {xs ys : List SstableInfo}
      → info.id ≢ sst_id
      → Without sst_id xs ys
      → Without sst_id (info ∷ xs) (info ∷ ys)
  taken :
      (info : SstableInfo) {xs ys : List SstableInfo}
      → info.id ≡ sst_id
      → Without sst_id xs ys
      → Without sst_id (info ∷ xs) ys

keep-Without :
    (sst_id : ℕ) (xs : List SstableInfo) → Without sst_id xs (keep (has_other_id sst_id) xs)
keep-Without sst_id [] = Without.done
keep-Without sst_id (x ∷ xs) = elim (Bool-cases (x.id == sst_id)) [
  | inl same ↦ simp same (Without.taken x ((==_iff x.id sst_id).0 same) (keep-Without sst_id xs))
  | inr other ↦ simp other (Without.left x (λ e. ground arith) (keep-Without sst_id xs))
]

-- `remove` takes exactly the tables with the id out of every level and leaves the others, in their order.
pub remove-Without :
    (r : SstableRegistry) (sst_id l : ℕ) → Without sst_id (at r l) (at (remove r sst_id) l)
unfolding remove
remove-Without r sst_id l =
    subst (Without sst_id (at r l)) (sym (at_map-keep (has_other_id sst_id) r.levels l))
      (keep-Without sst_id (at r l))

-- A table of the level whose key interval holds a key of the range is among the tables that
-- `overlapping` returns for the range.
pub overlapping_complete :
    (r : SstableRegistry) (level : ℕ) (range : KeyRange) (info : SstableInfo) (k : Key)
    → Any (λ i. info ≡ i) (at r level)
    → info.min_key ≤ℤ k
    → k ≤ℤ info.max_key
    → contains range k ≡ true
    → Any (λ i. info ≡ i) (overlapping r level range.from range.to)
unfolding overlapping contains
overlapping_complete r level range info k h lo hi c =
    keep-Any (overlaps range.from range.to) info (at r level) (ground arith) h

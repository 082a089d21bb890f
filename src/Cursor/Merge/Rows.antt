-- ===== src/Cursor/Merge/Rows.antt =====
-- Sorted lists of rows, and what the cursors of a merge have left to show.
use mathlib.Core.List.{Permᴰ}
use mathlib.Core.List.Permᴰ
use htap_storage_lsm_tree.Common.{
  ℕ, zero, suc, ◌≡◌, refl, ap, some, some-injective, List, [], ◌∷◌, ◌++◌, length, get_elem?, set,
  All, All-imp, concat, ◌≤ℤ◌, arith, length-append,
}
use htap_storage_lsm_tree.Types.{Key, Row, row_key}
use htap_storage_lsm_tree.Cursor.{ICursor, Yields}

abbrev pub KeyAtLeast : Key → Row → Type 0
KeyAtLeast k r = (j : Key) × (row_key r ≡ some j) × (k ≤ℤ j)

-- Each row has a key, and the later rows have no smaller one.
abbrev pub IsSortedRows : List Row → Type 0
IsSortedRows [] = Unit
IsSortedRows (r ∷ rs) = (k : Key) × (row_key r ≡ some k) × All (KeyAtLeast k) rs × IsSortedRows rs

pub KeyAtLeast-trans :
    (j k : Key) → j ≤ℤ k → (rs : List Row) → All (KeyAtLeast k) rs → All (KeyAtLeast j) rs
KeyAtLeast-trans j k l rs = All-imp (λ r q. (q.0, q.1, omega (arith, q.2))) rs

pub IsSortedRows-least :
    (k : Key) (r : Row) (rs : List Row)
    → row_key r ≡ some k
    → IsSortedRows (r ∷ rs)
    → All (KeyAtLeast k) (r ∷ rs)
IsSortedRows-least k r rs e s =
    let l : k ≤ℤ s.0 = ground (arith, e, s.1) in
    ((k, e, omega arith), KeyAtLeast-trans k s.0 l rs s.2)

-- A row that a list begins with goes to the front of all the rows.
pub concat-set :
    (rss : List (List Row)) (p : ℕ) (r : Row) (rs : List Row)
    → get_elem? rss p ≡ some (r ∷ rs)
    → Permᴰ (concat rss) (r ∷ concat (set rss p rs))
concat-set [] p r rs e = absurd (ground arith)
concat-set (l ∷ rss) zero r rs e = rw (some-injective _ _ e) (Permᴰ.refl (r ∷ rs ++ concat rss))
concat-set (l ∷ rss) (suc p) r rs e =
    Permᴰ.trans (Permᴰ.append_left l (concat-set rss p r rs e))
      (Permᴰ.middle r l (concat (set rss p rs)))

pub length-concat-set :
    (rss : List (List Row)) (p : ℕ) (r : Row) (rs : List Row)
    → get_elem? rss p ≡ some (r ∷ rs)
    → length (concat rss) ≡ suc (length (concat (set rss p rs)))
length-concat-set [] p r rs e = absurd (ground arith)
length-concat-set (l ∷ rss) zero r rs e = rw (some-injective _ _ e) refl
length-concat-set (l ∷ rss) (suc p) r rs e = omega (
  arith,
  length-append l (concat rss),
  length-append l (concat (set rss p rs)),
  length-concat-set rss p r rs e,
)

-- Each cursor yields the rows that stand at its place.
abbrev pub YieldAll : {C : Type 0} ⦃i : ICursor C⦄ → List C → List (List Row) → Type 0
YieldAll [] [] = Unit
YieldAll [] (_ ∷ _) = ⊥
YieldAll (_ ∷ _) [] = ⊥
YieldAll (c ∷ cs) (rs ∷ rss) = Yields c rs × YieldAll cs rss

module _ {C : Type 0} ⦃i : ICursor C⦄ where
  pub YieldAll-get :
      (cs : List C) (rss : List (List Row)) (p : ℕ) {rs : List Row}
      → YieldAll cs rss
      → get_elem? rss p ≡ some rs
      → (c : C) × (get_elem? cs p ≡ some c) × Yields c rs
  YieldAll-get [] [] p y e = absurd (ground arith)
  YieldAll-get [] (_ ∷ _) p y e = absurd y
  YieldAll-get (_ ∷ _) [] p y e = absurd y
  YieldAll-get (c ∷ cs) (l ∷ rss) zero y e = rw (← some-injective _ _ e) (c, refl, y.0)
  YieldAll-get (c ∷ cs) (l ∷ rss) (suc p) y e = YieldAll-get cs rss p y.1 e

  pub YieldAll-set :
      (cs : List C) (rss : List (List Row)) (p : ℕ) (c : C) (rs : List Row)
      → YieldAll cs rss
      → Yields c rs
      → YieldAll (set cs p c) (set rss p rs)
  YieldAll-set [] [] p c rs y q = tt
  YieldAll-set [] (_ ∷ _) p c rs y q = absurd y
  YieldAll-set (_ ∷ _) [] p c rs y q = absurd y
  YieldAll-set (_ ∷ cs) (_ ∷ rss) zero c rs y q = (q, y.1)
  YieldAll-set (_ ∷ cs) (_ ∷ rss) (suc p) c rs y q = (y.0, YieldAll-set cs rss p c rs y.1 q)

  pub YieldAll-length :
      (cs : List C) (rss : List (List Row)) → YieldAll cs rss → length cs ≡ length rss
  YieldAll-length [] [] y = refl
  YieldAll-length [] (_ ∷ _) y = absurd y
  YieldAll-length (_ ∷ _) [] y = absurd y
  YieldAll-length (_ ∷ cs) (_ ∷ rss) y = ap suc (YieldAll-length cs rss y.1)

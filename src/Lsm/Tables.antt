-- ===== src/Lsm/Tables.antt =====
-- The tables of all levels as one list, up to order: what `add` and `remove` do to it.
use mathlib.Core.List.{Permᴰ}
use mathlib.Core.List.Permᴰ
use htap_storage_lsm_tree.Common.{
  ℕ, zero, suc, ◌+◌, ◌%◌, ◌^◌, ◌<◌, ◌≤◌, ◌≡◌, ◌≢◌, refl, sym, ap, ◌∙◌, subst, Bool, true, false,
  List, [], ◌∷◌, ◌++◌, append_assoc, map, length, length-map, get_elem?, set, concat, keep,
  keep-append, replicate, All, leb, ◌==◌, arith, Bool-cases, inl, inr, some, some-injective, ◌-◌,
}
use htap_storage_lsm_tree.Common.Perms.{All-Permᴰ, keep-Permᴰ}
use htap_storage_lsm_tree.Registry.{
  SstableInfo, SstableRegistry, add, remove, push_back, has_other_id,
}
use htap_storage_lsm_tree.Registry.Laws.{length-resize}
use htap_storage_lsm_tree.Lsm.Compact.{remove_tables}

-- The tables have ids of their own.
abbrev pub HasDistinctIds : List SstableInfo → Type 0
HasDistinctIds [] = Unit
HasDistinctIds (x ∷ xs) = All (λ y. x.id ≢ y.id) xs × HasDistinctIds xs

pub HasDistinctIds-Permᴰ :
    {xs ys : List SstableInfo} → Permᴰ xs ys → HasDistinctIds xs → HasDistinctIds ys
HasDistinctIds-Permᴰ Permᴰ.nil h = tt
HasDistinctIds-Permᴰ (Permᴰ.cons {a = a} {b = b} {l₂ = l₂} e d) h = (
  subst (λ (z : SstableInfo). All (λ (y : SstableInfo). z.id ≢ y.id) l₂) e
      (All-Permᴰ (λ (y : SstableInfo). a.id ≢ y.id) d h.0),
  HasDistinctIds-Permᴰ d h.1,
)
HasDistinctIds-Permᴰ (Permᴰ.swap {a = a} {b = b} {b' = b'} {l = l} e d) h =
    subst (λ z. HasDistinctIds (z ∷ b' ∷ l)) d
      (subst (λ z. HasDistinctIds (b ∷ z ∷ l)) e ((λ q. h.0.0 (sym q), h.1.0), (h.0.1, h.1.1)))
HasDistinctIds-Permᴰ (Permᴰ.trans d e) h = HasDistinctIds-Permᴰ e (HasDistinctIds-Permᴰ d h)

pub HasDistinctIds-back :
    (front back : List SstableInfo) → HasDistinctIds (front ++ back) → HasDistinctIds back
HasDistinctIds-back [] back h = h
HasDistinctIds-back (x ∷ front) back h = HasDistinctIds-back front back h.1

abbrev pub all_tables : SstableRegistry → List SstableInfo
all_tables r = concat r.levels

concat-append_replicate :
    (ls : List (List SstableInfo)) (n : ℕ) → concat (ls ++ replicate n []) ≡ concat ls
concat-append_replicate [] zero = refl
concat-append_replicate [] (suc n) = concat-append_replicate [] n
concat-append_replicate (l ∷ ls) n = ap (λ t. l ++ t) (concat-append_replicate ls n)

concat-push_back :
    (ls : List (List SstableInfo)) (i : ℕ) (info : SstableInfo)
    → i < length ls
    → Permᴰ (concat (push_back i info ls)) (info ∷ concat ls)
concat-push_back [] i info h = absurd (omega arith)
concat-push_back (l ∷ ls) zero info h =
    rw (append_assoc l (info ∷ []) (concat ls)) (Permᴰ.middle info l (concat ls))
concat-push_back (l ∷ ls) (suc i) info h =
    Permᴰ.trans (Permᴰ.append_left l (concat-push_back ls i info (omega arith)))
      (Permᴰ.middle info l (concat ls))

length-push_back :
    (i : ℕ) (info : SstableInfo) (ls : List (List SstableInfo))
    → length (push_back i info ls) ≡ length ls
length-push_back i info [] = refl
length-push_back zero info (l ∷ ls) = refl
length-push_back (suc i) info (l ∷ ls) = ap suc (length-push_back i info ls)

-- `add` adds the one table.
pub add-Permᴰ :
    (r : SstableRegistry) (info : SstableInfo)
    → info.level + 1 < 2 ^ 32
    → Permᴰ (all_tables (add r info)) (info ∷ all_tables r)
unfolding add
add-Permᴰ r info h = elim (Bool-cases (leb (length r.levels) info.level)) [
  | inl short ↦
      let n = (info.level + 1) % 2 ^ 32 in
      rw short (
        subst
          (λ t.
            Permᴰ
              (concat (push_back info.level info (r.levels ++ replicate (n - length r.levels) [])))
              (info ∷ t))
          (concat-append_replicate r.levels (n - length r.levels))
          (concat-push_back (r.levels ++ replicate (n - length r.levels) []) info.level info
            (omega (arith, length-resize r.levels n (ground arith)))))
  | inr long ↦ rw long (concat-push_back r.levels info.level info (ground arith))
]

concat-map-keep :
    (p : SstableInfo → Bool) (ls : List (List SstableInfo))
    → concat (map (keep p) ls) ≡ keep p (concat ls)
concat-map-keep p [] = refl
concat-map-keep p (l ∷ ls) =
    ap (λ t. keep p l ++ t) (concat-map-keep p ls) ∙ sym (keep-append p l (concat ls))

-- The tables of a level come first.
pub level-Permᴰ :
    (ls : List (List SstableInfo)) (i : ℕ) {l : List SstableInfo}
    → get_elem? ls i ≡ some l
    → Permᴰ (concat ls) (l ++ concat (set ls i []))
level-Permᴰ [] i e = absurd (ground arith)
level-Permᴰ (x ∷ ls) zero e = rw (some-injective _ _ e) (Permᴰ.refl _)
level-Permᴰ (x ∷ ls) (suc i) {l} e = Permᴰ.trans (Permᴰ.append_left x (level-Permᴰ ls i e)) (
    rw (← append_assoc x l (concat (set ls i []))) (
      rw (← append_assoc l x (concat (set ls i [])))
        (Permᴰ.append_right (concat (set ls i [])) (Permᴰ.append_comm x l))))

keep_others :
    (id : ℕ) (xs : List SstableInfo) → All (λ y. id ≢ y.id) xs → keep (has_other_id id) xs ≡ xs
keep_others id [] a = refl
keep_others id (x ∷ xs) a =
    let other : (x.id == id) ≡ false = ground arith in
    simp other (ap (λ t. x ∷ t) (keep_others id xs a.1))

-- Removing tables one by one leaves the others.
pub remove_tables-Permᴰ :
    (olds rest : List SstableInfo) (r : SstableRegistry)
    → Permᴰ (all_tables r) (olds ++ rest)
    → HasDistinctIds (olds ++ rest)
    → Permᴰ (all_tables (remove_tables olds r)) rest
unfolding remove_tables remove
remove_tables-Permᴰ [] rest r d h = d
remove_tables-Permᴰ (old ∷ olds) rest r d h =
    let same : (old.id == old.id) ≡ true = ground arith in
    let kept : keep (has_other_id old.id) (old ∷ olds ++ rest) ≡ olds ++ rest =
      simp same (keep_others old.id (olds ++ rest) h.0) in
    remove_tables-Permᴰ olds rest (remove r old.id)
      (subst (λ t. Permᴰ t (olds ++ rest)) (sym (concat-map-keep (has_other_id old.id) r.levels))
        (subst (λ t. Permᴰ (keep (has_other_id old.id) (all_tables r)) t) kept
          (keep-Permᴰ (has_other_id old.id) d)))
      h.1

-- `add` makes at most one level, where the table's level is not behind the next.
pub length-add :
    (r : SstableRegistry) (info : SstableInfo)
    → info.level ≤ length r.levels
    → length r.levels + 1 < 2 ^ 32
    → length (add r info).levels ≤ suc (length r.levels)
unfolding add
length-add r info l h = elim (Bool-cases (leb (length r.levels) info.level)) [
  | inl short ↦
      let n = (info.level + 1) % 2 ^ 32 in
      rw short (
        omega (
          arith,
          length-push_back info.level info (r.levels ++ replicate (n - length r.levels) []),
          length-resize r.levels n (ground arith),
        ))
  | inr long ↦ rw long (omega (arith, length-push_back info.level info r.levels))
]

pub length-remove_tables :
    (olds : List SstableInfo) (r : SstableRegistry)
    → length (remove_tables olds r).levels ≡ length r.levels
unfolding remove_tables remove
length-remove_tables [] r = refl
length-remove_tables (old ∷ olds) r =
    length-remove_tables olds (remove r old.id) ∙ length-map (keep (has_other_id old.id)) r.levels

-- ===== src/Sstable/BlockCache/Order.antt =====
-- The list of the keys of a block cache (src/storage/read/sstable/sstable_block_cache.cpp) in order of use: what unlinking a
-- key and taking off the last one do to it.
use htap_storage_lsm_tree.Common.{
  ℕ, suc, ◌+◌, true, false, List, [], ◌∷◌, length, ◌≡◌, refl, sym, ap, subst, if◌then◌else◌, All,
  ◌⊎◌, inl, inr, arith,
}
use htap_storage_lsm_tree.Sstable.BlockCache.{
  CacheKey, eqb_key, eqb_key_iff, cache_key_eq, unlinked, back, popped,
}

abbrev pub Absent : CacheKey → List CacheKey → Type 0
Absent k ks = All (λ j. eqb_key j k ≡ false) ks

abbrev pub Distinct : List CacheKey → Type 0
Distinct [] = Unit
Distinct (k ∷ ks) = Absent k ks × Distinct ks

abbrev pub In : CacheKey → List CacheKey → Type 0
In k [] = ⊥
In k (j ∷ js) = (eqb_key j k ≡ true) ⊎ In k js

-- the bytes of the blocks with these keys
abbrev pub total : (CacheKey → List ℕ) → List CacheKey → ℕ
total contents [] = 0
total contents (k ∷ ks) = length (contents k) + total contents ks

pub All-unlinked :
    (P : CacheKey → Type 0) (key : CacheKey) (ks : List CacheKey)
    → All P ks
    → All P (unlinked key ks)
All-unlinked P key [] h = tt
All-unlinked P key (k ∷ ks) (h, hs) =
    elim (eqb_key k key) as (λ b. All P (if b then ks else k ∷ unlinked key ks)) [
      | true ↦ hs
      | false ↦ (h, All-unlinked P key ks hs)
    ]

pub Distinct-unlinked :
    (key : CacheKey) (ks : List CacheKey) → Distinct ks → Distinct (unlinked key ks)
Distinct-unlinked key [] d = tt
Distinct-unlinked key (k ∷ ks) (a, d) =
    elim (eqb_key k key) as (λ b. Distinct (if b then ks else k ∷ unlinked key ks)) [
      | true ↦ d
      | false ↦ (All-unlinked (λ j. eqb_key j k ≡ false) key ks a, Distinct-unlinked key ks d)
    ]

pub Absent-unlinked :
    (key : CacheKey) (ks : List CacheKey) → Distinct ks → Absent key (unlinked key ks)
Absent-unlinked key [] d = tt
Absent-unlinked key (k ∷ ks) (a, d) =
    elim (eqb_key k key)
        as (λ b. eqb_key k key ≡ b → Absent key (if b then ks else k ∷ unlinked key ks)) [
          | true ↦ λ e. subst (λ x. Absent x ks) ((eqb_key_iff k key).0 e) a
          | false ↦ λ e. (e, Absent-unlinked key ks d)
        ]
      refl

pub All-popped :
    (P : CacheKey → Type 0) (k : CacheKey) (ks : List CacheKey)
    → All P (k ∷ ks)
    → All P (popped k ks)
All-popped P k [] h = tt
All-popped P k (j ∷ js) (h, hs) = (h, All-popped P j js hs)

pub All-back :
    (P : CacheKey → Type 0) (k : CacheKey) (ks : List CacheKey) → All P (k ∷ ks) → P (back k ks)
All-back P k [] h = h.0
All-back P k (j ∷ js) h = All-back P j js h.1

pub Distinct-popped :
    (k : CacheKey) (ks : List CacheKey) → Distinct (k ∷ ks) → Distinct (popped k ks)
Distinct-popped k [] d = tt
Distinct-popped k (j ∷ js) (a, d) =
    (All-popped (λ x. eqb_key x k ≡ false) j js a, Distinct-popped j js d)

pub back-differs :
    (k : CacheKey) (ks : List CacheKey)
    → Distinct (k ∷ ks)
    → All (λ j. eqb_key (back k ks) j ≡ false) (popped k ks)
back-differs k [] d = tt
back-differs k (j ∷ js) (a, d) = (All-back (λ x. eqb_key x k ≡ false) j js a, back-differs j js d)

pub length-popped : (k : CacheKey) (ks : List CacheKey) → length (popped k ks) ≡ length ks
length-popped k [] = refl
length-popped k (j ∷ js) = ap suc (length-popped j js)

-- The last key leaves the list.
pub In-popped :
    (x k : CacheKey) (ks : List CacheKey)
    → In x (k ∷ ks)
    → (eqb_key (back k ks) x ≡ true) ⊎ In x (popped k ks)
In-popped x k [] (inl e) = inl e
In-popped x k [] (inr h) = absurd h
In-popped x k (j ∷ js) (inl e) = inr (inl e)
In-popped x k (j ∷ js) (inr h) = elim (In-popped x j js h) [ inl e ↦ inl e | inr i ↦ inr (inr i) ]

pub In-unlinked :
    (x key : CacheKey) (ks : List CacheKey)
    → In x ks
    → (eqb_key key x ≡ true) ⊎ In x (unlinked key ks)
In-unlinked x key [] h = absurd h
In-unlinked x key (k ∷ ks) h =
    elim (eqb_key k key)
        as (λ b.
          eqb_key k key ≡ b
          → (eqb_key key x ≡ true) ⊎ In x (if b then ks else k ∷ unlinked key ks)) [
            | true ↦ λ e. front e h
            | false ↦ λ _. behind h (In-unlinked x key ks)
          ]
      refl
  where
    front : eqb_key k key ≡ true → In x (k ∷ ks) → (eqb_key key x ≡ true) ⊎ In x ks
    front e (inl q) = inl (subst (λ y. eqb_key y x ≡ true) ((eqb_key_iff k key).0 e) q)
    front e (inr q) = inr q

    behind :
        In x (k ∷ ks)
        → (In x ks → (eqb_key key x ≡ true) ⊎ In x (unlinked key ks))
        → (eqb_key key x ≡ true) ⊎ In x (k ∷ unlinked key ks)
    behind (inl q) later = inr (inl q)
    behind (inr q) later = elim (later q) [ inl e ↦ inl e | inr i ↦ inr (inr i) ]

pub length-unlinked :
    (key : CacheKey) (ks : List CacheKey) → In key ks → length (key ∷ unlinked key ks) ≡ length ks
length-unlinked key [] h = absurd h
length-unlinked key (k ∷ ks) h =
    elim (eqb_key k key)
        as (λ b.
          eqb_key k key ≡ b
          → length (key ∷ (if b then ks else k ∷ unlinked key ks)) ≡ suc (length ks)) [
            | true ↦ λ _. refl
            | false ↦ λ e. behind e h (length-unlinked key ks)
          ]
      refl
  where
    behind :
        eqb_key k key ≡ false
        → In key (k ∷ ks)
        → (In key ks → length (key ∷ unlinked key ks) ≡ length ks)
        → length (key ∷ k ∷ unlinked key ks) ≡ suc (length ks)
    behind e (inl q) later = absurd (ground (arith, e, q))
    behind e (inr q) later = ap suc (later q)

module _ (contents : CacheKey → List ℕ) where
  pub total-popped :
      (k : CacheKey) (ks : List CacheKey)
      → length (contents (back k ks)) + total contents (popped k ks) ≡ total contents (k ∷ ks)
  total-popped k [] = refl
  total-popped k (j ∷ js) = omega (arith, total-popped j js)

  pub total-unlinked :
      (key : CacheKey) (ks : List CacheKey)
      → In key ks
      → total contents (key ∷ unlinked key ks) ≡ total contents ks
  total-unlinked key [] h = absurd h
  total-unlinked key (k ∷ ks) h =
      elim (eqb_key k key)
          as (λ b.
            eqb_key k key ≡ b
            → length (contents key) + total contents (if b then ks else k ∷ unlinked key ks)
              ≡ total contents (k ∷ ks)) [
                | true ↦ λ e.
                    ap (λ x. length (contents x) + total contents ks)
                      (sym ((eqb_key_iff k key).0 e))
                | false ↦ λ e. behind e h (total-unlinked key ks)
              ]
        refl
    where
      behind :
          eqb_key k key ≡ false
          → In key (k ∷ ks)
          → (In key ks → total contents (key ∷ unlinked key ks) ≡ total contents ks)
          → length (contents key) + total contents (k ∷ unlinked key ks) ≡ total contents (k ∷ ks)
      behind e (inl q) later = absurd (ground (arith, e, q))
      behind e (inr q) later = let rest = later q in omega (arith, rest)

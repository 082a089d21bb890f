-- ===== src/Sstable/BlockCache/Evict.antt =====
-- The invariant of a block cache (src/storage/read/sstable/sstable_block_cache.cpp), and its eviction.
use htap_storage_lsm_tree.Common.{
  ℕ, zero, suc, ◌+◌, ◌-◌, ◌%◌, ◌^◌, ◌≤◌, ◌<◌, true, false, none, some, List, [], ◌∷◌, length, ltb,
  ◌≡◌, refl, sym, ap, ◌∙◌, if◌then◌else◌, All, ◌⊎◌, inl, inr, arith, Bool-cases,
}
use htap_storage_lsm_tree.Common.Assoc.{Assoc, lookup, erase, lookup-erase}
use htap_storage_lsm_tree.Sstable.BlockCache.{
  CacheKey, CacheEntry, SstableBlockCache, eqb_key, cache_key_eq, without_entry, evict_page, back,
  popped, evict_one, evict_loop,
}
use htap_storage_lsm_tree.Sstable.BlockCache.Order.{
  Distinct, In, total, All-popped, All-back, Distinct-popped, back-differs, length-popped,
  In-popped, total-popped,
}

abbrev pub Has : Assoc CacheKey CacheEntry → CacheKey → Type 0
Has m k = (e : CacheEntry) × (lookup k m ≡ some e)

-- the entry holds the block and its size
abbrev pub IsEntryOf : List ℕ → CacheEntry → Type 0
IsEntryOf bytes e = (e.bytes ≡ bytes) × (e.size ≡ length bytes)

-- The keys of the list are distinct and are the keys of the entries, the entries are what the loaders give, and the
-- count is the sum of their bytes.
pub record IsConsistent (contents : CacheKey → List ℕ) (c : SstableBlockCache) : Type 0 where
  pub distinct : Distinct c.lru
  pub tracked : All (Has c.entries) c.lru
  pub listed : (k : CacheKey) (e : CacheEntry) → lookup k c.entries ≡ some e → In k c.lru
  pub coherent :
      (k : CacheKey) (e : CacheEntry) → lookup k c.entries ≡ some e → IsEntryOf (contents k) e
  pub counted : c.cached_bytes ≡ total contents c.lru

-- The bytes of the blocks are within the bound, or one block is left.
abbrev pub IsBounded : (CacheKey → List ℕ) → SstableBlockCache → Type 0
IsBounded contents c = (total contents c.lru ≤ c.max_cached_bytes) ⊎ (length c.lru ≤ 1)

-- what holds between two reads
pub record IsCache (contents : CacheKey → List ℕ) (c : SstableBlockCache) : Type 0 where
  pub consistent : IsConsistent contents c
  pub bounded : IsBounded contents c

Has-erase :
    (m : Assoc CacheKey CacheEntry) (v : CacheKey) (ks : List CacheKey)
    → All (Has m) ks
    → All (λ j. eqb_key v j ≡ false) ks
    → All (Has (erase v m)) ks
Has-erase m v [] h d = tt
Has-erase m v (k ∷ ks) ((e, f), hs) (n, ns) =
    ((e, lookup-erase v k m ∙ simp n f), Has-erase m v ks hs ns)

pub none-some : {e : CacheEntry} → none ≡ some e → ⊥
none-some h = ground arith

module _ (contents : CacheKey → List ℕ) where
  coherent-erase :
      (m : Assoc CacheKey CacheEntry) (v : CacheKey)
      → ((k : CacheKey) (e : CacheEntry) → lookup k m ≡ some e → IsEntryOf (contents k) e)
      → (k : CacheKey) (e : CacheEntry) → lookup k (erase v m) ≡ some e
      → IsEntryOf (contents k) e
  coherent-erase m v h k e l =
      elim (eqb_key v k)
          as (λ b. (if b then none else lookup k m) ≡ some e → IsEntryOf (contents k) e) [
            | true ↦ λ q. absurd (ground arith)
            | false ↦ λ q. h k e q
          ]
        (sym (lookup-erase v k m) ∙ l)

  listed-erase :
      (m : Assoc CacheKey CacheEntry) (j : CacheKey) (js : List CacheKey)
      → ((x : CacheKey) (e : CacheEntry) → lookup x m ≡ some e → In x (j ∷ js))
      → (x : CacheKey) (e : CacheEntry) → lookup x (erase (back j js) m) ≡ some e
      → In x (popped j js)
  listed-erase m j js h x e l =
      elim (eqb_key (back j js) x)
          as (λ b.
            eqb_key (back j js) x ≡ b
            → (if b then none else lookup x m) ≡ some e
            → In x (popped j js)) [
              | true ↦ λ _ q. absurd (ground arith)
              | false ↦ λ other q. elim (In-popped x j js (h x e q)) [
                | inl same ↦ absurd (ground (arith, other, same))
                | inr i ↦ i
              ]
            ]
        refl (sym (lookup-erase (back j js) x m) ∙ l)

  -- the cache behind a round of the eviction
  evict_one-IsConsistent :
      (k j : CacheKey) (js : List CacheKey) (c : SstableBlockCache)
      → IsConsistent contents (record c { lru = k ∷ j ∷ js })
      → total contents (k ∷ j ∷ js) < 2 ^ 64
      → (d : SstableBlockCache) × (evict_one k j js (record c { lru = k ∷ j ∷ js })
          ≡ record d { lru = k ∷ popped j js })
        × IsConsistent contents (record d { lru = k ∷ popped j js })
        × (d.max_cached_bytes ≡ c.max_cached_bytes)
  unfolding evict_one evict_page
  evict_one-IsConsistent k j js c h small =
      let v = back j js in
      let (e, found) = All-back (Has c.entries) j js h.tracked.1 in
      let d : SstableBlockCache = record c {
        cached_bytes = (c.cached_bytes + 2 ^ 64 - e.size) % 2 ^ 64;
        entries = erase v c.entries;
      } in
      (
        d,
        ap (without_entry v (record c { lru = k ∷ popped j js })) found,
        record {
          distinct = Distinct-popped k (j ∷ js) h.distinct;
          tracked =
              Has-erase c.entries v (k ∷ popped j js)
                (All-popped (Has c.entries) k (j ∷ js) h.tracked)
                (back-differs k (j ∷ js) h.distinct);
          listed = listed-erase c.entries k (j ∷ js) h.listed;
          coherent = coherent-erase c.entries v h.coherent;
          counted =
              omega (arith, h.counted, (h.coherent v e found).1, total-popped contents j js, small);
        },
        refl,
      )

  -- The eviction keeps the front of the list and ends within the bound.
  pub evict_loop-IsConsistent :
      (fuel : ℕ) (k : CacheKey) (ks : List CacheKey) (c : SstableBlockCache)
      → length ks < fuel
      → IsConsistent contents (record c { lru = k ∷ ks })
      → total contents (k ∷ ks) < 2 ^ 64
      → (d : SstableBlockCache) × (rest : List CacheKey) × (evict_loop fuel
            (record c { lru = k ∷ ks })
          ≡ record d { lru = k ∷ rest })
        × IsConsistent contents (record d { lru = k ∷ rest })
        × IsBounded contents (record d { lru = k ∷ rest })
        × (d.max_cached_bytes ≡ c.max_cached_bytes)
  unfolding evict_loop
  evict_loop-IsConsistent zero k ks c l h small = absurd (omega arith)
  evict_loop-IsConsistent (suc fuel) k [] c l h small = (c, [], refl, h, inr (omega arith), refl)
  evict_loop-IsConsistent (suc fuel) k (j ∷ js) c l h small =
      elim (Bool-cases (ltb c.max_cached_bytes c.cached_bytes)) [
        | inl over ↦
            let (d, e, i, m) = evict_one-IsConsistent k j js c h small in
            let (d2, rest, e2, i2, b2, m2) =
              evict_loop-IsConsistent fuel k (popped j js) d
                (let w = length-popped j js in omega arith) i
                (omega (arith, total-popped contents j js, small)) in
            (d2, rest, simp (over, e) e2, i2, b2, m2 ∙ m)
        | inr within ↦ (c, j ∷ js, simp within refl, h, inl (ground (arith, h.counted)), refl)
      ]

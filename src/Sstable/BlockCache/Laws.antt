-- ===== src/Sstable/BlockCache/Laws.antt =====
-- A read through the block cache (src/storage/read/sstable/sstable_block_cache.cpp).
use htap_storage_lsm_tree.Common.{
  ℕ, suc, ◌+◌, ◌%◌, ◌^◌, ◌<◌, true, false, Option, none, some, List, [], ◌∷◌, length, ◌≡◌, refl,
  sym, ap, ◌∙◌, subst, if◌then◌else◌, ok, All, inl, inr, arith, Bool-cases, some-injective,
}
use htap_storage_lsm_tree.Common.Assoc.{lookup, assign, lookup-assign}
use htap_storage_lsm_tree.Sstable.BlockCache.{
  CacheKey, CacheEntry, SstableBlockCache, eqb_key, eqb_key_iff, cache_key_eq, touch, read_found,
  evict_if_needed, inserted, missed, load_block, read_block, entry_bytes,
}
use htap_storage_lsm_tree.Sstable.BlockCache.Order.{
  Absent, In, total, All-unlinked, Distinct-unlinked, Absent-unlinked, In-unlinked, length-unlinked,
  total-unlinked,
}
use htap_storage_lsm_tree.Sstable.BlockCache.Evict.{
  Has, IsEntryOf, IsConsistent, IsCache, none-some, evict_loop-IsConsistent,
}

module _ (contents : CacheKey → List ℕ) where
  -- what the read of the entry gives where the entry is there
  entry_bytes-ok :
      (c : SstableBlockCache) (k : CacheKey)
      → IsConsistent contents c
      → Has c.entries k
      → entry_bytes (lookup k c.entries) ≡ ok (contents k)
  entry_bytes-ok c k h (e, found) = ap entry_bytes found ∙ ap ok (h.coherent k e found).0

  -- The new entry, where there was none.
  inserted-IsConsistent :
      (k : CacheKey) (c : SstableBlockCache)
      → lookup k c.entries ≡ none
      → IsConsistent contents c
      → total contents c.lru + length (contents k) < 2 ^ 64
      → IsConsistent contents (inserted k (contents k) c)
  unfolding inserted
  inserted-IsConsistent k c n h small = record {
    distinct = (absent c.lru h.tracked, h.distinct);
    tracked = (
      (fresh, lookup-assign k k fresh c.entries ∙ simp ((eqb_key_iff k k).1 refl) refl),
      kept c.lru h.tracked,
    );
    listed = member;
    coherent = agrees;
    counted = omega (arith, h.counted, small);
  }
    where
      fresh : CacheEntry
      fresh = record { bytes = contents k; size = length (contents k) }

      absent : (ks : List CacheKey) → All (Has c.entries) ks → Absent k ks
      absent [] t = tt
      absent (j ∷ js) ((e, f), ts) = (other j e f, absent js ts)
        where
          other :
              (j : CacheKey) (e : CacheEntry) → lookup j c.entries ≡ some e → eqb_key j k ≡ false
          other j e f = elim (Bool-cases (eqb_key j k)) [
            | inl same ↦ absurd (
                none-some
                  (sym n ∙ ap (λ x. lookup x c.entries) (sym ((eqb_key_iff j k).0 same)) ∙ f))
            | inr d ↦ d
          ]

      kept : (ks : List CacheKey) → All (Has c.entries) ks → All (Has (assign k fresh c.entries)) ks
      kept [] t = tt
      kept (j ∷ js) ((e, f), ts) = (assigned j e f, kept js ts)
        where
          assigned :
              (j : CacheKey) (e : CacheEntry)
              → lookup j c.entries ≡ some e
              → Has (assign k fresh c.entries) j
          assigned j e f = elim (Bool-cases (eqb_key k j)) [
            | inl same ↦ (fresh, lookup-assign k j fresh c.entries ∙ simp same refl)
            | inr d ↦ (e, lookup-assign k j fresh c.entries ∙ simp d f)
          ]

      member :
          (j : CacheKey) (e : CacheEntry)
          → lookup j (assign k fresh c.entries) ≡ some e
          → In j (k ∷ c.lru)
      member j e f =
          elim (eqb_key k j)
              as (λ b.
                eqb_key k j ≡ b
                → (if b then some fresh else lookup j c.entries) ≡ some e
                → In j (k ∷ c.lru)) [
                  | true ↦ λ same _. inl same
                  | false ↦ λ _ q. inr (h.listed j e q)
                ]
            refl (sym (lookup-assign k j fresh c.entries) ∙ f)

      agrees :
          (j : CacheKey) (e : CacheEntry)
          → lookup j (assign k fresh c.entries) ≡ some e
          → IsEntryOf (contents j) e
      agrees j e f =
          elim (eqb_key k j)
              as (λ b.
                eqb_key k j ≡ b
                → (if b then some fresh else lookup j c.entries) ≡ some e
                → IsEntryOf (contents j) e) [
                  | true ↦ λ same q.
                      subst (λ x. IsEntryOf (contents j) x) (some-injective _ _ q)
                        (
                          ap contents ((eqb_key_iff k j).0 same),
                          ap (λ x. length (contents x)) ((eqb_key_iff k j).0 same),
                        )
                  | false ↦ λ _ q. h.coherent j e q
                ]
            refl (sym (lookup-assign k j fresh c.entries) ∙ f)

  hit_read :
      (k : CacheKey) (c : SstableBlockCache) (e : CacheEntry)
      → lookup k c.entries ≡ some e
      → IsCache contents c
      → (d : SstableBlockCache) × (read_found k (ok (contents k)) c (some e) ≡ (ok (contents k), d))
        × IsCache contents d
        × (d.max_cached_bytes ≡ c.max_cached_bytes)
  unfolding touch
  hit_read k c e f cache =
      let h = cache.consistent in
      let same = total-unlinked contents k c.lru (h.listed k e f) in
      (
        touch k (record c { hits = (c.hits + 1) % 2 ^ 64 }),
        ap (λ b. (ok b, touch k (record c { hits = (c.hits + 1) % 2 ^ 64 }))) (h.coherent k e f).0,
        record {
          consistent = record {
            distinct = (Absent-unlinked k c.lru h.distinct, Distinct-unlinked k c.lru h.distinct);
            tracked = ((e, f), All-unlinked (Has c.entries) k c.lru h.tracked);
            listed = λ x y q. elim (In-unlinked x k c.lru (h.listed x y q)) [
              | inl s ↦ inl s
              | inr i ↦ inr i
            ];
            coherent = h.coherent;
            counted = h.counted ∙ sym same;
          };
          bounded = elim cache.bounded [
            | inl w ↦ inl (omega (arith, same, w))
            | inr w ↦ inr (omega (arith, length-unlinked k c.lru (h.listed k e f), w))
          ];
        },
        refl,
      )

  missed_read :
      (k : CacheKey) (c : SstableBlockCache)
      → lookup k c.entries ≡ none
      → IsConsistent contents c
      → total contents c.lru + length (contents k) < 2 ^ 64
      → (d : SstableBlockCache) × (load_block k (ok (contents k)) c ≡ (ok (contents k), d))
        × IsCache contents d
        × (d.max_cached_bytes ≡ c.max_cached_bytes)
  unfolding load_block evict_if_needed inserted
  missed_read k c n h small =
      let start = inserted k (contents k) (missed c) in
      let i =
        inserted-IsConsistent k (missed c) n
          (record {
            distinct = h.distinct;
            tracked = h.tracked;
            listed = h.listed;
            coherent = h.coherent;
            counted = h.counted;
          })
          small in
      let (d, rest, e, j, b, m) =
        evict_loop-IsConsistent contents (suc (length c.lru)) k c.lru start (omega arith) i
          (omega (arith, small)) in
      let cache : SstableBlockCache = record d { lru = k ∷ rest } in
      (
        cache,
        ap (λ x. (entry_bytes (lookup k x.entries), x)) e
            ∙ ap (λ b. (b, cache)) (entry_bytes-ok cache k j j.tracked.0),
        record { consistent = j; bounded = b },
        m,
      )

  -- In a cache whose list has exactly the keys of its entries, each once, whose entries are what the loaders give, whose
  -- count is the sum of their bytes, and which is within its bound or has at most one block, a read gives
  -- what the loader gives, from the cache or not, and never uses an entry that the eviction has taken away; the
  -- cache stays such, with the same bound. The bytes have to be less than 2 ^ 64, the block that is read included.
  pub read_block-IsCache :
      (k : CacheKey) (c : SstableBlockCache)
      → IsCache contents c
      → total contents c.lru + length (contents k) < 2 ^ 64
      → (d : SstableBlockCache) × (read_block k (ok (contents k)) c ≡ (ok (contents k), d))
        × IsCache contents d
        × (d.max_cached_bytes ≡ c.max_cached_bytes)
  unfolding read_block
  read_block-IsCache k c h small = go (lookup k c.entries) refl
    where
      go :
          (o : Option CacheEntry)
          → lookup k c.entries ≡ o
          → (d : SstableBlockCache) × (read_found k (ok (contents k)) c o ≡ (ok (contents k), d))
            × IsCache contents d
            × (d.max_cached_bytes ≡ c.max_cached_bytes)
      go none n = missed_read k c n h.consistent small
      go (some e) f = hit_read k c e f h

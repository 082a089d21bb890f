-- ===== src/Examples/BlockCache.antt =====
-- A block cache of four bytes with one block of three bytes, which the next one evicts.
use htap_storage_lsm_tree.Common.{
  ℕ, true, false, none, some, some-injective, List, [], ◌∷◌, ◌≡◌, refl, subst, inl, ◌⊎◌, ok, arith,
  if◌then◌else◌,
}
use htap_storage_lsm_tree.Common.Assoc.{lookup}
use htap_storage_lsm_tree.Sstable.BlockCache.{
  BlockKind, CacheKey, CacheEntry, SstableBlockCache, eqb_key, cache_key_eq, read_block, load_block,
  inserted, evict_if_needed, evict_loop, evict_one, evict_page,
}
use htap_storage_lsm_tree.Sstable.BlockCache.Order.{In}
use htap_storage_lsm_tree.Sstable.BlockCache.Evict.{IsCache, IsEntryOf}
use htap_storage_lsm_tree.Sstable.BlockCache.Laws.{read_block-IsCache}

abbrev key : ℕ → CacheKey
key block_id = record { sstable_id = 1; kind = BlockKind.row; block_id = block_id; column_idx = 0 }

abbrev contents : CacheKey → List ℕ
contents k = 7 ∷ 8 ∷ 9 ∷ []

abbrev entry : CacheEntry
entry = record { bytes = 7 ∷ 8 ∷ 9 ∷ []; size = 3 }

abbrev cache : SstableBlockCache
cache = record {
  max_cached_bytes = 4;
  cached_bytes = 3;
  hits = 0;
  misses = 1;
  lru = key 1 ∷ [];
  entries = (key 1, entry) ∷ [];
}

-- The second block is in the cache alone.
evicts : read_block (key 2) (ok (contents (key 2))) cache ≡ (
  ok (7 ∷ 8 ∷ 9 ∷ []),
  record cache { misses = 2; lru = key 2 ∷ []; entries = (key 2, entry) ∷ [] },
)
unfolding read_block load_block inserted evict_if_needed evict_loop evict_one evict_page eqb_key
evicts = refl

cache-IsCache : IsCache contents cache
unfolding eqb_key
cache-IsCache = record {
  consistent = record {
    distinct = (tt, tt);
    tracked = ((entry, refl), tt);
    listed = member;
    coherent = agrees;
    counted = refl;
  };
  bounded = inl (omega arith);
}
  where
    agrees :
        (k : CacheKey) (e : CacheEntry) → lookup k cache.entries ≡ some e → IsEntryOf (contents k) e
    agrees k e f =
        elim (eqb_key (key 1) k)
            as (λ b. (if b then some entry else none) ≡ some e → IsEntryOf (contents k) e) [
              | true ↦
                  λ q. subst (λ x. IsEntryOf (contents k) x) (some-injective _ _ q) (refl, refl)
              | false ↦ λ q. absurd (ground arith)
            ]
          f

    member : (k : CacheKey) (e : CacheEntry) → lookup k cache.entries ≡ some e → In k cache.lru
    member k e f =
        elim (eqb_key (key 1) k)
            as (λ b. (if b then some entry else none) ≡ some e → (b ≡ true) ⊎ ⊥) [
              | true ↦ λ q. inl refl
              | false ↦ λ q. absurd (ground arith)
            ]
          f

read_block-IsCache_example :
    (d : SstableBlockCache) × (read_block (key 2) (ok (contents (key 2))) cache
      ≡ (ok (contents (key 2)), d))
    × IsCache contents d
    × (d.max_cached_bytes ≡ 4)
read_block-IsCache_example = read_block-IsCache contents (key 2) cache cache-IsCache (omega arith)

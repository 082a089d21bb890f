-- ===== src/Sstable/BlockCache.antt =====
-- `SSTableBlockCache` (src/storage/read/sstable/sstable_block_cache.cpp with its header)
pub mod Order
pub mod Evict
pub mod Laws
use htap_storage_lsm_tree.Common.{
  ℕ, zero, suc, ◌+◌, ◌-◌, ◌%◌, ◌^◌, Bool, true, false, not, ◌&&◌, Option, none, some, List, [], ◌∷◌,
  length, ltb, ◌==◌, ==_iff, ◌≡◌, refl, subst, ◌↔◌, arith, if◌then◌else◌, Result, ok, err,
  bad_access, from_option, runtime_error,
}
use htap_storage_lsm_tree.Common.Assoc.{Eq, Assoc, lookup, assign, erase}
use htap_storage_lsm_tree.Sstable.Meta.{RowBlockMeta, ColumnBlockMeta}

pub data BlockKind : Type 0 where
  row column : BlockKind

pub record CacheKey : Type 0 where
  pub sstable_id : ℕ
  pub kind : BlockKind
  pub block_id : ℕ
  pub column_idx : ℕ

abbrev eqb_kind : BlockKind → BlockKind → Bool
eqb_kind BlockKind.row BlockKind.row = true
eqb_kind BlockKind.column BlockKind.column = true
eqb_kind _ _ = false

-- `operator==`
unfoldable pub eqb_key : CacheKey → CacheKey → Bool
eqb_key a b =
    a.sstable_id == b.sstable_id
    && (eqb_kind a.kind b.kind && (a.block_id == b.block_id && a.column_idx == b.column_idx))

eqb_kind_iff : (a b : BlockKind) → (eqb_kind a b ≡ true) ↔ (a ≡ b)
eqb_kind_iff BlockKind.row BlockKind.row = (λ _. refl, λ _. refl)
eqb_kind_iff BlockKind.column BlockKind.column = (λ _. refl, λ _. refl)
eqb_kind_iff BlockKind.row BlockKind.column =
    (λ h. absurd (ground arith), λ h. absurd (ground arith))
eqb_kind_iff BlockKind.column BlockKind.row =
    (λ h. absurd (ground arith), λ h. absurd (ground arith))

and_true : (a b : Bool) → a && b ≡ true → (a ≡ true) × (b ≡ true)
and_true true b h = (refl, h)
and_true false b h = absurd (ground arith)

same_key :
    (a b : CacheKey)
    → a.sstable_id ≡ b.sstable_id
    → a.kind ≡ b.kind
    → a.block_id ≡ b.block_id
    → a.column_idx ≡ b.column_idx
    → a ≡ b
same_key a b p q r s =
    λ i. record { sstable_id = p i; kind = q i; block_id = r i; column_idx = s i }

eqb_refl : (a : CacheKey) → eqb_key a a ≡ true
unfolding eqb_key
eqb_refl a =
    simp
      (
        (==_iff a.sstable_id a.sstable_id).1 refl,
        (eqb_kind_iff a.kind a.kind).1 refl,
        (==_iff a.block_id a.block_id).1 refl,
        (==_iff a.column_idx a.column_idx).1 refl,
      )
      refl

pub eqb_key_iff : (a b : CacheKey) → (eqb_key a b ≡ true) ↔ (a ≡ b)
unfolding eqb_key
eqb_key_iff a b = (forth, λ e. subst (λ k. eqb_key a k ≡ true) e (eqb_refl a))
  where
    forth : eqb_key a b ≡ true → a ≡ b
    forth h =
        let (p, rest) =
          and_true (a.sstable_id == b.sstable_id)
            (eqb_kind a.kind b.kind && (a.block_id == b.block_id && a.column_idx == b.column_idx))
            h in
        let (q, rest2) =
          and_true (eqb_kind a.kind b.kind)
            (a.block_id == b.block_id && a.column_idx == b.column_idx) rest in
        let (r, s) = and_true (a.block_id == b.block_id) (a.column_idx == b.column_idx) rest2 in
        same_key a b ((==_iff a.sstable_id b.sstable_id).0 p) ((eqb_kind_iff a.kind b.kind).0 q)
          ((==_iff a.block_id b.block_id).0 r) ((==_iff a.column_idx b.column_idx).0 s)

instance abbrev pub cache_key_eq : Eq CacheKey
cache_key_eq = record { beq = eqb_key; beq_iff = eqb_key_iff }

-- The place of the key in `lru` stands for the iterator of the entry.
pub record CacheEntry : Type 0 where
  pub bytes : List ℕ
  pub size : ℕ

pub record SstableBlockCache : Type 0 where
  pub max_cached_bytes : ℕ
  pub cached_bytes : ℕ
  pub hits : ℕ
  pub misses : ℕ
  -- the keys, the last used one first
  pub lru : List CacheKey
  pub entries : Assoc CacheKey CacheEntry

unfoldable pub make_block_cache : ℕ → Result SstableBlockCache
make_block_cache max_cached_bytes =
    if max_cached_bytes == 0
    then err (runtime_error "SSTableBlockCache max_cached_bytes must be positive")
    else ok (record {
      max_cached_bytes = max_cached_bytes;
      cached_bytes = 0;
      hits = 0;
      misses = 0;
      lru = [];
      entries = [];
    })

-- the list without the element at the iterator
abbrev pub unlinked : CacheKey → List CacheKey → List CacheKey
unlinked key [] = []
unlinked key (k ∷ ks) = if eqb_key k key then ks else k ∷ unlinked key ks

unfoldable pub touch : CacheKey → SstableBlockCache → SstableBlockCache
touch key c = record c { lru = key ∷ unlinked key c.lru }

-- the cache without the entry that `find` gives
abbrev pub without_entry : CacheKey → SstableBlockCache → Option CacheEntry → SstableBlockCache
without_entry key c none = c
without_entry key c (some e) = record c {
  cached_bytes = (c.cached_bytes + 2 ^ 64 - e.size) % 2 ^ 64;
  entries = erase key c.entries;
}

unfoldable pub evict_page : CacheKey → SstableBlockCache → SstableBlockCache
evict_page key c = without_entry key c (lookup key c.entries)

-- `lru_.back()` and `lru_.pop_back()` of the list `k ∷ ks`
abbrev pub back : CacheKey → List CacheKey → CacheKey
back k [] = k
back k (j ∷ js) = back j js

abbrev pub popped : CacheKey → List CacheKey → List CacheKey
popped k [] = []
popped k (j ∷ js) = k ∷ popped j js

-- a round of the loop over the list `k ∷ j ∷ js`
unfoldable pub evict_one :
    CacheKey → CacheKey → List CacheKey → SstableBlockCache → SstableBlockCache
unfolding evict_page
evict_one k j js c = evict_page (back j js) (record c { lru = k ∷ popped j js })

-- The loop: each round takes a key off the list, so its length is fuel enough.
unfoldable pub evict_loop : ℕ → SstableBlockCache → SstableBlockCache
unfolding evict_one
evict_loop zero c = c
evict_loop (suc fuel) c = elim c.lru [
  | [] ↦ c
  | k ∷ ks ↦ elim ks [
    | [] ↦ c
    | j ∷ js ↦
        let later = evict_loop fuel (evict_one k j js c) in
        if ltb c.max_cached_bytes c.cached_bytes then later else c
  ]
]

unfoldable pub evict_if_needed : SstableBlockCache → SstableBlockCache
unfolding evict_loop
evict_if_needed c = evict_loop (length c.lru) c

-- The new entry at the front, before the eviction. `emplace` finds no entry of the key.
unfoldable pub inserted : CacheKey → List ℕ → SstableBlockCache → SstableBlockCache
inserted key bytes c = record c {
  cached_bytes = (c.cached_bytes + length bytes) % 2 ^ 64;
  lru = key ∷ c.lru;
  entries = assign key (record { bytes = bytes; size = length bytes }) c.entries;
}

-- The read of the entry behind the eviction; `bad_access` is the use of an entry that is gone.
abbrev pub entry_bytes : Option CacheEntry → Result (List ℕ)
entry_bytes none = err bad_access
entry_bytes (some e) = ok e.bytes

abbrev pub missed : SstableBlockCache → SstableBlockCache
missed c = record c { misses = (c.misses + 1) % 2 ^ 64 }

-- where no entry was found; `loaded` is what the loader gives
unfoldable pub load_block :
    CacheKey → Result (List ℕ) → SstableBlockCache → Result (List ℕ) × SstableBlockCache
unfolding inserted evict_if_needed
load_block key (err e) c = (err e, missed c)
load_block key (ok bytes) c =
    let c' = evict_if_needed (inserted key bytes (missed c)) in
    (entry_bytes (lookup key c'.entries), c')

-- by what `find` gives
abbrev pub read_found :
    CacheKey
    → Result (List ℕ)
    → SstableBlockCache
    → Option CacheEntry
    → Result (List ℕ) × SstableBlockCache
read_found key loaded c none = load_block key loaded c
read_found key loaded c (some e) =
    (ok e.bytes, touch key (record c { hits = (c.hits + 1) % 2 ^ 64 }))

unfoldable pub read_block :
    CacheKey → Result (List ℕ) → SstableBlockCache → Result (List ℕ) × SstableBlockCache
unfolding touch load_block
read_block key loaded c = read_found key loaded c (lookup key c.entries)

abbrev pub row_key : ℕ → RowBlockMeta → CacheKey
row_key sstable_id block = record {
  sstable_id = sstable_id;
  kind = BlockKind.row;
  block_id = block.block_id;
  column_idx = 0;
}

abbrev pub column_key : ℕ → ColumnBlockMeta → CacheKey
column_key sstable_id block = record {
  sstable_id = sstable_id;
  kind = BlockKind.column;
  block_id = block.block_id;
  column_idx = block.column_idx;
}

unfoldable pub read_row_block :
    ℕ → RowBlockMeta → Result (List ℕ) → SstableBlockCache → Result (List ℕ) × SstableBlockCache
unfolding read_block
read_row_block sstable_id block loaded c = read_block (row_key sstable_id block) loaded c

unfoldable pub read_column_block :
    ℕ → ColumnBlockMeta → Result (List ℕ) → SstableBlockCache → Result (List ℕ) × SstableBlockCache
unfolding read_block
read_column_block sstable_id block loaded c = read_block (column_key sstable_id block) loaded c

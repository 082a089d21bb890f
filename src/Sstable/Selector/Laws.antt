-- ===== src/Sstable/Selector/Laws.antt =====
-- The sparse index over blocks with separate key intervals (src/storage/read/sstable/sparse_block_selector.cpp).
use htap_storage_lsm_tree.Common.{
  ℕ, suc, ◌+◌, ◌≤◌, ◌<◌, ◌≡◌, refl, true, Option, none, some, List, [], ◌∷◌, get_elem?,
  get_elem?-lt, length, All, ltb_ℤ, ◌≤ℤ◌, ◌<ℤ◌, ok, arith, Bool-cases, Option-cases, inl, inr,
}
use htap_storage_lsm_tree.Types.{Key, KeyRange}
use htap_storage_lsm_tree.Sstable.Meta.{RowBlockMeta, SparseIndexEntry}
use htap_storage_lsm_tree.Sstable.Selector.{
  MetadataBlockRange, intersects, last_at_most, first_at_least, first_block, end_block, block_range,
  select_metadata_range,
}

-- Blocks with pairwise separate key intervals, in ascending order.
pub record IsSeparated (bs : List RowBlockMeta) : Type 0 where
  pub proper : (i : ℕ) (b : RowBlockMeta) → get_elem? bs i ≡ some b → b.min_key ≤ℤ b.max_key
  pub apart :
      (i j : ℕ) (b c : RowBlockMeta)
      → i < j
      → get_elem? bs i ≡ some b
      → get_elem? bs j ≡ some c
      → b.max_key <ℤ c.min_key

-- An entry gives the least key of the block whose number it holds.
abbrev pub Indexes : List RowBlockMeta → SparseIndexEntry → Type 0
Indexes bs e = (b : RowBlockMeta) × (get_elem? bs e.block_id ≡ some b) × (e.min_key ≡ b.min_key)

last_at_most-le :
    (k : Key) (bs : List RowBlockMeta) (es : List SparseIndexEntry) (n : ℕ)
    → All (Indexes bs) es
    → last_at_most k es ≡ some n
    → (b : RowBlockMeta) × (get_elem? bs n ≡ some b) × (b.min_key ≤ℤ k)
unfolding last_at_most
last_at_most-le k bs [] n a h = absurd (ground arith)
last_at_most-le k bs (e ∷ es) n a h = elim (Option-cases (last_at_most k es)) [
  | inl last ↦
      let (b, at, same) = a.0 in
      let eq : e.block_id ≡ n = ground arith in
      let low : e.min_key ≤ℤ k = ground arith in (b, rw eq at at, rw same at low)
  | inr (m, more) ↦ last_at_most-le k bs es n a.1 (ground arith)
]

first_at_least-le :
    (k : Key) (bs : List RowBlockMeta) (es : List SparseIndexEntry) (n : ℕ)
    → All (Indexes bs) es
    → first_at_least k es ≡ some n
    → (b : RowBlockMeta) × (get_elem? bs n ≡ some b) × (k ≤ℤ b.min_key)
unfolding first_at_least
first_at_least-le k bs [] n a h = absurd (ground arith)
first_at_least-le k bs (e ∷ es) n a h = elim (Bool-cases (ltb_ℤ e.min_key k)) [
  | inl low ↦ first_at_least-le k bs es n a.1 (ground arith)
  | inr high ↦
      let (b, at, same) = a.0 in
      let eq : e.block_id ≡ n = ground arith in
      let up : k ≤ℤ e.min_key = ground arith in (b, rw eq at at, rw same at up)
]

same_block :
    (bs : List RowBlockMeta) (i j : ℕ) (b c : RowBlockMeta)
    → i ≡ j
    → get_elem? bs i ≡ some b
    → get_elem? bs j ≡ some c
    → b.min_key ≡ c.min_key
same_block bs i j b c e p q = cc

-- The first block of the range exists, and no block before it meets the range.
first_block_sound :
    (from : Option Key) (bs : List RowBlockMeta) (es : List SparseIndexEntry)
    → IsSeparated bs
    → All (Indexes bs) es
    → 0 < length bs
    → (first : ℕ) × (first_block from es (length bs) ≡ ok first)
      × ((i : ℕ) (b : RowBlockMeta) (to : Option Key)
          → get_elem? bs i ≡ some b
          → intersects b.min_key b.max_key (record { from = from; to = to }) ≡ true
          → first ≤ i)
unfolding first_block intersects
first_block_sound none bs es s a p = (0, ground arith, λ i b to at m. omega arith)
first_block_sound (some f) bs es s a p = elim (Option-cases (last_at_most f es)) [
  | inl last ↦ (0, ground arith, λ i b to at m. omega arith)
  | inr (n, last) ↦
      let (c, at, low) = last_at_most-le f bs es n a last in
      (n, ground (arith, get_elem?-lt bs n at), λ i b to at' m. ground (arith, s.apart i n b c))
]

-- The end of the range exists, and no block from it on meets the range.
end_block_sound :
    (to : Option Key) (bs : List RowBlockMeta) (es : List SparseIndexEntry)
    → IsSeparated bs
    → All (Indexes bs) es
    → (end : ℕ) × (end_block to es (length bs) ≡ ok end)
      × ((i : ℕ) (b : RowBlockMeta) (from : Option Key)
          → get_elem? bs i ≡ some b
          → intersects b.min_key b.max_key (record { from = from; to = to }) ≡ true
          → i < end)
unfolding end_block intersects
end_block_sound none bs es s a = (length bs, refl, λ i b from at m. get_elem?-lt bs i at)
end_block_sound (some t) bs es s a = elim (Option-cases (first_at_least t es)) [
  | inl none' ↦ (length bs, rw none', λ i b from at m. get_elem?-lt bs i at)
  | inr (n, found) ↦
      let (c, at, high) = first_at_least-le t bs es n a found in
      (
        n,
        ground (arith, get_elem?-lt bs n at),
        λ i b from at' m. ground (arith, s.apart n i c b, s.proper n c, same_block bs n i c b),
      )
]

-- For blocks with separate ascending key intervals and an index whose entries give the least keys of
-- blocks, the metadata range exists and holds every block whose interval meets the range of keys.
pub select_metadata_range_sound :
    (bs : List RowBlockMeta) (es : List SparseIndexEntry) (r : KeyRange)
    → IsSeparated bs
    → All (Indexes bs) es
    → (m : MetadataBlockRange) × (select_metadata_range es r (length bs) ≡ ok m)
      × ((i : ℕ) (b : RowBlockMeta)
          → get_elem? bs i ≡ some b
          → intersects b.min_key b.max_key r ≡ true
          → (m.first_block_id ≤ i) × (i < m.first_block_id + m.block_count))
unfolding select_metadata_range
select_metadata_range_sound [] es r s a =
    (record { first_block_id = 0; block_count = 0 }, refl, λ i b at m. absurd (ground arith))
select_metadata_range_sound (b ∷ bs) [] r s a = (
  record { first_block_id = 0; block_count = suc (length bs) },
  ground arith,
  λ i c at m. (omega arith, omega (arith, get_elem?-lt (b ∷ bs) i at)),
)
select_metadata_range_sound (b ∷ bs) (e ∷ es) r s a =
    let (first, ok_first, from_first) =
      first_block_sound r.from (b ∷ bs) (e ∷ es) s a (omega arith) in
    let (end, ok_end, to_end) = end_block_sound r.to (b ∷ bs) (e ∷ es) s a in
    (
      block_range first end,
      simp (ok_first, ok_end) (ground arith),
      λ i c at m. ground (arith, from_first i c r.to at m, to_end i c r.from at m),
    )

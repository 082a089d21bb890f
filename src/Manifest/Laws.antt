-- ===== src/Manifest/Laws.antt =====
-- A manifest that was saved gives the registry back.
use htap_storage_lsm_tree.Common.{
  ℕ, zero, suc, ◌+◌, ◌%◌, ◌^◌, ◌<◌, ◌≤◌, ◌≡◌, refl, ap, sym, ◌∙◌, none, some, List, [], ◌∷◌, ◌++◌,
  append_assoc, length, take_all, ◌==◌, ok, IsInt64, All, arith, concat, keep, get_elem?, drop,
  drop-eq-cons, append-nil, drop_all, keep-append, Bool-cases, inl, inr, true, false, ◌≢◌,
}
use htap_storage_lsm_tree.Bytes.{
  to_u64, read_pod-write_le, read_bytes-append, from_u64-to_u64, to_u64-lt,
}
use htap_storage_lsm_tree.Registry.{
  SstLayout, SstableInfo, SstableRegistry, add, empty, sstables_at_level, or_empty,
}
use htap_storage_lsm_tree.Registry.Laws.{at, at-add}
use htap_storage_lsm_tree.Manifest.{
  TableDir, magic, layout_byte, layout_of_byte, all_entries, path_len, write_entry, write_entries,
  write_manifest, save, load_entry, load_entries, load_bytes, load,
}

abbrev pub FitsByte : SstLayout → Type 0
FitsByte SstLayout.row = Unit
FitsByte SstLayout.column = Unit
FitsByte (SstLayout.other n) = (2 ≤ n) × (n < 256)

-- The fields fit the types of their members, and the path is not cut.
pub record IsWritable (info : SstableInfo) : Type 0 where
  pub id : info.id < 2 ^ 64
  pub level : info.level + 1 < 2 ^ 32
  pub layout : FitsByte info.layout
  pub min_key : IsInt64 info.min_key
  pub max_key : IsInt64 info.max_key
  pub num_blocks : info.num_blocks < 2 ^ 32
  pub file_size_bytes : info.file_size_bytes < 2 ^ 64
  pub path : length info.path ≤ 65535

layout_of_byte-layout_byte :
    (l : SstLayout) → FitsByte l → (layout_of_byte (layout_byte l) ≡ l) × (layout_byte l < 256)
layout_of_byte-layout_byte SstLayout.row h = (refl, omega arith)
layout_of_byte-layout_byte SstLayout.column h = (refl, omega arith)
layout_of_byte-layout_byte (SstLayout.other n) h = ground arith

load_entry-write_entry :
    (info : SstableInfo) (rest : List ℕ)
    → IsWritable info
    → load_entry (write_entry info ++ rest) ≡ ok (info, rest)
unfolding load_entry write_entry
load_entry-write_entry info rest w =
    let len : path_len info ≡ length info.path = omega (arith, w.path) in
    let whole = take_all info.path (length info.path) (omega arith) in
    let lay = layout_of_byte-layout_byte info.layout w.layout in
    simp
      (
        append_assoc,
        len,
        whole,
        λ (r : List ℕ). read_pod-write_le 8 info.id r (omega (arith, w.id)),
        λ (r : List ℕ). read_pod-write_le 4 info.level r (omega (arith, w.level)),
        λ (r : List ℕ). read_pod-write_le 1 (layout_byte info.layout) r (omega (arith, lay.1)),
        λ (r : List ℕ).
            read_pod-write_le 8 (to_u64 info.min_key) r (to_u64-lt info.min_key w.min_key),
        λ (r : List ℕ).
            read_pod-write_le 8 (to_u64 info.max_key) r (to_u64-lt info.max_key w.max_key),
        λ (r : List ℕ). read_pod-write_le 4 info.num_blocks r (omega (arith, w.num_blocks)),
        λ (r : List ℕ).
            read_pod-write_le 8 info.file_size_bytes r (omega (arith, w.file_size_bytes)),
        λ (r : List ℕ). read_pod-write_le 2 (length info.path) r (omega (arith, w.path)),
        λ (r : List ℕ). read_bytes-append "Manifest: failed to read path string" info.path r,
        lay.0,
        from_u64-to_u64 info.min_key w.min_key,
        from_u64-to_u64 info.max_key w.max_key,
      )
      refl

abbrev pub add_all : SstableRegistry → List SstableInfo → SstableRegistry
add_all r [] = r
add_all r (info ∷ infos) = add_all (add r info) infos

load_entries-write_entries :
    (infos : List SstableInfo) (r : SstableRegistry)
    → All IsWritable infos
    → load_entries (length infos) (write_entries infos) r ≡ ok (add_all r infos)
unfolding load_entries write_entries
load_entries-write_entries [] r w = refl
load_entries-write_entries (info ∷ infos) r w =
    simp (load_entry-write_entry info (write_entries infos) w.0)
      (load_entries-write_entries infos (add r info) w.1)

abbrev of_level : ℕ → List SstableInfo → List SstableInfo
of_level l infos = keep (λ e. e.level == l) infos

at-add_all :
    (infos : List SstableInfo) (r : SstableRegistry) (l : ℕ)
    → All IsWritable infos
    → at (add_all r infos) l ≡ at r l ++ of_level l infos
at-add_all [] r l w = sym (append-nil (at r l))
at-add_all (info ∷ infos) r l w =
    at-add_all infos (add r info) l w.1
    ∙ rw (at-add r info l w.0.level) (elim (Bool-cases (info.level == l)) [
      | inl here ↦
          let e : (l == info.level) ≡ true = ground arith in simp (e, here, append_assoc) refl
      | inr away ↦ let e : (l == info.level) ≡ false = ground arith in simp (e, away) refl
    ])

-- The tables at place `j` have level `b + j`.
abbrev pub IsLeveled : ℕ → List (List SstableInfo) → Type 0
IsLeveled b [] = Unit
IsLeveled b (infos ∷ ls) = All (λ e. e.level ≡ b) infos × IsLeveled (suc b) ls

of_level_same :
    (b l : ℕ) (infos : List SstableInfo)
    → b ≡ l
    → All (λ e. e.level ≡ b) infos
    → of_level l infos ≡ infos
of_level_same b l [] s a = refl
of_level_same b l (info ∷ infos) s a =
    let here : (info.level == l) ≡ true = ground arith in
    simp here (ap (λ t. info ∷ t) (of_level_same b l infos s a.1))

of_level_none :
    (b l : ℕ) (infos : List SstableInfo)
    → b ≢ l
    → All (λ e. e.level ≡ b) infos
    → of_level l infos ≡ []
of_level_none b l [] s a = refl
of_level_none b l (info ∷ infos) s a =
    let away : (info.level == l) ≡ false = ground arith in simp away (of_level_none b l infos s a.1)

of_level_below :
    (b l : ℕ) (ls : List (List SstableInfo)) → l < b → IsLeveled b ls → of_level l (concat ls) ≡ []
of_level_below b l [] s a = refl
of_level_below b l (infos ∷ ls) s a =
    keep-append _ infos (concat ls)
    ∙ simp
        (
          of_level_none b l infos (λ q. omega arith) a.0,
          of_level_below (suc b) l ls (omega arith) a.1,
        )
        refl

of_level-concat :
    (b j l : ℕ) (ls : List (List SstableInfo))
    → b + j ≡ l
    → IsLeveled b ls
    → of_level l (concat ls) ≡ or_empty (get_elem? ls j)
of_level-concat b j l [] s a = refl
of_level-concat b zero l (infos ∷ ls) s a =
    keep-append _ infos (concat ls)
    ∙ simp
        (
          of_level_same b l infos (omega arith) a.0,
          of_level_below (suc b) l ls (omega arith) a.1,
          append-nil infos,
        )
        refl
of_level-concat b (suc j) l (infos ∷ ls) s a =
    keep-append _ infos (concat ls)
    ∙ simp (of_level_none b l infos (λ q. omega arith) a.0)
        (of_level-concat (suc b) j l ls (omega arith) a.1)

all_entries-concat :
    (r : SstableRegistry) (count level : ℕ)
    → level + count ≡ length r.levels
    → length r.levels ≤ 2 ^ 32
    → all_entries r count level ≡ ok (concat (drop level r.levels))
unfolding all_entries sstables_at_level
all_entries-concat r zero level s h = rw (drop_all r.levels level (omega arith)) refl
all_entries-concat r (suc count) level s h =
    let (infos, here, split) = drop-eq-cons r.levels level (omega arith) in
    let same : level % 2 ^ 32 ≡ level = omega arith in
    simp (same, here, split, all_entries-concat r count (suc level) (omega arith) h) refl

-- What the registry of a tree satisfies when it is saved.
pub record IsSavable (r : SstableRegistry) (next_sst_id : ℕ) : Type 0 where
  pub leveled : IsLeveled 0 r.levels
  pub writable : All IsWritable (concat r.levels)
  pub level_count : length r.levels ≤ 2 ^ 32
  pub entry_count : length (concat r.levels) < 2 ^ 32
  pub next_id : next_sst_id < 2 ^ 64

-- If every table stands at its level, the paths are at most 65535 bytes long and the numbers fit their types,
-- then `save` succeeds, whatever files the directory had before, and `load` into an empty registry gives back
-- the next id and, for every level, the same tables in the same order.
pub load-save :
    (dir : TableDir) (r : SstableRegistry) (next_sst_id : ℕ)
    → IsSavable r next_sst_id
    → (dir' : TableDir) × (r' : SstableRegistry) × (save dir r next_sst_id ≡ ok dir')
      × (load dir' empty ≡ ok (r', next_sst_id))
      × ((level : ℕ) → at r' level ≡ at r level)
unfolding save load load_bytes write_manifest
load-save dir r next_sst_id s =
    let infos = concat r.levels in
    (
      record { manifest_bin = some (write_manifest infos next_sst_id); manifest_tmp = none },
      add_all empty infos,
      simp (all_entries-concat r (length r.levels) 0 (omega arith) s.level_count) refl,
      simp
          (
            append_assoc,
            λ (b : List ℕ). read_pod-write_le 4 magic b (omega arith),
            λ (b : List ℕ). read_pod-write_le 4 (length infos) b (omega (arith, s.entry_count)),
            λ (b : List ℕ). read_pod-write_le 8 next_sst_id b (omega (arith, s.next_id)),
            load_entries-write_entries infos empty s.writable,
          )
          refl,
      λ level.
          at-add_all infos empty level s.writable
          ∙ of_level-concat 0 level level r.levels (omega arith) s.leveled,
    )

pub save_ok :
    (dir : TableDir) (r : SstableRegistry) (next_sst_id : ℕ)
    → length r.levels ≤ 2 ^ 32
    → (dir' : TableDir) × (save dir r next_sst_id ≡ ok dir')
unfolding save
save_ok dir r next_sst_id h = (
  record {
    manifest_bin = some (write_manifest (concat r.levels) next_sst_id);
    manifest_tmp = none;
  },
  simp (all_entries-concat r (length r.levels) 0 (omega arith) h) refl,
)

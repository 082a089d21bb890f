-- ===== src/Registry.antt =====
-- `SSTableInfo` and `SSTableRegistry` (include/lsmtree/sstable/metadata/sstable_info.hpp,
-- src/lsmtree/sstable/metadata/sstable_registry.cpp)
pub mod Laws
use htap_storage_lsm_tree.Common.{
  ℕ, zero, suc, ◌+◌, ◌-◌, ◌%◌, ◌^◌, Bool, true, false, not, ◌||◌, Option, none, some, List, [], ◌∷◌,
  ◌++◌, map, length, get_elem?, keep, replicate, ltb, leb, ◌==◌, ltb_ℤ, if◌then◌else◌, Result,
  out_of_range, from_option,
}
use htap_storage_lsm_tree.Types.{Key}

-- include/lsmtree/sstable/format/sst_layout.hpp
pub data SstLayout : Type 0 where
  row column : SstLayout
  -- a value that names no constant: `static_cast` of another byte
  other : ℕ → SstLayout

pub record SstableInfo : Type 0 where
  pub id : ℕ
  pub path : List ℕ
  pub level : ℕ
  pub min_key : Key
  pub max_key : Key
  pub file_size_bytes : ℕ
  pub num_blocks : ℕ
  pub layout : SstLayout

pub record SstableRegistry : Type 0 where
  pub levels : List (List SstableInfo)

abbrev pub empty : SstableRegistry
empty = record { levels = [] }

abbrev pub level_count : SstableRegistry → ℕ
level_count r = length r.levels

abbrev pub length_or_zero : Option (List SstableInfo) → ℕ
length_or_zero none = 0
length_or_zero (some l) = length l

unfoldable pub sstable_count : SstableRegistry → ℕ → ℕ
sstable_count r level = length_or_zero (get_elem? r.levels level)

-- `levels_.resize(n)` where the vector is shorter than `n`
abbrev pub resize : ℕ → List (List SstableInfo) → List (List SstableInfo)
resize n ls = ls ++ replicate (n - length ls) []

-- `levels_[i].push_back(info)`
abbrev pub push_back : ℕ → SstableInfo → List (List SstableInfo) → List (List SstableInfo)
push_back i info [] = []
push_back zero info (l ∷ ls) = (l ++ info ∷ []) ∷ ls
push_back (suc i) info (l ∷ ls) = l ∷ push_back i info ls

-- The new size is computed on 32 bits.
unfoldable pub add : SstableRegistry → SstableInfo → SstableRegistry
add r info =
    let ls =
      if leb (length r.levels) info.level
      then resize ((info.level + 1) % 2 ^ 32) r.levels
      else r.levels in
    record { levels = push_back info.level info ls }

abbrev pub has_other_id : ℕ → SstableInfo → Bool
has_other_id sst_id info = not (info.id == sst_id)

unfoldable pub remove : SstableRegistry → ℕ → SstableRegistry
remove r sst_id = record { levels = map (keep (has_other_id sst_id)) r.levels }

unfoldable pub sstables_at_level : SstableRegistry → ℕ → Result (List SstableInfo)
sstables_at_level r level =
    from_option (get_elem? r.levels level) (out_of_range "Invalid LSM level")

-- The two `continue`s of `overlapping`.
abbrev pub misses_from : Option Key → SstableInfo → Bool
misses_from none info = false
misses_from (some f) info = ltb_ℤ info.max_key f

abbrev pub misses_to : Option Key → SstableInfo → Bool
misses_to none info = false
misses_to (some t) info = not (ltb_ℤ info.min_key t)

abbrev pub overlaps : Option Key → Option Key → SstableInfo → Bool
overlaps from to info = not (misses_from from info || misses_to to info)

abbrev pub or_empty : Option (List SstableInfo) → List SstableInfo
or_empty none = []
or_empty (some l) = l

unfoldable pub overlapping : SstableRegistry → ℕ → Option Key → Option Key → List SstableInfo
overlapping r level from to = keep (overlaps from to) (or_empty (get_elem? r.levels level))

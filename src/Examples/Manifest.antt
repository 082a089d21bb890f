-- ===== src/Examples/Manifest.antt =====
-- A manifest with a table on the first and on the third level.
use htap_storage_lsm_tree.Common.{◌≡◌, refl, none, some, [], ◌∷◌, ok, ℕ, pos, negsuc, arith}
use htap_storage_lsm_tree.Registry.{SstLayout, SstableInfo, SstableRegistry, empty}
use htap_storage_lsm_tree.Registry.Laws.{at}
use htap_storage_lsm_tree.Manifest.{TableDir, save, load}
use htap_storage_lsm_tree.Manifest.Laws.{IsWritable, IsSavable, load-save}

abbrev flushed : SstableInfo
flushed = record {
  id = 4;
  path = 100 ∷ 47 ∷ 52 ∷ [];
  level = 0;
  min_key = negsuc 0;
  max_key = pos 9;
  file_size_bytes = 4096;
  num_blocks = 2;
  layout = SstLayout.row;
}

abbrev compacted : SstableInfo
compacted = record {
  id = 3;
  path = 100 ∷ 47 ∷ 51 ∷ [];
  level = 2;
  min_key = pos 0;
  max_key = pos 9223372036854775807;
  file_size_bytes = 1048576;
  num_blocks = 70;
  layout = SstLayout.column;
}

abbrev registry : SstableRegistry
registry = record { levels = (flushed ∷ []) ∷ [] ∷ (compacted ∷ []) ∷ [] ∷ [] }

abbrev old_dir : TableDir
old_dir = record { manifest_bin = none; manifest_tmp = some (1 ∷ []) }

flushed-IsWritable : IsWritable flushed
flushed-IsWritable = record {
  id = omega arith;
  level = omega arith;
  layout = tt;
  min_key = omega arith;
  max_key = omega arith;
  num_blocks = omega arith;
  file_size_bytes = omega arith;
  path = omega arith;
}

compacted-IsWritable : IsWritable compacted
compacted-IsWritable = record {
  id = omega arith;
  level = omega arith;
  layout = tt;
  min_key = omega arith;
  max_key = omega arith;
  num_blocks = omega arith;
  file_size_bytes = omega arith;
  path = omega arith;
}

registry-IsSavable : IsSavable registry 5
registry-IsSavable = record {
  leveled = ((refl, tt), (tt, ((refl, tt), (tt, tt))));
  writable = (flushed-IsWritable, (compacted-IsWritable, tt));
  level_count = omega arith;
  entry_count = omega arith;
  next_id = omega arith;
}

load-save_example :
    (dir' : TableDir) × (r' : SstableRegistry) × (save old_dir registry 5 ≡ ok dir')
    × (load dir' empty ≡ ok (r', 5))
    × ((level : ℕ) → at r' level ≡ at registry level)
load-save_example = load-save old_dir registry 5 registry-IsSavable

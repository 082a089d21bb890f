-- ===== src/Manifest.antt =====
-- `SSTableManifest` (src/lsmtree/sstable/metadata/sstable_manifest.cpp). The directory of a table holds at
-- most two files of a manifest. A failure to open or to rename a file is not modelled.
pub mod Laws
use htap_storage_lsm_tree.Common.{
  ℕ, zero, suc, ◌%◌, ◌^◌, min, Option, none, some, List, [], ◌∷◌, ◌++◌, length, take, ◌==◌, not,
  if◌then◌else◌, Result, ok, err, runtime_error, throw_if, ◌>>=◌, ◌>>◌,
}
use htap_storage_lsm_tree.Bytes.{
  write_u8, write_u16, write_u32, write_u64, write_i64, read_pod, read_bytes, from_u64,
}
use htap_storage_lsm_tree.Registry.{
  SstLayout, SstableInfo, SstableRegistry, add, level_count, sstables_at_level,
}

pub record TableDir : Type 0 where
  pub manifest_bin : Option (List ℕ)
  pub manifest_tmp : Option (List ℕ)

abbrev pub magic : ℕ
magic = 1213481296

abbrev pub layout_byte : SstLayout → ℕ
layout_byte SstLayout.row = 0
layout_byte SstLayout.column = 1
layout_byte (SstLayout.other n) = n

-- `static_cast<SSTLayout>(layout)`
abbrev pub layout_of_byte : ℕ → SstLayout
layout_of_byte n =
    if n == 0 then SstLayout.row else if n == 1 then SstLayout.column else SstLayout.other n

-- The loop of `save` that collects the tables of `count` levels, from `level` on.
unfoldable pub all_entries : SstableRegistry → ℕ → ℕ → Result (List SstableInfo)
all_entries r zero level = ok []
all_entries r (suc count) level = do
  infos ← sstables_at_level r (level % 2 ^ 32)
  rest ← all_entries r count (suc level)
  ok (infos ++ rest)

abbrev pub path_len : SstableInfo → ℕ
path_len info = min (length info.path) 65535 % 2 ^ 16

unfoldable pub write_entry : SstableInfo → List ℕ
write_entry info =
    write_u64 info.id
    ++ write_u32 info.level
    ++ write_u8 (layout_byte info.layout)
    ++ write_i64 info.min_key
    ++ write_i64 info.max_key
    ++ write_u32 info.num_blocks
    ++ write_u64 info.file_size_bytes
    ++ write_u16 (path_len info)
    ++ take (path_len info) info.path

unfoldable pub write_entries : List SstableInfo → List ℕ
write_entries [] = []
write_entries (info ∷ infos) = write_entry info ++ write_entries infos

unfoldable pub write_manifest : List SstableInfo → ℕ → List ℕ
write_manifest infos next_sst_id =
    write_u32 magic ++ write_u32 (length infos) ++ write_u64 next_sst_id ++ write_entries infos

-- The new file is written beside the old one and then renamed over it.
unfoldable pub save : TableDir → SstableRegistry → ℕ → Result TableDir
save dir registry next_sst_id = do
  infos ← all_entries registry (level_count registry) 0
  let written = record dir { manifest_tmp = some (write_manifest infos next_sst_id) }
  ok (record { manifest_bin = written.manifest_tmp; manifest_tmp = none })

unfoldable pub load_entry : List ℕ → Result (SstableInfo × List ℕ)
load_entry in_ = do
  id ← read_pod 8 in_
  level ← read_pod 4 id.1
  layout ← read_pod 1 level.1
  min_key ← read_pod 8 layout.1
  max_key ← read_pod 8 min_key.1
  num_blocks ← read_pod 4 max_key.1
  file_size ← read_pod 8 num_blocks.1
  path_len ← read_pod 2 file_size.1
  path ← read_bytes "Manifest: failed to read path string" path_len.0 path_len.1
  let info : SstableInfo = record {
    id = id.0;
    path = path.0;
    level = level.0;
    min_key = from_u64 min_key.0;
    max_key = from_u64 max_key.0;
    file_size_bytes = file_size.0;
    num_blocks = num_blocks.0;
    layout = layout_of_byte layout.0;
  }
  ok (info, path.1)

unfoldable pub load_entries : ℕ → List ℕ → SstableRegistry → Result SstableRegistry
load_entries zero in_ registry = ok registry
load_entries (suc count) in_ registry = do
  entry ← load_entry in_
  load_entries count entry.1 (add registry entry.0)

unfoldable pub load_bytes : List ℕ → SstableRegistry → Result (SstableRegistry × ℕ)
load_bytes in_ registry = do
  m ← read_pod 4 in_
  throw_if (not (m.0 == magic)) (runtime_error "Manifest: invalid magic")
  entry_count ← read_pod 4 m.1
  next_sst_id ← read_pod 8 entry_count.1
  registry' ← load_entries entry_count.0 next_sst_id.1 registry
  ok (registry', next_sst_id.0)

abbrev pub load_file : Option (List ℕ) → SstableRegistry → Result (SstableRegistry × ℕ)
load_file none registry = ok (registry, 0)
load_file (some in_) registry = load_bytes in_ registry

-- The registry and the next id.
unfoldable pub load : TableDir → SstableRegistry → Result (SstableRegistry × ℕ)
load dir registry = load_file dir.manifest_bin registry

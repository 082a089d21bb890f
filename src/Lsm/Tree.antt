-- ===== src/Lsm/Tree.antt =====
-- The state of an `LSMTree`, `insert` and `flush_one_locked`. Each function is one critical section after the
-- other, as one thread runs them.
use htap_storage_lsm_tree.Common.{
  ℕ, zero, suc, ◌+◌, ◌/◌, ◌%◌, ◌^◌, Bool, true, false, Option, none, some, List, [], ◌∷◌, ◌++◌,
  Result, ok, ◌>>=◌,
}
use htap_storage_lsm_tree.Common.Assoc.{Assoc, assign, ℕ_eq}
use htap_storage_lsm_tree.Types.{Row}
use htap_storage_lsm_tree.Schema.{Schema}
use htap_storage_lsm_tree.Mem.Layer.{
  MemoryLayer, pop_front_immutable, front_immutable, insert as layer_insert,
}
use htap_storage_lsm_tree.Registry.{SstLayout, SstableInfo, SstableRegistry, add}
use htap_storage_lsm_tree.Compaction.Policy.{PolicyConfig}
use htap_storage_lsm_tree.Manifest.{TableDir, save}
use htap_storage_lsm_tree.Lsm.Format.{SstFormat, SstableBuildResult}

-- `disk` has the files of the table with the given id, in its directory below the root path.
pub record LsmTree (S : Type 0) : Type 0 where
  pub schema : Schema
  pub root_path : List ℕ
  pub policy : PolicyConfig
  pub memory_layer : MemoryLayer
  pub registry : SstableRegistry
  pub next_sst_id : ℕ
  pub disk : Assoc ℕ S
  pub dir : TableDir

-- `{:020}`: the last `count` decimal digits.
abbrev pub digits : ℕ → ℕ → List ℕ
digits zero n = []
digits (suc count) n = digits count (n / 10) ++ (48 + n % 10) ∷ []

-- "{root_path}/sst_{id}.sst"
unfoldable pub build_sst_path : List ℕ → ℕ → List ℕ
build_sst_path root_path id =
    root_path ++ (47 ∷ 115 ∷ 115 ∷ 116 ∷ 95 ∷ []) ++ digits 20 id ++ 46 ∷ 115 ∷ 115 ∷ 116 ∷ []

abbrev pub make_info : List ℕ → ℕ → ℕ → SstLayout → ℕ → SstableBuildResult → SstableInfo
make_info root_path id level layout size res = record {
  id = id;
  path = build_sst_path root_path id;
  level = level;
  min_key = res.min_key;
  max_key = res.max_key;
  file_size_bytes = size;
  num_blocks = res.num_blocks;
  layout = layout;
}

-- `memory_layer_.insert(row)`, without the work that may be due afterwards.
unfoldable pub insert_row : {S : Type 0} → LsmTree S → Row → Result (LsmTree S)
insert_row t row = do
  layer ← layer_insert t.memory_layer row
  ok (record t { memory_layer = layer })

abbrev pub popped : MemoryLayer → MemoryLayer
popped l = (pop_front_immutable l).1

-- The last critical section of a flush: `registry_.add`, the memtable leaves the queue, and the manifest is
-- saved.
unfoldable pub register_flush : {S : Type 0} → LsmTree S → SstableInfo → Result (LsmTree S)
register_flush t info = do
  let t' = record t { registry = add t.registry info; memory_layer = popped t.memory_layer }
  dir ← save t'.dir t'.registry t'.next_sst_id
  ok (record t' { dir = dir })

module _ {S C F : Type 0} (f : SstFormat S C F) where
  -- The rest of `flush_one_locked`, with the front of the queue.
  unfoldable pub flush_front : LsmTree S → Option (List Row) → Result (Bool × LsmTree S)
  flush_front t none = ok (false, t)
  flush_front t (some []) = ok (true, record t { memory_layer = popped t.memory_layer })
  flush_front t (some (r ∷ rs)) = do
    let sst_id = t.next_sst_id
    built ← f.build t.schema SstLayout.row (r ∷ rs)
    let info = make_info t.root_path sst_id 0 SstLayout.row (f.size_bytes built.0) built.1
    let t' = record t {
      next_sst_id = (t.next_sst_id + 1) % 2 ^ 64;
      disk = assign sst_id built.0 t.disk;
    }
    t'' ← register_flush t' info
    ok (true, t'')

  unfoldable pub flush_one : LsmTree S → Result (Bool × LsmTree S)
  flush_one t = flush_front t (front_immutable t.memory_layer)

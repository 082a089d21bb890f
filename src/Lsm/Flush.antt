-- ===== src/Lsm/Flush.antt =====
-- `flush_one_locked` (src/lsmtree/lsmtree.cpp) on each of its branches.
use mathlib.Core.List.{Permᴰ}
use mathlib.Core.List.Permᴰ
use htap_storage_lsm_tree.Common.{
  ◌+◌, ◌%◌, ◌^◌, ◌<◌, ◌≡◌, refl, Bool, true, false, some, List, [], ◌∷◌, length, All, Result, ok,
  err, Error, suc, arith,
}
use htap_storage_lsm_tree.Common.Assoc.{lookup, assign, ℕ_eq}
use htap_storage_lsm_tree.Common.Perms.{All-Permᴰ}
use htap_storage_lsm_tree.Types.{Row}
use htap_storage_lsm_tree.Mem.Layer.{front_immutable, pop_front_immutable}
use htap_storage_lsm_tree.Registry.{SstLayout, SstableInfo, add}
use htap_storage_lsm_tree.Manifest.{save}
use htap_storage_lsm_tree.Manifest.Laws.{save_ok}
use htap_storage_lsm_tree.Lsm.Format.{SstFormat, SstableBuildResult}
use htap_storage_lsm_tree.Lsm.Tree.{LsmTree, make_info, register_flush, flush_front, flush_one}
use htap_storage_lsm_tree.Lsm.Tables.{HasDistinctIds-Permᴰ, all_tables, add-Permᴰ, length-add}
use htap_storage_lsm_tree.Lsm.Stored.{IsRegistered, IsStored, join}

-- The tree `t'` is `t` with one table more, on level 0 and with the next id, and with a shorter queue.
pub record HasFlushed {S : Type 0} (t : LsmTree S) (imms : List (List Row)) (s : S)
    (info : SstableInfo) (t' : LsmTree S) : Type 0 where
  pub stored : IsStored t'
  pub id : info.id ≡ t.next_sst_id
  pub level : info.level ≡ 0
  pub next_id : t'.next_sst_id ≡ suc t.next_sst_id
  pub tables : Permᴰ (all_tables t'.registry) (info ∷ all_tables t.registry)
  pub new_files : lookup info.id t'.disk ≡ some s
  pub old_files : All (λ x. lookup x.id t'.disk ≡ lookup x.id t.disk) (all_tables t.registry)
  pub queue : t'.memory_layer.immutables ≡ imms
  pub active : t'.memory_layer.active ≡ t.memory_layer.active
  pub saved : save t.dir t'.registry t'.next_sst_id ≡ ok t'.dir
  pub levels : length t'.registry.levels < length t.registry.levels + 2
  pub policy : t'.policy ≡ t.policy
  pub schema : t'.schema ≡ t.schema
  pub registry : t'.registry ≡ add t.registry info

-- What a flush does, by the oldest frozen memtable and by what the builder makes of its rows.
pub data Flushes {S C F : Type 0} (f : SstFormat S C F) (t : LsmTree S)
    : Result (Bool × LsmTree S) → Type 0 where
  idle : t.memory_layer.immutables ≡ [] → Flushes f t (ok (false, t))
  empty :
      (imms : List (List Row))
      → t.memory_layer.immutables ≡ [] ∷ imms
      → Flushes f t
          (ok (true, record t { memory_layer = record t.memory_layer { immutables = imms } }))
  failed :
      (r : Row) (rs : List Row) (imms : List (List Row)) {e : Error}
      → t.memory_layer.immutables ≡ (r ∷ rs) ∷ imms
      → f.build t.schema SstLayout.row (r ∷ rs) ≡ err e
      → Flushes f t (err e)
  flushed :
      (r : Row) (rs : List Row) (imms : List (List Row)) (s : S) (res : SstableBuildResult)
      {t' : LsmTree S}
      → t.memory_layer.immutables ≡ (r ∷ rs) ∷ imms
      → f.build t.schema SstLayout.row (r ∷ rs) ≡ ok (s, res)
      → HasFlushed t imms s
          (make_info t.root_path t.next_sst_id 0 SstLayout.row (f.size_bytes s) res)
          t'
      → Flushes f t (ok (true, t'))

module _ {S C F : Type 0} (f : SstFormat S C F) where
  flush_built :
      (t : LsmTree S) (r : Row) (rs : List Row) (imms : List (List Row))
      (o : Result (S × SstableBuildResult))
      → t.memory_layer.immutables ≡ (r ∷ rs) ∷ imms
      → f.build t.schema SstLayout.row (r ∷ rs) ≡ o
      → IsStored t
      → length t.registry.levels + 1 < 2 ^ 32
      → t.next_sst_id + 1 < 2 ^ 64
      → Flushes f t (flush_one f t)
  unfolding flush_one flush_front front_immutable pop_front_immutable register_flush
  flush_built t r rs imms (err e) q built h l n = simp (q, built) (Flushes.failed r rs imms q built)
  flush_built t r rs imms (ok (s, res)) q built h l n =
      let info = make_info t.root_path t.next_sst_id 0 SstLayout.row (f.size_bytes s) res in
      let next_id : (t.next_sst_id + 1) % 2 ^ 64 ≡ suc t.next_sst_id = omega arith in
      let disk' = assign t.next_sst_id s t.disk in
      let j = join t s info h refl in
      let d = add-Permᴰ t.registry info (omega arith) in
      let len : length (add t.registry info).levels < length t.registry.levels + 2 =
        omega (arith, length-add t.registry info (omega arith) l) in
      let (dir, saved) = save_ok t.dir (add t.registry info) (suc t.next_sst_id) (omega arith) in
      let t' : LsmTree S = record {
        schema = t.schema;
        root_path = t.root_path;
        policy = t.policy;
        memory_layer = record t.memory_layer { immutables = imms };
        registry = add t.registry info;
        next_sst_id = suc t.next_sst_id;
        disk = disk';
        dir = dir;
      } in
      let done : HasFlushed t imms s info t' = record {
        stored = record {
          tables = All-Permᴰ (IsRegistered disk' (suc t.next_sst_id)) (Permᴰ.symm d) j.registered;
          distinct = HasDistinctIds-Permᴰ (Permᴰ.symm d) j.distinct;
        };
        id = refl;
        level = refl;
        next_id = refl;
        tables = d;
        new_files = j.here;
        old_files = j.others;
        queue = refl;
        active = refl;
        saved = saved;
        levels = len;
        policy = refl;
        schema = refl;
        registry = refl;
      } in
      simp (q, built, next_id, saved) (Flushes.flushed r rs imms s res q built done)

  flush_imms :
      (t : LsmTree S) (imms : List (List Row))
      → t.memory_layer.immutables ≡ imms
      → IsStored t
      → length t.registry.levels + 1 < 2 ^ 32
      → t.next_sst_id + 1 < 2 ^ 64
      → Flushes f t (flush_one f t)
  unfolding flush_one flush_front front_immutable pop_front_immutable
  flush_imms t [] q h l n = simp q (Flushes.idle q)
  flush_imms t ([] ∷ imms) q h l n = simp q (Flushes.empty imms q)
  flush_imms t ((r ∷ rs) ∷ imms) q h l n = flush_built t r rs imms _ q refl h l n

  -- On a tree whose tables have distinct, old ids and their files, with a level number and a table id to spare, a
  -- flush does nothing if no memtable is frozen, takes an empty oldest one off the queue, passes on the exception of
  -- the builder, or else registers on level 0, under the next id, the table that the builder makes of exactly the
  -- rows of the oldest frozen memtable, with its files, takes that memtable off the queue, leaves the other tables
  -- and their files and saves the manifest; the tables then have distinct, old ids and their files again.
  pub flush_one-Flushes :
      (t : LsmTree S)
      → IsStored t
      → length t.registry.levels + 1 < 2 ^ 32
      → t.next_sst_id + 1 < 2 ^ 64
      → Flushes f t (flush_one f t)
  flush_one-Flushes t = flush_imms t t.memory_layer.immutables refl

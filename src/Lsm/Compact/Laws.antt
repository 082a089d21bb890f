-- ===== src/Lsm/Compact/Laws.antt =====
-- `compact_one_locked` (src/lsmtree/lsmtree.cpp) on each of its branches.
use mathlib.Core.List.{Permᴰ}
use mathlib.Core.List.Permᴰ
use htap_storage_lsm_tree.Common.{
  ℕ, zero, suc, ◌+◌, ◌%◌, ◌^◌, ◌<◌, ◌≡◌, refl, ap, ◌∙◌, Bool, true, false, Option, none, some, List,
  [], ◌∷◌, ◌++◌, length, concat, All, All-zip, All-back, Result, Error, ok, err, arith, get_elem?,
  get_elem?-lt, set,
}
use htap_storage_lsm_tree.Common.Assoc.{Assoc, lookup, assign, erase, lookup-erase, ℕ_eq}
use htap_storage_lsm_tree.Common.Perms.{All-Permᴰ}
use htap_storage_lsm_tree.Registry.{
  SstableInfo, SstableRegistry, add, sstables_at_level, sstable_count,
}
use htap_storage_lsm_tree.Compaction.Policy.{PolicyConfig, CompactionTask, pick}
use htap_storage_lsm_tree.Compaction.Choice.{IsChoice, is_over, empty_small, pick-IsChoice}
use htap_storage_lsm_tree.Manifest.{save}
use htap_storage_lsm_tree.Manifest.Laws.{save_ok}
use htap_storage_lsm_tree.Cursor.{ICursor}
use htap_storage_lsm_tree.Lsm.Format.{SstFormat}
use htap_storage_lsm_tree.Lsm.Tree.{LsmTree}
use htap_storage_lsm_tree.Lsm.Job.{run}
use htap_storage_lsm_tree.Lsm.Job.Laws.{run-info}
use htap_storage_lsm_tree.Lsm.Tables.{
  HasDistinctIds, HasDistinctIds-Permᴰ, HasDistinctIds-back, all_tables, add-Permᴰ, length-add,
  level-Permᴰ, remove_tables-Permᴰ, length-remove_tables,
}
use htap_storage_lsm_tree.Lsm.Stored.{
  IsRegistered, IsStored, All-IsRegistered-disk, lookup-delete_files, Joined, join,
}
use htap_storage_lsm_tree.Lsm.Compact.{
  remove_tables, delete_files, register_compaction, compact_level, compact_task, compact_one,
}

-- The tree `t'` is `t` with the tables `olds` and their files replaced by one table, with the next id.
pub record HasReplaced {S : Type 0} (t : LsmTree S) (level : ℕ) (olds rest : List SstableInfo)
    (s : S) (info : SstableInfo) (t' : LsmTree S) : Type 0 where
  pub stored : IsStored t'
  pub id : info.id ≡ t.next_sst_id
  pub dst_level : info.level ≡ suc level
  pub next_id : t'.next_sst_id ≡ suc t.next_sst_id
  pub before : Permᴰ (all_tables t.registry) (olds ++ rest)
  pub tables : Permᴰ (all_tables t'.registry) (info ∷ rest)
  pub new_files : lookup info.id t'.disk ≡ some s
  pub kept_files : All (λ x. lookup x.id t'.disk ≡ lookup x.id t.disk) rest
  pub deleted : All (λ x. lookup x.id t'.disk ≡ none) olds
  pub memory : t'.memory_layer ≡ t.memory_layer
  pub saved : save t.dir t'.registry t'.next_sst_id ≡ ok t'.dir
  pub levels : length t'.registry.levels < length t.registry.levels + 2
  pub policy : t'.policy ≡ t.policy

-- What a compaction does, by the levels that are over their limits and by what the merge of a level's tables gives.
pub data Compacts {S C F : Type 0} ⦃i : ICursor C⦄ (f : SstFormat S C F) (fuel : ℕ) (t : LsmTree S)
    : Result (Bool × LsmTree S) → Type 0 where
  idle :
      ((level : ℕ) → is_over t.policy t.registry level ≡ false) → Compacts f fuel t (ok (false, t))
  failed :
      (task : CompactionTask) (sst : SstableInfo) (ssts : List SstableInfo) {e : Error}
      → IsChoice t.policy t.registry (some task)
      → get_elem? t.registry.levels task.src_level ≡ some (sst ∷ ssts)
      → run f fuel t.schema t.root_path t.disk (sst ∷ ssts) task t.next_sst_id ≡ err e
      → Compacts f fuel t (err e)
  merged :
      (task : CompactionTask) (sst : SstableInfo) (ssts rest : List SstableInfo) (s : S)
      (info : SstableInfo) {t' : LsmTree S}
      → IsChoice t.policy t.registry (some task)
      → get_elem? t.registry.levels task.src_level ≡ some (sst ∷ ssts)
      → run f fuel t.schema t.root_path t.disk (sst ∷ ssts) task t.next_sst_id ≡ ok (s, info)
      → HasReplaced t task.src_level (sst ∷ ssts) rest s info t'
      → Compacts f fuel t (ok (true, t'))

-- A level that is over its limit holds a table.
level_begins :
    (c : PolicyConfig) (r : SstableRegistry) (level : ℕ) (o : Option (List SstableInfo))
    → get_elem? r.levels level ≡ o
    → 0 < c.level0_compaction_trigger
    → is_over c r level ≡ true
    → (sst : SstableInfo) × (ssts : List SstableInfo) × (get_elem? r.levels level
        ≡ some (sst ∷ ssts))
unfolding sstable_count
level_begins c r level (some (sst ∷ ssts)) e pos over = (sst, ssts, e)
level_begins c r zero none e pos over = absurd (ground (arith, e))
level_begins c r zero (some []) e pos over = absurd (ground (arith, e))
level_begins c r (suc level) none e pos over =
    absurd (ground (arith, rw e at over, empty_small c (suc level)))
level_begins c r (suc level) (some []) e pos over =
    absurd (ground (arith, rw e at over, empty_small c (suc level)))

module _ {S : Type 0} where
  lookup-delete_same :
      (olds : List SstableInfo) (disk : Assoc ℕ S) (id : ℕ)
      → lookup id disk ≡ none
      → lookup id (delete_files olds disk) ≡ none
  unfolding delete_files
  lookup-delete_same [] disk id h = h
  lookup-delete_same (old ∷ olds) disk id h =
      lookup-delete_same olds (erase old.id disk) id
        (ground (arith, h, lookup-erase old.id id disk))

  lookup-deleted :
      (olds : List SstableInfo) (disk : Assoc ℕ S)
      → All (λ x. lookup x.id (delete_files olds disk) ≡ none) olds
  unfolding delete_files
  lookup-deleted [] disk = tt
  lookup-deleted (old ∷ olds) disk = (
    lookup-delete_same olds (erase old.id disk) old.id
        (ground (arith, lookup-erase old.id old.id disk)),
    lookup-deleted olds (erase old.id disk),
  )

  -- the registry and the disk after a compaction of `olds` into the table `info`
  record Replaced (t : LsmTree S) (s : S) (info : SstableInfo) (olds rest : List SstableInfo)
      : Type 0 where
    registered :
        All
          (IsRegistered (delete_files olds (assign t.next_sst_id s t.disk)) (suc t.next_sst_id))
          (all_tables (remove_tables olds (add t.registry info)))
    distinct : HasDistinctIds (all_tables (remove_tables olds (add t.registry info)))
    tables : Permᴰ (all_tables (remove_tables olds (add t.registry info))) (info ∷ rest)
    here : lookup info.id (delete_files olds (assign t.next_sst_id s t.disk)) ≡ some s
    others :
        All
          (λ x.
            lookup x.id (delete_files olds (assign t.next_sst_id s t.disk)) ≡ lookup x.id t.disk)
          rest

  replace :
      (t : LsmTree S) (s : S) (info : SstableInfo) (olds rest : List SstableInfo)
      → Joined t s info
      → Permᴰ (all_tables t.registry) (olds ++ rest)
      → info.level + 1 < 2 ^ 32
      → Replaced t s info olds rest
  replace t s info olds rest j d level =
      let disk' = assign t.next_sst_id s t.disk in
      let disk'' = delete_files olds disk' in
      let front : Permᴰ (info ∷ all_tables t.registry) (olds ++ info ∷ rest) =
        Permᴰ.trans (Permᴰ.cons refl d) (Permᴰ.symm (Permᴰ.middle info olds rest)) in
      let distinct = HasDistinctIds-Permᴰ front j.distinct in
      let final =
        remove_tables-Permᴰ olds (info ∷ rest) (add t.registry info)
          (Permᴰ.trans (add-Permᴰ t.registry info level) front) distinct in
      let same = lookup-delete_files olds (info ∷ rest) disk' distinct in
      let left =
        All-back (IsRegistered disk' (suc t.next_sst_id)) olds (info ∷ rest)
          (All-Permᴰ _ front j.registered) in
      let others : All (λ (x : SstableInfo). lookup x.id disk' ≡ lookup x.id t.disk) rest =
        All-back (λ (x : SstableInfo). lookup x.id disk' ≡ lookup x.id t.disk) olds rest
          (All-Permᴰ _ d j.others) in
      record {
        registered = All-Permᴰ _ (Permᴰ.symm final) (
            All-IsRegistered-disk disk' disk'' (suc t.next_sst_id) (suc t.next_sst_id) (info ∷ rest)
              same (omega arith) left);
        distinct =
            HasDistinctIds-Permᴰ (Permᴰ.symm final)
              (HasDistinctIds-back olds (info ∷ rest) distinct);
        tables = final;
        here = same.0 ∙ j.here;
        others = All-zip _ _ _ rest (λ x p q. p ∙ q) same.1 others;
      }

module _ {S C F : Type 0} ⦃i : ICursor C⦄ (f : SstFormat S C F) where
  compact_run :
      (fuel : ℕ) (t : LsmTree S) (task : CompactionTask) (sst : SstableInfo)
      (ssts : List SstableInfo) (o : Result (S × SstableInfo))
      → IsChoice t.policy t.registry (some task)
      → get_elem? t.registry.levels task.src_level ≡ some (sst ∷ ssts)
      → run f fuel t.schema t.root_path t.disk (sst ∷ ssts) task t.next_sst_id ≡ o
      → IsStored t
      → length t.registry.levels + 1 < 2 ^ 32
      → t.next_sst_id + 1 < 2 ^ 64
      → Compacts f fuel t (compact_level f fuel t task (sst ∷ ssts))
  unfolding compact_level register_compaction
  compact_run fuel t task sst ssts (err e) choice at ran h l n =
      simp ran (Compacts.failed task sst ssts choice at ran)
  compact_run fuel t task sst ssts (ok (s, info)) choice at ran h l n =
      let olds = sst ∷ ssts in
      let rest = concat (set t.registry.levels task.src_level []) in
      let d : Permᴰ (all_tables t.registry) (olds ++ rest) =
        level-Permᴰ t.registry.levels task.src_level at in
      let below = get_elem?-lt t.registry.levels task.src_level at in
      let dst : task.dst_level ≡ task.src_level + 1 =
        ap (λ (u : CompactionTask). u.dst_level) choice.0 in
      let (id, level) =
        run-info f fuel t.schema t.root_path t.disk sst ssts task t.next_sst_id s info ran in
      let new = replace t s info olds rest (join t s info h id) d (omega arith) in
      let registry' = remove_tables olds (add t.registry info) in
      let disk' = delete_files olds (assign t.next_sst_id s t.disk) in
      let len : length registry'.levels < length t.registry.levels + 2 = omega (
        arith,
        length-remove_tables olds (add t.registry info),
        length-add t.registry info (omega arith) l,
      ) in
      let next_id : (t.next_sst_id + 1) % 2 ^ 64 ≡ suc t.next_sst_id = omega arith in
      let (dir, saved) = save_ok t.dir registry' (suc t.next_sst_id) (omega arith) in
      let t' : LsmTree S = record {
        schema = t.schema;
        root_path = t.root_path;
        policy = t.policy;
        memory_layer = t.memory_layer;
        registry = registry';
        next_sst_id = suc t.next_sst_id;
        disk = disk';
        dir = dir;
      } in
      let done : HasReplaced t task.src_level olds rest s info t' = record {
        stored = record { tables = new.registered; distinct = new.distinct };
        id = id;
        dst_level = omega arith;
        next_id = refl;
        before = d;
        tables = new.tables;
        new_files = new.here;
        kept_files = new.others;
        deleted = lookup-deleted olds (assign t.next_sst_id s t.disk);
        memory = refl;
        saved = saved;
        levels = len;
        policy = refl;
      } in
      simp (ran, next_id, saved) (Compacts.merged task sst ssts rest s info choice at ran done)

  compact_choice :
      (fuel : ℕ) (t : LsmTree S) (o : Option CompactionTask)
      → IsChoice t.policy t.registry o
      → IsStored t
      → 0 < t.policy.level0_compaction_trigger
      → length t.registry.levels + 1 < 2 ^ 32
      → t.next_sst_id + 1 < 2 ^ 64
      → Compacts f fuel t (compact_task f fuel t o)
  unfolding compact_task sstables_at_level
  compact_choice fuel t none choice h pos l n = Compacts.idle choice
  compact_choice fuel t (some task) choice h pos l n =
      let (sst, ssts, at) = level_begins t.policy t.registry task.src_level _ refl pos choice.1 in
      simp at (compact_run fuel t task sst ssts _ choice at refl h l n)

  -- On a tree whose tables have distinct, old ids and their files, with a level number and a table id to spare and a
  -- trigger of at least one, a compaction does nothing if no level is over its limit, or else takes the lowest level that
  -- is. It passes on the exception of the merge of that level's tables, or else puts the merged table, with the next id
  -- and its files, on the next level in place of exactly those tables, deletes their files and no others, leaves the memtables
  -- and saves the manifest; the tables then have distinct, old ids and their files again.
  pub compact_one-Compacts :
      (fuel : ℕ) (t : LsmTree S)
      → IsStored t
      → 0 < t.policy.level0_compaction_trigger
      → length t.registry.levels + 1 < 2 ^ 32
      → t.next_sst_id + 1 < 2 ^ 64
      → Compacts f fuel t (compact_one f fuel t)
  unfolding compact_one
  compact_one-Compacts fuel t h pos l n =
      compact_choice fuel t (pick t.policy t.registry) (pick-IsChoice t.policy t.registry) h pos l n

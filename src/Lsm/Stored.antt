-- ===== src/Lsm/Stored.antt =====
-- The tables of a tree and their files (src/lsmtree/lsmtree.cpp): what its flushes and compactions rely on.
use htap_storage_lsm_tree.Common.{
  ℕ, suc, ◌<◌, ◌≤◌, ◌≡◌, ◌≢◌, refl, ◌∙◌, some, List, [], ◌∷◌, ◌++◌, All, All-imp, All-of, All-zip,
  All-back, arith,
}
use htap_storage_lsm_tree.Common.Assoc.{
  Assoc, lookup, assign, erase, lookup-assign, lookup-erase, ℕ_eq,
}
use htap_storage_lsm_tree.Registry.{SstableInfo}
use htap_storage_lsm_tree.Lsm.Tree.{LsmTree}
use htap_storage_lsm_tree.Lsm.Tables.{HasDistinctIds, all_tables}
use htap_storage_lsm_tree.Lsm.Compact.{delete_files}

-- A registered table has an id that was given out, and its files are on the disk.
pub record IsRegistered {S : Type 0} (disk : Assoc ℕ S) (next_id : ℕ) (info : SstableInfo)
    : Type 0 where
  pub old_id : info.id < next_id
  pub on_disk : (s : S) × (lookup info.id disk ≡ some s)

pub record IsStored {S : Type 0} (t : LsmTree S) : Type 0 where
  pub tables : All (IsRegistered t.disk t.next_sst_id) (all_tables t.registry)
  pub distinct : HasDistinctIds (all_tables t.registry)

module _ {S : Type 0} where
  pub All-IsRegistered-disk :
      (disk disk' : Assoc ℕ S) (n n' : ℕ) (infos : List SstableInfo)
      → All (λ info. lookup info.id disk' ≡ lookup info.id disk) infos
      → n ≤ n'
      → All (IsRegistered disk n) infos
      → All (IsRegistered disk' n') infos
  All-IsRegistered-disk disk disk' n n' infos e l s =
      All-zip _ _ _ infos
        (λ info same old. record {
          old_id = omega (arith, old.old_id);
          on_disk = (old.on_disk.0, same ∙ old.on_disk.1);
        })
        e s

  pub lookup-assign_fresh :
      (disk : Assoc ℕ S) (id : ℕ) (s : S) (infos : List SstableInfo)
      → All (λ info. info.id < id) infos
      → All (λ info. lookup info.id (assign id s disk) ≡ lookup info.id disk) infos
  lookup-assign_fresh disk id s infos =
      All-imp (λ info l. ground (arith, lookup-assign id info.id s disk)) infos

  pub lookup-delete_files :
      (olds infos : List SstableInfo) (disk : Assoc ℕ S)
      → HasDistinctIds (olds ++ infos)
      → All (λ info. lookup info.id (delete_files olds disk) ≡ lookup info.id disk) infos
  unfolding delete_files
  lookup-delete_files [] infos disk h = All-of _ (λ info. refl) infos
  lookup-delete_files (old ∷ olds) infos disk h =
      All-zip _ _ _ infos
        (λ info same other. same ∙ ground (arith, other, lookup-erase old.id info.id disk))
        (lookup-delete_files olds infos (erase old.id disk) h.1)
        (All-back (λ (info : SstableInfo). old.id ≢ info.id) olds infos h.0)

  -- A table with a fresh id joins the others: all have their files.
  pub record Joined (t : LsmTree S) (s : S) (info : SstableInfo) : Type 0 where
    pub registered :
        All
          (IsRegistered (assign t.next_sst_id s t.disk) (suc t.next_sst_id))
          (info ∷ all_tables t.registry)
    pub distinct : HasDistinctIds (info ∷ all_tables t.registry)
    pub here : lookup info.id (assign t.next_sst_id s t.disk) ≡ some s
    pub others :
        All
          (λ x. lookup x.id (assign t.next_sst_id s t.disk) ≡ lookup x.id t.disk)
          (all_tables t.registry)

  pub join :
      (t : LsmTree S) (s : S) (info : SstableInfo)
      → IsStored t
      → info.id ≡ t.next_sst_id
      → Joined t s info
  join t s info h id =
      let disk' = assign t.next_sst_id s t.disk in
      let old : All (λ x. x.id < t.next_sst_id) (all_tables t.registry) =
        All-imp (λ x q. q.old_id) _ h.tables in
      let same = lookup-assign_fresh t.disk t.next_sst_id s (all_tables t.registry) old in
      let here : lookup info.id disk' ≡ some s =
        ground (arith, id, lookup-assign t.next_sst_id info.id s t.disk) in
      record {
        registered = (
          record { old_id = omega arith; on_disk = (s, here) },
          All-IsRegistered-disk t.disk disk' t.next_sst_id (suc t.next_sst_id)
              (all_tables t.registry) same (omega arith) h.tables,
        );
        distinct = (All-imp (λ x q. λ p. omega arith) _ old, h.distinct);
        here = here;
        others = same;
      }

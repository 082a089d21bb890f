-- ===== src/Lsm/Enough.antt =====
-- How many rounds `drain_work_locked` (src/lsmtree/lsmtree.cpp) needs where its flushes make no compaction due.
use htap_storage_lsm_tree.Common.{
  ℕ, zero, suc, ◌+◌, ◌≤◌, ◌<◌, ◌≡◌, refl, sym, ap, ◌∙◌, subst, false, Option, none, some, List, [],
  ◌∷◌, ◌++◌, length, length-append, ◌==◌, All, get_elem?, Result, ok, arith, inl, inr,
}
use htap_storage_lsm_tree.Types.{Row}
use htap_storage_lsm_tree.Schema.{Schema}
use htap_storage_lsm_tree.Registry.{
  SstLayout, SstableInfo, SstableRegistry, add, sstable_count, length_or_zero, or_empty,
}
use htap_storage_lsm_tree.Registry.Laws.{at, at-add}
use htap_storage_lsm_tree.Compaction.Policy.{PolicyConfig}
use htap_storage_lsm_tree.Compaction.Choice.{is_over}
use htap_storage_lsm_tree.Cursor.{ICursor}
use htap_storage_lsm_tree.Lsm.Format.{SstFormat, SstableBuildResult}
use htap_storage_lsm_tree.Lsm.Tree.{LsmTree}
use htap_storage_lsm_tree.Lsm.Stored.{IsStored}
use htap_storage_lsm_tree.Lsm.Flush.{Flushes, HasFlushed}
use htap_storage_lsm_tree.Lsm.Compact.{drain_work}
use htap_storage_lsm_tree.Lsm.Compact.Laws.{Compacts}
use htap_storage_lsm_tree.Lsm.Drain.{HasRoom, IsQuiet, Drains, drain_work-Drains}

-- The builder makes a table of the rows, if there are any.
abbrev pub CanBuild : {S C F : Type 0} → SstFormat S C F → Schema → List Row → Type 0
CanBuild {S = S} f schema [] = Unit
CanBuild {S = S} f schema (r ∷ rs) =
    (built : S × SstableBuildResult) × (f.build schema SstLayout.row (r ∷ rs) ≡ ok built)

-- The frozen memtables can be built, and their tables leave every level within its limit.
pub record HasOnlyFlushes {S C F : Type 0} (f : SstFormat S C F) (t : LsmTree S)
    (imms : List (List Row)) : Type 0 where
  pub builds : All (CanBuild f t.schema) imms
  pub few : sstable_count t.registry 0 + length imms < t.policy.level0_compaction_trigger
  pub others : (level : ℕ) → is_over t.policy t.registry (suc level) ≡ false

length-or_empty : (o : Option (List SstableInfo)) → length_or_zero o ≡ length (or_empty o)
length-or_empty none = refl
length-or_empty (some l) = refl

sstable_count-at : (r : SstableRegistry) → sstable_count r 0 ≡ length (at r 0)
unfolding sstable_count
sstable_count-at r = length-or_empty (get_elem? r.levels 0)

-- a table more on level 0
sstable_count-add :
    (r : SstableRegistry) (info : SstableInfo)
    → info.level ≡ 0
    → sstable_count (add r info) 0 ≡ suc (sstable_count r 0)
sstable_count-add r info z =
    let more : at (add r info) 0 ≡ at r 0 ++ info ∷ [] =
      at-add r info 0 (omega arith) ∙ rw z refl in
    sstable_count-at (add r info)
    ∙ ap length more
    ∙ length-append (at r 0) (info ∷ [])
    ∙ omega (arith, sstable_count-at r)

is_over-add :
    (c : PolicyConfig) (r : SstableRegistry) (info : SstableInfo) (level : ℕ)
    → info.level ≡ 0
    → is_over c (add r info) (suc level) ≡ is_over c r (suc level)
is_over-add c r info level z =
    let other : (suc level == info.level) ≡ false = ground (arith, z) in
    let same : at (add r info) (suc level) ≡ at r (suc level) =
      at-add r info (suc level) (omega arith) ∙ simp other refl in
    rw same refl

module _ {S C F : Type 0} ⦃i : ICursor C⦄ (f : SstFormat S C F) (fuel : ℕ) where
  none_over :
      (t : LsmTree S) (imms : List (List Row))
      → HasOnlyFlushes f t imms
      → (level : ℕ) → is_over t.policy t.registry level ≡ false
  none_over t imms o zero = ground (arith, o.few)
  none_over t imms o (suc level) = o.others level

  flushed-HasOnlyFlushes :
      (t t' : LsmTree S) (imm : List Row) (imms : List (List Row)) (s : S) (info : SstableInfo)
      → HasFlushed t imms s info t'
      → HasOnlyFlushes f t (imm ∷ imms)
      → HasOnlyFlushes f t' imms
  flushed-HasOnlyFlushes t t' imm imms s info h o = record {
    builds = rw (h.schema) (o.builds.1);
    few =
        rw (h.registry, h.policy) (omega (arith, sstable_count-add t.registry info h.level, o.few));
    others = λ level.
        rw (h.registry, h.policy)
          (is_over-add t.policy t.registry info level h.level ∙ o.others level);
  }

  Drains-IsQuiet :
      (rounds : ℕ) (t : LsmTree S) (r : Result (LsmTree S)) (imms : List (List Row))
      → Drains f fuel rounds t r
      → t.memory_layer.immutables ≡ imms
      → length imms ≤ rounds
      → HasOnlyFlushes f t imms
      → (t' : LsmTree S) × (r ≡ ok t') × IsStored t' × IsQuiet t'
  Drains-IsQuiet rounds t _ imms (Drains.quiet _ _ h q) e l o = (t, refl, h, q)
  Drains-IsQuiet _ t _ [] (Drains.cut _ h (inl due)) e l o = absurd (due e)
  Drains-IsQuiet _ t _ (imm ∷ imms) (Drains.cut _ h (inl due)) e l o = absurd (omega arith)
  Drains-IsQuiet _ t _ imms (Drains.cut _ h (inr (level, over))) e l o =
      absurd (ground (arith, none_over t imms o level, over))
  Drains-IsQuiet _ t _ imms (Drains.flush_failed rounds _ (Flushes.failed r rs rest q built)) e l
        o =
      let o' = subst (HasOnlyFlushes f t) (sym e ∙ q) o in
      let (b, made) = o'.builds.0 in let clash = sym made ∙ built in absurd (ground arith)
  Drains-IsQuiet _ t _ imms
        (Drains.compaction_failed rounds _ q (Compacts.failed task sst ssts c at ran)) e l o =
      absurd (ground (arith, none_over t imms o task.src_level, c.1))
  Drains-IsQuiet _ t _ imms (Drains.flush rounds _ t' (Flushes.empty rest q) d) e l o =
      let o' = subst (HasOnlyFlushes f t) (sym e ∙ q) o in
      let l' = subst (λ x. length x ≤ suc rounds) (sym e ∙ q) l in
      Drains-IsQuiet rounds _ _ rest d refl (omega arith)
        (record { builds = o'.builds.1; few = omega (arith, o'.few); others = o'.others })
  Drains-IsQuiet _ t _ imms
        (Drains.flush rounds _ t' (Flushes.flushed r rs rest s res q built done) d) e l o =
      let o' = subst (HasOnlyFlushes f t) (sym e ∙ q) o in
      let l' = subst (λ x. length x ≤ suc rounds) (sym e ∙ q) l in
      Drains-IsQuiet rounds t' _ rest d done.queue (omega arith)
        (flushed-HasOnlyFlushes t t' (r ∷ rs) rest s _ done o')
  Drains-IsQuiet _ t _ imms
        (Drains.compaction rounds _ t' q
          (Compacts.merged task sst ssts rest s info c at ran done)
          d)
        e l o =
      absurd (ground (arith, none_over t imms o task.src_level, c.1))

  -- On a tree whose tables have distinct, old ids and their files, with room for the rounds, whose frozen memtables the builder
  -- makes tables of, and whose level 0 is below the trigger even with these, the other levels within their limits,
  -- as many rounds as there are frozen memtables are enough: the loop succeeds, on a tree with no frozen memtable and no
  -- level over its limit, whose tables have distinct, old ids and their files.
  pub drain_work-IsQuiet :
      (rounds : ℕ) (t : LsmTree S)
      → IsStored t
      → HasRoom (suc rounds) t
      → HasOnlyFlushes f t t.memory_layer.immutables
      → length t.memory_layer.immutables ≤ rounds
      → (t' : LsmTree S) × (drain_work f rounds fuel t ≡ ok t') × IsStored t' × IsQuiet t'
  drain_work-IsQuiet rounds t h room o l =
      Drains-IsQuiet rounds t _ t.memory_layer.immutables (drain_work-Drains f fuel rounds t h room)
        refl l o

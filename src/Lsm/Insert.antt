-- ===== src/Lsm/Insert.antt =====
-- `LSMTree::insert` (src/lsmtree/lsmtree.cpp): the row and the work that it makes due.
use mathlib.Core.List.{Permᴰ}
use mathlib.Core.List.Permᴰ
use htap_storage_lsm_tree.Common.{
  ℕ, suc, ◌<◌, ◌≡◌, ◌⊎◌, refl, sym, ap, ◌∙◌, some, List, [], ◌∷◌, ◌++◌, append-nil, append_assoc,
  length, map, concat, All, ok, arith, Bool-cases, inl, inr, ltb,
}
use htap_storage_lsm_tree.Types.{Key, Row, row_key}
use htap_storage_lsm_tree.Mem.Table.{
  size, entry_row, assign_sorted, to_sorted_immutable, insert as table_insert,
}
use htap_storage_lsm_tree.Mem.Laws.{IsOrdered, assign_sorted-IsAscending, assign_sorted-IsKeyed}
use htap_storage_lsm_tree.Mem.Entries.{without, assign_sorted-Permᴰ, entries-IsSortedRows}
use htap_storage_lsm_tree.Mem.Layer.{active_to_immutable, insert as layer_insert}
use htap_storage_lsm_tree.Cursor.{ICursor}
use htap_storage_lsm_tree.Cursor.Merge.Rows.{IsSortedRows}
use htap_storage_lsm_tree.Lsm.Format.{SstFormat}
use htap_storage_lsm_tree.Lsm.Tree.{LsmTree, insert_row}
use htap_storage_lsm_tree.Lsm.Compact.{insert, drain_work}
use htap_storage_lsm_tree.Lsm.Stored.{IsStored}
use htap_storage_lsm_tree.Lsm.Drain.{HasRoom, Drains, drain_work-Drains}

concat-append_one :
    (xss : List (List Row)) (xs : List Row) → concat (xss ++ xs ∷ []) ≡ concat xss ++ xs
concat-append_one [] xs = append-nil xs
concat-append_one (x ∷ xss) xs =
    ap (λ t. x ++ t) (concat-append_one xss xs) ∙ sym (append_assoc x (concat xss) xs)

All-append_one :
    (P : List Row → Type 0) (xss : List (List Row)) (xs : List Row)
    → All P xss
    → P xs
    → All P (xss ++ xs ∷ [])
All-append_one P [] xs a p = (p, tt)
All-append_one P (x ∷ xss) xs a p = (a.0, All-append_one P xss xs a.1 p)

module _ {S : Type 0} where
  pub record HasSortedMemory (t : LsmTree S) : Type 0 where
    pub active : IsOrdered t.memory_layer.active
    pub immutables : All IsSortedRows t.memory_layer.immutables

  -- the rows of all memtables
  abbrev pub memory_rows : LsmTree S → List Row
  memory_rows t = map entry_row t.memory_layer.active.entries ++ concat t.memory_layer.immutables

  -- The tree `t'` is `t` with the row, before any work is done.
  pub record HasRow (k : Key) (row : Row) (t t' : LsmTree S) : Type 0 where
    pub rows : Permᴰ (memory_rows t') (
        row
        ∷ (map entry_row (without k t.memory_layer.active.entries)
            ++ concat t.memory_layer.immutables))
    pub sorted : HasSortedMemory t'
    pub below :
        (length t'.memory_layer.active.entries < t.memory_layer.threshold)
        ⊎ (t'.memory_layer.active.entries ≡ [])
    pub registry : t'.registry ≡ t.registry
    pub disk : t'.disk ≡ t.disk
    pub next_id : t'.next_sst_id ≡ t.next_sst_id
    pub policy : t'.policy ≡ t.policy

  insert_row-HasRow :
      (t : LsmTree S) (row : Row) (k : Key)
      → HasSortedMemory t
      → row_key row ≡ some k
      → (t' : LsmTree S) × (insert_row t row ≡ ok t') × HasRow k row t t'
  unfolding insert_row layer_insert table_insert active_to_immutable to_sorted_immutable
  insert_row-HasRow t row k h e =
      let m = t.memory_layer.active.entries in
      let m' = assign_sorted k row m in
      let ascending = assign_sorted-IsAscending k row m h.active.ascending in
      let keyed = assign_sorted-IsKeyed k row m e h.active.keyed in
      let p =
        Permᴰ.append_right (concat t.memory_layer.immutables)
          (assign_sorted-Permᴰ k row m h.active.ascending) in
      elim (Bool-cases (ltb (size (record { entries = m' })) t.memory_layer.threshold)) [
        | inl few ↦ (
          record t { memory_layer = record t.memory_layer { active = record { entries = m' } } },
          simp (e, few) refl,
          record {
            rows = p;
            sorted = record {
              active = record { ascending = ascending; keyed = keyed };
              immutables = h.immutables;
            };
            below = inl (ground (arith, few));
            registry = refl;
            disk = refl;
            next_id = refl;
            policy = refl;
          },
        )
        | inr full ↦ (
          record t {
            memory_layer = record t.memory_layer {
              active = record { entries = [] };
              immutables = t.memory_layer.immutables ++ map entry_row m' ∷ [];
            };
          },
          simp (e, full) refl,
          record {
            rows = rw (concat-append_one t.memory_layer.immutables (map entry_row m')) (
                Permᴰ.trans
                  (Permᴰ.append_comm (concat t.memory_layer.immutables) (map entry_row m')) p);
            sorted = record {
              active = record { ascending = tt; keyed = tt };
              immutables =
                  All-append_one IsSortedRows t.memory_layer.immutables (map entry_row m')
                    h.immutables (entries-IsSortedRows m' ascending keyed);
            };
            below = inr refl;
            registry = refl;
            disk = refl;
            next_id = refl;
            policy = refl;
          },
        )
      ]

module _ {S C F : Type 0} ⦃i : ICursor C⦄ (f : SstFormat S C F) where
  -- The row goes to the memtables, and the work that is due is done on that tree.
  pub insert-Drains :
      (rounds fuel : ℕ) (t : LsmTree S) (row : Row) (k : Key)
      → HasSortedMemory t
      → IsStored t
      → HasRoom (suc rounds) t
      → row_key row ≡ some k
      → (t' : LsmTree S) × (insert f rounds fuel t row ≡ drain_work f rounds fuel t')
        × HasRow k row t t'
        × Drains f fuel rounds t' (drain_work f rounds fuel t')
  unfolding insert
  insert-Drains rounds fuel t row k m h room e =
      let (t', done, has) = insert_row-HasRow t row k m e in
      let h' : IsStored t' = record {
        tables = rw (has.disk, has.next_id, has.registry) (h.tables);
        distinct = rw (has.registry) (h.distinct);
      } in
      let room' : HasRoom (suc rounds) t' = record {
        levels = rw (has.registry) (room.levels);
        ids = rw (has.next_id) (room.ids);
        trigger = rw (has.policy) (room.trigger);
      } in
      (t', simp done refl, has, drain_work-Drains f fuel rounds t' h' room')

-- ===== src/Lsm/Drain.antt =====
-- `drain_work_locked` (src/lsmtree/lsmtree.cpp): the rounds of its loop.
use htap_storage_lsm_tree.Common.{
  ℕ, zero, suc, ◌+◌, ◌^◌, ◌<◌, ◌≡◌, ◌≢◌, ◌⊎◌, refl, sym, ◌∙◌, Bool, true, false, ◌||◌, Option, none,
  some, List, [], ◌∷◌, length, ltb, Result, Error, ok, err, cut_off, arith, Bool-cases, inl, inr,
}
use htap_storage_lsm_tree.Types.{Row}
use htap_storage_lsm_tree.Compaction.Policy.{CompactionTask, pick}
use htap_storage_lsm_tree.Compaction.Choice.{IsChoice, is_over, pick-IsChoice}
use htap_storage_lsm_tree.Cursor.{ICursor}
use htap_storage_lsm_tree.Lsm.Format.{SstFormat}
use htap_storage_lsm_tree.Lsm.Tree.{LsmTree, flush_one}
use htap_storage_lsm_tree.Lsm.Stored.{IsStored}
use htap_storage_lsm_tree.Lsm.Flush.{Flushes, flush_one-Flushes}
use htap_storage_lsm_tree.Lsm.Compact.{is_some, compact_one, has_pending_work, work_one, drain_work}
use htap_storage_lsm_tree.Lsm.Compact.Laws.{Compacts, compact_one-Compacts}

-- No memtable is frozen, and no level is over its limit.
abbrev pub IsQuiet : {S : Type 0} → LsmTree S → Type 0
IsQuiet t =
    (t.memory_layer.immutables ≡ []) × ((level : ℕ) → is_over t.policy t.registry level ≡ false)

-- A memtable is frozen, or a level is over its limit.
abbrev pub IsDue : {S : Type 0} → LsmTree S → Type 0
IsDue t =
    (t.memory_layer.immutables ≢ []) ⊎ ((level : ℕ) × (is_over t.policy t.registry level ≡ true))

-- The numbers of levels and ids leave room for `room` tables more.
pub record HasRoom {S : Type 0} (room : ℕ) (t : LsmTree S) : Type 0 where
  pub levels : length t.registry.levels + room < 2 ^ 32
  pub ids : t.next_sst_id + room < 2 ^ 64
  pub trigger : 0 < t.policy.level0_compaction_trigger

-- What the loop does in a number of rounds: it ends on a tree with nothing due, and each round flushes, or compacts if
-- no memtable is frozen. An exception ends it. It is cut off only if work is due behind the last round.
pub data Drains {S C F : Type 0} ⦃i : ICursor C⦄ (f : SstFormat S C F) (fuel : ℕ)
    : ℕ → LsmTree S → Result (LsmTree S) → Type 0 where
  quiet : (rounds : ℕ) (t : LsmTree S) → IsStored t → IsQuiet t → Drains f fuel rounds t (ok t)
  cut : (t : LsmTree S) → IsStored t → IsDue t → Drains f fuel 0 t (err cut_off)
  flush_failed :
      (rounds : ℕ) (t : LsmTree S) {e : Error}
      → Flushes f t (err e)
      → Drains f fuel (suc rounds) t (err e)
  compaction_failed :
      (rounds : ℕ) (t : LsmTree S) {e : Error}
      → t.memory_layer.immutables ≡ []
      → Compacts f fuel t (err e)
      → Drains f fuel (suc rounds) t (err e)
  flush :
      (rounds : ℕ) (t t' : LsmTree S) {r : Result (LsmTree S)}
      → Flushes f t (ok (true, t'))
      → Drains f fuel rounds t' r
      → Drains f fuel (suc rounds) t r
  compaction :
      (rounds : ℕ) (t t' : LsmTree S) {r : Result (LsmTree S)}
      → t.memory_layer.immutables ≡ []
      → Compacts f fuel t (ok (true, t'))
      → Drains f fuel rounds t' r
      → Drains f fuel (suc rounds) t r

module _ {S : Type 0} where
  IsQuiet-of :
      (t : LsmTree S) (imms : List (List Row)) (o : Option CompactionTask)
      → t.memory_layer.immutables ≡ imms
      → IsChoice t.policy t.registry o
      → ltb 0 (length imms) || is_some o ≡ false
      → IsQuiet t
  IsQuiet-of t [] none e choice h = (e, choice)
  IsQuiet-of t [] (some task) e choice h = absurd (ground arith)
  IsQuiet-of t (imm ∷ imms) o e choice h = absurd (ground arith)

  IsDue-of :
      (t : LsmTree S) (imms : List (List Row)) (o : Option CompactionTask)
      → t.memory_layer.immutables ≡ imms
      → IsChoice t.policy t.registry o
      → ltb 0 (length imms) || is_some o ≡ true
      → IsDue t
  IsDue-of t [] none e choice h = absurd (ground arith)
  IsDue-of t [] (some task) e choice h = inr (task.src_level, choice.1)
  IsDue-of t (imm ∷ imms) o e choice h = inl (λ q. absurd (ground (arith, sym e ∙ q)))

  idle-IsQuiet : (t : LsmTree S) → has_pending_work t ≡ false → IsQuiet t
  unfolding has_pending_work
  idle-IsQuiet t h =
      IsQuiet-of t t.memory_layer.immutables (pick t.policy t.registry) refl
        (pick-IsChoice t.policy t.registry) h

  pending-IsDue : (t : LsmTree S) → has_pending_work t ≡ true → IsDue t
  unfolding has_pending_work
  pending-IsDue t h =
      IsDue-of t t.memory_layer.immutables (pick t.policy t.registry) refl
        (pick-IsChoice t.policy t.registry) h

  HasRoom-less : (room : ℕ) (t : LsmTree S) → HasRoom (suc room) t → HasRoom room t
  HasRoom-less room t r = record {
    levels = omega (arith, r.levels);
    ids = omega (arith, r.ids);
    trigger = r.trigger;
  }

  room_after :
      (room : ℕ) (t t' : LsmTree S)
      → length t'.registry.levels < length t.registry.levels + 2
      → t'.next_sst_id ≡ suc t.next_sst_id
      → t'.policy ≡ t.policy
      → HasRoom (suc room) t
      → HasRoom room t'
  room_after room t t' levels ids policy r = record {
    levels = omega (arith, r.levels, levels);
    ids = omega (arith, r.ids, ids);
    trigger = rw policy (r.trigger);
  }

module _ {S C F : Type 0} ⦃i : ICursor C⦄ (f : SstFormat S C F) (fuel : ℕ) where
  -- what the loop does behind a round on the tree `t`
  abbrev Later : ℕ → Type 0
  Later rounds =
      (t' : LsmTree S)
      → IsStored t'
      → HasRoom (suc rounds) t'
      → Drains f fuel rounds t' (drain_work f rounds fuel t')

  after_compaction :
      (rounds : ℕ) (t : LsmTree S) (r : Result (Bool × LsmTree S))
      → has_pending_work t ≡ true
      → flush_one f t ≡ ok (false, t)
      → t.memory_layer.immutables ≡ []
      → compact_one f fuel t ≡ r
      → Compacts f fuel t r
      → IsStored t
      → HasRoom (suc (suc rounds)) t
      → Later rounds
      → Drains f fuel (suc rounds) t (drain_work f (suc rounds) fuel t)
  unfolding drain_work work_one
  after_compaction rounds t _ due flushed q e (Compacts.idle none_over) h room later =
      simp (due, flushed, e) (Drains.quiet (suc rounds) t h (q, none_over))
  after_compaction rounds t _ due flushed q e (Compacts.failed task sst ssts c at ran) h room
        later =
      simp (due, flushed, e)
        (Drains.compaction_failed rounds t q (Compacts.failed task sst ssts c at ran))
  after_compaction rounds t _ due flushed q e
        (Compacts.merged task sst ssts rest s info {t' = t'} c at ran done) h room later =
      simp (due, flushed, e)
        (Drains.compaction rounds t t' q (Compacts.merged task sst ssts rest s info c at ran done) (
          later t' done.stored
            (room_after (suc rounds) t t' done.levels done.next_id done.policy room)))

  after_flush :
      (rounds : ℕ) (t : LsmTree S) (r : Result (Bool × LsmTree S))
      → has_pending_work t ≡ true
      → flush_one f t ≡ r
      → Flushes f t r
      → IsStored t
      → HasRoom (suc (suc rounds)) t
      → Later rounds
      → Drains f fuel (suc rounds) t (drain_work f (suc rounds) fuel t)
  unfolding drain_work work_one
  after_flush rounds t _ due e (Flushes.idle q) h room later =
      after_compaction rounds t (compact_one f fuel t) due e q refl
        (compact_one-Compacts f fuel t h room.trigger (omega (arith, room.levels))
          (omega (arith, room.ids)))
        h room later
  after_flush rounds t _ due e (Flushes.empty imms q) h room later =
      let t' : LsmTree S = record t {
        memory_layer = record t.memory_layer { immutables = imms };
      } in
      simp (due, e)
        (Drains.flush rounds t t' (Flushes.empty imms q) (
          later t' (record { tables = h.tables; distinct = h.distinct })
            (HasRoom-less (suc rounds) t'
              (record { levels = room.levels; ids = room.ids; trigger = room.trigger }))))
  after_flush rounds t _ due e (Flushes.failed r rs imms q built) h room later =
      simp (due, e) (Drains.flush_failed rounds t (Flushes.failed r rs imms q built))
  after_flush rounds t _ due e (Flushes.flushed r rs imms s res {t' = t'} q built done) h room
        later =
      simp (due, e)
        (Drains.flush rounds t t' (Flushes.flushed r rs imms s res q built done) (
          later t' done.stored
            (room_after (suc rounds) t t' done.levels done.next_id done.policy room)))

  -- On a tree whose tables have distinct, old ids and their files, with a level number and a table id to spare for each
  -- round and one more, and a trigger of at least one, the loop flushes while a memtable is frozen and otherwise compacts, and
  -- succeeds only on a tree with no frozen memtable and no level over its limit, whose tables have distinct, old ids and their
  -- files. It ends earlier only with the exception of a flush or of a compaction; and it is cut off only where every
  -- round has worked and work is still due.
  pub drain_work-Drains :
      (rounds : ℕ) (t : LsmTree S)
      → IsStored t
      → HasRoom (suc rounds) t
      → Drains f fuel rounds t (drain_work f rounds fuel t)
  unfolding drain_work
  drain_work-Drains zero t h room = elim (Bool-cases (has_pending_work t)) [
    | inl due ↦ simp due (Drains.cut t h (pending-IsDue t due))
    | inr idle ↦ simp idle (Drains.quiet 0 t h (idle-IsQuiet t idle))
  ]
  drain_work-Drains (suc rounds) t h room = elim (Bool-cases (has_pending_work t)) [
    | inl due ↦
        after_flush rounds t (flush_one f t) due refl
          (flush_one-Flushes f t h (omega (arith, room.levels)) (omega (arith, room.ids))) h room
          (λ t'. drain_work-Drains rounds t')
    | inr idle ↦ simp idle (Drains.quiet (suc rounds) t h (idle-IsQuiet t idle))
  ]

-- ===== src/Mem/Layer.antt =====
-- src/lsmtree/mem/memory_layer.cpp
use htap_storage_lsm_tree.Common.{
  ℕ, Option, none, some, List, [], ◌∷◌, ◌++◌, length, ltb, if◌then◌else◌, Result, ok, ◌>>=◌,
}
use htap_storage_lsm_tree.Types.{Row}
use htap_storage_lsm_tree.Mem.Table.{MemTable, insert as table_insert, size, to_sorted_immutable}

pub record MemoryLayer : Type 0 where
  pub threshold : ℕ
  pub active : MemTable
  pub immutables : List (List Row)

unfoldable pub make_layer : ℕ → MemoryLayer
make_layer threshold = record {
  threshold = threshold;
  active = record { entries = [] };
  immutables = [];
}

-- The frozen table goes to the back of the queue, and an empty table takes its place.
unfoldable pub active_to_immutable : MemoryLayer → MemoryLayer
unfolding to_sorted_immutable
active_to_immutable l =
    let (imm, _) = to_sorted_immutable l.active in
    record l { active = record { entries = [] }; immutables = l.immutables ++ imm ∷ [] }

-- Freezes the active table as soon as it holds `threshold` rows.
unfoldable pub insert : MemoryLayer → Row → Result MemoryLayer
unfolding active_to_immutable
insert l row = do
  active ← table_insert l.active row
  let l' = record l { active = active }
  if ltb (size active) l.threshold then ok l' else ok (active_to_immutable l')

abbrev pub immutable_count : MemoryLayer → ℕ
immutable_count l = length l.immutables

abbrev pub front : List (List Row) → Option (List Row)
front [] = none
front (imm ∷ _) = some imm

unfoldable pub front_immutable : MemoryLayer → Option (List Row)
front_immutable l = front l.immutables

abbrev pub pop : List (List Row) → List (List Row)
pop [] = []
pop (_ ∷ imms) = imms

unfoldable pub pop_front_immutable : MemoryLayer → Option (List Row) × MemoryLayer
pop_front_immutable l = (front l.immutables, record l { immutables = pop l.immutables })

-- ===== src/Mem.antt =====
-- The memory side of a table: `MemTable`, `ImmutableMemTable` and `MemoryLayer` (src/lsmtree/mem).
pub mod Table
pub mod Layer
pub mod Laws
pub mod Range
pub mod Frozen
pub mod Entries

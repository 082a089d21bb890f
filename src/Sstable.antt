-- ===== src/Sstable.antt =====
-- SSTables: their block metadata, the sparse index, and the choice of the blocks that a read touches.
pub mod Meta
pub mod IndexStep
pub mod Selector
pub mod BlockCache

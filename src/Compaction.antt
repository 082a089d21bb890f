-- ===== src/Compaction.antt =====
-- Compaction: which level to merge, and the merge itself (src/lsmtree/compaction).
pub mod Policy
pub mod Choice

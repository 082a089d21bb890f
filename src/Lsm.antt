-- ===== src/Lsm.antt =====
-- `LSMTree` (src/lsmtree/lsmtree.cpp) and `CompactionJob` (src/lsmtree/compaction/compaction_job.cpp), over
-- an interface of the table formats.
pub mod Format
pub mod Tree
pub mod Job
pub mod Compact
pub mod Tables
pub mod Stored
pub mod Flush
pub mod Drain
pub mod Enough
pub mod Insert

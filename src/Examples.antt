-- ===== src/Examples.antt =====
-- Tests, and each theorem at a concrete input that meets its hypotheses.
mod Schema
mod Mem
mod Cursor
mod Sstable
mod BlockCache
mod Manifest
mod Lsm
mod Engine
mod Parser
mod Executor
mod Binder
mod Skipping

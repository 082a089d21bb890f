-- ===== src/Executor.antt =====
-- Statements over a schema: src/executor/ with include/executor/. A cursor of the storage engine is the
-- list of the rows that it yields.
pub mod Bound
pub mod Evaluate
pub mod Plan
pub mod Aggregates
pub mod Select
pub mod Binder

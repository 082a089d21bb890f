-- ===== src/Executor/Binder.antt =====
-- `Binder` (src/executor/binder.cpp): the names and the types of a statement, against the schema of its table.
pub mod Values
pub mod Expressions
pub mod Statements
pub mod Accepted
pub mod Scope
pub mod Collects

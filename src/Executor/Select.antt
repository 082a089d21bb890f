-- ===== src/Executor/Select.antt =====
-- `Executor::ExecutePlainSelect`, `ExecuteGlobalAggregateSelect` and `ExecuteGroupedAggregateSelect`
-- (src/executor/executor.cpp), over the rows of the cursor. `std::sort` and `std::map` are an insertion
-- sort and a sorted list: where rows compare equal the order of `std::sort` is left open.
pub mod Names
pub mod Projection
pub mod Required
pub mod Rows
pub mod Sorting
pub mod Grouped
pub mod Engine
pub mod Laws
pub mod Reading

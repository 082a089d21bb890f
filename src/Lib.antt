-- ===== src/Lib.antt =====
-- Verification of htap-storage-lsm-tree, an LSM-tree storage engine with row and column SSTables and a
-- small SQL front end.
--
-- The program. `LSMStorageEngine` keeps one `LSMTree` for each table. A tree takes rows into an active
-- memtable, freezes it when it is full, flushes frozen memtables into SSTables of level 0, and merges the
-- tables of a level that is over its limit into one table of the next level. The registry of the tables is
-- saved in a manifest after each of these steps. A scan composes cursors over the memtables and over the
-- SSTables, whose blocks it selects by a sparse index of keys. A statement goes through `Parser`, which makes
-- a syntax tree of its text, `Binder`, which resolves names and types against the schema of the table, and
-- `Executor`, which reads the rows of a key range from the engine and filters, aggregates, groups and sorts.
--
-- The files, and the code that each is about:
--   Common           shared names, lists, signed integers, exceptions, maps, permutations
--   Types            include/storage/api/types.hpp, include/storage/read/sstable/key_range.hpp
--   Schema           src/storage/model/schema.cpp; Schema.Builder src/storage/model/schema_builder.cpp
--   Mem              Mem.Table src/lsmtree/mem/memtable.cpp and imm_memtable.cpp; Mem.Layer
--                    src/lsmtree/mem/memory_layer.cpp; Mem.Range the bounds of LSMTree::scan
--   Cursor           include/storage/api/cursor_interface.hpp, and one child for each class of
--                    src/storage/cursor: Active, Immutable, Merge, Chain; Compose is compose_cursors
--   Registry         src/lsmtree/sstable/metadata/sstable_registry.cpp
--   Bytes, Manifest  src/utils/binary_writer.cpp, src/lsmtree/sstable/metadata/sstable_manifest.cpp
--   Compaction       src/lsmtree/compaction/compaction_policy.cpp
--   Sstable          include/lsmtree/sstable/build/sparse_index_options.hpp,
--                    src/storage/read/sstable/sparse_block_selector.cpp; Sstable.BlockCache
--                    src/storage/read/sstable/sstable_block_cache.cpp
--   Lsm              Lsm.Tree and Lsm.Compact src/lsmtree/lsmtree.cpp (insert, flush_one_locked,
--                    compact_one_locked, drain_work_locked); Lsm.Job
--                    src/lsmtree/compaction/compaction_job.cpp; Lsm.Format the interface of the formats
--   Engine           src/storage/lsm/lsm_storage_engine.cpp and the constructor LSMTree::LSMTree
--   Skipping         src/storage/read/sstable/data_skipping_block_pruner.cpp; Skipping.Stats the statistics
--                    of src/lsmtree/sstable/build/row_sst_block_builder.cpp; Skipping.Compare
--                    CompareResultValues of src/executor/executor.cpp for numbers
--   Parser           src/parser: Parser.Token, Parser.Lexer (NextToken), Parser.Expressions and
--                    Parser.Statements (the recursive descent); Parser.Grammar the grammar of expressions
--   Executor         src/executor/executor.cpp: Executor.Plan (BuildCursorForSelect and
--                    BuildDataSkippingFilter), Evaluate, Aggregates and Select (the three kinds of select);
--                    Executor.Binder src/executor/binder.cpp
--   Types.Float64    the arithmetic of double; Types.Float64.Arithmetic rounds to nearest, ties to even
--   Examples         tests, and each theorem at a concrete input
--
-- State and operations. A class is a record of its members, a method a function from the state to the new
-- one; an exception is a value of `Result`. A std::map is the list of its entries in key order, an iterator
-- the number of entries before it; an unordered map is an association list. The heap of MergeCursor is a
-- sorted list. Keys are integers of Common.Int, with the range of int64_t as a hypothesis where it matters;
-- the 32-bit and 64-bit sums of the registry, of the policy and of the ids are taken modulo 2 ^ 32 and
-- 2 ^ 64. A double is its bit pattern. Strings of data are lists of bytes; names of tables and
-- columns are strings, with the character of each byte.
--
-- The lexer is the rest of the input with its position; the parser passes it on with the current token, and
-- a ParseError is a value. The executor works on the list of the rows that a cursor yields; std::sort is an
-- insertion sort, and the map of the groups is the list of its entries in order. A sum of int64 values
-- wraps around where it leaves the range, which the C++ standard leaves open.
--
-- How the parts interact. Every cursor fills the record `ICursor`, and `Yields` says which rows it shows;
-- Merge, Chain and Compose rely on that alone. Lsm takes a record `SstFormat` of the operations of a table
-- format: to build a table, to open a cursor over it, its size. Nothing is assumed of them, so the theorems
-- hold for any builder and any cursor, and say what the tree does with their results and their
-- exceptions; only the theorem on the rows of a compaction takes cursors with the rows that they
-- yield. The disk of a tree maps the id of a table, which its path is made from, to the table's files.
-- The executor calls the storage by the record `IStorageEngine`.
--
-- Fuel and bounds. The parser runs on fuel, a multiple of the length of the input that is proved enough.
-- The loop over the merged rows of a compaction runs on fuel, which is enough if it is the number of the
-- rows, a hypothesis of the theorem. The loop of drain_work_locked runs for a number of rounds that the
-- caller gives. Its length depends on the sizes of the tables that the builders make, and the source has
-- no bound either: the limit of a level is taken modulo 2 ^ 64 and may be 0. Where the flushes make no
-- compaction due, a round for each frozen memtable is enough. A loop whose fuel or rounds are used up with
-- work left is the error `cut_off`, never a success. Each round uses at most one level number and one id,
-- which have to be there below 2 ^ 32 and 2 ^ 64.
--
-- The number of rows in an aggregate is a natural number, where the source has int64_t: a table of 2 ^ 63
-- rows is out of the model. An int64 value of a row is an integer; a theorem that depends on its range has
-- it as a hypothesis. std::stoll, std::stoull and std::stod are written after their documentation in
-- Parser.Numbers.
--
-- A parameter: the conversion of an integer to a double in Skipping, which keeps the order of numbers. The
-- executor uses the conversion of Types.Float64.Arithmetic.
--
-- Not modelled: the bytes of blocks, the reader and the cursors of the two table formats, the cache
-- of metadata and the mock engine; the scan of a tree as a whole; the background thread, with its locks
-- and waits (a tree runs the work in the thread of insert); failures of the file system; the log.
pub mod Executor
pub mod Parser
pub mod Common
pub mod Types
pub mod Schema
pub mod Mem
pub mod Cursor
pub mod Registry
pub mod Bytes
pub mod Manifest
pub mod Skipping
pub mod Lsm
pub mod Engine
pub mod Compaction
pub mod Sstable
pub mod Examples

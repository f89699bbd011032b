-- ===== src/Lib.antt =====
-- AURA_SQL, a relational database engine in Go, and the theorems that make its parts correct.
--
-- The program: parser/ turns SQL text into a statement of core/core.go; a session of executor/ runs it
-- in the open transaction or in one of its own; executor/ evaluates it as a tree of operators over a
-- `StorageEngine`; storage/ is the engine on disk: slotted pages in heap files behind a buffer pool,
-- B+-tree indexes, and MVCC; memstore/ is an engine in memory for tests.
--
-- Which file models what:
--   Prelude            shared names; Prelude/Text has Go strings as lists of bytes, Prelude/Int has
--                      int64 as signed integers with the wrap-around through the two's complement
--                      word, Prelude/Bits the laws of `|` and `&` that RowIDs need, Prelude/Maps Go's
--                      maps as lists of entries in the order of the keys.
--   Errors             Go's `(value, error)` pairs. An error keeps the format string of `fmt.Errorf`
--                      in place of the formatted text, `%w` is the constructor `wrap`; `panic` is a
--                      run-time panic, which no code recovers from.
--   Core               core/core.go: values, `Value.Compare`, schemas, rows, expressions, statements.
--   Core/Engine        core/core.go: the interface `StorageEngine`. A Txn is its id, a RowIterator the
--                      stream of what its calls of `Next` return. A cursor's rows are taken to share no
--                      memory with the engine: so it is with storage/, not with memstore/ (see Memstore).
--   Eval               executor/eval.go: `eval`, `evalWhere`, `evalBinary`. The case `*ast` of a type
--                      switch is a constructor; the default branches for a ColumnType or BinOp that
--                      is none of the constants cannot be reached and are left out.
--   Executor           executor/executor.go: `Execute`, `executeSelect` and the plan of a SELECT;
--                      Executor/AccessPath the search for an index, Executor/Dml INSERT, UPDATE and
--                      DELETE. The nil tests of `Execute` have no counterpart.
--   Executor/Operators executor/operator.go and executor/join.go. An operator is its schema and the
--                      stream of its rows; `Close` has no effect on them and is left out.
--   Session            executor/session.go: `Exec` with one function for each of its cases.
--   Memstore           memstore/memstore.go without the statistics: transactions, tables and writes;
--                      Memstore/Reads has the scans and index seeks, Memstore/Contract the engine as a
--                      `StorageEngine`. UPDATE through the executor writes into the slices that this
--                      engine shares with its cursors, so the theorems on statements over it leave
--                      UPDATE out; its own `Update` is modelled as it is.
--   Storage/RowId      storage/heapfile.go: `encodeRowID`, `decodeRowID`.
--   Storage/RowCodec   storage/page.go: `Serialize`, `Deserialize`. The loop of `Deserialize` takes
--                      the number of bytes as its fuel; every round takes a byte.
--   Storage/Page       storage/page.go: `NewPage` and the page's Insert, Get, Delete and Update over
--                      its 4096 bytes. Storage/Bytes has `encoding/binary`, slices and `copy`.
--   Storage/BufferPool storage/bufferpool.go over the page reads and writes of storage/heapfile.go. The
--                      file is the list of its pages; it names the pages whose reads or writes the
--                      operating system refuses. A range over a map meets its keys in any order: a
--                      parameter says which comes first. A page that `FetchPage` returns is written
--                      in place; set_page is that write. BufferPool/View has what the pool shows.
--   Storage/HeapFile   storage/heapfile.go: rows over the pool. HeapFile/Rows has the heap as a map
--                      from RowIDs to rows, and that Insert, Get, Update and Delete implement it.
--   Storage/Table      storage/engine.go: Insert, Update and Delete on one table, its heap and the
--                      versions in it. The table's B+-trees are a parameter: how an entry is added.
--   Storage/Scan       storage/engine.go: the iterator that `Scan` returns, slot by slot and page by
--                      page; its `currPage` and `currSlot` are the cursor. Both loops count the
--                      slots and pages that are left.
--   Storage/Catalog    storage/catalog.go: the map of tables, without its file; and the engine's
--                      Insert, Update and Delete by the table's name.
--   Storage/Mvcc       storage/engine.go: Begin, commit, rollback, `isVisible`, `checkWriteConflict`.
--                      The mutex makes each of them one step; a schedule is a sequence of steps. The
--                      transaction counter wraps at 2^64, and the theorems on schedules take runs
--                      that do not use all ids.
--   Tests              runs on concrete inputs, and the theorems at inputs that meet their hypotheses.
--
-- Not modelled: text beyond ASCII, the B+-tree, the catalog's file, the
-- disk engine's creation of tables and indexes, the statistics, the planner's floating-point costs, and the command line programs (input and output only).
-- The texts of formatted errors are kept as their format strings.
pub mod Prelude
pub mod Parser
pub mod Errors
pub mod Core
pub mod Eval
pub mod Executor
pub mod Memstore
pub mod Session
pub mod Storage
mod Tests

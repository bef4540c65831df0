-- ===== src/Lib.antt =====
-- The storage of the repository: key-value maps behind an interface that several backends
-- implement. A database is one map from byte strings to byte strings for each map id. It is read
-- and written in transactions: a read-write transaction sees its own writes, a commit applies all
-- of them, and a drop none.
--
-- How the parts interact. A backend (storage/core/src/backend.rs) opens a description of maps and
-- starts transactions. The adaptor Locking (storage/core/src/adaptor/locking) makes a backend of a
-- storage that has reads and writes but no transactions: changes are collected in delta maps, reads
-- look there first, iteration merges the storage with the changes, and a commit writes the changes
-- out. The typed storage (storage/src) gives a backend a schema, and encodes keys and values. The
-- in-memory storage (storage/inmemory) is a vector of BTreeMaps under that adaptor. The test suite
-- (storage/backend-test-suite) runs the same tests over every backend against a reference model.
--
-- The files:
--
-- - Base: lists over native numbers, tests, and Rust's Ord (Base/Ord) with the lexicographic order
--   of keys.
-- - BTreeMap: std's map as the ascending list of its entries; BTreeMap/Sorted and BTreeMap/Lookup
--   hold its laws.
-- - Core/Error, Core/Exec, Core/Types, Core/Data: storage/core/src/{error,types,lib}.rs. `Result`
--   has a third outcome, a panic; `Exec` is code that changes an object, which keeps its state
--   where an error ends the code early. Core/Types/Names has the proof about the names of maps.
-- - Core/Util: the prefix iterator of storage/core/src/util.rs, as a state with `next`; `collect`
--   calls it until it returns `None`, on fuel for the entries that are left.
-- - Core/Backend: the traits ReadOps, WriteOps, TxRw, BackendImpl, Backend and CoreOps as records.
--   Core/Contract is the specification: a relation between the states of an implementation and the
--   abstract database, with what each operation does to it; Contract/Keyed is the part of it for a
--   backend that takes only some keys, and Contract/Shown relates named tables to the maps of a
--   database.
-- - Core/Locking: storage/core/src/adaptor/locking/{mod,prefix_iter_rw}.rs. Core/Locking/Adaptor
--   assembles the backend; Overlay, MergeJoin, Commit and Refines hold the proofs.
-- - Core/Locking/Threads: the same adaptor with threads that share the storage behind the RwLock:
--   each thread runs one transaction, a scheduler picks the thread of each step, and a guard that
--   is held blocks the others. Alone is a transaction that has the storage to itself; Exclusion,
--   Progress, Serial and Pair hold the proofs.
-- - Core/Sessions: the calls and answers of a client, transaction after transaction, and their
--   specification.
-- - InMemory: storage/inmemory/src/lib.rs. InMemory/Laws shows the contract, InMemory/Sessions what
--   a client sees.
-- - Storage: the typed interface. Storage/Encoded is serialization/src/encoded.rs, Storage/Schema
--   is storage/src/schema.rs, Storage/Raw is storage/src/database/raw.rs (its proofs in Index and
--   Dump), Storage/Database is storage/src/database/{mod,internal}.rs (its proofs in Load and
--   Typed), with the reads of the views in Views and what the views refine in Views/Refines.
-- - Lmdb: Lmdb/Errors is storage/lmdb/src/error.rs, with the text of an error and the operating
--   system's I/O errors as parameters; Lmdb/Errors/Reports has the proof about the groups of
--   errors; Lmdb/MemSize is memsize.rs and initial_map_size.rs there; Lmdb/Transaction is the
--   transactions of lib.rs, and the resize of the map that a full map schedules; Lmdb/Resize has
--   the proofs about when that happens, and Lmdb/Open is how an environment is opened; Lmdb/Laws is
--   the documented behaviour of an environment, and Iter, Reads, Refines and Opens hold the proofs
--   over it.
-- - Sqlite: storage/sqlite/src. Sqlite/Queries is queries.rs, Sqlite/Errors is error.rs,
--   Sqlite/Transaction and Sqlite/Open are lib.rs; Sqlite/Driver is what the code uses of the crate
--   rusqlite, and Sqlite/Laws its documented behaviour. Shown, Atomic, Refines, Tables and Opens
--   hold the proofs.
-- - TestSuite: storage/backend-test-suite/src. TestSuite/Model is model.rs, TestSuite/Harness the
--   helpers and assertions, TestSuite/Property, TestSuite/Entries and TestSuite/Prefixes the tests
--   of property.rs, TestSuite/Basic those of basic.rs, and TestSuite/Concurrent those of
--   concurrent.rs, over the locking adaptor.
-- - TestUtils: test-utils/src. TestUtils/Random is what the code uses of the crate rand,
--   TestUtils/Split and TestUtils/Text are split_value and the random texts of lib.rs,
--   TestUtils/Shuffle is the shuffle of random.rs, and TestUtils/Dir is test_dir.rs. Split/Sums,
--   Shuffle/Different and Dir/Names, Dir/Fresh, Dir/Create hold the proofs.
-- - TypeName: utils/typename-derive/src/lib.rs, the tokens that the macro generates and the names
--   of types, with proofs in Derive and Unique. A type is its path, its identifier and its
--   arguments, of which the name shows the identifier and those that are types.
-- - Examples: the theorems at concrete inputs; Examples/Typed and Examples/Views have those of the
--   typed storage, Examples/Several those of tests on several maps, Examples/Lmdb those of
--   Lmdb/Errors and Lmdb/MemSize, Examples/Resize those of Lmdb/Resize, Examples/Threads those of
--   threads, Examples/Sqlite those of Sqlite, Examples/Env those of Lmdb/Refines and Lmdb/Opens,
--   Examples/Utils those of TestUtils, Examples/Names those of TypeName.
--
-- Bounds and fuel. Numbers are natural numbers; the code counts maps with usize and never computes
-- with them. The products of Lmdb/MemSize are on 64 bits, and wrap around or panic. Attempts that
-- the code limits (1000 draws of a byte, 1000 shuffles, ten names of a directory) are counted as it
-- does. The only other fuel is that of `Core.Util.collect`, the length of the entries that are
-- left, since every call of `next` takes one. An iterator is the list of its items, since the
-- borrow keeps the object unchanged while it lives.
--
-- Parameters. `merge_join_by` of the crate itertools is an argument of the iterator of a read-write
-- transaction; `Core.Locking.MergeJoin.MergeLaws` states its documented behaviour, one law for each
-- step, and Examples has a function that satisfies them. The codec of a type is a parameter of the
-- typed storage; `Storage.Encoded.RoundTrips` says that an encoding decodes to its value. The crate
-- rusqlite is the record `Sqlite.Driver.Driver`: `Sqlite.Laws.DriverLaws` is the documented
-- behaviour of transactions, failures included, `StatementLaws` and `Sqlite.Tables.CreateLaws` that
-- of the statements, and `Sqlite.Opens.ConnectLaws` that of opening, where none fails;
-- Examples/Sqlite has a driver that satisfies them. The crate lmdb is the record
-- `Lmdb.Transaction.Lmdb`; the properties of the resize use no law of it, and
-- `Lmdb.Laws.EnvironmentLaws` and `Lmdb.Opens.OpenLaws` are its documented behaviour where no call
-- fails but for a key that is not there, over the keys that it takes; Examples/Env has an
-- environment that satisfies both. The crate rand is the record `TestUtils.Random.Rng` with
-- `RngLaws`, and the file system the record `TestUtils.Dir.FileSystem` with
-- `TestUtils.Dir.Laws.FileSystemLaws`; Examples/Utils has values that satisfy them. The reads of
-- SQLite and of LMDB leave their connection or transaction as it is, and the rows of a query are
-- the list of what its iterator yields.
--
-- Threads. A step of a thread takes the lock, makes one call, or ends the transaction with its
-- guard; a commit is one step, since it works behind the write guard. A transaction makes at most
-- as many calls as the index of its `Body` says. A panic that unwinds a write guard poisons the
-- lock, and a thread that then takes it panics.
--
-- Not modelled: the threads of the SQLite and LMDB backends (their transactions run one after the
-- other), and the utility crates utils and crypto, which are wrappers and macros.
pub mod Base
pub mod BTreeMap
pub mod Core
pub mod InMemory
pub mod Lmdb
pub mod Sqlite
pub mod Storage
pub mod TestSuite
pub mod TestUtils
pub mod TypeName
pub mod Examples

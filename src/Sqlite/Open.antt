-- ===== src/Sqlite/Open.antt =====
-- storage/sqlite/src/lib.rs: opening a database, and the backend. The file system is a parameter: the parent of a
-- path, and the creation of directories, which may fail.
use rpi4_usb_io_breaker.Base.{
  ℕ, ◌*◌, Bool, true, false, Option, none, some, List, [], ◌∷◌, map, leb, if◌then◌else◌,
}
use rpi4_usb_io_breaker.Core.Error.{
  Str, broken_pipe, already_exists, permission_denied, not_found, other_kind, io, Error,
  recoverable_error, fatal_error, fatal_io, Result, ok, err, ◌>>=◌, ◌>>◌,
}
use rpi4_usb_io_breaker.Core.Types.{DbDesc, db_map_count, transform}
use rpi4_usb_io_breaker.Core.Backend.{Backend}
use rpi4_usb_io_breaker.Lmdb.Errors.{IoError}
use rpi4_usb_io_breaker.Sqlite.Queries.{create_table_query, from_desc}
use rpi4_usb_io_breaker.Sqlite.Driver.{
  SqlError, SqlResult, done, failed, Driver, begin_exclusive, commit_text, table_exists,
  locking_mode, exclusive, synchronous, off, fullfsync, true_text,
}
use rpi4_usb_io_breaker.Sqlite.Errors.{map_err}
use rpi4_usb_io_breaker.Sqlite.Transaction
use rpi4_usb_io_breaker.Sqlite.Transaction.{DbTx, SqliteImpl, start_transaction, drop_tx}

-- `process_io_error` of storage/sqlite/src/error.rs
unfoldable pub process_io_error : IoError → Error
process_io_error e = elim (e.kind) [
  | broken_pipe ↦ recoverable_error (io e.kind e.text)
  | already_exists ↦ recoverable_error (io e.kind e.text)
  | permission_denied ↦ recoverable_error (io e.kind e.text)
  | not_found ↦ recoverable_error (io e.kind e.text)
  | other_kind n ↦ fatal_error (fatal_io e.kind e.text)
]

pub data SqliteStorageMode : Type 0 where
  in_memory : SqliteStorageMode
  file : Str → SqliteStorageMode

-- `Sqlite` with its `Options`
pub record Sqlite : Type 0 where
  pub backend : SqliteStorageMode
  pub disable_fsync : Bool

-- "Cannot find the parent directory"
abbrev no_parent : Str
no_parent =
    67 ∷ 97 ∷ 110 ∷ 110 ∷ 111 ∷ 116 ∷ 32 ∷ 102 ∷ 105 ∷ 110 ∷ 100 ∷ 32 ∷ 116 ∷ 104 ∷ 101 ∷ 32 ∷ 112
    ∷ 97 ∷ 114 ∷ 101 ∷ 110 ∷ 116 ∷ 32 ∷ 100 ∷ 105 ∷ 114 ∷ 101 ∷ 99 ∷ 116 ∷ 111 ∷ 114 ∷ 121 ∷ []

module _ (d : Driver) where
  abbrev Sql : Type 0 → Type 0
  Sql A = d.Connection → SqlResult (SqlError d.Failure d.Other) A × d.Connection

  abbrev after_result :
      {A : Type 0} → SqlResult (SqlError d.Failure d.Other) (Unit {0}) → Sql A → Sql A
  after_result (done _) k c = k c
  after_result (failed e) k c = (failed e, c)

  -- `?`
  abbrev and_then : {A : Type 0} → Sql (Unit {0}) → Sql A → Sql A
  and_then m k c = after_result (m c).0 k (m c).1

  unfoldable pub configure : Bool → Sql (Unit {0})
  configure true =
      and_then (d.pragma_update locking_mode exclusive) (d.pragma_update synchronous off)
  configure false =
      and_then (d.pragma_update locking_mode exclusive) (d.pragma_update fullfsync true_text)

  -- the empty transaction that takes the exclusive lock
  unfoldable pub take_lock : Sql (Unit {0})
  take_lock = and_then (d.execute begin_exclusive) (d.execute commit_text)

  -- each table that is missing is created
  unfoldable pub create_missing : d.Statement → List Str → Sql (Unit {0})
  create_missing exists [] c = (done tt, c)
  create_missing exists (name ∷ names) c = elim (d.query_row exists name c) [
    | failed e ↦ (failed e, c)
    | done (some _) ↦ create_missing exists names c
    | done none ↦ and_then (d.execute (create_table_query name)) (create_missing exists names) c
  ]

  unfoldable pub create_tables : List Str → Sql (Unit {0})
  unfolding create_missing
  create_tables names c = elim (d.prepare_cached table_exists c) [
    | failed e ↦ (failed e, c)
    | done exists ↦ create_missing exists names c
  ]

  unfoldable pub open_connection :
      SqliteStorageMode → SqlResult (SqlError d.Failure d.Other) d.Connection
  open_connection in_memory = d.open_in_memory
  open_connection (file path) = d.open_file path

  -- room for the four statements of each map; a vector has far fewer items than a quarter of `usize::MAX`
  unfoldable pub statement_cap : ℕ → ℕ
  statement_cap n = if leb 16 (n * 4) then n * 4 else 16

  abbrev pub with_capacity :
      ℕ
      → SqlResult (SqlError d.Failure d.Other) (Unit {0}) × d.Connection
      → SqlResult (SqlError d.Failure d.Other) d.Connection
  with_capacity n (done _, c) = done (d.set_capacity n c)
  with_capacity n (failed e, c) = failed e

  -- `Sqlite::open_db`
  unfoldable pub open_db : Sqlite → DbDesc → SqlResult (SqlError d.Failure d.Other) d.Connection
  unfolding open_connection configure take_lock create_tables statement_cap
  open_db sqlite desc = elim (open_connection sqlite.backend) [
    | failed e ↦ failed e
    | done c ↦ with_capacity (statement_cap (db_map_count desc.map_descs)) (
        and_then (configure sqlite.disable_fsync)
          (and_then take_lock (create_tables (map (λ m. m.name) desc.map_descs))) c)
  ]

  -- the handle, once a transaction has given the connection back
  abbrev pub handle : DbTx d → d.Connection → SqliteImpl d
  handle tx c = record { connection = c; poisoned = false; queries = tx.queries }

  module _ (parent : Str → Option Str) (create_dir_all : Str → Option IoError) where
    -- the directory of a file is created if it is missing
    unfoldable pub make_parent : SqliteStorageMode → Result (Unit {0})
    unfolding process_io_error
    make_parent in_memory = ok tt
    make_parent (file path) = elim (parent path) [
      | none ↦ err (fatal_error (fatal_io not_found no_parent))
      | some dir ↦ elim (create_dir_all dir) [ none ↦ ok tt | some e ↦ err (process_io_error e) ]
    ]

    -- `Backend::open`
    unfoldable pub open_sqlite : Sqlite → DbDesc → Result (SqliteImpl d)
    unfolding make_parent
    open_sqlite sqlite desc = do
      make_parent sqlite.backend
      connection ← map_err d (open_db sqlite desc)
      ok (record {
        connection = connection;
        poisoned = false;
        queries = transform from_desc desc.map_descs;
      })

    abbrev pub sqlite_backend : Str → Sqlite → Backend
    sqlite_backend poison_text sqlite = record {
      Impl = SqliteImpl d;
      TxRo = DbTx d;
      TxRw = DbTx d;
      ro = record { get = Transaction.get d; prefix_iter = Transaction.prefix_iter d };
      rw = record { get = Transaction.get d; prefix_iter = Transaction.prefix_iter d };
      write = record { put = Transaction.put d; del = Transaction.del d };
      open_db = open_sqlite sqlite;
      transaction_ro = λ s. (start_transaction d poison_text s).0;
      transaction_rw = λ size s. (start_transaction d poison_text s).0;
      drop_ro = λ tx. handle tx (drop_tx d tx);
      drop_rw = λ tx. handle tx (drop_tx d tx);
      commit = λ tx. let (r, c) = Transaction.commit d tx in (r, handle tx c);
    }

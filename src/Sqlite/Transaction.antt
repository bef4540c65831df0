-- ===== src/Sqlite/Transaction.antt =====
-- storage/sqlite/src/lib.rs: the transaction, the iterator and the backend. A transaction holds the connection behind
-- its mutex, and is dropped at the end of a commit too.
use rpi4_usb_io_breaker.Base.{
  Bool, true, false, Option, none, some, List, [], ◌∷◌, get_elem?, if◌then◌else◌,
}
use rpi4_usb_io_breaker.Core.Data.{Data, starts_with}
use rpi4_usb_io_breaker.Core.Error.{
  Str, fatal_error, internal_error, Result, ok, err, panicked, ◌>>=◌,
}
use rpi4_usb_io_breaker.Core.Exec.{Exec}
use rpi4_usb_io_breaker.Core.Types.{DbMapId}
use rpi4_usb_io_breaker.Sqlite.Queries.{SqliteQuery, SqliteQueries}
use rpi4_usb_io_breaker.Sqlite.Driver.{
  SqlError, SqlResult, done, failed, Row, Driver, begin_transaction, commit_transaction,
  rollback_transaction,
}
use rpi4_usb_io_breaker.Sqlite.Errors.{map_err}

-- the iterator's calls of `next`, until it ends: an entry without the prefix ends it
unfoldable pub items : Data → List (Data × Data) → List (Data × Data)
items prefix [] = []
items prefix ((k, v) ∷ l) =
    let rest = items prefix l in if starts_with k prefix then (k, v) ∷ rest else []

-- `self.queries[map_id]` panics out of range
unfoldable pub query_of : SqliteQueries → DbMapId → Result SqliteQuery
query_of queries i = elim (get_elem? queries i) [ none ↦ panicked | some q ↦ ok q ]

module _ (d : Driver) where
  -- `DbTx`
  pub record DbTx : Type 0 where
    pub connection : d.Connection
    pub queries : SqliteQueries

  -- `SqliteImpl`, with the mutex that may be poisoned
  pub record SqliteImpl : Type 0 where
    pub connection : d.Connection
    pub poisoned : Bool
    pub queries : SqliteQueries

  -- `Drop for DbTx`
  unfoldable pub drop_tx : DbTx → d.Connection
  drop_tx tx =
      if d.is_autocommit tx.connection
      then tx.connection
      else (d.execute rollback_transaction tx.connection).1

  started :
      SqliteQueries
      → SqlResult (SqlError d.Failure d.Other) (Unit {0}) × d.Connection
      → Result DbTx × d.Connection
  started queries (done _, c) = (ok (record { connection = c; queries = queries }), c)
  started queries (failed e, c) =
      (map_err d (failed e), drop_tx (record { connection = c; queries = queries }))

  -- `DbTx::start_transaction`; the text of the mutex's error is a parameter
  unfoldable pub start_transaction : Str → SqliteImpl → Result DbTx × d.Connection
  unfolding started
  start_transaction poison_text sqlite =
      if sqlite.poisoned
      then (err (fatal_error (internal_error poison_text)), sqlite.connection)
      else started sqlite.queries (d.execute begin_transaction sqlite.connection)

  -- `TxRw::commit`
  unfoldable pub commit : DbTx → Result (Unit {0}) × d.Connection
  unfolding drop_tx
  commit tx =
      let (r, c) = d.execute commit_transaction tx.connection in
      (map_err d r, drop_tx (record { connection = c; queries = tx.queries }))

  unfoldable pub get : DbTx → DbMapId → Data → Result (Option Data)
  get tx i key = do
    q ← query_of tx.queries i
    stmt ← map_err d (d.prepare_cached q.get_query tx.connection)
    map_err d (d.query_row stmt key tx.connection)

  -- a row with the prefix is pushed in front of what the rest of the loop collects
  push_row :
      Bool
      → Data
      → Row (SqlError d.Failure d.Other)
      → Result (List (Data × Data))
      → Result (List (Data × Data))
  push_row false key row rest = rest
  push_row true key row rest = do value ← map_err d row.value; kv ← rest; ok ((key, value) ∷ kv)

  -- the loop over the rows: those whose key has the prefix, or the first error
  unfoldable pub collect_rows :
      Data
      → List (SqlResult (SqlError d.Failure d.Other) (Row (SqlError d.Failure d.Other)))
      → Result (List (Data × Data))
  unfolding push_row
  collect_rows prefix [] = ok []
  collect_rows prefix (item ∷ rows) = do
    row ← map_err d item
    key ← map_err d row.key
    push_row (starts_with key prefix) key row (collect_rows prefix rows)

  unfoldable pub prefix_iter : DbTx → DbMapId → Data → Result (List (Data × Data))
  unfolding items collect_rows
  prefix_iter tx i prefix = do
    q ← query_of tx.queries i
    stmt ← map_err d (d.prepare_cached q.prefix_iter_query tx.connection)
    rows ← map_err d (d.query stmt tx.connection)
    kv ← collect_rows prefix rows
    ok (items prefix kv)

  -- a prepared statement, run on the connection
  unfoldable pub run_statement : Str → List Data → Exec d.Connection (Unit {0})
  run_statement text params c = elim (map_err d (d.prepare_cached text c)) [
    | ok stmt ↦ let (r, c') = d.execute_statement stmt params c in (map_err d r, c')
    | err e ↦ (err e, c)
    | panicked ↦ (panicked, c)
  ]

  unfoldable pub write_with : (SqliteQuery → Str) → DbMapId → List Data → Exec DbTx (Unit {0})
  write_with text i params tx = elim (query_of tx.queries i) [
    | err e ↦ (err e, tx)
    | panicked ↦ (panicked, tx)
    | ok q ↦
        let (r, c) = run_statement (text q) params tx.connection in
        (r, record { connection = c; queries = tx.queries })
  ]

  unfoldable pub put : DbMapId → Data → Data → Exec DbTx (Unit {0})
  unfolding write_with
  put i key val = write_with (λ q. q.put_query) i (key ∷ val ∷ [])

  unfoldable pub del : DbMapId → Data → Exec DbTx (Unit {0})
  unfolding write_with
  del i key = write_with (λ q. q.delete_query) i (key ∷ [])

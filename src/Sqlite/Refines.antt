-- ===== src/Sqlite/Refines.antt =====
-- Where SQLite works as documented and no statement fails, its transactions keep the contract.
use rpi4_usb_io_breaker.Base.{
  false, Option, some, List, [], ◌∷◌, map, get_elem?, get_elem?-of_lt, All, All-get, length, ◌≡◌,
  refl, ◌<◌,
}
use rpi4_usb_io_breaker.Base.Ord.{list_ord}
use rpi4_usb_io_breaker.BTreeMap
use rpi4_usb_io_breaker.Core.Data.{Data}
use rpi4_usb_io_breaker.Core.Error.{Str, ok}
use rpi4_usb_io_breaker.Core.Types.{DbMapId}
use rpi4_usb_io_breaker.Core.Util.Collect.{with_prefix}
use rpi4_usb_io_breaker.Core.Contract.{Map, Db, modify, db_put, db_del, TransactionLaws}
use rpi4_usb_io_breaker.Core.Contract.Shown.{Shows, Shows-get, Shows-Changed}
use rpi4_usb_io_breaker.Core.Sessions.{Session, run_sessions, spec_sessions, SessionIn}
use rpi4_usb_io_breaker.Core.Sessions.Refines.{run_sessions_lem}
use rpi4_usb_io_breaker.Lmdb.Errors.{IoError}
use rpi4_usb_io_breaker.Sqlite.Queries.{SqliteQuery, from_name}
use rpi4_usb_io_breaker.Sqlite.Driver.{done, Driver, begin_transaction, commit_transaction}
use rpi4_usb_io_breaker.Sqlite.Errors.{map_err}
use rpi4_usb_io_breaker.Sqlite.Transaction
use rpi4_usb_io_breaker.Sqlite.Transaction.{
  DbTx, SqliteImpl, items, collect_rows, query_of, run_statement, write_with, drop_tx,
  start_transaction, commit,
}
use rpi4_usb_io_breaker.Sqlite.Open.{Sqlite, sqlite_backend, handle}
use rpi4_usb_io_breaker.Sqlite.Laws.{Tables, set_table, DriverLaws, StatementLaws}
use rpi4_usb_io_breaker.Sqlite.Atomic.{drop-InTx, drop-Open}
use rpi4_usb_io_breaker.Sqlite.Shown.{
  set_table-Changed, get_elem?-map, items-with_prefix, collect_rows-rows_of,
}

module _ (d : Driver) (laws : DriverLaws d) (IsName : Str → Type 0)
    (works : StatementLaws d laws IsName) where
  -- a handle that has no transaction
  pub record Repr (s : SqliteImpl d) (x : Db) : Type 0 where
    pub names : List Str
    pub named : All IsName names
    pub queries : s.queries ≡ map from_name names
    pub healthy : s.poisoned ≡ false
    pub tables : Tables
    pub connected : laws.Open s.connection tables
    pub shows : Shows tables names x

  pub record ReprTx (base : Db) (tx : DbTx d) (x : Db) : Type 0 where
    names : List Str
    named : All IsName names
    queries : tx.queries ≡ map from_name names
    before : Tables
    tables : Tables
    connected : laws.InTx tx.connection before tables
    shows_base : Shows before names base
    shows : Shows tables names x

  query_of_lem :
      (tx : DbTx d) (names : List Str)
      → tx.queries ≡ map from_name names
      → (i : DbMapId) (n : Str) → get_elem? names i ≡ some n
      → query_of tx.queries i ≡ ok (from_name n)
  unfolding query_of
  query_of_lem tx names e i n at = rw (e, query_of, get_elem?-map names i n at) refl

  get_lem :
      (base : Db) (tx : DbTx d) (x : Db) (i : DbMapId) (m : Map) (k : Data)
      → ReprTx base tx x
      → get_elem? x i ≡ some m
      → Transaction.get d tx i k ≡ ok (BTreeMap.get k m)
  unfolding Transaction.get map_err
  get_lem base tx x i m k r e =
      let (n, at, shown) = Shows-get r.tables r.names x i m r.shows e in
      let name = All-get IsName r.names i r.named at in
      let (stmt, prepared, found) =
        works.get_works tx.connection r.before r.tables n m k r.connected name shown in
      rw (query_of_lem tx r.names r.queries i n at, prepared, found) refl

  iter_lem :
      (base : Db) (tx : DbTx d) (x : Db) (i : DbMapId) (m : Map) (p : Data)
      → ReprTx base tx x
      → get_elem? x i ≡ some m
      → Transaction.prefix_iter d tx i p ≡ ok (with_prefix p m)
  unfolding Transaction.prefix_iter map_err
  iter_lem base tx x i m p r e =
      let (n, at, shown) = Shows-get r.tables r.names x i m r.shows e in
      let name = All-get IsName r.names i r.named at in
      let (stmt, prepared, found) =
        works.iter_works tx.connection r.before r.tables n m r.connected name shown in
      rw
        (
          query_of_lem tx r.names r.queries i n at,
          prepared,
          found,
          collect_rows-rows_of d p m,
          items-with_prefix p m,
        )
        refl

  -- a statement that writes the table of a map
  wrote :
      (base : Db) (tx : DbTx d) (x : Db) (i : DbMapId) (f : Map → Map) (n : Str) (m : Map)
      (text : SqliteQuery → Str) (params : List Data) (stmt : d.Statement) (r : ReprTx base tx x)
      → get_elem? x i ≡ some m
      → get_elem? r.names i ≡ some n
      → d.prepare_cached (text (from_name n)) tx.connection ≡ done stmt
      → (d.execute_statement stmt params tx.connection).0 ≡ done tt
      → laws.InTx
          (d.execute_statement stmt params tx.connection).1
          r.before
          (set_table n (f m) r.tables)
      → ((write_with d text i params tx).0 ≡ ok tt)
        × ReprTx base (write_with d text i params tx).1 (modify f i x)
  unfolding write_with run_statement map_err
  wrote base tx x i f n m text params stmt r e at prepared ran r' =
      rw (query_of_lem tx r.names r.queries i n at, write_with, prepared, run_statement, ran)
        (
          refl,
          record {
            names = r.names;
            named = r.named;
            queries = r.queries;
            before = r.before;
            tables = set_table n (f m) r.tables;
            connected = r';
            shows_base = r.shows_base;
            shows =
                Shows-Changed r.tables (set_table n (f m) r.tables) r.names x i f n m
                  (set_table-Changed r.tables n (f m)) r.shows e at;
          },
        )

  put_lem :
      (base : Db) (tx : DbTx d) (x : Db) (i : DbMapId) (k v : Data)
      → ReprTx base tx x
      → i < length x
      → ((Transaction.put d i k v tx).0 ≡ ok tt)
        × ReprTx base (Transaction.put d i k v tx).1 (db_put i k v x)
  unfolding Transaction.put
  put_lem base tx x i k v r h =
      let (m, e) = get_elem?-of_lt x i h in
      let (n, at, shown) = Shows-get r.tables r.names x i m r.shows e in
      let name = All-get IsName r.names i r.named at in
      let (stmt, prepared, ran, r') =
        works.put_works tx.connection r.before r.tables n m k v r.connected name shown in
      wrote base tx x i (BTreeMap.insert k v) n m (λ q. q.put_query) (k ∷ v ∷ []) stmt r e at
        prepared ran r'

  del_lem :
      (base : Db) (tx : DbTx d) (x : Db) (i : DbMapId) (k : Data)
      → ReprTx base tx x
      → i < length x
      → ((Transaction.del d i k tx).0 ≡ ok tt)
        × ReprTx base (Transaction.del d i k tx).1 (db_del i k x)
  unfolding Transaction.del
  del_lem base tx x i k r h =
      let (m, e) = get_elem?-of_lt x i h in
      let (n, at, shown) = Shows-get r.tables r.names x i m r.shows e in
      let name = All-get IsName r.names i r.named at in
      let (stmt, prepared, ran, r') =
        works.del_works tx.connection r.before r.tables n m k r.connected name shown in
      wrote base tx x i (BTreeMap.remove k) n m (λ q. q.delete_query) (k ∷ []) stmt r e at prepared
        ran r'

  start_lem :
      (poison_text : Str) (s : SqliteImpl d) (x : Db)
      → Repr s x
      → (tx : DbTx d) × ((start_transaction d poison_text s).0 ≡ ok tx) × ReprTx x tx x
  unfolding start_transaction
  start_lem poison_text s x r =
      let begun = works.begin_works s.connection r.tables r.connected in
      (
        record { connection = (d.execute begin_transaction s.connection).1; queries = s.queries },
        rw (r.healthy, begun) refl,
        record {
          names = r.names;
          named = r.named;
          queries = r.queries;
          before = r.tables;
          tables = r.tables;
          connected = laws.begin_done s.connection r.tables r.connected begun;
          shows_base = r.shows;
          shows = r.shows;
        },
      )

  dropped_lem :
      (tx : DbTx d) (base x : Db) → ReprTx base tx x → Repr (handle d tx (drop_tx d tx)) base
  dropped_lem tx base x r = record {
    names = r.names;
    named = r.named;
    queries = r.queries;
    healthy = refl;
    tables = r.before;
    connected = drop-InTx d laws tx r.before r.tables r.connected;
    shows = r.shows_base;
  }

  commit_lem :
      (tx : DbTx d) (base x : Db)
      → ReprTx base tx x
      → ((commit d tx).0 ≡ ok tt) × Repr (handle d tx (commit d tx).1) x
  unfolding commit map_err
  commit_lem tx base x r =
      let worked = works.commit_works tx.connection r.before r.tables r.connected in
      let after : DbTx d = record {
        connection = (d.execute commit_transaction tx.connection).1;
        queries = tx.queries;
      } in
      (
        rw worked refl,
        record {
          names = r.names;
          named = r.named;
          queries = r.queries;
          healthy = refl;
          tables = r.tables;
          connected =
              drop-Open d laws after r.tables
                (laws.commit_done tx.connection r.before r.tables r.connected worked);
          shows = r.shows;
        },
      )

  -- the contract about transactions, for handles whose tables show the database
  sqlite-laws :
      (parent : Str → Option Str) (create_dir_all : Str → Option IoError) (poison_text : Str)
      (sqlite : Sqlite)
      → TransactionLaws (sqlite_backend d parent create_dir_all poison_text sqlite)
  sqlite-laws parent create_dir_all poison_text sqlite = record {
    Repr = Repr;
    ReprRo = λ tx x. ReprTx x tx x;
    ReprRw = ReprTx;
    ro_reads = record {
      get_lem = λ tx x i m k r e. get_lem x tx x i m k r e;
      prefix_iter_lem = λ tx x i m p r e. iter_lem x tx x i m p r e;
    };
    rw_reads = λ base. record { get_lem = get_lem base; prefix_iter_lem = iter_lem base };
    rw_writes = λ base. record { put_lem = put_lem base; del_lem = del_lem base };
    ro_lem = start_lem poison_text;
    rw_lem = λ size s x r. start_lem poison_text s x r;
    drop_ro_lem = λ tx x r. dropped_lem tx x x r;
    drop_rw_lem = dropped_lem;
    commit_lem = commit_lem;
  }

  -- the sessions of a handle whose tables show the database
  pub run_sessions-Repr :
      (parent : Str → Option Str) (create_dir_all : Str → Option IoError) (poison_text : Str)
      (sqlite : Sqlite) (n : DbMapId) (sessions : List Session) (s : SqliteImpl d) (x : Db)
      → Repr s x
      → length x ≡ n
      → All (SessionIn n) sessions
      → (run_sessions (sqlite_backend d parent create_dir_all poison_text sqlite) sessions s).0
        ≡ spec_sessions sessions x
  unfolding sqlite-laws
  run_sessions-Repr parent create_dir_all poison_text sqlite n sessions s x r =
      run_sessions_lem (sqlite_backend d parent create_dir_all poison_text sqlite)
        (sqlite-laws parent create_dir_all poison_text sqlite) n sessions s x r

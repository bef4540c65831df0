-- ===== src/Lmdb/Refines.antt =====
-- Where LMDB works as documented, its transactions keep the contract for the keys that it takes.
use rpi4_usb_io_breaker.Base.{
  ℕ, Bool, Option, none, some, List, get_elem?, get_elem?-of_lt, length, All, ◌≡◌, refl, ◌<◌, inl,
  inr, Bool-cases,
}
use rpi4_usb_io_breaker.Base.Ord.{list_ord}
use rpi4_usb_io_breaker.BTreeMap
use rpi4_usb_io_breaker.BTreeMap.{range_from}
use rpi4_usb_io_breaker.Core.Data.{Data}
use rpi4_usb_io_breaker.Core.Error.{Str, ErrorKind, ok}
use rpi4_usb_io_breaker.Core.Types.{DbMapId}
use rpi4_usb_io_breaker.Core.Backend.{Backend}
use rpi4_usb_io_breaker.Core.Sessions.{Session, run_sessions, spec_sessions, SessionIn, SessionKeys}
use rpi4_usb_io_breaker.Core.Sessions.Refines.{run_sessions-keyed}
use rpi4_usb_io_breaker.Core.Contract.{Map, Db, modify, db_put, db_del}
use rpi4_usb_io_breaker.Core.Contract.Keyed.{KeyedLaws}
use rpi4_usb_io_breaker.Core.Contract.Shown.{Shows, Shows-get, Shows-Changed, Changed}
use rpi4_usb_io_breaker.Lmdb.Errors.{LmdbError, IoError, process_with_unit}
use rpi4_usb_io_breaker.Lmdb.Transaction
use rpi4_usb_io_breaker.Lmdb.Transaction.{
  LmdbResult, success, failure, Reader, Lmdb, LmdbImpl, DbTx, items, written, committed,
  start_transaction, transaction_ro, transaction_rw, commit, resize_if_resize_scheduled,
  schedule_map_resize_if_map_full,
}
use rpi4_usb_io_breaker.Lmdb.Open.{LmdbSettings, lmdb_backend}
use rpi4_usb_io_breaker.Lmdb.Laws.{Contents, EnvironmentLaws}
use rpi4_usb_io_breaker.Lmdb.Iter.{remove-of_none}
use rpi4_usb_io_breaker.Lmdb.Reads.{Repr, ReprTx, get_lem, iter_lem, started}

module _ (lmdb : Lmdb) (to_string : LmdbError → Str) (from_raw_os_error : ℕ → IoError)
    (last_os_error : IoError) (same_kind : ErrorKind → ErrorKind → Bool) (IsKey : Data → Type 0)
    (laws : EnvironmentLaws lmdb IsKey) where
  abbrev ReprRw : Db → DbTx lmdb lmdb.RwTransaction → Db → Type 0
  ReprRw = ReprTx lmdb laws laws.SeesRw

  -- what a write that changed the database of a map leaves
  changed :
      (base : Db) (t : DbTx lmdb lmdb.RwTransaction) (x : Db) (i : DbMapId) (m : Map)
      (db : lmdb.Database) (f : Map → Map) (tx : lmdb.RwTransaction) (c : Contents lmdb)
      (r : ReprRw base t x)
      → get_elem? x i ≡ some m
      → get_elem? t.backend.dbs i ≡ some db
      → laws.SeesRw tx c
      → Changed db (f m) r.contents c
      → ReprRw base (record { tx = tx; backend = t.backend }) (modify f i x)
  changed base t x i m db f tx c r e at seen ch = record {
    before = r.before;
    contents = c;
    seen = seen;
    shows = Shows-Changed r.contents c t.backend.dbs x i f db m ch r.shows e at;
  }

  put_lem :
      (base : Db) (t : DbTx lmdb lmdb.RwTransaction) (x : Db) (i : DbMapId) (k v : Data)
      → ReprRw base t x
      → i < length x
      → IsKey k
      → ((Transaction.put lmdb to_string from_raw_os_error last_os_error same_kind i k v t).0
          ≡ ok tt)
        × ReprRw base
            (Transaction.put lmdb to_string from_raw_os_error last_os_error same_kind i k v t).1
            (db_put i k v x)
  unfolding Transaction.put written
  put_lem base t x i k v r h key =
      let (m, e) = get_elem?-of_lt x i h in
      let (db, at, shown) = Shows-get r.contents t.backend.dbs x i m r.shows e in
      let (c, worked, seen, ch) = laws.put_lem t.tx r.contents db m k v r.seen shown key in
      rw (Transaction.put, at, written, worked)
        (
          refl,
          changed base t x i m db (BTreeMap.insert k v) (lmdb.put db k v t.tx).1 c r e at seen ch,
        )

  del_lem :
      (base : Db) (t : DbTx lmdb lmdb.RwTransaction) (x : Db) (i : DbMapId) (k : Data)
      → ReprRw base t x
      → i < length x
      → IsKey k
      → ((Transaction.del lmdb to_string from_raw_os_error last_os_error same_kind i k t).0 ≡ ok tt)
        × ReprRw base
            (Transaction.del lmdb to_string from_raw_os_error last_os_error same_kind i k t).1
            (db_del i k x)
  unfolding Transaction.del written process_with_unit schedule_map_resize_if_map_full
  del_lem base t x i k r h key =
      let (m, e) = get_elem?-of_lt x i h in
      let (db, at, shown) = Shows-get r.contents t.backend.dbs x i m r.shows e in
      rw (Transaction.del, at) (deleted m db e at shown (BTreeMap.get k m) refl)
    where
      deleted :
          (m : Map) (db : lmdb.Database)
          → get_elem? x i ≡ some m
          → get_elem? t.backend.dbs i ≡ some db
          → r.contents db ≡ some m
          → (o : Option Data) → BTreeMap.get k m ≡ o
          → ((written lmdb to_string from_raw_os_error last_os_error same_kind
                (lmdb.del db k t.tx)
                t.backend).0
              ≡ ok tt)
            × ReprRw base
                (written lmdb to_string from_raw_os_error last_os_error same_kind
                  (lmdb.del db k t.tx)
                  t.backend).1
                (db_del i k x)
      deleted m db e at shown (some v) o =
          let (c, worked, seen, ch) = laws.del_found t.tx r.contents db m k v r.seen shown key o in
          rw (written, worked)
            (
              refl,
              changed base t x i m db (BTreeMap.remove k) (lmdb.del db k t.tx).1 c r e at seen ch,
            )
      deleted m db e at shown none o =
          let (absent, seen) = laws.del_missing t.tx r.contents db m k r.seen shown key o in
          let same : Changed db (BTreeMap.remove k m) r.contents r.contents = record {
            this = rw (remove-of_none k m o) shown;
            others = λ n' _. refl;
          } in
          rw (written, absent)
            (
              refl,
              changed base t x i m db (BTreeMap.remove k) (lmdb.del db k t.tx).1 r.contents r e at
                  seen same,
            )

  -- the resize that is scheduled, or none
  resized :
      (s : LmdbImpl lmdb) (x : Db)
      → Repr lmdb laws s x
      → ((resize_if_resize_scheduled lmdb s).0 ≡ ok tt)
        × Repr lmdb laws (resize_if_resize_scheduled lmdb s).1 x
  unfolding resize_if_resize_scheduled
  resized s x r = elim (Bool-cases s.map_resize_scheduled) [
    | inl y ↦
        let (worked, stored) = laws.do_resize_lem s.env r.contents r.stored in
        rw (resize_if_resize_scheduled, y, worked)
          (refl, record { contents = r.contents; stored = stored; shows = r.shows })
    | inr n ↦
        rw (resize_if_resize_scheduled, n)
          (refl, record { contents = r.contents; stored = r.stored; shows = r.shows })
  ]

  rw_lem :
      (size : Option ℕ) (s : LmdbImpl lmdb) (x : Db)
      → Repr lmdb laws s x
      → (t : DbTx lmdb lmdb.RwTransaction) × ((transaction_rw lmdb to_string from_raw_os_error
            last_os_error same_kind size s).0
          ≡ ok t)
        × ReprRw x t x
  unfolding transaction_rw
  rw_lem size s x r =
      let (worked, r') = resized s x r in
      let s' = (resize_if_resize_scheduled lmdb s).1 in
      rw (transaction_rw, worked)
        (started lmdb to_string from_raw_os_error last_os_error same_kind IsKey laws lmdb.rw
          laws.SeesRw laws.rw_laws (lmdb.begin_rw_txn size) s' x r'
          (laws.begin_rw_lem size s'.env r'.contents r'.stored))

  commit_lem :
      (t : DbTx lmdb lmdb.RwTransaction) (base x : Db)
      → ReprRw base t x
      → ((commit lmdb to_string from_raw_os_error last_os_error same_kind t).0 ≡ ok tt)
        × Repr lmdb laws (commit lmdb to_string from_raw_os_error last_os_error same_kind t).1 x
  unfolding commit committed
  commit_lem t base x r =
      let (worked, stored) =
        laws.commit_lem t.tx t.backend.env r.before.contents r.contents r.before.stored r.seen in
      rw (commit, worked) (refl, record { contents = r.contents; stored = stored; shows = r.shows })

  module _ (create_db : lmdb.Environment → Str → LmdbResult lmdb.Database) {Passed : Type 0}
      (create_dir_all : Str → Option IoError)
      (open_env : Option ℕ → ℕ → Passed → Str → LmdbResult lmdb.Environment)
      (settings : LmdbSettings Passed) where
    abbrev Opened : Backend
    Opened =
        lmdb_backend lmdb to_string from_raw_os_error last_os_error same_kind create_db
          create_dir_all open_env settings

    lmdb-laws : KeyedLaws IsKey Opened
    unfolding transaction_ro start_transaction
    lmdb-laws = record {
      Repr = Repr lmdb laws;
      ReprRo = λ t x. ReprTx lmdb laws laws.SeesRo x t x;
      ReprRw = ReprRw;
      ro_reads = record {
        get_lem = λ t x.
            get_lem lmdb to_string from_raw_os_error last_os_error same_kind IsKey laws lmdb.ro
              laws.SeesRo laws.ro_laws x t x;
        prefix_iter_lem = λ t x.
            iter_lem lmdb to_string from_raw_os_error last_os_error same_kind IsKey laws lmdb.ro
              laws.SeesRo laws.ro_laws x t x;
      };
      rw_reads = λ base. record {
        get_lem =
            get_lem lmdb to_string from_raw_os_error last_os_error same_kind IsKey laws lmdb.rw
              laws.SeesRw laws.rw_laws base;
        prefix_iter_lem =
            iter_lem lmdb to_string from_raw_os_error last_os_error same_kind IsKey laws lmdb.rw
              laws.SeesRw laws.rw_laws base;
      };
      rw_writes = λ base. record { put_lem = put_lem base; del_lem = del_lem base };
      ro_lem = λ s x r.
          started lmdb to_string from_raw_os_error last_os_error same_kind IsKey laws lmdb.ro
            laws.SeesRo laws.ro_laws lmdb.begin_ro_txn s x r
            (laws.begin_ro_lem s.env r.contents r.stored);
      rw_lem = rw_lem;
      drop_ro_lem = λ t x r. r.before;
      drop_rw_lem = λ t base x r. r.before;
      commit_lem = commit_lem;
    }

    -- The sessions of a client of the LMDB backend are answered as the specification says, from a state whose databases are
    -- distinct and hold the maps of `x`: where LMDB works as documented and no call fails but for a key that is not there,
    -- the client names map ids that there are, and its keys are among those that LMDB takes. A resize may be scheduled.
    pub lmdb_refines :
        (sessions : List Session) (s : LmdbImpl lmdb) (x : Db) (c : Contents lmdb)
        → laws.Stores s.env c
        → Shows c s.dbs x
        → All (SessionIn (length x)) sessions
        → All (SessionKeys IsKey) sessions
        → (run_sessions Opened sessions s).0 ≡ spec_sessions sessions x
    unfolding lmdb-laws
    lmdb_refines sessions s x c stored shows h keys =
        run_sessions-keyed Opened lmdb-laws (length x) sessions s x
          (record { contents = c; stored = stored; shows = shows }) refl h keys

-- ===== src/Lmdb/Reads.antt =====
-- The states that stand for a database, and the reads of a transaction over an LMDB that works as documented.
use rpi4_usb_io_breaker.Base.{ℕ, Bool, Option, none, some, [], ◌∷◌, get_elem?, arith, ◌≡◌, refl}
use rpi4_usb_io_breaker.Base.Ord.{list_ord}
use rpi4_usb_io_breaker.BTreeMap
use rpi4_usb_io_breaker.BTreeMap.{range_from}
use rpi4_usb_io_breaker.Core.Data.{Data}
use rpi4_usb_io_breaker.Core.Error.{Str, ErrorKind, ok}
use rpi4_usb_io_breaker.Core.Types.{DbMapId}
use rpi4_usb_io_breaker.Core.Util.Collect.{with_prefix}
use rpi4_usb_io_breaker.Core.Contract.{Map, Db}
use rpi4_usb_io_breaker.Core.Contract.Shown.{Shows, Shows-get}
use rpi4_usb_io_breaker.Lmdb.Errors.{LmdbError, IoError, process_with_none}
use rpi4_usb_io_breaker.Lmdb.Transaction
use rpi4_usb_io_breaker.Lmdb.Transaction.{
  LmdbResult, success, failure, Reader, Lmdb, LmdbImpl, DbTx, items, written, committed,
  start_transaction, transaction_ro, transaction_rw, commit, resize_if_resize_scheduled,
  schedule_map_resize_if_map_full,
}
use rpi4_usb_io_breaker.Lmdb.Laws.{Contents, ReaderLaws, EnvironmentLaws}
use rpi4_usb_io_breaker.Lmdb.Iter.{items-range_from, items-nil}

module _ (lmdb : Lmdb) {IsKey : Data → Type 0} (laws : EnvironmentLaws lmdb IsKey) where
  -- whether a resize is scheduled does not matter
  pub record Repr (s : LmdbImpl lmdb) (x : Db) : Type 0 where
    pub contents : Contents lmdb
    pub stored : laws.Stores s.env contents
    pub shows : Shows contents s.dbs x

  -- a transaction that sees a database, over an environment that stores `base`
  pub record ReprTx {Tx : Type 0} (Sees : Tx → Contents lmdb → Type 0) (base : Db)
      (t : DbTx lmdb Tx) (x : Db) : Type 0 where
    pub before : Repr t.backend base
    pub contents : Contents lmdb
    pub seen : Sees t.tx contents
    pub shows : Shows contents t.backend.dbs x

module _ (lmdb : Lmdb) (to_string : LmdbError → Str) (from_raw_os_error : ℕ → IoError)
    (last_os_error : IoError) (same_kind : ErrorKind → ErrorKind → Bool) (IsKey : Data → Type 0)
    (laws : EnvironmentLaws lmdb IsKey) where
  module _ {Tx : Type 0} (reader : Reader Tx lmdb.Database) (Sees : Tx → Contents lmdb → Type 0)
      (reads : ReaderLaws lmdb IsKey reader Sees) where
    pub get_lem :
        (base : Db) (t : DbTx lmdb Tx) (x : Db) (i : DbMapId) (m : Map) (k : Data)
        → ReprTx lmdb laws Sees base t x
        → get_elem? x i ≡ some m
        → IsKey k
        → Transaction.get lmdb to_string from_raw_os_error last_os_error same_kind reader t i k
          ≡ ok (BTreeMap.get k m)
    unfolding Transaction.get process_with_none
    get_lem base t x i m k r e key =
        let (db, at, shown) = Shows-get r.contents t.backend.dbs x i m r.shows e in
        rw (Transaction.get, at) (found db shown (BTreeMap.get k m) refl)
      where
        found :
            (db : lmdb.Database)
            → r.contents db ≡ some m
            → (o : Option Data) → BTreeMap.get k m ≡ o
            → (elim (reader.get t.tx db k) [
              | success v ↦ ok (some v)
              | failure e ↦ process_with_none to_string from_raw_os_error last_os_error same_kind e
            ])
              ≡ ok (BTreeMap.get k m)
        found db shown none o =
            rw (reads.get_missing t.tx r.contents db m k r.seen shown key o, o) refl
        found db shown (some v) o =
            rw (reads.get_found t.tx r.contents db m k v r.seen shown key o, o) refl

    pub iter_lem :
        (base : Db) (t : DbTx lmdb Tx) (x : Db) (i : DbMapId) (m : Map) (p : Data)
        → ReprTx lmdb laws Sees base t x
        → get_elem? x i ≡ some m
        → Transaction.prefix_iter lmdb to_string from_raw_os_error last_os_error same_kind reader t
            i p
          ≡ ok (with_prefix p m)
    unfolding Transaction.prefix_iter
    iter_lem base t x i m [] r e =
        let (db, at, shown) = Shows-get r.contents t.backend.dbs x i m r.shows e in
        let (cursor, opened, start, from) = reads.cursor_lem t.tx r.contents db m r.seen shown in
        rw (Transaction.prefix_iter, at, opened, start) (items-nil m)
    iter_lem base t x i m (b ∷ p) r e =
        let (db, at, shown) = Shows-get r.contents t.backend.dbs x i m r.shows e in
        let (cursor, opened, start, from) = reads.cursor_lem t.tx r.contents db m r.seen shown in
        let sorted = reads.ascending t.tx r.contents db m r.seen shown in
        rw (Transaction.prefix_iter, at, opened, from (b ∷ p) (ground arith))
          (items-range_from (b ∷ p) m sorted)

    pub started :
        (begin_tx : lmdb.Environment → LmdbResult Tx) (s : LmdbImpl lmdb) (x : Db)
        (r : Repr lmdb laws s x)
        → ((tx : Tx) × (begin_tx s.env ≡ success tx) × Sees tx r.contents)
        → (t : DbTx lmdb Tx) × (start_transaction lmdb to_string from_raw_os_error last_os_error
              same_kind begin_tx s
            ≡ ok t)
          × ReprTx lmdb laws Sees x t x
    unfolding start_transaction
    started begin_tx s x r (tx, e, seen) = (
      record { tx = tx; backend = s },
      rw (start_transaction, e) refl,
      record { before = r; contents = r.contents; seen = seen; shows = r.shows },
    )

-- ===== src/Lmdb/Transaction.antt =====
-- storage/lmdb/src/lib.rs: transactions, and the resize of the map that a full map schedules. The crate lmdb is a
-- parameter. A transaction holds the backend that it borrows; what another thread does meanwhile is not modelled.
use rpi4_usb_io_breaker.Base.{
  ℕ, Bool, true, false, Option, none, some, List, [], ◌∷◌, get_elem?, if◌then◌else◌,
}
use rpi4_usb_io_breaker.Core.Data.{Data, starts_with}
use rpi4_usb_io_breaker.Core.Error.{Str, ErrorKind, Result, ok, err, panicked, ◌>>=◌}
use rpi4_usb_io_breaker.Core.Exec.{Exec}
use rpi4_usb_io_breaker.Core.Types.{DbMapId, DbMapsData}
use rpi4_usb_io_breaker.Lmdb.Errors.{
  LmdbError, key_exist, missing, page_not_found, corrupted, panic, version_mismatch, invalid,
  map_full, dbs_full, readers_full, tls_full, txn_full, cursor_full, page_full, map_resized,
  incompatible, bad_rslot, bad_txn, bad_val_size, bad_dbi, other, IoError, process_with_unit,
  process_with_none, process_with_err,
}

pub data LmdbResult (A : Type 0) : Type 0 where
  success : A → LmdbResult A
  failure : LmdbError → LmdbResult A

-- what the code uses of a transaction of either kind; an iterator yields items that may fail
pub record Reader (Tx Database : Type 0) : Type 1 where
  pub Cursor : Type 0
  pub get : Tx → Database → Data → LmdbResult Data
  pub open_ro_cursor : Tx → Database → LmdbResult Cursor
  pub into_iter_start : Cursor → List (LmdbResult (Data × Data))
  pub into_iter_from : Cursor → Data → List (LmdbResult (Data × Data))

pub record Lmdb : Type 1 where
  pub Environment : Type 0
  pub Database : Type 0
  pub RoTransaction : Type 0
  pub RwTransaction : Type 0
  pub ro : Reader RoTransaction Database
  pub rw : Reader RwTransaction Database
  pub begin_ro_txn : Environment → LmdbResult RoTransaction
  pub begin_rw_txn : Option ℕ → Environment → LmdbResult RwTransaction
  pub put : Database → Data → Data → RwTransaction → LmdbResult (Unit {0}) × RwTransaction
  pub del : Database → Data → RwTransaction → LmdbResult (Unit {0}) × RwTransaction
  pub commit : RwTransaction → Environment → LmdbResult (Unit {0}) × Environment
  pub do_resize : Environment → LmdbResult (Unit {0}) × Environment

-- `err == lmdb::Error::MapFull`
abbrev pub is_map_full : LmdbError → Bool
is_map_full map_full = true
is_map_full key_exist = false
is_map_full missing = false
is_map_full page_not_found = false
is_map_full corrupted = false
is_map_full panic = false
is_map_full version_mismatch = false
is_map_full invalid = false
is_map_full dbs_full = false
is_map_full readers_full = false
is_map_full tls_full = false
is_map_full txn_full = false
is_map_full cursor_full = false
is_map_full page_full = false
is_map_full map_resized = false
is_map_full incompatible = false
is_map_full bad_rslot = false
is_map_full bad_txn = false
is_map_full bad_val_size = false
is_map_full bad_dbi = false
is_map_full (other n) = false

-- the items that `PrefixIter::next` yields until it ends: an error of the environment panics
unfoldable pub items : Data → List (LmdbResult (Data × Data)) → Result (List (Data × Data))
items prefix [] = ok []
items prefix (failure e ∷ l) = panicked
items prefix (success (k, v) ∷ l) =
    let rest = items prefix l in
    if starts_with k prefix then (rest >>= λ kv. ok ((k, v) ∷ kv)) else ok []

abbrev is_empty : Data → Bool
is_empty [] = true
is_empty (b ∷ k) = false

module _ (lmdb : Lmdb) where
  pub record LmdbImpl : Type 0 where
    pub env : lmdb.Environment
    pub dbs : DbMapsData lmdb.Database
    pub map_resize_scheduled : Bool

  pub record DbTx (Tx : Type 0) : Type 0 where
    pub tx : Tx
    pub backend : LmdbImpl

  abbrev pub schedule_map_resize : LmdbImpl → LmdbImpl
  schedule_map_resize b = record b { map_resize_scheduled = true }

  abbrev pub unschedule_map_resize : LmdbImpl → LmdbImpl
  unschedule_map_resize b = record b { map_resize_scheduled = false }

  -- `do_resize(None).expect(..)`
  abbrev resize : Exec LmdbImpl (Unit {0})
  resize b =
      let (r, env) = lmdb.do_resize b.env in
      (elim r [ success _ ↦ ok tt | failure e ↦ panicked ], record b { env = env })

  -- the flag is tested and cleared at once
  unfoldable pub resize_if_resize_scheduled : Exec LmdbImpl (Unit {0})
  resize_if_resize_scheduled b =
      if b.map_resize_scheduled then resize (unschedule_map_resize b) else (ok tt, b)

  -- after the resize the flag is cleared, unless that panics
  abbrev unscheduled : Result (Unit {0}) × LmdbImpl → Result (Unit {0}) × LmdbImpl
  unscheduled (ok u, b) = (ok u, unschedule_map_resize b)
  unscheduled (err e, b) = (err e, b)
  unscheduled (panicked, b) = (panicked, b)

  unfoldable pub resize_if_map_full : LmdbError → Exec LmdbImpl (Unit {0})
  resize_if_map_full e b = if is_map_full e then unscheduled (resize b) else (ok tt, b)

  unfoldable pub schedule_map_resize_if_map_full : LmdbError → LmdbImpl → LmdbImpl
  schedule_map_resize_if_map_full e b = if is_map_full e then schedule_map_resize b else b

  module _ (to_string : LmdbError → Str) (from_raw_os_error : ℕ → IoError) (last_os_error : IoError)
      (same_kind : ErrorKind → ErrorKind → Bool) where
    unfoldable pub get :
        {Tx : Type 0} → Reader Tx lmdb.Database → DbTx Tx → DbMapId → Data → Result (Option Data)
    get reader t i key = elim (get_elem? t.backend.dbs i) [
      | none ↦ panicked
      | some db ↦ elim (reader.get t.tx db key) [
        | success v ↦ ok (some v)
        | failure e ↦ process_with_none to_string from_raw_os_error last_os_error same_kind e
      ]
    ]

    unfoldable pub prefix_iter :
        {Tx : Type 0}
        → Reader Tx lmdb.Database
        → DbTx Tx
        → DbMapId
        → Data
        → Result (List (Data × Data))
    prefix_iter reader t i prefix = elim (get_elem? t.backend.dbs i) [
      | none ↦ panicked
      | some db ↦ elim (reader.open_ro_cursor t.tx db) [
        | failure e ↦ process_with_err to_string from_raw_os_error last_os_error same_kind e
        | success cursor ↦ items prefix (
            if is_empty prefix
            then reader.into_iter_start cursor
            else reader.into_iter_from cursor prefix)
      ]
    ]

    -- the outcome of a write: an error may schedule a resize, and is then processed
    unfoldable pub written :
        LmdbResult (Unit {0}) × lmdb.RwTransaction
        → LmdbImpl
        → Result (Unit {0}) × DbTx lmdb.RwTransaction
    written (success _, tx) b = (ok tt, record { tx = tx; backend = b })
    written (failure e, tx) b = (
      process_with_unit to_string from_raw_os_error last_os_error same_kind e,
      record { tx = tx; backend = schedule_map_resize_if_map_full e b },
    )

    unfoldable pub put : DbMapId → Data → Data → Exec (DbTx lmdb.RwTransaction) (Unit {0})
    put i key val t = elim (get_elem? t.backend.dbs i) [
      | none ↦ (panicked, t)
      | some db ↦ written (lmdb.put db key val t.tx) t.backend
    ]

    unfoldable pub del : DbMapId → Data → Exec (DbTx lmdb.RwTransaction) (Unit {0})
    del i key t = elim (get_elem? t.backend.dbs i) [
      | none ↦ (panicked, t)
      | some db ↦ written (lmdb.del db key t.tx) t.backend
    ]

    -- the outcome of a commit: a full map is resized at once, and the error is processed all the same
    unfoldable pub committed : LmdbResult (Unit {0}) → Exec LmdbImpl (Unit {0})
    committed (success _) b = (ok tt, b)
    committed (failure e) b =
        let (r, b') = resize_if_map_full e b in
        (r >>= (λ _. process_with_unit to_string from_raw_os_error last_os_error same_kind e), b')

    unfoldable pub commit : DbTx lmdb.RwTransaction → Result (Unit {0}) × LmdbImpl
    commit t =
        let (r, env) = lmdb.commit t.tx t.backend.env in
        committed r (record {
          env = env;
          dbs = t.backend.dbs;
          map_resize_scheduled = t.backend.map_resize_scheduled;
        })

    unfoldable pub start_transaction :
        {Tx : Type 0} → (lmdb.Environment → LmdbResult Tx) → LmdbImpl → Result (DbTx Tx)
    start_transaction start_tx b = elim (start_tx b.env) [
      | success tx ↦ ok (record { tx = tx; backend = b })
      | failure e ↦ process_with_err to_string from_raw_os_error last_os_error same_kind e
    ]

    unfoldable pub transaction_ro : LmdbImpl → Result (DbTx lmdb.RoTransaction)
    transaction_ro b = start_transaction lmdb.begin_ro_txn b

    -- the backend comes back too, since the flag and the map change where the start fails as well
    unfoldable pub transaction_rw :
        Option ℕ → LmdbImpl → Result (DbTx lmdb.RwTransaction) × LmdbImpl
    transaction_rw size b =
        let (r, b') = resize_if_resize_scheduled b in
        (r >>= (λ _. start_transaction (lmdb.begin_rw_txn size) b'), b')

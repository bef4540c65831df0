-- ===== src/Lmdb/Resize.antt =====
-- When the map of the environment is resized.
use rpi4_usb_io_breaker.Base.{
  ℕ, Bool, true, false, ◌||◌, Option, some, get_elem?, ◌≡◌, refl, inl, inr, Bool-cases, ◌⊎◌,
  if◌then◌else◌,
}
use rpi4_usb_io_breaker.Core.Data.{Data}
use rpi4_usb_io_breaker.Core.Error.{Str, ErrorKind, Result, err, fatal_error, internal_error}
use rpi4_usb_io_breaker.Core.Types.{DbMapId}
use rpi4_usb_io_breaker.Lmdb.Errors.{LmdbError, map_full, IoError, process_with_unit}
use rpi4_usb_io_breaker.Lmdb.Transaction
use rpi4_usb_io_breaker.Lmdb.Transaction.{
  LmdbResult, success, failure, Lmdb, LmdbImpl, DbTx, is_map_full, written, committed,
  resize_if_resize_scheduled, resize_if_map_full, schedule_map_resize_if_map_full,
  start_transaction, transaction_rw,
}

abbrev pub is_full : {A : Type 0} → LmdbResult A → Bool
is_full (success a) = false
is_full (failure e) = is_map_full e

module _ (lmdb : Lmdb) (to_string : LmdbError → Str) (from_raw_os_error : ℕ → IoError)
    (last_os_error : IoError) (same_kind : ErrorKind → ErrorKind → Bool) where
  abbrev Put :
      DbMapId
      → Data
      → Data
      → DbTx lmdb lmdb.RwTransaction
      → Result (Unit {0}) × DbTx lmdb lmdb.RwTransaction
  Put = Transaction.put lmdb to_string from_raw_os_error last_os_error same_kind

  abbrev Del :
      DbMapId
      → Data
      → DbTx lmdb lmdb.RwTransaction
      → Result (Unit {0}) × DbTx lmdb lmdb.RwTransaction
  Del = Transaction.del lmdb to_string from_raw_os_error last_os_error same_kind

  abbrev Commit : DbTx lmdb lmdb.RwTransaction → Result (Unit {0}) × LmdbImpl lmdb
  Commit = Transaction.commit lmdb to_string from_raw_os_error last_os_error same_kind

  abbrev Start : Option ℕ → LmdbImpl lmdb → Result (DbTx lmdb lmdb.RwTransaction) × LmdbImpl lmdb
  Start = transaction_rw lmdb to_string from_raw_os_error last_os_error same_kind

  -- whether a commit resizes: the map is full, and the resize succeeds
  abbrev resizes : LmdbResult (Unit {0}) → LmdbResult (Unit {0}) → Bool
  resizes (success u) r = false
  resizes (failure e) (success u) = is_map_full e
  resizes (failure e) (failure e') = false

  -- The calls that reach the flag, with what is owed: a resize, from a write that found the map full to the next
  -- start of a read-write transaction, or to a commit that resizes.
  pub data Step (b : LmdbImpl lmdb) (owed : Bool) : LmdbImpl lmdb → Bool → Type 0 where
    put :
        (t : DbTx lmdb lmdb.RwTransaction) (i : DbMapId) (k v : Data) (db : lmdb.Database)
        → t.backend ≡ b
        → get_elem? b.dbs i ≡ some db
        → Step b owed (Put i k v t).1.backend (is_full (lmdb.put db k v t.tx).0 || owed)
    del :
        (t : DbTx lmdb lmdb.RwTransaction) (i : DbMapId) (k : Data) (db : lmdb.Database)
        → t.backend ≡ b
        → get_elem? b.dbs i ≡ some db
        → Step b owed (Del i k t).1.backend (is_full (lmdb.del db k t.tx).0 || owed)
    commit :
        (t : DbTx lmdb lmdb.RwTransaction)
        → t.backend ≡ b
        → Step b owed (Commit t).1 (
            if resizes (lmdb.commit t.tx b.env).0 (lmdb.do_resize (lmdb.commit t.tx b.env).1).0
            then false
            else owed)
    start : (size : Option ℕ) → Step b owed (Start size b).1 false

  pub data Reach (b : LmdbImpl lmdb) : LmdbImpl lmdb → Bool → Type 0 where
    here : Reach b b false
    next : {b1 b2 : LmdbImpl lmdb} {o1 o2 : Bool} → Reach b b1 o1 → Step b1 o1 b2 o2 → Reach b b2 o2

  written-scheduled :
      (x : LmdbResult (Unit {0}) × lmdb.RwTransaction) (b : LmdbImpl lmdb) (owed : Bool)
      → b.map_resize_scheduled ≡ owed
      → (written lmdb to_string from_raw_os_error last_os_error same_kind x
          b).1.backend.map_resize_scheduled
        ≡ (is_full x.0 || owed)
  unfolding written schedule_map_resize_if_map_full
  written-scheduled (success u, tx) b owed h = h
  written-scheduled (failure e, tx) b owed h = elim (Bool-cases (is_map_full e)) [
    | inl y ↦ rw y refl
    | inr n ↦ rw n h
  ]

  committed-scheduled :
      (r : LmdbResult (Unit {0})) (b : LmdbImpl lmdb) (owed : Bool)
      → b.map_resize_scheduled ≡ owed
      → (committed lmdb to_string from_raw_os_error last_os_error same_kind r
          b).1.map_resize_scheduled
        ≡ (if resizes r (lmdb.do_resize b.env).0 then false else owed)
  unfolding committed resize_if_map_full
  committed-scheduled (success u) b owed h = h
  committed-scheduled (failure e) b owed h =
      go (lmdb.do_resize b.env).0 refl (Bool-cases (is_map_full e))
    where
      go :
          (o : LmdbResult (Unit {0}))
          → (lmdb.do_resize b.env).0 ≡ o
          → (is_map_full e ≡ true) ⊎ (is_map_full e ≡ false)
          → (committed lmdb to_string from_raw_os_error last_os_error same_kind
              (failure e)
              b).1.map_resize_scheduled
            ≡ (if resizes (failure e) (lmdb.do_resize b.env).0 then false else owed)
      go (success u) r (inl y) = rw (y, r, y) refl
      go (failure x) r (inl y) = rw (y, r) h
      go (success u) r (inr n) = rw (n, r, n) h
      go (failure x) r (inr n) = rw (n, r) h

  started-scheduled :
      (size : Option ℕ) (b : LmdbImpl lmdb) → (Start size b).1.map_resize_scheduled ≡ false
  unfolding transaction_rw resize_if_resize_scheduled
  started-scheduled size b = elim (Bool-cases b.map_resize_scheduled) [
    | inl y ↦ rw y refl
    | inr n ↦ rw n refl
  ]

  Step-scheduled :
      {b b' : LmdbImpl lmdb} {owed owed' : Bool}
      → Step b owed b' owed'
      → b.map_resize_scheduled ≡ owed
      → b'.map_resize_scheduled ≡ owed'
  unfolding Transaction.put Transaction.del Transaction.commit
  Step-scheduled {b} {b'} {owed} (put t i k v db same found) h =
      let at : get_elem? t.backend.dbs i ≡ some db = rw same found in
      let held : t.backend.map_resize_scheduled ≡ owed = rw same h in
      rw (Transaction.put, at) (written-scheduled (lmdb.put db k v t.tx) t.backend owed held)
  Step-scheduled {b} {b'} {owed} (del t i k db same found) h =
      let at : get_elem? t.backend.dbs i ≡ some db = rw same found in
      let held : t.backend.map_resize_scheduled ≡ owed = rw same h in
      rw (Transaction.del, at) (written-scheduled (lmdb.del db k t.tx) t.backend owed held)
  Step-scheduled {b} {b'} {owed} (commit t same) h = rw same (
      committed-scheduled (lmdb.commit t.tx b.env).0
        (record {
          env = (lmdb.commit t.tx b.env).1;
          dbs = b.dbs;
          map_resize_scheduled = b.map_resize_scheduled;
        })
        owed h)
  Step-scheduled {b} (start size) h = started-scheduled size b

  -- In every sequence of writes, commits and starts of read-write transactions on a backend with no resize scheduled at
  -- first: a resize is scheduled exactly when a write has found the map full, and since then no read-write transaction
  -- was started and no commit has resized the map.
  pub Reach-scheduled :
      (b b' : LmdbImpl lmdb) (owed : Bool)
      → b.map_resize_scheduled ≡ false
      → Reach b b' owed
      → b'.map_resize_scheduled ≡ owed
  Reach-scheduled b b' owed h here = h
  Reach-scheduled b b' owed h (next r st) = Step-scheduled st (Reach-scheduled b _ _ h r)

  -- A put that finds the map full, on a map id that there is, returns a fatal error. If the resize succeeds, a
  -- read-write transaction that is started next starts on the resized environment, with no resize scheduled.
  pub put-map_full :
      (t : DbTx lmdb lmdb.RwTransaction) (i : DbMapId) (k v : Data) (db : lmdb.Database)
      (size : Option ℕ)
      → get_elem? t.backend.dbs i ≡ some db
      → (lmdb.put db k v t.tx).0 ≡ failure map_full
      → (lmdb.do_resize t.backend.env).0 ≡ success tt
      → ((Put i k v t).0 ≡ err (fatal_error (internal_error (to_string map_full))))
        × ((Start size (Put i k v t).1.backend).0
            ≡ start_transaction lmdb to_string from_raw_os_error last_os_error same_kind
                (lmdb.begin_rw_txn size)
                (record {
                  env = (lmdb.do_resize t.backend.env).1;
                  dbs = t.backend.dbs;
                  map_resize_scheduled = false;
                }))
  unfolding Transaction.put written schedule_map_resize_if_map_full transaction_rw
      resize_if_resize_scheduled process_with_unit
  put-map_full t i k v db size found full resized = (
    rw (Transaction.put, found, written, full) refl,
    rw (Transaction.put, found, written, full, resized) refl,
  )

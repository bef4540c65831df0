-- ===== src/Lmdb/Laws.antt =====
-- LMDB as documented, where no call fails but for a key that is not there: databases by their handles, with the keys in
-- ascending order. `IsKey` holds of the keys that it takes: it refuses the empty key, and keys above a maximal size.
use rpi4_usb_io_breaker.Base.{ℕ, Option, none, some, List, [], map, ◌≡◌, ◌≢◌}
use rpi4_usb_io_breaker.Base.Ord.{list_ord}
use rpi4_usb_io_breaker.BTreeMap
use rpi4_usb_io_breaker.BTreeMap.{range_from}
use rpi4_usb_io_breaker.BTreeMap.Sorted.{IsSorted}
use rpi4_usb_io_breaker.Core.Data.{Data}
use rpi4_usb_io_breaker.Core.Contract.{Map}
use rpi4_usb_io_breaker.Core.Contract.Shown.{Changed}
use rpi4_usb_io_breaker.Lmdb.Errors.{missing}
use rpi4_usb_io_breaker.Lmdb.Transaction.{LmdbResult, success, failure, Reader, Lmdb}

-- what an iterator yields for those entries
abbrev pub items_of : Map → List (LmdbResult (Data × Data))
items_of m = map (λ e. success e) m

abbrev pub Contents : Lmdb → Type 0
Contents lmdb = lmdb.Database → Option Map

-- the reads of a transaction that sees those contents; an iterator from a key starts at the first key not below it
pub record ReaderLaws (lmdb : Lmdb) (IsKey : Data → Type 0) {Tx : Type 0}
    (reader : Reader Tx lmdb.Database) (Sees : Tx → Contents lmdb → Type 0) : Type 0 where
  pub ascending :
      (tx : Tx) (c : Contents lmdb) (db : lmdb.Database) (m : Map)
      → Sees tx c
      → c db ≡ some m
      → IsSorted m
  pub get_found :
      (tx : Tx) (c : Contents lmdb) (db : lmdb.Database) (m : Map) (k v : Data)
      → Sees tx c
      → c db ≡ some m
      → IsKey k
      → BTreeMap.get k m ≡ some v
      → reader.get tx db k ≡ success v
  pub get_missing :
      (tx : Tx) (c : Contents lmdb) (db : lmdb.Database) (m : Map) (k : Data)
      → Sees tx c
      → c db ≡ some m
      → IsKey k
      → BTreeMap.get k m ≡ none
      → reader.get tx db k ≡ failure missing
  pub cursor_lem :
      (tx : Tx) (c : Contents lmdb) (db : lmdb.Database) (m : Map)
      → Sees tx c
      → c db ≡ some m
      → (cursor : reader.Cursor) × (reader.open_ro_cursor tx db ≡ success cursor)
        × (reader.into_iter_start cursor ≡ items_of m)
        × ((k : Data) → k ≢ [] → reader.into_iter_from cursor k ≡ items_of (range_from k m))

pub record EnvironmentLaws (lmdb : Lmdb) (IsKey : Data → Type 0) : Type 1 where
  pub Stores : lmdb.Environment → Contents lmdb → Type 0
  pub SeesRo : lmdb.RoTransaction → Contents lmdb → Type 0
  pub SeesRw : lmdb.RwTransaction → Contents lmdb → Type 0
  pub ro_laws : ReaderLaws lmdb IsKey lmdb.ro SeesRo
  pub rw_laws : ReaderLaws lmdb IsKey lmdb.rw SeesRw
  pub begin_ro_lem :
      (env : lmdb.Environment) (c : Contents lmdb)
      → Stores env c
      → (tx : lmdb.RoTransaction) × (lmdb.begin_ro_txn env ≡ success tx) × SeesRo tx c
  pub begin_rw_lem :
      (size : Option ℕ) (env : lmdb.Environment) (c : Contents lmdb)
      → Stores env c
      → (tx : lmdb.RwTransaction) × (lmdb.begin_rw_txn size env ≡ success tx) × SeesRw tx c
  pub put_lem :
      (tx : lmdb.RwTransaction) (c : Contents lmdb) (db : lmdb.Database) (m : Map) (k v : Data)
      → SeesRw tx c
      → c db ≡ some m
      → IsKey k
      → (c' : Contents lmdb) × ((lmdb.put db k v tx).0 ≡ success tt)
        × SeesRw (lmdb.put db k v tx).1 c'
        × Changed db (BTreeMap.insert k v m) c c'
  pub del_found :
      (tx : lmdb.RwTransaction) (c : Contents lmdb) (db : lmdb.Database) (m : Map) (k v : Data)
      → SeesRw tx c
      → c db ≡ some m
      → IsKey k
      → BTreeMap.get k m ≡ some v
      → (c' : Contents lmdb) × ((lmdb.del db k tx).0 ≡ success tt)
        × SeesRw (lmdb.del db k tx).1 c'
        × Changed db (BTreeMap.remove k m) c c'
  pub del_missing :
      (tx : lmdb.RwTransaction) (c : Contents lmdb) (db : lmdb.Database) (m : Map) (k : Data)
      → SeesRw tx c
      → c db ≡ some m
      → IsKey k
      → BTreeMap.get k m ≡ none
      → ((lmdb.del db k tx).0 ≡ failure missing) × SeesRw (lmdb.del db k tx).1 c
  pub commit_lem :
      (tx : lmdb.RwTransaction) (env : lmdb.Environment) (base c : Contents lmdb)
      → Stores env base
      → SeesRw tx c
      → ((lmdb.commit tx env).0 ≡ success tt) × Stores (lmdb.commit tx env).1 c
  pub do_resize_lem :
      (env : lmdb.Environment) (c : Contents lmdb)
      → Stores env c
      → ((lmdb.do_resize env).0 ≡ success tt) × Stores (lmdb.do_resize env).1 c

-- ===== src/TestSuite/Entries.antt =====
-- storage/backend-test-suite/src/property.rs: the tests on entries of several maps, each a key with its map id.
pub mod Reads
pub mod Steps
pub mod Passes
use rpi4_usb_io_breaker.Base.{Option, none, some, List, [], ◌∷◌, ◌++◌, map, keep, Bool, true, false}
use rpi4_usb_io_breaker.Base.Ord.{number_ord, list_ord, tuple_ord}
use rpi4_usb_io_breaker.BTreeMap
use rpi4_usb_io_breaker.BTreeMap.{BTreeMap}
use rpi4_usb_io_breaker.Core.Data.{Data}
use rpi4_usb_io_breaker.Core.Error.{Result, ok, ◌>>=◌, ◌>>◌}
use rpi4_usb_io_breaker.Core.Types.{DbMapId}
use rpi4_usb_io_breaker.Core.Backend.{ReadOps, Backend}
use rpi4_usb_io_breaker.TestSuite.Model.{unwrap, unwrap_exec}
use rpi4_usb_io_breaker.TestSuite.Harness.{open_store, assert_value}

abbrev pub Place : Type 0
Place = DbMapId × Data

-- the generated entries
abbrev pub Entries : Type 0
Entries = BTreeMap Place Data

-- reads of keys, each with the value that is expected
pub check_reads : {T : Type 0} → ReadOps T → T → List (Place × Option Data) → Result (Unit {0})
check_reads ops dbtx [] = ok tt
check_reads ops dbtx (((db, key), expected) ∷ checks) = do
  found ← unwrap (ops.get dbtx db key)
  assert_value found expected
  check_reads ops dbtx checks

abbrev pub present : List (Place × Data) → List (Place × Option Data)
present entries = map (λ e. (e.0, some e.1)) entries

abbrev pub absent : List (Place × Data) → List (Place × Option Data)
absent entries = map (λ e. (e.0, none)) entries

abbrev pub keys : List (Place × Data) → List Place
keys entries = map (λ e. e.0) entries

-- `entries2.get(ent).or_else(|| entries1.get(ent))`
abbrev pub or_else : Option Data → Option Data → Option Data
or_else (some v) other = some v
or_else none other = other

abbrev pub is_none : Option Data → Bool
is_none none = true
is_none (some v) = false

-- `entries.iter().filter(|e| !other.contains_key(e.0))`
abbrev pub without : Entries → Entries → List (Place × Data)
without other entries = keep (λ e. is_none (BTreeMap.get e.0 other)) entries

module _ (b : Backend) where
  pub put_entries : List (Place × Data) → b.TxRw → Result b.TxRw
  put_entries [] dbtx = ok dbtx
  put_entries (((db, key), val) ∷ entries) dbtx = do
    dbtx' ← unwrap_exec (b.write.put db key val dbtx)
    put_entries entries dbtx'

  pub del_entries : List (Place × Data) → b.TxRw → Result b.TxRw
  del_entries [] dbtx = ok dbtx
  del_entries (((db, key), val) ∷ entries) dbtx = do
    dbtx' ← unwrap_exec (b.write.del db key dbtx)
    del_entries entries dbtx'

  -- a read-only transaction with such reads, and a read-write transaction that is committed
  pub check_store : List (Place × Option Data) → b.Impl → Result b.Impl
  unfolding check_reads
  check_store checks store = do
    dbtx ← unwrap (b.transaction_ro store)
    check_reads b.ro dbtx checks
    ok (b.drop_ro dbtx)

  pub commit_puts : List (Place × Data) → b.Impl → Result b.Impl
  unfolding put_entries
  commit_puts entries store = do
    dbtx ← unwrap (b.transaction_rw none store)
    dbtx' ← put_entries entries dbtx
    unwrap_exec (b.commit dbtx')

  pub commit_dels : List (Place × Data) → b.Impl → Result b.Impl
  unfolding del_entries
  commit_dels entries store = do
    dbtx ← unwrap (b.transaction_rw none store)
    dbtx' ← del_entries entries dbtx
    unwrap_exec (b.commit dbtx')

  pub add_and_delete : Entries → Result (Unit {0})
  unfolding check_store commit_puts commit_dels
  add_and_delete entries = do
    store0 ← open_store b 5
    store1 ← commit_puts entries store0
    store2 ← check_store (present entries) store1
    store3 ← commit_dels entries store2
    store4 ← check_store (absent entries) store3
    ok tt

  pub add_and_delete_some : Entries → Entries → List Place → Result (Unit {0})
  unfolding check_reads check_store commit_puts commit_dels
  add_and_delete_some entries1 entries2 extra_keys = do
    let expected = λ (ent : Place). or_else (BTreeMap.get ent entries2) (BTreeMap.get ent entries1)
    let ents = (keys entries1 ++ keys entries2) ++ extra_keys
    store0 ← open_store b 5
    store1 ← commit_puts (entries1 ++ entries2) store0
    store2 ← check_store (map (λ (ent : Place). (ent, expected ent)) ents) store1
    store3 ← commit_dels entries2 store2
    dbtx ← unwrap (b.transaction_ro store3)
    check_reads b.ro dbtx (absent entries2)
    check_reads b.ro dbtx (present (without entries2 entries1))

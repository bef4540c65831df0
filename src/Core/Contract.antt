-- ===== src/Core/Contract.antt =====
-- What the storage promises, over the abstract database: one map of entries, with ascending keys, for each
-- map id. `CoreLaws` is for the operations without transactions, `BackendLaws` for a backend (the guidelines in
-- storage/core/src/lib.rs). A relation ties the states of an implementation to the database that they stand for.
pub mod Keyed
pub mod Modify
pub mod Shown
use rpi4_usb_io_breaker.Base.{
  ℕ, zero, suc, Option, some, List, [], ◌∷◌, get_elem?, All, length, replicate, ◌≡◌, ◌<◌,
}
use rpi4_usb_io_breaker.Base.Ord.{list_ord}
use rpi4_usb_io_breaker.BTreeMap
use rpi4_usb_io_breaker.BTreeMap.{BTreeMap}
use rpi4_usb_io_breaker.BTreeMap.Sorted.{IsSorted}
use rpi4_usb_io_breaker.Core.Data.{Data}
use rpi4_usb_io_breaker.Core.Error.{ok}
use rpi4_usb_io_breaker.Core.Types.{DbMapId, DbDesc, db_map_count}
use rpi4_usb_io_breaker.Core.Util.Collect.{with_prefix}
use rpi4_usb_io_breaker.Core.Backend.{ReadOps, WriteOps, CoreOps, Backend}

abbrev pub Map : Type 0
Map = BTreeMap Data Data

abbrev pub Db : Type 0
Db = List Map

abbrev pub IsSortedDb : Db → Type 0
IsSortedDb d = All IsSorted d

-- one map changed, the others as they were
abbrev pub modify : (Map → Map) → DbMapId → Db → Db
modify f i [] = []
modify f zero (m ∷ d) = f m ∷ d
modify f (suc i) (m ∷ d) = m ∷ modify f i d

abbrev pub db_put : DbMapId → Data → Data → Db → Db
db_put i k v d = modify (BTreeMap.insert k v) i d

abbrev pub db_del : DbMapId → Data → Db → Db
db_del i k d = modify (BTreeMap.remove k) i d

-- the database with every map empty
abbrev pub empty_db : DbDesc → Db
empty_db desc = replicate (db_map_count desc.map_descs) []

-- the reads of an object that stands for a database
pub record ReadLaws {T : Type 0} (ops : ReadOps T) (Repr : T → Db → Type 0) : Type 0 where
  pub get_lem :
      (t : T) (d : Db) (i : DbMapId) (m : Map) (k : Data)
      → Repr t d
      → get_elem? d i ≡ some m
      → ops.get t i k ≡ ok (BTreeMap.get k m)
  pub prefix_iter_lem :
      (t : T) (d : Db) (i : DbMapId) (m : Map) (p : Data)
      → Repr t d
      → get_elem? d i ≡ some m
      → ops.prefix_iter t i p ≡ ok (with_prefix p m)

-- the writes: they succeed on every map that there is
pub record WriteLaws {T : Type 0} (ops : WriteOps T) (Repr : T → Db → Type 0) : Type 0 where
  pub put_lem :
      (t : T) (d : Db) (i : DbMapId) (k v : Data)
      → Repr t d
      → i < length d
      → ((ops.put i k v t).0 ≡ ok tt) × Repr (ops.put i k v t).1 (db_put i k v d)
  pub del_lem :
      (t : T) (d : Db) (i : DbMapId) (k : Data)
      → Repr t d
      → i < length d
      → ((ops.del i k t).0 ≡ ok tt) × Repr (ops.del i k t).1 (db_del i k d)

pub record CoreLaws {From T : Type 0} (core : CoreOps From T) : Type 1 where
  pub Repr : T → Db → Type 0
  pub sorted : (t : T) (d : Db) → Repr t d → IsSortedDb d
  pub reads : ReadLaws core.read Repr
  pub writes : WriteLaws core.write Repr
  pub construct_lem :
      (init : From) (desc : DbDesc)
      → (t : T) × (core.construct init desc ≡ ok t) × Repr t (empty_db desc)

-- What a backend does once it is open. A read-write transaction stands for the database that it reads, and for
-- the one that a drop leaves.
pub record TransactionLaws (b : Backend) : Type 1 where
  pub Repr : b.Impl → Db → Type 0
  pub ReprRo : b.TxRo → Db → Type 0
  pub ReprRw : Db → b.TxRw → Db → Type 0
  pub ro_reads : ReadLaws b.ro ReprRo
  pub rw_reads : (base : Db) → ReadLaws b.rw (ReprRw base)
  pub rw_writes : (base : Db) → WriteLaws b.write (ReprRw base)
  pub ro_lem :
      (s : b.Impl) (d : Db) → Repr s d → (tx : b.TxRo) × (b.transaction_ro s ≡ ok tx) × ReprRo tx d
  pub rw_lem :
      (size : Option ℕ) (s : b.Impl) (d : Db)
      → Repr s d
      → (tx : b.TxRw) × (b.transaction_rw size s ≡ ok tx) × ReprRw d tx d
  pub drop_ro_lem : (tx : b.TxRo) (d : Db) → ReprRo tx d → Repr (b.drop_ro tx) d
  pub drop_rw_lem : (tx : b.TxRw) (base d : Db) → ReprRw base tx d → Repr (b.drop_rw tx) base
  pub commit_lem :
      (tx : b.TxRw) (base d : Db)
      → ReprRw base tx d
      → ((b.commit tx).0 ≡ ok tt) × Repr (b.commit tx).1 d

-- A read-write transaction stands for the database that it reads, and for the one that a drop leaves.
pub record BackendLaws (b : Backend) : Type 1 where
  pub Repr : b.Impl → Db → Type 0
  pub ReprRo : b.TxRo → Db → Type 0
  pub ReprRw : Db → b.TxRw → Db → Type 0
  pub sorted : (s : b.Impl) (d : Db) → Repr s d → IsSortedDb d
  pub ro_reads : ReadLaws b.ro ReprRo
  pub rw_reads : (base : Db) → ReadLaws b.rw (ReprRw base)
  pub rw_writes : (base : Db) → WriteLaws b.write (ReprRw base)
  pub open_lem : (desc : DbDesc) → (s : b.Impl) × (b.open_db desc ≡ ok s) × Repr s (empty_db desc)
  pub ro_lem :
      (s : b.Impl) (d : Db) → Repr s d → (tx : b.TxRo) × (b.transaction_ro s ≡ ok tx) × ReprRo tx d
  pub rw_lem :
      (size : Option ℕ) (s : b.Impl) (d : Db)
      → Repr s d
      → (tx : b.TxRw) × (b.transaction_rw size s ≡ ok tx) × ReprRw d tx d
  pub drop_ro_lem : (tx : b.TxRo) (d : Db) → ReprRo tx d → Repr (b.drop_ro tx) d
  pub drop_rw_lem : (tx : b.TxRw) (base d : Db) → ReprRw base tx d → Repr (b.drop_rw tx) base
  pub commit_lem :
      (tx : b.TxRw) (base d : Db)
      → ReprRw base tx d
      → ((b.commit tx).0 ≡ ok tt) × Repr (b.commit tx).1 d

-- the part of the contract about transactions
abbrev pub transactions : {b : Backend} → BackendLaws b → TransactionLaws b
transactions laws = record {
  Repr = laws.Repr;
  ReprRo = laws.ReprRo;
  ReprRw = laws.ReprRw;
  ro_reads = laws.ro_reads;
  rw_reads = laws.rw_reads;
  rw_writes = laws.rw_writes;
  ro_lem = laws.ro_lem;
  rw_lem = laws.rw_lem;
  drop_ro_lem = laws.drop_ro_lem;
  drop_rw_lem = laws.drop_rw_lem;
  commit_lem = laws.commit_lem;
}

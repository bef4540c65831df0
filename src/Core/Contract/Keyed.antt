-- ===== src/Core/Contract/Keyed.antt =====
-- The contract about transactions for a backend that takes only some keys, as LMDB does.
use rpi4_usb_io_breaker.Base.{ℕ, Option, some, get_elem?, length, ◌≡◌, ◌<◌}
use rpi4_usb_io_breaker.Base.Ord.{list_ord}
use rpi4_usb_io_breaker.BTreeMap
use rpi4_usb_io_breaker.Core.Data.{Data}
use rpi4_usb_io_breaker.Core.Error.{ok}
use rpi4_usb_io_breaker.Core.Types.{DbMapId}
use rpi4_usb_io_breaker.Core.Util.Collect.{with_prefix}
use rpi4_usb_io_breaker.Core.Backend.{ReadOps, WriteOps, Backend}
use rpi4_usb_io_breaker.Core.Contract.{Map, Db, db_put, db_del, TransactionLaws}

module _ (IsKey : Data → Type 0) where
  pub record KeyedReads {T : Type 0} (ops : ReadOps T) (Repr : T → Db → Type 0) : Type 0 where
    pub get_lem :
        (t : T) (d : Db) (i : DbMapId) (m : Map) (k : Data)
        → Repr t d
        → get_elem? d i ≡ some m
        → IsKey k
        → ops.get t i k ≡ ok (BTreeMap.get k m)
    pub prefix_iter_lem :
        (t : T) (d : Db) (i : DbMapId) (m : Map) (p : Data)
        → Repr t d
        → get_elem? d i ≡ some m
        → ops.prefix_iter t i p ≡ ok (with_prefix p m)

  pub record KeyedWrites {T : Type 0} (ops : WriteOps T) (Repr : T → Db → Type 0) : Type 0 where
    pub put_lem :
        (t : T) (d : Db) (i : DbMapId) (k v : Data)
        → Repr t d
        → i < length d
        → IsKey k
        → ((ops.put i k v t).0 ≡ ok tt) × Repr (ops.put i k v t).1 (db_put i k v d)
    pub del_lem :
        (t : T) (d : Db) (i : DbMapId) (k : Data)
        → Repr t d
        → i < length d
        → IsKey k
        → ((ops.del i k t).0 ≡ ok tt) × Repr (ops.del i k t).1 (db_del i k d)

  pub record KeyedLaws (b : Backend) : Type 1 where
    pub Repr : b.Impl → Db → Type 0
    pub ReprRo : b.TxRo → Db → Type 0
    pub ReprRw : Db → b.TxRw → Db → Type 0
    pub ro_reads : KeyedReads b.ro ReprRo
    pub rw_reads : (base : Db) → KeyedReads b.rw (ReprRw base)
    pub rw_writes : (base : Db) → KeyedWrites b.write (ReprRw base)
    pub ro_lem :
        (s : b.Impl) (d : Db)
        → Repr s d
        → (tx : b.TxRo) × (b.transaction_ro s ≡ ok tx) × ReprRo tx d
    pub rw_lem :
        (size : Option ℕ) (s : b.Impl) (d : Db)
        → Repr s d
        → (tx : b.TxRw) × (b.transaction_rw size s ≡ ok tx) × ReprRw d tx d
    pub drop_ro_lem : (tx : b.TxRo) (d : Db) → ReprRo tx d → Repr (b.drop_ro tx) d
    pub drop_rw_lem : (tx : b.TxRw) (base d : Db) → ReprRw base tx d → Repr (b.drop_rw tx) base
    pub commit_lem :
        (tx : b.TxRw) (base d : Db)
        → ReprRw base tx d
        → ((b.commit tx).0 ≡ ok tt) × Repr (b.commit tx).1 d

abbrev pub AnyKey : Data → Type 0
AnyKey k = Unit

-- the contract for every key
abbrev pub keyed : {b : Backend} → TransactionLaws b → KeyedLaws AnyKey b
keyed laws = record {
  Repr = laws.Repr;
  ReprRo = laws.ReprRo;
  ReprRw = laws.ReprRw;
  ro_reads = record {
    get_lem = λ t d i m k r e _. laws.ro_reads.get_lem t d i m k r e;
    prefix_iter_lem = laws.ro_reads.prefix_iter_lem;
  };
  rw_reads = λ base. record {
    get_lem = λ t d i m k r e _. (laws.rw_reads base).get_lem t d i m k r e;
    prefix_iter_lem = (laws.rw_reads base).prefix_iter_lem;
  };
  rw_writes = λ base. record {
    put_lem = λ t d i k v r h _. (laws.rw_writes base).put_lem t d i k v r h;
    del_lem = λ t d i k r h _. (laws.rw_writes base).del_lem t d i k r h;
  };
  ro_lem = laws.ro_lem;
  rw_lem = laws.rw_lem;
  drop_ro_lem = laws.drop_ro_lem;
  drop_rw_lem = laws.drop_rw_lem;
  commit_lem = laws.commit_lem;
}

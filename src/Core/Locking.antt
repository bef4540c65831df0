-- ===== src/Core/Locking.antt =====
-- storage/core/src/adaptor/locking: transactions over a storage that has none. A read-write transaction
-- holds the storage behind the write lock, and collects its changes in one delta map per key-value map; a commit writes
-- them to the storage, a drop forgets them. `merge_join_by` is a function of the crate itertools, and a parameter.
pub mod Overlay
pub mod MergeJoin
pub mod Commit
pub mod Adaptor
pub mod Refines
pub mod Threads
use rpi4_usb_io_breaker.Base.{ℕ, Option, none, some, List, [], ◌∷◌, get_elem?, set, Ordering}
use rpi4_usb_io_breaker.Base.Ord.{list_ord, lex}
use rpi4_usb_io_breaker.BTreeMap
use rpi4_usb_io_breaker.BTreeMap.{BTreeMap}
use rpi4_usb_io_breaker.Core.Data.{Data}
use rpi4_usb_io_breaker.Core.Error.{Result, ok, err, panicked}
use rpi4_usb_io_breaker.Core.Exec.{Exec, ◌>>=◌, ◌>>◌}
use rpi4_usb_io_breaker.Core.Types.{DbMapId, DbMapCount, DbMapsData, DbDesc, into_iter_with_id, new}
use rpi4_usb_io_breaker.Core.Types
use rpi4_usb_io_breaker.Core.Util
use rpi4_usb_io_breaker.Core.Backend.{ReadOps, WriteOps, CoreOps, Backend}

-- `None` is a deletion
abbrev pub DeltaMap : Type 0
DeltaMap = BTreeMap Data (Option Data)

-- `itertools::EitherOrBoth`, as prefix_iter_rw.rs matches on it
pub data EitherOrBoth (A B : Type 0) : Type 0 where
  left : A → EitherOrBoth A B
  right : B → EitherOrBoth A B
  both : A → B → EitherOrBoth A B

abbrev pub DataPair : Type 0
DataPair = Data × Data

abbrev pub DeltaPair : Type 0
DeltaPair = Data × Option Data

abbrev pub Merge : Type 0
Merge =
    (DataPair → DeltaPair → Ordering)
    → List DataPair
    → List DeltaPair
    → List (EitherOrBoth DataPair DeltaPair)

unfoldable pub comparator : DataPair → DeltaPair → Ordering
comparator a b = lex a.0 b.0

delta_item : Data → Option Data → Option DataPair
delta_item k none = none
delta_item k (some v) = some (k, v)

unfoldable pub merger : EitherOrBoth DataPair DeltaPair → Option DataPair
unfolding delta_item
merger (left l) = some l
merger (right (k, v)) = delta_item k v
merger (both _ (k, v)) = delta_item k v

-- `Iterator::filter_map`
unfoldable pub filter_map {ℓ κ} : {A : Type ℓ} {B : Type κ} → (A → Option B) → List A → List B
filter_map f [] = []
filter_map f (a ∷ l) = let rest = filter_map f l in elim (f a) [ none ↦ rest | some b ↦ b ∷ rest ]

pub record TxRo (T : Type 0) : Type 0 where
  pub db : T

pub record TxRw (T : Type 0) : Type 0 where
  pub db : T
  pub deltas : DbMapsData DeltaMap

pub record TransactionLockImpl (T : Type 0) : Type 0 where
  pub db : T
  pub num_maps : DbMapCount

-- Out of the range of the maps both indexings panic.
module _ {T : Type 0} where
  -- `TxRw::update`
  unfoldable pub update : DbMapId → Data → Option Data → Exec (TxRw T) (Unit {0})
  update i key val tx = elim (get_elem? tx.deltas i) [
    | none ↦ (panicked, tx)
    | some delta ↦ (ok tt, record tx { deltas = set tx.deltas i (BTreeMap.insert key val delta) })
  ]

  unfoldable pub put : DbMapId → Data → Data → Exec (TxRw T) (Unit {0})
  unfolding update
  put i key val = update i key (some val)

  unfoldable pub del : DbMapId → Data → Exec (TxRw T) (Unit {0})
  unfolding update
  del i key = update i key none

module _ {From T : Type 0} (core : CoreOps From T) where
  -- `get` and `prefix_iter` of `TxRo`
  unfoldable pub ro_ops : ReadOps (TxRo T)
  ro_ops = record {
    get = λ tx i key. core.read.get tx.db i key;
    prefix_iter = λ tx i pfx. core.read.prefix_iter tx.db i pfx;
  }

  -- `TxRw::get`: the delta map first, then the storage
  unfoldable pub get : TxRw T → DbMapId → Data → Result (Option Data)
  get tx i key = elim (get_elem? tx.deltas i) [
    | none ↦ panicked
    | some delta ↦ elim (BTreeMap.get key delta) [
      | none ↦ core.read.get tx.db i key
      | some x ↦ ok x
    ]
  ]

  -- one entry of a delta map, written to the storage
  unfoldable pub commit_entry : DbMapId → Data → Option Data → Exec T (Unit {0})
  commit_entry i key none = core.write.del i key
  commit_entry i key (some val) = core.write.put i key val

  unfoldable pub commit_map : DbMapId → DeltaMap → Exec T (Unit {0})
  unfolding commit_entry
  commit_map i [] t = (ok tt, t)
  commit_map i ((key, val) ∷ delta) t = (commit_entry i key val >> commit_map i delta) t

  unfoldable pub commit_maps : List (DbMapId × DeltaMap) → Exec T (Unit {0})
  unfolding commit_map
  commit_maps [] t = (ok tt, t)
  commit_maps ((i, delta) ∷ rest) t = (commit_map i delta >> commit_maps rest) t

  -- `TxRw::commit`, on the storage behind the lock
  unfoldable pub commit : TxRw T → Result (Unit {0}) × T
  unfolding commit_maps
  commit tx = commit_maps (into_iter_with_id tx.deltas) tx.db

  module _ (merge_join_by : Merge) where
    -- `prefix_iter_rw::iter`
    unfoldable pub prefix_iter : TxRw T → DbMapId → Data → Result (List DataPair)
    unfolding merger comparator
    prefix_iter tx i pfx = elim (core.read.prefix_iter tx.db i pfx) [
      | err e ↦ err e
      | panicked ↦ panicked
      | ok db_iter ↦ elim (get_elem? tx.deltas i) [
        | none ↦ panicked
        | some delta ↦ ok (
            filter_map merger
              (merge_join_by comparator db_iter (Util.collect (Util.new delta pfx))))
      ]
    ]

    unfoldable pub rw_ops : ReadOps (TxRw T)
    rw_ops = record { get = get; prefix_iter = prefix_iter }

  -- `Locking::open`
  unfoldable pub open_db : From → DbDesc → Result (TransactionLockImpl T)
  open_db init desc = elim (core.construct init desc) [
    | err e ↦ err e
    | panicked ↦ panicked
    | ok t ↦ ok (record { db = t; num_maps = Types.db_map_count desc.map_descs })
  ]

module _ {T : Type 0} where
  -- the guard that the transaction holds, with the handle that it borrows the storage from
  unfoldable pub transaction_ro : TransactionLockImpl T → Result (TxRo T)
  transaction_ro s = ok (record { db = s.db })

  unfoldable pub transaction_rw : Option ℕ → TransactionLockImpl T → Result (TxRw T)
  transaction_rw size s = ok (record { db = s.db; deltas = new s.num_maps (λ i. []) })

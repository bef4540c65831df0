-- ===== src/InMemory.antt =====
-- storage/inmemory/src/lib.rs: one `BTreeMap` for each key-value map, made transactional by `Locking`.
pub mod Laws
pub mod Sessions
use rpi4_usb_io_breaker.Base.{none, some, [], get_elem?, set}
use rpi4_usb_io_breaker.Base.Ord.{list_ord}
use rpi4_usb_io_breaker.BTreeMap
use rpi4_usb_io_breaker.BTreeMap.{BTreeMap}
use rpi4_usb_io_breaker.Core.Data.{Data}
use rpi4_usb_io_breaker.Core.Error.{Result, ok, panicked}
use rpi4_usb_io_breaker.Core.Exec.{Exec}
use rpi4_usb_io_breaker.Core.Types.{DbMapId, DbMapsData, DbDesc, transform}
use rpi4_usb_io_breaker.Core.Util
use rpi4_usb_io_breaker.Core.Backend.{ReadOps, WriteOps, CoreOps, Backend}
use rpi4_usb_io_breaker.Core.Locking.{Merge}
use rpi4_usb_io_breaker.Core.Locking.Adaptor.{locking}

abbrev pub Map : Type 0
Map = BTreeMap Data Data

abbrev pub StorageMaps : Type 0
StorageMaps = DbMapsData Map

-- `StorageMaps`: `ReadOps`. `self.0[map_id]` panics out of range.
unfoldable pub read_ops : ReadOps StorageMaps
read_ops = record {
  get =
      λ maps i key. elim (get_elem? maps i) [ none ↦ panicked | some m ↦ ok (BTreeMap.get key m) ];
  prefix_iter = λ maps i pfx. elim (get_elem? maps i) [
    | none ↦ panicked
    | some m ↦ ok (Util.collect (Util.new m pfx))
  ];
}

-- `StorageMaps`: `WriteOps`
unfoldable pub put : DbMapId → Data → Data → Exec StorageMaps (Unit {0})
put i key val maps = elim (get_elem? maps i) [
  | none ↦ (panicked, maps)
  | some m ↦ (ok tt, set maps i (BTreeMap.insert key val m))
]

unfoldable pub del : DbMapId → Data → Exec StorageMaps (Unit {0})
del i key maps = elim (get_elem? maps i) [
  | none ↦ (panicked, maps)
  | some m ↦ (ok tt, set maps i (BTreeMap.remove key m))
]

-- `StorageMaps::construct`
unfoldable pub construct : Unit {0} → DbDesc → Result StorageMaps
construct _ desc = ok (transform (λ _. []) desc.map_descs)

unfoldable pub storage_maps : CoreOps (Unit {0}) StorageMaps
unfolding read_ops put del construct
storage_maps = record {
  read = read_ops;
  write = record { put = put; del = del };
  construct = construct;
}

-- `InMemory`
abbrev pub in_memory : Merge → Backend
in_memory merge = locking storage_maps merge tt

-- ===== src/InMemory/Laws.antt =====
-- The in-memory storage keeps the contract without transactions: it is the abstract database.
use rpi4_usb_io_breaker.Core.Contract.Modify.{modify-IsSortedDb}
use rpi4_usb_io_breaker.Core.Error.{ok}
use rpi4_usb_io_breaker.Core.Data.{Data}
use rpi4_usb_io_breaker.Base.{
  zero, suc, some, List, [], ◌∷◌, get_elem?, set, All-get, arith, length, ◌≡◌, refl, ap, map,
  replicate, get_elem?-of_lt, ◌<◌,
}
use rpi4_usb_io_breaker.Base.Ord.{list_ord}
use rpi4_usb_io_breaker.BTreeMap
use rpi4_usb_io_breaker.BTreeMap.Sorted.{IsSorted, insert-IsSorted, remove-IsSorted}
use rpi4_usb_io_breaker.Core.Types.{DbMapId, DbMapDesc, transform, db_map_count}
use rpi4_usb_io_breaker.Core.Util.Collect.{collect-new}
use rpi4_usb_io_breaker.Core.Contract.{
  Db, IsSortedDb, modify, CoreLaws, BackendLaws, db_put, db_del,
}
use rpi4_usb_io_breaker.Core.Locking.{Merge}
use rpi4_usb_io_breaker.Core.Locking.MergeJoin.{MergeLaws}
use rpi4_usb_io_breaker.Core.Locking.Refines.{locking-laws}
use rpi4_usb_io_breaker.InMemory.{Map, StorageMaps, read_ops, put, del, storage_maps, in_memory}

-- the maps are the database, with ascending keys
pub record Repr (maps : StorageMaps) (d : Db) : Type 0 where
  pub same : maps ≡ d
  pub ascending : IsSortedDb d

modify-eq-set :
    (f : Map → Map) (i : DbMapId) (d : Db) (m : Map)
    → get_elem? d i ≡ some m
    → modify f i d ≡ set d i (f m)
modify-eq-set f i [] m e = refl
modify-eq-set f zero (x ∷ d) m e = ground arith
modify-eq-set f (suc i) (x ∷ d) m e = ap (λ (r : Db). x ∷ r) (modify-eq-set f i d m e)

map-replicate : (l : List DbMapDesc) → map (λ _. []) l ≡ replicate {A = Map} (length l) []
map-replicate [] = refl
map-replicate (x ∷ l) = ap (λ (r : Db). [] ∷ r) (map-replicate l)

empty-IsSortedDb : (l : List DbMapDesc) → IsSortedDb (replicate (length l) [])
empty-IsSortedDb [] = tt
empty-IsSortedDb (x ∷ l) = (tt, empty-IsSortedDb l)

module _ (d : Db) (i : DbMapId) (ascending : IsSortedDb d) where
  put_lem :
      (k v : Data)
      → i < length d
      → ((put i k v d).0 ≡ ok tt) × Repr (put i k v d).1 (db_put i k v d)
  unfolding put
  put_lem k v h =
      let (m, e) = get_elem?-of_lt d i h in
      rw (put, e)
        (
          refl,
          record {
            same = rw (modify-eq-set (BTreeMap.insert k v) i d m e);
            ascending = modify-IsSortedDb (BTreeMap.insert k v) i d (insert-IsSorted k v) ascending;
          },
        )

  del_lem : (k : Data) → i < length d → ((del i k d).0 ≡ ok tt) × Repr (del i k d).1 (db_del i k d)
  unfolding del
  del_lem k h =
      let (m, e) = get_elem?-of_lt d i h in
      rw (del, e)
        (
          refl,
          record {
            same = rw (modify-eq-set (BTreeMap.remove k) i d m e);
            ascending = modify-IsSortedDb (BTreeMap.remove k) i d (remove-IsSorted k) ascending;
          },
        )

-- The in-memory maps keep the contract without transactions.
pub storage_maps-laws : CoreLaws storage_maps
unfolding storage_maps transform db_map_count
storage_maps-laws = record {
  Repr = Repr;
  sorted = λ t d r. r.ascending;
  reads = record {
    get_lem = λ t d i m k r e. rw (r.same, read_ops, e) refl;
    prefix_iter_lem = λ t d i m p r e.
        rw (r.same, read_ops, e, collect-new m p (All-get IsSorted d i r.ascending e)) refl;
  };
  writes = record {
    put_lem = λ t d i k v r h. rw r.same (put_lem d i r.ascending k v h);
    del_lem = λ t d i k r h. rw r.same (del_lem d i r.ascending k h);
  };
  construct_lem = λ init desc. (
    _,
    refl,
    record { same = map-replicate desc.map_descs; ascending = empty-IsSortedDb desc.map_descs },
  );
}

-- The in-memory backend keeps the contract of a backend.
pub in_memory-laws : (merge : Merge) → MergeLaws merge → BackendLaws (in_memory merge)
in_memory-laws merge merging = locking-laws storage_maps storage_maps-laws merge tt merging

pub storage_maps-Repr : (d : Db) → IsSortedDb d → storage_maps-laws.Repr d d
unfolding storage_maps-laws
storage_maps-Repr d s = record { same = refl; ascending = s }

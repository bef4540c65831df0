-- ===== src/Storage/Database/Load.antt =====
-- A dump, loaded into a fresh storage, gives the database that was dumped.
use rpi4_usb_io_breaker.Base.{
  ℕ, suc, ◌+◌, none, [], ◌∷◌, length, replicate, ◌≡◌, refl, arith, ◌∙◌, ◌≤◌, ◌<◌, sym, ap,
  length-replicate,
}
use rpi4_usb_io_breaker.Base.Ord.{list_ord}
use rpi4_usb_io_breaker.BTreeMap.{extend}
use rpi4_usb_io_breaker.BTreeMap.Extend.{extend-nil}
use rpi4_usb_io_breaker.Core.Error.{ok}
use rpi4_usb_io_breaker.Core.Types.{DbMapId, DbDesc, db_desc, db_map_count, enumerate_from}
use rpi4_usb_io_breaker.Core.Backend.{Backend}
use rpi4_usb_io_breaker.Core.Contract.{Map, Db, IsSortedDb, modify, BackendLaws, db_put}
use rpi4_usb_io_breaker.Core.Contract.Modify.{length-modify, modify-modify, modify-id}
use rpi4_usb_io_breaker.Storage.Schema.{Schema, desc_iter}
use rpi4_usb_io_breaker.Storage.Raw.{StorageContents}
use rpi4_usb_io_breaker.Storage.Raw.Dump.{dump_storage_lem}
use rpi4_usb_io_breaker.Storage.Database.{put_values, put_maps, new, new_from_dump, dump_raw}

-- the maps of a dump inserted one after the other, from the map `n` on
abbrev extend_from : ℕ → Db → Db → Db
extend_from n [] d = d
extend_from n (m ∷ maps) d = extend_from (suc n) maps (modify (λ x. extend x m) n d)

extend_from-suc :
    (n : ℕ) (maps : Db) (m : Map) (d : Db)
    → extend_from (suc n) maps (m ∷ d) ≡ m ∷ extend_from n maps d
extend_from-suc n [] m d = refl
extend_from-suc n (x ∷ maps) m d = extend_from-suc (suc n) maps m (modify (λ y. extend y x) n d)

extend_from-replicate : (d : Db) → IsSortedDb d → extend_from 0 d (replicate (length d) []) ≡ d
extend_from-replicate [] s = refl
extend_from-replicate (m ∷ d) s =
    extend_from-suc 0 d (extend [] m) (replicate (length d) [])
    ∙ rw (extend-nil m s.0, extend_from-replicate d s.1)

db_desc-count :
    (sch : Schema) (desc : DbDesc)
    → db_desc (desc_iter sch) ≡ ok desc
    → db_map_count desc.map_descs ≡ length (desc_iter sch)
unfolding db_desc db_map_count
db_desc-count sch desc e = ground arith

module _ (b : Backend) (laws : BackendLaws b) (base : Db) where
  put_values_lem :
      (id : DbMapId) (values : Map) (tx : b.TxRw) (d : Db)
      → laws.ReprRw base tx d
      → id < length d
      → (tx' : b.TxRw) × (put_values b id values tx ≡ ok tx')
        × laws.ReprRw base tx' (modify (λ x. extend x values) id d)
  unfolding put_values extend
  put_values_lem id [] tx d r h = (tx, refl, rw modify-id r)
  put_values_lem id ((k, v) ∷ values) tx d r h =
      let (done, r1) = (laws.rw_writes base).put_lem tx d id k v r h in
      let tx1 = (b.write.put id k v tx).1 in
      let d1 = db_put id k v d in
      let fits : id < length d1 = rw length-modify h in
      let (tx2, rest, r2) = put_values_lem id values tx1 d1 r1 fits in
      (tx2, rw done rest, rw modify-modify at r2)

  put_maps_lem :
      (n : ℕ) (maps : Db) (tx : b.TxRw) (d : Db)
      → laws.ReprRw base tx d
      → n + length maps ≤ length d
      → (tx' : b.TxRw) × (put_maps b (enumerate_from n maps) tx ≡ ok tx')
        × laws.ReprRw base tx' (extend_from n maps d)
  unfolding put_maps enumerate_from
  put_maps_lem n [] tx d r h = (tx, refl, r)
  put_maps_lem n (m ∷ maps) tx d r h =
      let (tx1, done, r1) = put_values_lem n m tx d r (omega arith) in
      let d1 = modify (λ x. extend x m) n d in
      let fits : suc n + length maps ≤ length d1 = rw length-modify (omega arith) in
      let (tx2, rest, r2) = put_maps_lem (suc n) maps tx1 d1 r1 fits in (tx2, rw done rest, r2)

module _ (b : Backend) (laws : BackendLaws b) (sch : Schema) (desc : DbDesc) where
  -- If the names of the schema differ, the contents of a database with a map for each one of the schema are
  -- loaded, as that database.
  new_from_dump_lem :
      (d : Db)
      → db_desc (desc_iter sch) ≡ ok desc
      → IsSortedDb d
      → length d ≡ length (desc_iter sch)
      → (s : b.Impl) × (new_from_dump b sch (enumerate_from 0 d) ≡ ok s) × laws.Repr s d
  unfolding new_from_dump new
  new_from_dump_lem d named s e =
      let (s0, opened, r0) = laws.open_lem desc in
      let empty : Db = replicate (db_map_count desc.map_descs) [] in
      let count : db_map_count desc.map_descs ≡ length d = db_desc-count sch desc named ∙ sym e in
      let (tx, started, r1) = laws.rw_lem none s0 empty r0 in
      let fits : 0 + length d ≤ length empty =
        rw (length-replicate {A = Map} (db_map_count desc.map_descs) [], count) (omega arith) in
      let (tx', put, r2) = put_maps_lem b laws empty 0 d tx empty r1 fits in
      let final : extend_from 0 d empty ≡ d =
        ap (λ n. extend_from 0 d (replicate n [])) count ∙ extend_from-replicate d s in
      let (done, r3) = laws.commit_lem tx' empty (extend_from 0 d empty) r2 in
      ((b.commit tx').1, rw (named, opened, started, put, done) refl, rw final at r3)

-- A database that is dumped from one backend and loaded into another, or the same, is there as it was. The backends
-- keep the contract, the names of the schema pass the check of `db_desc`, and the database has a map for each
-- one of the schema.
pub new_from_dump-dump_raw :
    (b c : Backend) (b_laws : BackendLaws b) (c_laws : BackendLaws c) (sch : Schema) (desc : DbDesc)
    (s : b.Impl) (d : Db)
    → db_desc (desc_iter sch) ≡ ok desc
    → b_laws.Repr s d
    → length d ≡ length (desc_iter sch)
    → (tx : b.TxRo) × (b.transaction_ro s ≡ ok tx)
      × (dump : StorageContents sch) × (dump_raw b sch tx ≡ ok dump)
      × (copy : c.Impl) × (new_from_dump c sch dump ≡ ok copy)
      × c_laws.Repr copy d
unfolding dump_raw
new_from_dump-dump_raw b c b_laws c_laws sch desc s d named r e =
    let (tx, started, r1) = b_laws.ro_lem s d r in
    let ascending = b_laws.sorted s d r in
    let (copy, loaded, r2) = new_from_dump_lem c c_laws sch desc d named ascending e in
    (
      tx,
      started,
      enumerate_from 0 d,
      dump_storage_lem b_laws.ro_reads tx d r1 sch ascending e,
      copy,
      loaded,
      r2,
    )

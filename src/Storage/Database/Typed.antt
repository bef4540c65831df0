-- ===== src/Storage/Database/Typed.antt =====
-- Typed reads after typed writes.
use rpi4_usb_io_breaker.BTreeMap.Sorted.{IsSorted}
use rpi4_usb_io_breaker.Base.{
  Bool, none, some, ◌≡◌, ◌≢◌, refl, get_elem?, arith, length, ◌<◌, get_elem?-of_lt, All-get,
}
use rpi4_usb_io_breaker.Base.Ord.{lex, list_ord, lex_order}
use Prim.Native.Nat.Ordering.{eq}
use rpi4_usb_io_breaker.Core.Types.{DbMapId}
use rpi4_usb_io_breaker.BTreeMap
use rpi4_usb_io_breaker.BTreeMap.Lookup.{
  get-insert_self, get-insert_other, get-remove_self, get-remove_other,
}
use rpi4_usb_io_breaker.Core.Error.{ok}
use rpi4_usb_io_breaker.Core.Backend.{ReadOps, WriteOps}
use rpi4_usb_io_breaker.Core.Contract.{Map, Db, db_put, ReadLaws, WriteLaws, IsSortedDb, db_del}
use rpi4_usb_io_breaker.Core.Contract.Modify.{get_elem?-modify_self}
use rpi4_usb_io_breaker.Storage.Encoded
use rpi4_usb_io_breaker.Storage.Encoded.{Codec, RoundTrips, Encoded, from_bytes_unchecked-encode}
use rpi4_usb_io_breaker.Storage.Schema.{DbMap, Schema, HasDbMap, index}
use rpi4_usb_io_breaker.Storage.Database.{get_mut, get, encoded_value, put, del}

pub encode_inj :
    {A : Type 0} (codec : Codec A) (law : RoundTrips codec) (x y : A)
    → codec.encode x ≡ codec.encode y
    → x ≡ y
encode_inj codec law x y e = ground (arith, law x, law y, e)

module _ {T : Type 0} {ops : ReadOps T} {write : WriteOps T} {Repr : T → Db → Type 0}
    (reads : ReadLaws ops Repr) (writes : WriteLaws write Repr) (debug : Bool) (m : DbMap)
    (keys : RoundTrips m.key_codec) where
  -- a typed read of a map decodes what is stored under the encoded key
  get_lem :
      (t : T) (d : Db) (i : DbMapId) (x : Map) (key : m.Key)
      → Repr t d
      → get_elem? d i ≡ some x
      → get ops debug m t i key
        ≡ encoded_value ops debug m (BTreeMap.get (m.key_codec.encode key) x)
  unfolding get
  get_lem t d i x key r e = rw (reads.get_lem t d i x (m.key_codec.encode key) r e) refl

  other_key :
      (key other : m.Key)
      → other ≢ key
      → lex (m.key_codec.encode other) (m.key_codec.encode key) ≢ eq
  other_key key other n e = n (encode_inj m.key_codec keys other key (lex_order.eq_same _ _ e))

  -- After a typed put through a view of a map, which succeeds, the key reads as the encoded value, and any other
  -- key of the map as before. The transaction stands for a database that has the map, and the codecs round-trip.
  pub get-put :
      (values : RoundTrips m.value_codec) {sch : Schema} (h : HasDbMap m sch) (t : T) (d : Db)
      (key other : m.Key) (value : m.Value)
      → Repr t d
      → index h < length d
      → other ≢ key
      → let (done, view) = put write m key value (get_mut h t) in
        (done ≡ ok tt)
        × (get ops debug m view.dbtx view.map_id key ≡ ok (some (Encoded.new m.value_codec value)))
        × (get ops debug m view.dbtx view.map_id other ≡ get ops debug m t (index h) other)
  unfolding put get_mut encoded_value list_ord
  get-put values h t d key other value r fits n =
      let i = index h in
      let k = m.key_codec.encode key in
      let v = m.value_codec.encode value in
      let (x, e) = get_elem?-of_lt d i fits in
      let (done, r1) = writes.put_lem t d i k v r fits in
      let t1 = (write.put i k v t).1 in
      let e1 = get_elem?-modify_self (BTreeMap.insert k v) i d x e in
      let read = λ (q : m.Key). get_lem t1 (db_put i k v d) i (BTreeMap.insert k v x) q r1 e1 in
      (
        done,
        rw
            (
              read key,
              get-insert_self k v x,
              from_bytes_unchecked-encode m.value_codec values debug value,
            )
            refl,
        rw
            (
              read other,
              get_lem t d i x other r e,
              get-insert_other (m.key_codec.encode other) k v x (other_key key other n),
            )
            refl,
      )

  -- After a typed removal through a view of a map, which succeeds, the key reads as absent, and any other key of
  -- the map as before. The transaction stands for a database with ascending keys that has the map, and the
  -- codec of the keys round-trips.
  pub get-del :
      {sch : Schema} (h : HasDbMap m sch) (t : T) (d : Db) (key other : m.Key)
      → Repr t d
      → IsSortedDb d
      → index h < length d
      → other ≢ key
      → let (done, view) = del write m key (get_mut h t) in
        (done ≡ ok tt)
        × (get ops debug m view.dbtx view.map_id key ≡ ok none)
        × (get ops debug m view.dbtx view.map_id other ≡ get ops debug m t (index h) other)
  unfolding del get_mut encoded_value list_ord
  get-del h t d key other r ascending fits n =
      let i = index h in
      let k = m.key_codec.encode key in
      let (x, e) = get_elem?-of_lt d i fits in
      let s = All-get IsSorted d i ascending e in
      let (done, r1) = writes.del_lem t d i k r fits in
      let t1 = (write.del i k t).1 in
      let e1 = get_elem?-modify_self (BTreeMap.remove k) i d x e in
      let read = λ (q : m.Key). get_lem t1 (db_del i k d) i (BTreeMap.remove k x) q r1 e1 in
      (
        done,
        rw (read key, get-remove_self k x s) refl,
        rw
            (
              read other,
              get_lem t d i x other r e,
              get-remove_other (m.key_codec.encode other) k x s (other_key key other n),
            )
            refl,
      )

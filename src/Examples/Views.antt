-- ===== src/Examples/Views.antt =====
-- The views of a typed map at a concrete database.
use mathlib.Core.Option
use rpi4_usb_io_breaker.Base.{true, [], ◌∷◌, map, ◌≡◌, refl}
use rpi4_usb_io_breaker.Base.Ord.{list_ord}
use rpi4_usb_io_breaker.BTreeMap
use rpi4_usb_io_breaker.Core.Error.{ok}
use rpi4_usb_io_breaker.Core.Types.{db_map_count}
use rpi4_usb_io_breaker.Storage.Encoded
use rpi4_usb_io_breaker.Storage.Encoded.{Codec}
use rpi4_usb_io_breaker.Storage.Schema.{DbMap, desc_iter}
use rpi4_usb_io_breaker.Storage.Database.{MapRef, MapMut, put, del, prefix_iter_decoded}
use rpi4_usb_io_breaker.Storage.Database.Views.{ref_get, ref_prefix_iter, ref_prefix_iter_keys}
use rpi4_usb_io_breaker.Storage.Database.Views.Refines.{
  TypedMap, Holds, by_encoding, typed_prefix, views_refine,
}
use rpi4_usb_io_breaker.Examples.Typed.{
  byte, byte-RoundTrips, bytes_map, backend, laws, filled_db, started,
}

abbrev numbers : DbMap
numbers = bytes_map 98

abbrev stored : TypedMap numbers byte-RoundTrips
stored = (5, 6) ∷ []

stored-Holds :
    Holds
      (laws.rw_reads filled_db)
      (laws.rw_writes filled_db)
      true
      numbers
      byte-RoundTrips
      byte-RoundTrips
      started.0
      1
      stored
unfolding db_map_count desc_iter BTreeMap.insert
stored-Holds = (filled_db, started.1, refl)

abbrev view : MapRef backend.TxRw
view = record { dbtx = started.0; map_id = 1 }

abbrev mutable : MapMut backend.TxRw
mutable = record { dbtx = started.0; map_id = 1 }

views_refine_example :
    (ref_get backend.rw true numbers view 5
      ≡ ok (
          Option.map
            (Encoded.new byte)
            (BTreeMap.get ⦃o = by_encoding numbers byte-RoundTrips⦄ 5 stored)))
    × (ref_prefix_iter backend.rw true numbers byte view 5
        ≡ ok (
            map
              (λ e. ok (e.0, Encoded.new byte e.1))
              (typed_prefix numbers byte-RoundTrips (byte.encode 5) stored)))
    × (ref_prefix_iter_keys backend.rw true numbers byte view 5
        ≡ ok (map (λ e. ok e.0) (typed_prefix numbers byte-RoundTrips (byte.encode 5) stored)))
    × (prefix_iter_decoded backend.rw true numbers byte view 5
        ≡ ok (map (λ e. ok e) (typed_prefix numbers byte-RoundTrips (byte.encode 5) stored)))
    × (((put backend.write numbers 5 9 mutable).0 ≡ ok tt)
        × Holds
            (laws.rw_reads filled_db)
            (laws.rw_writes filled_db)
            true
            numbers
            byte-RoundTrips
            byte-RoundTrips
            (put backend.write numbers 5 9 mutable).1.dbtx
            1
            (BTreeMap.insert ⦃o = by_encoding numbers byte-RoundTrips⦄ 5 9 stored))
    × (((del backend.write numbers 5 mutable).0 ≡ ok tt)
        × Holds
            (laws.rw_reads filled_db)
            (laws.rw_writes filled_db)
            true
            numbers
            byte-RoundTrips
            byte-RoundTrips
            (del backend.write numbers 5 mutable).1.dbtx
            1
            (BTreeMap.remove ⦃o = by_encoding numbers byte-RoundTrips⦄ 5 stored))
views_refine_example =
    views_refine (laws.rw_reads filled_db) (laws.rw_writes filled_db) true numbers byte-RoundTrips
      byte-RoundTrips started.0 1 stored byte 5 5 9 stored-Holds

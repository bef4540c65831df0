-- ===== src/Storage/Raw/Dump.antt =====
-- The dump of a database holds each of its maps, under its id.
use rpi4_usb_io_breaker.Base.{
  ℕ, suc, ◌+◌, some, List, [], ◌∷◌, length, get_elem?, ◌≡◌, refl, arith, ◌≤◌,
}
use rpi4_usb_io_breaker.Base.Ord.{list_ord, number_ord}
use rpi4_usb_io_breaker.BTreeMap.Sorted.{Above, IsSorted}
use rpi4_usb_io_breaker.BTreeMap.Extend.{extend-nil}
use rpi4_usb_io_breaker.Core.Error.{ok}
use rpi4_usb_io_breaker.Core.Types.{DbMapDesc, enumerate_from}
use rpi4_usb_io_breaker.Core.Util.Collect.{with_prefix-nil}
use rpi4_usb_io_breaker.Core.Backend.{ReadOps}
use rpi4_usb_io_breaker.Core.Contract.{Map, Db, IsSortedDb, ReadLaws}
use rpi4_usb_io_breaker.Storage.Schema.{Schema, desc_iter}
use rpi4_usb_io_breaker.Storage.Raw.{dump_maps, dump_storage}

enumerate_from-Above : (k n : ℕ) (d : Db) → k + 1 ≤ n → Above k (enumerate_from n d)
unfolding enumerate_from number_ord
enumerate_from-Above k n [] h = tt
enumerate_from-Above k n (m ∷ d) h = (ground arith, enumerate_from-Above k (suc n) d (omega arith))

enumerate_from-IsSorted : (n : ℕ) (d : Db) → IsSorted (enumerate_from n d)
unfolding enumerate_from
enumerate_from-IsSorted n [] = tt
enumerate_from-IsSorted n (m ∷ d) =
    (enumerate_from-Above n (suc n) d (omega arith), enumerate_from-IsSorted (suc n) d)

module _ {T : Type 0} {ops : ReadOps T} {Repr : T → Db → Type 0} (laws : ReadLaws ops Repr) (tx : T)
    (d : Db) (r : Repr tx d) where
  dump_maps_lem :
      (n : ℕ) (descs : List DbMapDesc) (rest : Db)
      → ((i j : ℕ) (m : Map) → j ≡ n + i → get_elem? rest i ≡ some m → get_elem? d j ≡ some m)
      → IsSortedDb rest
      → length rest ≡ length descs
      → dump_maps ops tx (enumerate_from n descs) ≡ ok (enumerate_from n rest)
  unfolding dump_maps enumerate_from
  dump_maps_lem n [] [] h s e = refl
  dump_maps_lem n [] (m ∷ rest) h s e = absurd (omega arith)
  dump_maps_lem n (x ∷ descs) [] h s e = absurd (omega arith)
  dump_maps_lem n (x ∷ descs) (m ∷ rest) h s e =
      let here : get_elem? d n ≡ some m = h 0 n m (omega arith) refl in
      rw (laws.prefix_iter_lem tx d n m [] r here, with_prefix-nil m, extend-nil m s.0)
        (rw
          (dump_maps_lem (suc n) descs rest (λ i j x e. h (suc i) j x (omega arith)) s.1
            (omega arith))
          refl)

  -- The dump of a transaction that stands for a database is the database's maps, each under its id, if the
  -- database has a map for each one of the schema.
  pub dump_storage_lem :
      (sch : Schema)
      → IsSortedDb d
      → length d ≡ length (desc_iter sch)
      → dump_storage ops tx sch ≡ ok (enumerate_from 0 d)
  unfolding dump_storage
  dump_storage_lem sch s e =
      let same : (i j : ℕ) (m : Map) → j ≡ 0 + i → get_elem? d i ≡ some m → get_elem? d j ≡ some m =
        λ i j m at found. let at' : j ≡ i = omega (arith, at) in rw at' found in
      rw (dump_maps_lem 0 (desc_iter sch) d same s e)
        (rw (extend-nil (enumerate_from 0 d) (enumerate_from-IsSorted 0 d)) refl)

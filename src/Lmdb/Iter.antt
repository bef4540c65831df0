-- ===== src/Lmdb/Iter.antt =====
-- What the iterator of storage/lmdb/src/lib.rs yields, and the removal of a key that is not there.
use rpi4_usb_io_breaker.Base.{none, [], ◌∷◌, ap, arith, ◌≡◌, refl, ◌∙◌, inl, inr, Bool-cases}
use rpi4_usb_io_breaker.Base.Ord.{list_ord}
use rpi4_usb_io_breaker.BTreeMap
use rpi4_usb_io_breaker.BTreeMap.{range_from}
use rpi4_usb_io_breaker.BTreeMap.Sorted.{IsSorted, range_from-IsSorted}
use rpi4_usb_io_breaker.Core.Data.{Data, starts_with}
use rpi4_usb_io_breaker.Core.Error.{ok}
use rpi4_usb_io_breaker.Core.Util.Collect.{
  From, From-range_from, with_prefix, with_prefix-past, with_prefix-range_from,
}
use rpi4_usb_io_breaker.Core.Contract.{Map}
use rpi4_usb_io_breaker.Lmdb.Transaction.{items}
use rpi4_usb_io_breaker.Lmdb.Laws.{items_of}

-- The iterator over a database, from the first key that is not below the prefix, yields the entries with the prefix.
items-with_prefix :
    (p : Data) (m : Map) → IsSorted m → From p m → items p (items_of m) ≡ ok (with_prefix p m)
unfolding items list_ord
items-with_prefix p [] s f = refl
items-with_prefix p ((k, v) ∷ m) s f = elim (Bool-cases (starts_with k p)) [
  | inl e ↦ rw (e, items-with_prefix p m s.1 f.1) refl
  | inr e ↦ rw (e, with_prefix-past p k m f.0 e s.0) refl
]

pub items-range_from :
    (p : Data) (m : Map) → IsSorted m → items p (items_of (range_from p m)) ≡ ok (with_prefix p m)
items-range_from p m s =
    items-with_prefix p (range_from p m) (range_from-IsSorted p m s) (From-range_from p m s)
    ∙ ap (λ (l : Map). ok l) (with_prefix-range_from p m)

pub items-nil : (m : Map) → items [] (items_of m) ≡ ok (with_prefix [] m)
unfolding items starts_with
items-nil [] = refl
items-nil ((k, v) ∷ m) = rw (items-nil m) refl

-- a removal of a key that is not there
pub remove-of_none : (k : Data) (m : Map) → BTreeMap.get k m ≡ none → BTreeMap.remove k m ≡ m
unfolding BTreeMap.get BTreeMap.remove
remove-of_none k [] e = refl
remove-of_none k ((j, v) ∷ m) e = ground (arith, remove-of_none k m)

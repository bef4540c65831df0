-- ===== src/BTreeMap/Sorted.antt =====
-- Every operation keeps the keys strictly ascending.
use rpi4_usb_io_breaker.Base.{Bool, List, [], ◌∷◌, arith, keep}
use rpi4_usb_io_breaker.Base.Ord.{lt_of_gt, Ord, ◌≺◌}
use rpi4_usb_io_breaker.BTreeMap.{BTreeMap, insert, remove, range_from, extend}

module _ {ℓ κ} {K : Type ℓ} {V : Type κ} ⦃o : Ord K⦄ where
  -- every key lies above `b`
  abbrev pub Above : K → BTreeMap K V → Type 0
  Above b [] = Unit
  Above b ((k, v) ∷ m) = (b ≺ k) × Above b m

  abbrev pub IsSorted : BTreeMap K V → Type 0
  IsSorted [] = Unit
  IsSorted ((k, v) ∷ m) = Above k m × IsSorted m

  pub Above-trans : (a b : K) (m : BTreeMap K V) → a ≺ b → Above b m → Above a m
  Above-trans a b [] h s = tt
  Above-trans a b ((k, v) ∷ m) h s = (o.lt_trans a b k h s.0, Above-trans a b m h s.1)

  Above-insert : (b k : K) (w : V) (m : BTreeMap K V) → b ≺ k → Above b m → Above b (insert k w m)
  unfolding insert
  Above-insert b k w [] h s = (h, tt)
  Above-insert b k w ((j, v) ∷ m) h s = ground (arith, Above-insert b k w m)

  pub insert-IsSorted : (k : K) (w : V) (m : BTreeMap K V) → IsSorted m → IsSorted (insert k w m)
  unfolding insert
  insert-IsSorted k w [] s = (tt, tt)
  insert-IsSorted k w ((j, v) ∷ m) s =
      ground (arith, insert-IsSorted k w m, Above-insert j k w m, Above-trans k j m, lt_of_gt k j)

  Above-remove : (b k : K) (m : BTreeMap K V) → Above b m → Above b (remove k m)
  unfolding remove
  Above-remove b k [] s = tt
  Above-remove b k ((j, v) ∷ m) s = ground (arith, Above-remove b k m)

  pub remove-IsSorted : (k : K) (m : BTreeMap K V) → IsSorted m → IsSorted (remove k m)
  unfolding remove
  remove-IsSorted k [] s = tt
  remove-IsSorted k ((j, v) ∷ m) s = ground (arith, remove-IsSorted k m, Above-remove j k m)

  pub range_from-IsSorted : (k : K) (m : BTreeMap K V) → IsSorted m → IsSorted (range_from k m)
  unfolding range_from
  range_from-IsSorted k [] s = tt
  range_from-IsSorted k ((j, v) ∷ m) s = ground (arith, range_from-IsSorted k m)

  Above-keep : (p : K × V → Bool) (b : K) (m : BTreeMap K V) → Above b m → Above b (keep p m)
  Above-keep p b [] s = tt
  Above-keep p b ((j, v) ∷ m) s = ground (arith, Above-keep p b m)

  pub keep-IsSorted : (p : K × V → Bool) (m : BTreeMap K V) → IsSorted m → IsSorted (keep p m)
  keep-IsSorted p [] s = tt
  keep-IsSorted p ((j, v) ∷ m) s = ground (arith, keep-IsSorted p m, Above-keep p j m)

  pub extend-IsSorted : (m : BTreeMap K V) (l : List (K × V)) → IsSorted m → IsSorted (extend m l)
  unfolding extend
  extend-IsSorted m [] s = s
  extend-IsSorted m ((k, v) ∷ l) s = extend-IsSorted (insert k v m) l (insert-IsSorted k v m s)

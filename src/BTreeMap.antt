-- ===== src/BTreeMap.antt =====
-- `std::collections::BTreeMap` as the ascending list of its entries. The proofs are in the children:
-- `Sorted` (every operation keeps the keys ascending), `Lookup` (what `get` reads after each
-- operation, and that `get` determines the map), `Extend` (inserting the entries of a map).
pub mod Sorted
pub mod Lookup
pub mod Extend
use rpi4_usb_io_breaker.Base.{Option, none, some, List, [], ◌∷◌, Ordering}
use Prim.Native.Nat.Ordering.{lt, eq, gt}
use rpi4_usb_io_breaker.Base.Ord.{Ord}

abbrev pub BTreeMap {ℓ κ} : Type ℓ → Type κ → Type (ℓ ⊔ κ)
BTreeMap K V = List (K × V)

module _ {ℓ κ} {K : Type ℓ} {V : Type κ} ⦃o : Ord K⦄ where
  -- `BTreeMap::get`
  unfoldable pub get : K → BTreeMap K V → Option V
  get k [] = none
  get k ((j, v) ∷ m) = elim (o.cmp k j) [ eq ↦ some v | _ ↦ get k m ]

  -- `BTreeMap::insert`: an old value under the key is replaced
  unfoldable pub insert : K → V → BTreeMap K V → BTreeMap K V
  insert k w [] = (k, w) ∷ []
  insert k w ((j, v) ∷ m) = elim (o.cmp k j) [
    | lt ↦ (k, w) ∷ (j, v) ∷ m
    | eq ↦ (j, w) ∷ m
    | gt ↦ (j, v) ∷ insert k w m
  ]

  -- `BTreeMap::remove`
  unfoldable pub remove : K → BTreeMap K V → BTreeMap K V
  remove k [] = []
  remove k ((j, v) ∷ m) = elim (o.cmp k j) [ lt ↦ (j, v) ∷ m | eq ↦ m | gt ↦ (j, v) ∷ remove k m ]

  -- the entries of `BTreeMap::range(k..)`
  unfoldable pub range_from : K → BTreeMap K V → BTreeMap K V
  range_from k [] = []
  range_from k ((j, v) ∷ m) = elim (o.cmp j k) [ lt ↦ range_from k m | _ ↦ (j, v) ∷ m ]

  -- `FromIterator for BTreeMap`: of equal keys the last one counts
  unfoldable pub extend : BTreeMap K V → List (K × V) → BTreeMap K V
  extend m [] = m
  extend m ((k, v) ∷ l) = extend (insert k v m) l

-- ===== src/Core/Types.antt =====
-- storage/core/src/types.rs. `DbMapId` and `DbMapCount` are the numbers that they wrap, `DbMapsData<T>` is its
-- vector: the data of the map with id `i` stands at index `i`.
pub mod Names
use rpi4_usb_io_breaker.Base.{
  ℕ, zero, suc, ◌^◌, ◌-◌, none, some, List, [], ◌∷◌, map, length, get_elem?, ◌==◌, if◌then◌else◌,
}
use rpi4_usb_io_breaker.Base.Ord.{list_ord}
use rpi4_usb_io_breaker.BTreeMap.{BTreeMap, extend}
use rpi4_usb_io_breaker.Core.Error.{Str, Result, ok, panicked, ◌>>=◌}

abbrev pub DbMapId : Type 0
DbMapId = ℕ

abbrev pub DbMapCount : Type 0
DbMapCount = ℕ

-- `usize::MAX` of a 64-bit target
abbrev pub usize_max : ℕ
usize_max = 2 ^ 64 - 1

unfoldable pub indices_from : ℕ → ℕ → List DbMapId
indices_from i zero = []
indices_from i (suc n) = i ∷ indices_from (suc i) n

-- `DbMapCount::indices`: 0..n
unfoldable pub indices : DbMapCount → List DbMapId
unfolding indices_from
indices n = indices_from 0 n

abbrev pub DbMapsData {ℓ} : Type ℓ → Type ℓ
DbMapsData A = List A

unfoldable pub enumerate_from {ℓ} : {A : Type ℓ} → ℕ → List A → List (DbMapId × A)
enumerate_from i [] = []
enumerate_from i (a ∷ l) = (i, a) ∷ enumerate_from (suc i) l

module _ {ℓ} {A : Type ℓ} where
  -- `DbMapsData::new`
  unfoldable pub new : DbMapCount → (DbMapId → A) → DbMapsData A
  unfolding indices
  new n constructor = map constructor (indices n)

  unfoldable pub db_map_count : DbMapsData A → DbMapCount
  db_map_count d = length d

  unfoldable pub into_iter_with_id : DbMapsData A → List (DbMapId × A)
  unfolding enumerate_from
  into_iter_with_id d = enumerate_from 0 d

  -- `Index`: a missing index panics
  unfoldable pub index : DbMapsData A → DbMapId → Result A
  index d i = elim (get_elem? d i) [ none ↦ panicked | some a ↦ ok a ]

module _ {ℓ κ} {A : Type ℓ} {B : Type κ} where
  unfoldable pub transform : (A → B) → DbMapsData A → DbMapsData B
  transform f d = map f d

  -- stops at the first error
  unfoldable pub try_transform : (A → Result B) → DbMapsData A → Result (DbMapsData B)
  try_transform f [] = ok []
  try_transform f (a ∷ d) = do b ← f a; rest ← try_transform f d; ok (b ∷ rest)

pub record DbMapDesc : Type 0 where
  pub name : Str
  pub value_size_hint : ℕ × ℕ

-- `DbMapDesc::new_with_details`
unfoldable pub new_with_details : Str → ℕ × ℕ → DbMapDesc
new_with_details n hint = record { name = n; value_size_hint = hint }

-- `DbMapDesc::new`
unfoldable pub new_desc : Str → DbMapDesc
unfolding new_with_details
new_desc n = new_with_details n (0, usize_max)

pub record DbDesc : Type 0 where
  pub map_descs : DbMapsData DbMapDesc

-- the `BTreeSet` of the names
unfoldable pub name_set : List DbMapDesc → BTreeMap Str (Unit {0})
name_set descs = extend [] (map (λ d. (d.name, tt)) descs)

-- `construct::db_desc` with `assert_names_unique`
unfoldable pub db_desc : List DbMapDesc → Result DbDesc
unfolding name_set db_map_count
db_desc descs =
    if length (name_set descs) == db_map_count descs
    then ok (record { map_descs = descs })
    else panicked

-- ===== src/TestSuite/Harness/Laws.antt =====
-- Opening the storage for a test, and assertions that hold.
use rpi4_usb_io_breaker.Base.{ℕ, Option, [], ◌≡◌, refl, replicate, List}
use rpi4_usb_io_breaker.Base.Ord.{list_ord}
use rpi4_usb_io_breaker.BTreeMap.{insert, extend}
use rpi4_usb_io_breaker.Core.Data.{Data}
use rpi4_usb_io_breaker.Core.Error.{ok}
use rpi4_usb_io_breaker.Core.Types.{DbDesc, db_map_count, new_desc}
use rpi4_usb_io_breaker.Core.Backend.{Backend}
use rpi4_usb_io_breaker.Core.Contract.{BackendLaws}
use rpi4_usb_io_breaker.TestSuite.Model.{Model}
use rpi4_usb_io_breaker.TestSuite.Harness.{
  desc, open_store, assert, assert_value, assert_model, assert_entry, assert_values, assert_count,
}

assert_holds {ℓ} : {P : Type ℓ} (d : Dec P) → P → assert d ≡ ok tt
unfolding assert
assert_holds (yes _) p = refl
assert_holds (no n) p = absurd (n p)

pub assert_value_refl : (a : Option Data) → assert_value a a ≡ ok tt
unfolding assert_value
assert_value_refl a = assert_holds _ refl

pub assert_model_refl : (a : Model) → assert_model a a ≡ ok tt
unfolding assert_model
assert_model_refl a = assert_holds _ refl

-- the numbers of maps with which the tests open a storage
pub data Count : ℕ → Type 0 where
  one : Count 1
  two : Count 2
  five : Count 5

desc_lem : {n : ℕ} → Count n → (d : DbDesc) × (desc n ≡ ok d) × (db_map_count d.map_descs ≡ n)
unfolding desc extend insert list_ord new_desc
desc_lem one = (_, refl, refl)
desc_lem two = (_, refl, refl)
desc_lem five = (_, refl, refl)

pub open_store_lem :
    (b : Backend) (laws : BackendLaws b) {n : ℕ}
    → Count n
    → (s : b.Impl) × (open_store b n ≡ ok s) × laws.Repr s (replicate n [])
unfolding open_store
open_store_lem b laws {n} c =
    let (d, made, size) = desc_lem c in
    let (s, opened, r) = laws.open_lem d in (s, rw (made, opened) refl, rw size at r)

pub assert_entry_refl : (a : Option (Data × Data)) → assert_entry a a ≡ ok tt
unfolding assert_entry
assert_entry_refl a = assert_holds _ refl

pub assert_values_refl : (a : List Data) → assert_values a a ≡ ok tt
unfolding assert_values
assert_values_refl a = assert_holds _ refl

pub assert_count_refl : (n : ℕ) → assert_count n n ≡ ok tt
unfolding assert_count
assert_count_refl n = assert_holds _ refl

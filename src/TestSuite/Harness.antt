-- ===== src/TestSuite/Harness.antt =====
-- storage/backend-test-suite/src/prelude.rs, and the assertions of the tests.
pub mod Laws
use Prim.Native.Char.{code}
use native.Mathlib.Decide.{ℕ_discrete}
use rpi4_usb_io_breaker.Base.{
  ℕ, zero, suc, ◌+◌, ◌/◌, ◌%◌, Option, some, List, [], ◌∷◌, ◌++◌, map, ltb, if◌then◌else◌,
}
use rpi4_usb_io_breaker.Core.Data.{Data}
use rpi4_usb_io_breaker.Core.Error.{Str, Result, ok, panicked, ◌>>=◌}
use rpi4_usb_io_breaker.Core.Types.{DbDesc, DbMapDesc, new_desc, indices, db_desc}
use rpi4_usb_io_breaker.Core.Backend.{Backend}
use rpi4_usb_io_breaker.TestSuite.Model.{unwrap, Model}

-- the decimal digits of a number, in front of a text; a number has fewer digits than its own value and one
decimal : ℕ → ℕ → Str → Str
decimal zero n rest = rest
decimal (suc fuel) n rest =
    let more = decimal fuel (n / 10) ((48 + n % 10) ∷ rest) in
    if ltb n 10 then (48 + n) ∷ rest else more

-- `format!("map_{i:02}")`
unfoldable pub map_name : ℕ → Str
unfolding decimal
map_name i =
    let digits = if ltb i 10 then 48 ∷ decimal (suc i) i [] else decimal (suc i) i [] in
    109 ∷ 97 ∷ 112 ∷ 95 ∷ digits

-- `prelude::desc`
unfoldable pub desc : ℕ → Result DbDesc
unfolding map_name db_desc indices
desc n = db_desc (map (λ i. new_desc (map_name i)) (indices n))

-- `backend.open(desc(n)).expect(..)`
unfoldable pub open_store : (b : Backend) → ℕ → Result b.Impl
open_store b n = do d ← desc n; unwrap (b.open_db d)

pub Option-discrete : Discrete (Option Data)
Option-discrete = hlevel ℕ_discrete

pub Model-discrete : Discrete Model
Model-discrete = hlevel ℕ_discrete

assert {ℓ} : {P : Type ℓ} → Dec P → Result (Unit {0})
assert (yes _) = ok tt
assert (no _) = panicked

-- `assert_eq!` on a value under a key
unfoldable pub assert_value : Option Data → Option Data → Result (Unit {0})
unfolding assert
assert_value a b = assert (Option-discrete a b)

-- `assert_eq!` on models, and on the items of iterators
unfoldable pub assert_model : Model → Model → Result (Unit {0})
unfolding assert
assert_model a b = assert (Model-discrete a b)

pub Entry-discrete : Discrete (Option (Data × Data))
Entry-discrete = hlevel ℕ_discrete

pub Values-discrete : Discrete (List Data)
Values-discrete = hlevel ℕ_discrete

-- `assert_eq!` on an item of an iterator, on a vector of values, and on a count
unfoldable pub assert_entry : Option (Data × Data) → Option (Data × Data) → Result (Unit {0})
unfolding assert
assert_entry a b = assert (Entry-discrete a b)

unfoldable pub assert_values : List Data → List Data → Result (Unit {0})
unfolding assert
assert_values a b = assert (Values-discrete a b)

unfoldable pub assert_count : ℕ → ℕ → Result (Unit {0})
unfolding assert
assert_count a b = assert (ℕ_discrete a b)

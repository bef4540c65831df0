-- ===== src/TestUtils/Shuffle.antt =====
-- `shuffle_until_different` of test-utils/src/random.rs.
pub mod Different
use rpi4_usb_io_breaker.Base.{
  ℕ, zero, suc, ◌+◌, ◌-◌, Bool, true, false, ◌==◌, Option, none, some, List, [], ◌∷◌, length,
  get_elem?, set, if◌then◌else◌,
}
use rpi4_usb_io_breaker.Core.Error.{Result, ok, err, panicked}
use rpi4_usb_io_breaker.TestUtils.Random.{Rng}

module _ {A : Type 0} where
  -- `slice::swap`, which panics out of bounds
  pub swap : List A → ℕ → ℕ → Result (List A)
  swap xs i j = elim (get_elem? xs i) [
    | none ↦ panicked
    | some a ↦ elim (get_elem? xs j) [ none ↦ panicked | some b ↦ ok (set (set xs i b) j a) ]
  ]

module _ (rng : Rng) {A : Type 0} where
  -- `for i in (1..=n).rev()`, with the slice and `swapped`
  pub pass : ℕ → List A → Bool → rng.State → Result (List A × Bool) × rng.State
  unfolding swap
  pass zero xs swapped s = (ok (xs, swapped), s)
  pass (suc n) xs swapped s =
      let (other_idx, s') = rng.gen_range 0 (suc n + 1) s in
      elim (other_idx == suc n) [
        | true ↦ pass n xs swapped s'
        | false ↦ elim (swap xs (suc n) other_idx) [
          | ok ys ↦ pass n ys true s'
          | err e ↦ (err e, s')
          | panicked ↦ (panicked, s')
        ]
      ]

  -- the attempts that are left
  pub attempts : ℕ → List A → rng.State → Result (List A) × rng.State
  unfolding pass
  attempts zero xs s = (panicked, s)
  attempts (suc n) xs s =
      let (r, s') = pass (length xs - 1) xs false s in
      elim r [
        | ok (ys, swapped) ↦ elim swapped [ true ↦ (ok ys, s') | false ↦ attempts n ys s' ]
        | err e ↦ (err e, s')
        | panicked ↦ (panicked, s')
      ]

  pub shuffle_until_different : List A → rng.State → Result (List A) × rng.State
  unfolding attempts
  shuffle_until_different xs s = attempts 1000 xs s

-- ===== src/TestUtils/Split.antt =====
-- `split_value` of test-utils/src/lib.rs. A difference of `u128` panics below 0 where overflow is checked, and wraps around
-- elsewhere.
pub mod Sums
use rpi4_usb_io_breaker.Base.{
  ℕ, zero, suc, ◌+◌, ◌-◌, ◌^◌, ◌≤◌, ◌<◌, Bool, true, false, ◌&&◌, leb, ltb, List, [], ◌∷◌, ◌++◌,
  All, length, total, arith, ◌≡◌, refl, ap, if◌then◌else◌, ◌⊎◌, inl, inr, Bool-cases,
}
use rpi4_usb_io_breaker.Core.Error.{Result, ok, panicked, ◌>>=◌}
use rpi4_usb_io_breaker.TestUtils.Random.{Rng, RngLaws}

-- `slice::sort`, on numbers
insert : ℕ → List ℕ → List ℕ
insert x [] = x ∷ []
insert x (y ∷ ys) = if leb x y then x ∷ y ∷ ys else y ∷ insert x ys

pub sort : List ℕ → List ℕ
unfolding insert
sort [] = []
sort (x ∷ xs) = insert x (sort xs)

abbrev pub sub_u128 : Bool → ℕ → ℕ → Result ℕ
sub_u128 checked a b =
    if leb b a then ok (a - b) else if checked then panicked else ok (a + 2 ^ 128 - b)

-- `tuple_windows().map(|(v0, v1)| v1 - v0)`
pub differences : Bool → List ℕ → Result (List ℕ)
differences checked [] = ok []
differences checked (v0 ∷ []) = ok []
differences checked (v0 ∷ v1 ∷ vs) =
    let rest = differences checked (v1 ∷ vs) in
    do d ← sub_u128 checked v1 v0; ds ← rest; ok (d ∷ ds)

module _ (rng : Rng) where
  -- so many draws from `1..value`
  pub draws : ℕ → ℕ → rng.State → List ℕ × rng.State
  draws zero value s = ([], s)
  draws (suc n) value s =
      let (x, s') = rng.gen_range 1 value s in let (xs, s2) = draws n value s' in (x ∷ xs, s2)

  unfoldable pub split_value : Bool → ℕ → rng.State → Result (List ℕ) × rng.State
  unfolding draws sort differences
  split_value checked value s =
      let (n, s') = rng.gen_range 0 10 s in
      if ltb 1 value && ltb 0 n
      then (let (xs, s2) = draws (suc n) value s' in
          (differences checked (sort ((0 ∷ value ∷ []) ++ xs)), s2))
      else (differences checked (0 ∷ value ∷ []), s')

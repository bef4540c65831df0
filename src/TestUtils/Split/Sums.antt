-- ===== src/TestUtils/Split/Sums.antt =====
-- The parts of `split_value` sum to the value, on every build.
use rpi4_usb_io_breaker.Base.{
  ℕ, zero, suc, ◌+◌, ◌-◌, ◌≤◌, ◌<◌, Bool, true, false, ◌&&◌, ltb, List, [], ◌∷◌, ◌++◌, All, length,
  total, arith, ◌≡◌, refl, ap, ◌⊎◌, inl, inr, Bool-cases, ◌∙◌,
}
use rpi4_usb_io_breaker.Core.Error.{ok}
use rpi4_usb_io_breaker.TestUtils.Random.{Rng, RngLaws}
use rpi4_usb_io_breaker.TestUtils.Split.{insert, sort, sub_u128, differences, draws, split_value}

abbrev sum : List ℕ → ℕ
sum l = total (λ x. x) l

-- ascending from `a`
abbrev Ascending : ℕ → List ℕ → Type 0
Ascending a [] = Unit
Ascending a (x ∷ l) = (a ≤ x) × Ascending x l

insert-Ascending : (a x : ℕ) (l : List ℕ) → a ≤ x → Ascending a l → Ascending a (insert x l)
unfolding insert
insert-Ascending a x [] h s = (h, tt)
insert-Ascending a x (y ∷ l) h s = ground (arith, insert-Ascending y x l)

sort-Ascending : (l : List ℕ) → Ascending 0 (sort l)
unfolding sort
sort-Ascending [] = tt
sort-Ascending (x ∷ l) = insert-Ascending 0 x (sort l) (omega arith) (sort-Ascending l)

insert-All : (n x : ℕ) (l : List ℕ) → x < n → All (λ y. y < n) l → All (λ y. y < n) (insert x l)
unfolding insert
insert-All n x [] h s = (h, tt)
insert-All n x (y ∷ l) h s = ground (arith, insert-All n x l)

sort-All : (n : ℕ) (l : List ℕ) → All (λ y. y < n) l → All (λ y. y < n) (sort l)
unfolding sort
sort-All n [] h = tt
sort-All n (x ∷ l) h = insert-All n x (sort l) h.0 (sort-All n l h.1)

length-insert : (x : ℕ) (l : List ℕ) → length (insert x l) ≡ suc (length l)
unfolding insert
length-insert x [] = refl
length-insert x (y ∷ l) = ground (arith, length-insert x l)

length-sort : (l : List ℕ) → length (sort l) ≡ length l
unfolding sort
length-sort [] = refl
length-sort (x ∷ l) = length-insert x (sort l) ∙ ap suc (length-sort l)

-- a number above all goes last
insert_last : (n : ℕ) (l : List ℕ) → All (λ y. y < n) l → insert n l ≡ l ++ n ∷ []
unfolding insert
insert_last n [] h = refl
insert_last n (y ∷ l) h = ground (arith, insert_last n l)

insert_first : (l : List ℕ) → insert 0 l ≡ 0 ∷ l
unfolding insert
insert_first [] = refl
insert_first (y ∷ l) = ground arith

sort_bounds :
    (n : ℕ) (l : List ℕ) → All (λ y. y < n) l → sort ((0 ∷ n ∷ []) ++ l) ≡ 0 ∷ (sort l ++ n ∷ [])
unfolding sort
sort_bounds n l h = rw (insert_last n (sort l) (sort-All n l h)) (insert_first (sort l ++ n ∷ []))

sub_u128-of_le : (checked : Bool) (a b : ℕ) → b ≤ a → sub_u128 checked a b ≡ ok (a - b)
sub_u128-of_le checked a b h = ground arith

-- The differences of numbers that ascend from `a` to `n` bring `a` to `n`.
differences_lem :
    (checked : Bool) (a n : ℕ) (l : List ℕ)
    → a ≤ n
    → Ascending a l
    → All (λ y. y < n) l
    → (ds : List ℕ) × (differences checked (a ∷ (l ++ n ∷ [])) ≡ ok ds)
      × (sum ds + a ≡ n)
      × (length ds ≡ suc (length l))
unfolding differences
differences_lem checked a n [] h s b =
    ((n - a) ∷ [], rw (sub_u128-of_le checked n a h) refl, omega arith, refl)
differences_lem checked a n (x ∷ l) h s b =
    let (ds, e, sums, counts) = differences_lem checked x n l (omega arith) s.1 b.1 in
    ((x - a) ∷ ds, rw (sub_u128-of_le checked x a s.0, e) refl, omega (arith, s.0), ap suc counts)

module _ (rng : Rng) (laws : RngLaws rng) where
  draws_lem :
      (n value : ℕ) (s : rng.State)
      → 1 < value
      → All (λ y. y < value) (draws rng n value s).0 × (length (draws rng n value s).0 ≡ n)
  unfolding draws
  draws_lem zero value s h = (tt, refl)
  draws_lem (suc n) value s h =
      let (rest, counts) = draws_lem n value (rng.gen_range 1 value s).1 h in
      (((laws.gen_range_lem 1 value s h).1, rest), ap suc counts)

  whole : (checked : Bool) (value : ℕ) → differences checked (0 ∷ value ∷ []) ≡ ok (value ∷ [])
  unfolding differences
  whole checked value =
      let e : value - 0 ≡ value = omega arith in
      rw (sub_u128-of_le checked value 0 (omega arith), e) refl

  split_value_long :
      (checked : Bool) (value : ℕ) (s : rng.State)
      → (ltb 1 value && ltb 0 (rng.gen_range 0 10 s).0) ≡ true
      → (split_value rng checked value s).0
        ≡ differences checked (
            sort (
              (0 ∷ value ∷ [])
              ++ (draws rng (suc (rng.gen_range 0 10 s).0) value (rng.gen_range 0 10 s).1).0))
  unfolding split_value
  split_value_long checked value s y = rw (split_value, y) refl

  split_value_short :
      (checked : Bool) (value : ℕ) (s : rng.State)
      → (ltb 1 value && ltb 0 (rng.gen_range 0 10 s).0) ≡ false
      → (split_value rng checked value s).0 ≡ differences checked (0 ∷ value ∷ [])
  unfolding split_value
  split_value_short checked value s short = rw (split_value, short) refl

  -- `split_value` returns between 1 and 11 parts, and they sum to the value: no difference is below 0, so that
  -- it makes no difference whether overflow is checked. A value of at most 1 is not split.
  pub sum-split_value :
      (checked : Bool) (value : ℕ) (s : rng.State)
      → (parts : List ℕ) × ((split_value rng checked value s).0 ≡ ok parts)
        × (total (λ x. x) parts ≡ value)
        × (1 ≤ length parts)
        × (length parts ≤ 11)
        × ((1 < value) ⊎ (parts ≡ value ∷ []))
  sum-split_value checked value s =
      elim (Bool-cases (ltb 1 value && ltb 0 (rng.gen_range 0 10 s).0)) [
        | inl y ↦
            let n = (rng.gen_range 0 10 s).0 in
            let big : 1 < value = ground arith in
            let xs = (draws rng (suc n) value (rng.gen_range 0 10 s).1).0 in
            let (below, counts) = draws_lem (suc n) value (rng.gen_range 0 10 s).1 big in
            let (ds, e, sums, counted) =
              differences_lem checked 0 value (sort xs) (omega arith) (sort-Ascending xs)
                (sort-All value xs below) in
            (
              ds,
              split_value_long checked value s y ∙ rw (sort_bounds value xs below) e,
              omega (arith, sums),
              omega (arith, counted),
              omega
                  (arith, counted, length-sort xs, counts, laws.gen_range_lem 0 10 s (omega arith)),
              inl big,
            )
        | inr short ↦ (
          value ∷ [],
          split_value_short checked value s short ∙ whole checked value,
          omega arith,
          omega arith,
          omega arith,
          inr refl,
        )
      ]

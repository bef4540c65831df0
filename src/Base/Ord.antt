-- ===== src/Base/Ord.antt =====
-- Rust's `Ord`: a three-way comparison with its laws, for numbers and, lexicographically, for lists
-- (`Vec<T>: Ord`, which orders the keys of the storage).
use Prim.Native.Nat.{ℕ, compare, Ordering}
use Prim.Native.Nat.Ordering.{lt, eq, gt}
use mathlib.Core.Path.{◌≡◌, refl}
use mathlib.Core.List.{List, [], ◌∷◌}
use native.Mathlib.Omega.{arith}

-- `Ordering::reverse`
abbrev pub reverse : Ordering → Ordering
reverse lt = gt
reverse eq = eq
reverse gt = lt

-- the comparison of a total order, of which equality is equality of values
pub record TotalOrder {ℓ} {A : Type ℓ} (comparison : A → A → Ordering) : Type ℓ where
  pub swapped : (x y : A) → comparison y x ≡ reverse (comparison x y)
  pub eq_self : (x : A) → comparison x x ≡ eq
  pub eq_same : (x y : A) → comparison x y ≡ eq → x ≡ y
  pub lt_trans : (x y z : A) → comparison x y ≡ lt → comparison y z ≡ lt → comparison x z ≡ lt

pub nat_order : TotalOrder compare
nat_order = ground arith

pub record Ord {ℓ} (A : Type ℓ) : Type ℓ where
  pub cmp : A → A → Ordering
  pub order : TotalOrder cmp
  pub open order use *

module _ {ℓ} {A : Type ℓ} ⦃o : Ord A⦄ where
  infix 50 ◌≺◌
  abbrev pub ◌≺◌ : A → A → Type 0
  x ≺ y = o.cmp x y ≡ lt

  pub lt_of_gt : (x y : A) → o.cmp x y ≡ gt → y ≺ x
  lt_of_gt x y h = rw (o.swapped x y, h) refl

instance unfoldable pub number_ord : Ord ℕ
number_ord = record { cmp = compare; order = nat_order }

abbrev pub lex : List ℕ → List ℕ → Ordering
lex [] [] = eq
lex [] (b ∷ bs) = lt
lex (a ∷ as') [] = gt
lex (a ∷ as') (b ∷ bs) = elim (compare a b) [ lt ↦ lt | eq ↦ lex as' bs | gt ↦ gt ]

lex_refl : (a : List ℕ) → lex a a ≡ eq
lex_refl [] = refl
lex_refl (a ∷ l) = ground (arith, lex_refl l)

eq_of_lex : (a b : List ℕ) → lex a b ≡ eq → a ≡ b
eq_of_lex [] [] h = refl
eq_of_lex [] (b ∷ m) h = ground arith
eq_of_lex (a ∷ l) [] h = ground arith
eq_of_lex (a ∷ l) (b ∷ m) h = ground (arith, eq_of_lex l m)

lex_swapped : (a b : List ℕ) → lex b a ≡ reverse (lex a b)
lex_swapped [] [] = refl
lex_swapped [] (b ∷ m) = refl
lex_swapped (a ∷ l) [] = refl
lex_swapped (a ∷ l) (b ∷ m) = ground (arith, lex_swapped l m)

lex_trans : (a b c : List ℕ) → lex a b ≡ lt → lex b c ≡ lt → lex a c ≡ lt
lex_trans [] [] c h k = ground arith
lex_trans [] (b ∷ m) [] h k = ground arith
lex_trans [] (b ∷ m) (c ∷ n) h k = refl
lex_trans (a ∷ l) [] c h k = ground arith
lex_trans (a ∷ l) (b ∷ m) [] h k = ground arith
lex_trans (a ∷ l) (b ∷ m) (c ∷ n) h k = ground (arith, lex_trans l m n)

pub lex_order : TotalOrder lex
lex_order = record {
  swapped = lex_swapped;
  eq_self = lex_refl;
  eq_same = eq_of_lex;
  lt_trans = lex_trans;
}

instance unfoldable pub list_ord : Ord (List ℕ)
list_ord = record { cmp = lex; order = lex_order }

-- tuples: the second components count where the first are equal
module _ {ℓ κ} {A : Type ℓ} {B : Type κ} ⦃a : Ord A⦄ ⦃b : Ord B⦄ where
  abbrev pub pair_cmp : A × B → A × B → Ordering
  pair_cmp x y = elim (a.cmp x.0 y.0) [ lt ↦ lt | eq ↦ b.cmp x.1 y.1 | gt ↦ gt ]

  pair_order : TotalOrder pair_cmp
  pair_order = record {
    swapped = λ x y. ground (arith, a.swapped x.0 y.0, b.swapped x.1 y.1);
    eq_self = λ x. ground (arith, a.eq_self x.0, b.eq_self x.1);
    eq_same = λ x y. ground (arith, a.eq_same x.0 y.0, b.eq_same x.1 y.1);
    lt_trans = λ x y z. ground (
      arith,
      a.eq_same x.0 y.0,
      a.eq_same y.0 z.0,
      a.lt_trans x.0 y.0 z.0,
      b.lt_trans x.1 y.1 z.1,
    );
  }

  instance unfoldable pub tuple_ord : Ord (A × B)
  unfolding pair_order
  tuple_ord = record { cmp = pair_cmp; order = pair_order }

-- To split on a comparison and keep the equation.
pub data Compared (c : Ordering) : Type 0 where
  is_lt : c ≡ lt → Compared c
  is_eq : c ≡ eq → Compared c
  is_gt : c ≡ gt → Compared c

pub Ordering-cases : (c : Ordering) → Compared c
Ordering-cases lt = is_lt refl
Ordering-cases eq = is_eq refl
Ordering-cases gt = is_gt refl

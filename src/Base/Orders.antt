-- ===== src/Base/Orders.antt =====
-- The orders in which the items of a list can stand, without a truncation.
use Prim.Native.Nat.{ℕ, zero, suc}
use mathlib.Core.Path.{◌≡◌, refl, ap}
use mathlib.Core.Option.{some}
use mathlib.Core.List.{List, [], ◌∷◌, ◌++◌, append_assoc, append-nil, Perm, perm_middle}
use mathlib.Core.List.Perm
use mathlib.Core.Logic.{◌⊎◌, inl, inr}
use native.Mathlib.Omega.{arith}
use rpi4_usb_io_breaker.Base.Lists.{get_elem?, set}

module _ {ℓ} {A : Type ℓ} where
  -- each item of the first list is taken out of the second, and nothing is left
  abbrev pub IsOrder : List A → List A → Type ℓ
  IsOrder [] h = h ≡ []
  IsOrder (x ∷ xs) h =
      (pre : List A) × (post : List A) × (h ≡ pre ++ (x ∷ post)) × IsOrder xs (pre ++ post)

  pub IsOrder-Perm : (xs h : List A) → IsOrder xs h → Perm h xs
  IsOrder-Perm [] h e = rw e Perm.nil
  IsOrder-Perm (x ∷ xs) h (pre, post, e, r) =
      rw e (Perm.trans (perm_middle pre post) (Perm.cons x (IsOrder-Perm xs (pre ++ post) r)))

  IsOrder-behind :
      (ys xs xs' : List A) (e : A)
      → ((h : List A) → IsOrder xs h → IsOrder xs' (h ++ (e ∷ [])))
      → (h : List A) → IsOrder (ys ++ xs) h
      → IsOrder (ys ++ xs') (h ++ (e ∷ []))
  IsOrder-behind [] xs xs' e f h r = f h r
  IsOrder-behind (y ∷ ys) xs xs' e f h (pre, post, eq, r) = (
    pre,
    post ++ (e ∷ []),
    rw (eq, append_assoc) refl,
    rw (← append_assoc) (IsOrder-behind ys xs xs' e f (pre ++ post) r),
  )

  pub two_orders :
      (x y : A) (h : List A) → IsOrder (x ∷ y ∷ []) h → (h ≡ x ∷ y ∷ []) ⊎ (h ≡ y ∷ x ∷ [])
  two_orders x y h ([], post, e, ([], [], e', r)) = inl (rw (e, e') refl)
  two_orders x y h ([], post, e, ([], q ∷ post', e', r)) = ground arith
  two_orders x y h ([], post, e, (q ∷ pre', post', e', r)) = ground arith
  two_orders x y h (p ∷ [], [], e, ([], [], e', r)) = inr (ground arith)
  two_orders x y h (p ∷ [], q ∷ post, e, ([], [], e', r)) = ground arith
  two_orders x y h (p ∷ q ∷ pre, post, e, ([], [], e', r)) = ground arith
  two_orders x y h (p ∷ pre, post, e, ([], q ∷ post', e', r)) = ground arith
  two_orders x y h (p ∷ pre, post, e, (q ∷ pre', post', e', r)) = ground arith

module _ {ℓ κ} {A : Type ℓ} {B : Type κ} (f : A → List B) where
  abbrev pub concat_map : List A → List B
  concat_map [] = []
  concat_map (x ∷ xs) = f x ++ concat_map xs

  pub concat_map-set :
      (xs : List A) (i : ℕ) (v : A) {x : A}
      → get_elem? xs i ≡ some x
      → f x ≡ []
      → f v ≡ []
      → concat_map (set xs i v) ≡ concat_map xs
  concat_map-set [] i v e a b = refl
  concat_map-set (y ∷ xs) zero v e a b = ground arith
  concat_map-set (y ∷ xs) (suc i) v e a b = ap (λ r. f y ++ r) (concat_map-set xs i v e a b)

  -- a new item stands last in the order
  pub IsOrder-set :
      (xs : List A) (i : ℕ) (v : A) {x : A} (b : B)
      → get_elem? xs i ≡ some x
      → f x ≡ []
      → f v ≡ b ∷ []
      → (h : List B) → IsOrder (concat_map xs) h
      → IsOrder (concat_map (set xs i v)) (h ++ (b ∷ []))
  IsOrder-set [] i v b e fx fv h r = ground arith
  IsOrder-set (y ∷ xs) zero v {x} b e fx fv h r =
      let same : f y ≡ [] = ground arith in rw fv (h, [], refl, rw append-nil (rw same at r))
  IsOrder-set (y ∷ xs) (suc i) v b e fx fv h r =
      IsOrder-behind (f y) (concat_map xs) (concat_map (set xs i v)) b
        (IsOrder-set xs i v b e fx fv) h r

-- ===== src/Core/Util/Collect.antt =====
-- What the prefix iterator of storage/core/src/util.rs yields, and that it stays at its end.
use Prim.Native.Nat.Ordering.{lt}
use native.Mathlib.Nat.{le_refl}
use rpi4_usb_io_breaker.Base.{
  ℕ, zero, suc, false, none, List, [], ◌∷◌, length, arith, keep, ◌≡◌, ◌≢◌, refl, ◌≤◌, ◌∙◌, ap,
}
use rpi4_usb_io_breaker.Base.Ord.{list_ord, lex, lex_order}
use rpi4_usb_io_breaker.BTreeMap.{BTreeMap, range_from}
use rpi4_usb_io_breaker.BTreeMap.Sorted.{Above, IsSorted, range_from-IsSorted}
use rpi4_usb_io_breaker.Core.Data.{Data, starts_with, starts_with-below, starts_with-above}
use rpi4_usb_io_breaker.Core.Util.{PrefixIter, new, next, collect_fuel, collect}

-- the entries whose key starts with the prefix, which is what the iterator is for
abbrev pub with_prefix {ℓ} : {T : Type ℓ} → Data → BTreeMap Data T → BTreeMap Data T
with_prefix p m = keep (λ e. starts_with e.0 p) m

pub with_prefix-nil {ℓ} : {T : Type ℓ} (m : BTreeMap Data T) → with_prefix [] m ≡ m
unfolding starts_with
with_prefix-nil [] = refl
with_prefix-nil (e ∷ m) = ap (λ (r : BTreeMap Data _). e ∷ r) (with_prefix-nil m)

module _ {ℓ} {T : Type ℓ} where
  -- after a key that lies above the prefix and does not start with it, no key does
  pub with_prefix-past :
      (p j : Data) (m : BTreeMap Data T)
      → lex j p ≢ lt
      → starts_with j p ≡ false
      → Above j m
      → with_prefix p m ≡ []
  unfolding list_ord
  with_prefix-past p j [] n e s = refl
  with_prefix-past p j ((k, v) ∷ m) n e s =
      rw (starts_with-above j k p n s.0 e) (with_prefix-past p j m n e s.1)

  -- no key lies below `p`
  abbrev pub From : Data → BTreeMap Data T → Type 0
  From p [] = Unit
  From p ((j, v) ∷ m) = (lex j p ≢ lt) × From p m

  From-of-Above : (p j : Data) (m : BTreeMap Data T) → lex j p ≢ lt → Above j m → From p m
  unfolding list_ord
  From-of-Above p j [] n s = tt
  From-of-Above p j ((k, v) ∷ m) n s =
      let above : lex k p ≢ lt = λ below. n (lex_order.lt_trans j k p s.0 below) in
      (above, From-of-Above p j m n s.1)

  pub From-range_from : (p : Data) (m : BTreeMap Data T) → IsSorted m → From p (range_from p m)
  unfolding range_from list_ord
  From-range_from p [] s = tt
  From-range_from p ((j, v) ∷ m) s = ground (arith, From-range_from p m s.1, From-of-Above p j m)

  pub with_prefix-range_from :
      (p : Data) (m : BTreeMap Data T) → with_prefix p (range_from p m) ≡ with_prefix p m
  unfolding range_from list_ord
  with_prefix-range_from p [] = refl
  with_prefix-range_from p ((j, v) ∷ m) =
      ground (arith, with_prefix-range_from p m, starts_with-below j p)

  -- with the fuel for every entry, the iterator yields the entries with the prefix
  collect_fuel-with_prefix :
      (n : ℕ) (p : Data) (m : BTreeMap Data T)
      → length m ≤ n
      → IsSorted m
      → From p m
      → collect_fuel n (record { inner = m; pfx = p }) ≡ with_prefix p m
  unfolding collect_fuel next list_ord
  collect_fuel-with_prefix zero p [] h s f = refl
  collect_fuel-with_prefix zero p (e ∷ m) h s f = absurd (omega arith)
  collect_fuel-with_prefix (suc n) p [] h s f = refl
  collect_fuel-with_prefix (suc n) p ((j, v) ∷ m) h s f =
      ground (arith, collect_fuel-with_prefix n p m, with_prefix-past p j m)

  -- For a map with ascending keys: collecting the iterator over a prefix gives the map's entries whose
  -- keys start with the prefix, in the map's order.
  pub collect-new :
      (m : BTreeMap Data T) (p : Data) → IsSorted m → collect (new m p) ≡ with_prefix p m
  unfolding collect new
  collect-new m p s =
      collect_fuel-with_prefix (length (range_from p m)) p (range_from p m) (le_refl _)
        (range_from-IsSorted p m s) (From-range_from p m s)
      ∙ with_prefix-range_from p m

  enough :
      (n k : ℕ) (p : Data) (m : List (Data × T))
      → length m ≤ n
      → length m ≤ k
      → collect_fuel n (record { inner = m; pfx = p })
        ≡ collect_fuel k (record { inner = m; pfx = p })
  unfolding collect_fuel next
  enough zero zero p m h h' = refl
  enough zero (suc k) p [] h h' = refl
  enough zero (suc k) p (e ∷ m) h h' = absurd (omega arith)
  enough (suc n) zero p [] h h' = refl
  enough (suc n) zero p (e ∷ m) h h' = absurd (omega arith)
  enough (suc n) (suc k) p [] h h' = refl
  enough (suc n) (suc k) p ((j, v) ∷ m) h h' = ground (arith, enough n k p m)

  -- More fuel than the entries that are left changes nothing.
  pub collect_fuel-enough :
      (n : ℕ) (it : PrefixIter T) → length it.inner ≤ n → collect_fuel n it ≡ collect it
  unfolding collect
  collect_fuel-enough n it h = enough n (length it.inner) it.pfx it.inner h (le_refl _)

  -- the state after `n` calls of `next`
  abbrev pub advance : ℕ → PrefixIter T → PrefixIter T
  advance zero it = it
  advance (suc n) it = advance n (next it).1

  -- the entries that are left ascend from the prefix
  abbrev Fits : PrefixIter T → Type 0
  Fits it = IsSorted it.inner × From it.pfx it.inner

  next-Fits :
      (m : BTreeMap Data T) (p : Data)
      → IsSorted m
      → From p m
      → Fits (next (record { inner = m; pfx = p })).1
  unfolding next
  next-Fits [] p s f = (tt, tt)
  next-Fits ((j, v) ∷ m) p s f = (s.1, f.1)

  advance-Fits : (n : ℕ) (it : PrefixIter T) → Fits it → Fits (advance n it)
  advance-Fits zero it f = f
  advance-Fits (suc n) it f = advance-Fits n (next it).1 (next-Fits it.inner it.pfx f.0 f.1)

  none_left :
      (m : BTreeMap Data T) (p : Data)
      → IsSorted m
      → From p m
      → (next (record { inner = m; pfx = p })).0 ≡ none
      → let it = (next (record { inner = m; pfx = p })).1 in with_prefix it.pfx it.inner ≡ []
  unfolding next list_ord
  none_left [] p s f e = refl
  none_left ((j, v) ∷ m) p s f e = ground (arith, with_prefix-past p j m)

  ends :
      (k : ℕ) (m : BTreeMap Data T) (p : Data)
      → with_prefix p m ≡ []
      → (next (advance k (record { inner = m; pfx = p }))).0 ≡ none
  unfolding next
  ends zero [] p e = refl
  ends zero ((j, v) ∷ m) p e = ground arith
  ends (suc k) [] p e = ends k [] p e
  ends (suc k) ((j, v) ∷ m) p e = ends k m p (ground arith)

  -- The iterator is fused: over a map with ascending keys, once a call of `next` has returned `None`,
  -- every later call does.
  pub next-fused :
      (m : BTreeMap Data T) (p : Data) (n k : ℕ)
      → IsSorted m
      → (next (advance n (new m p))).0 ≡ none
      → (next (advance k (next (advance n (new m p))).1)).0 ≡ none
  unfolding new
  next-fused m p n k s e =
      let it = advance n (new m p) in
      let f : Fits it =
        advance-Fits n (new m p) (range_from-IsSorted p m s, From-range_from p m s) in
      ends k (next it).1.inner (next it).1.pfx (none_left it.inner it.pfx f.0 f.1 e)

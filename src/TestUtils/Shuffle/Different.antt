-- ===== src/TestUtils/Shuffle/Different.antt =====
-- A shuffle that returns has permuted the slice, and moved something.
use native.Mathlib.Decide.{dec_lt}
use mathlib.Core.List.Perm
use mathlib.Core.List.{Perm}
use rpi4_usb_io_breaker.Base.{
  ℕ, zero, suc, ◌+◌, ◌-◌, ◌<◌, Bool, true, false, ◌==◌, ==_iff, some, List, [], ◌∷◌, length,
  get_elem?, get_elem?-of_lt, set, length-set, get_elem?-set_self, get_elem?-set_ne, arith, ◌≡◌,
  ◌≢◌, refl, sym, ◌∙◌, ap, ◌⊎◌, inl, inr, Bool-cases,
}
use rpi4_usb_io_breaker.Core.Error.{Result, ok, panicked}
use rpi4_usb_io_breaker.TestUtils.Random.{Rng, RngLaws}
use rpi4_usb_io_breaker.TestUtils.Shuffle.{swap, pass, attempts, shuffle_until_different}

module _ {A : Type 0} where
  -- the items are pairwise distinct
  abbrev pub Distinct : List A → Type 0
  Distinct xs = (i j : ℕ) → i < j → j < length xs → get_elem? xs i ≢ get_elem? xs j

  set-Perm :
      (xs : List A) (i : ℕ) (a b : A) → get_elem? xs i ≡ some a → Perm (a ∷ set xs i b) (b ∷ xs)
  set-Perm [] i a b e = ground arith
  set-Perm (x ∷ xs) zero a b e = let same : x ≡ a = ground arith in rw same (Perm.swap b a xs)
  set-Perm (x ∷ xs) (suc i) a b e =
      Perm.trans (Perm.swap x a (set xs i b))
        (Perm.trans (Perm.cons x (set-Perm xs i a b e)) (Perm.swap b x xs))

  record Swapped (xs : List A) (i j : ℕ) : Type 0 where
    ys : List A
    returned : swap xs i j ≡ ok ys
    perm : Perm ys xs
    counts : length ys ≡ length xs
    this : get_elem? ys i ≡ get_elem? xs j
    others : (k : ℕ) → k ≢ i → k ≢ j → get_elem? ys k ≡ get_elem? xs k

  swap_lem : (xs : List A) (i j : ℕ) → j < i → i < length xs → Swapped xs i j
  unfolding swap
  swap_lem xs i j h h' =
      let (a, at) = get_elem?-of_lt xs i h' in
      let (b, bt) = get_elem?-of_lt xs j (omega arith) in
      let zs = set xs i b in
      let bt' : get_elem? zs j ≡ some b = get_elem?-set_ne xs i j b (omega arith) ∙ bt in
      record {
        ys = set zs j a;
        returned = rw (swap, at, bt) refl;
        perm = Perm.cons_inv (Perm.trans (set-Perm zs j b a bt') (set-Perm xs i a b at));
        counts = length-set zs j a ∙ length-set xs i b;
        this = get_elem?-set_ne zs j i a (omega arith) ∙ get_elem?-set_self xs i b h' ∙ sym bt;
        others = λ k n n'.
            get_elem?-set_ne zs j k a (λ e. n' (sym e))
            ∙ get_elem?-set_ne xs i k b (λ e. n (sym e));
      }

  -- an item stands where another one stood
  record Moved (xs ys : List A) : Type 0 where
    from : ℕ
    to : ℕ
    apart : from < to
    inside : to < length xs
    now : get_elem? ys to ≡ get_elem? xs from

  Moved-ne : (xs ys : List A) → Distinct xs → Moved xs ys → ys ≢ xs
  Moved-ne xs ys d m e = d m.from m.to m.apart m.inside (sym m.now ∙ ap (λ l. get_elem? l m.to) e)

module _ (rng : Rng) (laws : RngLaws rng) {A : Type 0} where
  -- Positions above `n` are kept. If something was swapped, an item moved, and else the first draw was `n`.
  record Passed (n : ℕ) (xs : List A) (swapped : Bool) (s : rng.State) : Type 0 where
    ys : List A
    swapped' : Bool
    returned : (pass rng n xs swapped s).0 ≡ ok (ys, swapped')
    perm : Perm ys xs
    counts : length ys ≡ length xs
    above : (k : ℕ) → n < k → get_elem? ys k ≡ get_elem? xs k
    outcome :
        ((swapped' ≡ true) × ((swapped ≡ true) ⊎ Moved xs ys))
        ⊎ ((swapped' ≡ false)
            × (swapped ≡ false)
            × (ys ≡ xs)
            × ((n ≡ 0) ⊎ ((rng.gen_range 0 (n + 1) s).0 ≡ n)))

  started_with : (xs : List A) (swapped : Bool) (s : rng.State) → Passed zero xs swapped s
  unfolding pass
  started_with xs true s = record {
    ys = xs;
    swapped' = true;
    returned = refl;
    perm = Perm.refl xs;
    counts = refl;
    above = λ k h. refl;
    outcome = inl (refl, inl refl);
  }
  started_with xs false s = record {
    ys = xs;
    swapped' = false;
    returned = refl;
    perm = Perm.refl xs;
    counts = refl;
    above = λ k h. refl;
    outcome = inr (refl, refl, refl, inl refl);
  }

  pass_lem :
      (n : ℕ) (xs : List A) (swapped : Bool) (s : rng.State)
      → (n ≡ 0) ⊎ (n < length xs)
      → Passed n xs swapped s
  unfolding pass
  pass_lem zero xs swapped s h = started_with xs swapped s
  pass_lem (suc n) xs swapped s h =
      let j = (rng.gen_range 0 (suc n + 1) s).0 in
      let s' = (rng.gen_range 0 (suc n + 1) s).1 in
      let inside : suc n < length xs = ground arith in
      elim (Bool-cases (j == suc n)) [
        | inl y ↦
            let rest = pass_lem n xs swapped s' (inr (omega arith)) in
            record {
              ys = rest.ys;
              swapped' = rest.swapped';
              returned = rw (pass, y) rest.returned;
              perm = rest.perm;
              counts = rest.counts;
              above = λ k lt. rest.above k (omega arith);
              outcome = elim (rest.outcome) [
                | inl found ↦ inl found
                | inr (a, b, same, _) ↦ inr (a, b, same, inr ((==_iff j (suc n)).0 y))
              ];
            }
        | inr other ↦
            let before : j < suc n = ground (arith, laws.gen_range_lem 0 (suc n + 1) s) in
            let sw = swap_lem xs (suc n) j before inside in
            let rest = pass_lem n sw.ys true s' (inr (omega (arith, sw.counts))) in
            let on_top : get_elem? rest.ys (suc n) ≡ get_elem? xs j =
              rest.above (suc n) (omega arith) ∙ sw.this in
            let moved : Moved xs rest.ys = record {
              from = j;
              to = suc n;
              apart = before;
              inside = inside;
              now = on_top;
            } in
            record {
              ys = rest.ys;
              swapped' = rest.swapped';
              returned = rw (pass, other, sw.returned) rest.returned;
              perm = Perm.trans rest.perm sw.perm;
              counts = rest.counts ∙ sw.counts;
              above = λ k lt.
                  rest.above k (omega arith) ∙ sw.others k (omega arith) (omega (arith, before));
              outcome = elim (rest.outcome) [
                | inl (a, _) ↦ inl (a, inr moved)
                | inr (_, b, _, _) ↦ cc
              ];
            }
      ]

  -- what a shuffle returns
  abbrev Shuffled : List A → Result (List A) → Type 0
  Shuffled xs r = (ys : List A) × (r ≡ ok ys) × Perm ys xs × (ys ≢ xs)

  abbrev pub LastDrawn : List A → rng.State → Type 0
  LastDrawn xs s = (length xs < 2) ⊎ ((rng.gen_range 0 (length xs) s).0 + 1 ≡ length xs)

  last_drawn :
      (xs : List A) (s : rng.State)
      → (length xs - 1 ≡ 0) ⊎ ((rng.gen_range 0 (length xs - 1 + 1) s).0 ≡ length xs - 1)
      → LastDrawn xs s
  last_drawn xs s (inl small) = inl (omega arith)
  last_drawn xs s (inr last) = elim (dec_lt (length xs) 2) [
    | yes small ↦ inl small
    | no n ↦
        let whole : length xs - 1 + 1 ≡ length xs = omega arith in
        let drawn : (rng.gen_range 0 (length xs) s).0 ≡ length xs - 1 = rw whole at last in
        inr (omega (arith, drawn))
  ]

  -- after one attempt, the slice is shuffled, or the other attempts start with the same slice
  attempted :
      (n : ℕ) (xs : List A) (s : rng.State)
      → Distinct xs
      → Passed (length xs - 1) xs false s
      → Shuffled xs (attempts rng (suc n) xs s).0
        ⊎ ((LastDrawn xs s)
            × ((attempts rng (suc n) xs s).0
                ≡ (attempts rng n xs (pass rng (length xs - 1) xs false s).1).0))
  unfolding attempts
  attempted n xs s d p = elim (p.outcome) [
    | inl (y, inl swapped) ↦ cc
    | inl (y, inr moved) ↦
        inl (p.ys, rw (attempts, p.returned, y) refl, p.perm, Moved-ne xs p.ys d moved)
    | inr (unchanged, _, same, last) ↦
        inr (last_drawn xs s last, rw (attempts, p.returned, unchanged, same) refl)
  ]

  pass_all : (xs : List A) (s : rng.State) → Passed (length xs - 1) xs false s
  pass_all xs s = pass_lem (length xs - 1) xs false s (ground arith)

  attempts_lem :
      (n : ℕ) (xs : List A) (s : rng.State)
      → Distinct xs
      → ((attempts rng n xs s).0 ≡ panicked) ⊎ Shuffled xs (attempts rng n xs s).0
  attempts_lem zero xs s d = inl (unfold attempts in refl)
  attempts_lem (suc n) xs s d = elim (attempted n xs s d (pass_all xs s)) [
    | inl done ↦ inr done
    | inr (_, e) ↦ rw e (attempts_lem n xs (pass rng (length xs - 1) xs false s).1 d)
  ]

  -- For a slice of distinct items, `shuffle_until_different` returns a permutation that differs from the slice, or it
  -- panics; it panics only if the slice has fewer than two items, or the first number drawn is the last index.
  pub shuffle_until_different-ne :
      (xs : List A) (s : rng.State)
      → Distinct xs
      → ((ys : List A) × ((shuffle_until_different rng xs s).0 ≡ ok ys) × Perm ys xs × (ys ≢ xs))
        ⊎ (((shuffle_until_different rng xs s).0 ≡ panicked)
            × ((length xs < 2) ⊎ ((rng.gen_range 0 (length xs) s).0 + 1 ≡ length xs)))
  unfolding shuffle_until_different
  shuffle_until_different-ne xs s d = elim (attempted 999 xs s d (pass_all xs s)) [
    | inl done ↦ inl done
    | inr (last, e) ↦ elim (attempts_lem 999 xs (pass rng (length xs - 1) xs false s).1 d) [
      | inl gone ↦ inr (e ∙ gone, last)
      | inr (ys, returned, perm, differs) ↦ inl (ys, e ∙ returned, perm, differs)
    ]
  ]

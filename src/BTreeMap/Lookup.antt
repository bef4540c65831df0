-- ===== src/BTreeMap/Lookup.antt =====
-- What `get` reads after each operation, and that `get` determines a map with ascending keys.
use rpi4_usb_io_breaker.Base.{
  Bool, none, some, List, [], ◌∷◌, ◌++◌, arith, keep, if◌then◌else◌, ◌≡◌, refl, sym, ◌∙◌, ◌≢◌,
}
use Prim.Native.Nat.Ordering.{eq}
use rpi4_usb_io_breaker.Base.Ord.{lt_of_gt, Ord, ◌≺◌}
use rpi4_usb_io_breaker.BTreeMap.{BTreeMap, get, insert, remove, extend}
use rpi4_usb_io_breaker.BTreeMap.Sorted.{Above, IsSorted, Above-trans}

module _ {ℓ κ} {K : Type ℓ} {V : Type κ} ⦃o : Ord K⦄ where
  pub get-Above : (k : K) (m : BTreeMap K V) → Above k m → get k m ≡ none
  unfolding get
  get-Above k [] s = refl
  get-Above k ((j, v) ∷ m) s = ground (arith, get-Above k m)

  pub get-below : (p k : K) (m : BTreeMap K V) → p ≺ k → Above k m → get p m ≡ none
  get-below p k m h s = get-Above p m (Above-trans p k m h s)

  pub get-insert :
      (p k : K) (w : V) (m : BTreeMap K V)
      → get p (insert k w m) ≡ elim (o.cmp p k) [ eq ↦ some w | _ ↦ get p m ]
  unfolding get insert
  get-insert p k w [] = refl
  get-insert p k w ((j, v) ∷ m) =
      ground (arith, get-insert p k w m, o.eq_same p k, o.eq_same k j, o.eq_same p j, o.eq_self k)

  pub get-remove :
      (p k : K) (m : BTreeMap K V)
      → IsSorted m
      → get p (remove k m) ≡ elim (o.cmp p k) [ eq ↦ none | _ ↦ get p m ]
  unfolding get remove
  get-remove p k [] s = ground arith
  get-remove p k ((j, v) ∷ m) s = ground (
    arith,
    get-remove p k m,
    get-Above k m,
    Above-trans k j m,
    o.eq_same p k,
    o.eq_same k j,
    o.eq_same p j,
    o.eq_self k,
  )

  pub get-keep :
      (q : K → Bool) (p : K) (m : BTreeMap K V)
      → get p (keep (λ e. q e.0) m) ≡ (if q p then get p m else none)
  unfolding get
  get-keep q p [] = ground arith
  get-keep q p ((j, v) ∷ m) = ground (arith, get-keep q p m, o.eq_same p j)

  get_head : (j : K) (v : V) (m : BTreeMap K V) → get j ((j, v) ∷ m) ≡ some v
  unfolding get
  get_head j v m = rw (o.eq_self, get)

  get-head_below :
      (j k : K) (w : V) (n : BTreeMap K V) → j ≺ k → Above k n → get j ((k, w) ∷ n) ≡ none
  unfolding get
  get-head_below j k w n h s = ground (arith, get-below j k n h s)

  -- the least keys of two maps that read alike are the same
  heads_eq :
      (j k : K) (v w : V) (m n : BTreeMap K V)
      → Above j m
      → Above k n
      → ((p : K) → get p ((j, v) ∷ m) ≡ get p ((k, w) ∷ n))
      → o.cmp j k ≡ eq
  heads_eq j k v w m n s t h = ground (
    arith,
    h j,
    h k,
    get_head j v m,
    get_head k w n,
    get-head_below j k w n,
    get-head_below k j v m,
    lt_of_gt j k,
  )

  tails_read :
      (j : K) (v w : V) (m n : BTreeMap K V)
      → Above j m
      → Above j n
      → ((p : K) → get p ((j, v) ∷ m) ≡ get p ((j, w) ∷ n))
      → (p : K) → get p m ≡ get p n
  unfolding get
  tails_read j v w m n s t h p = ground (arith, h p, get-Above j m, get-Above j n, o.eq_same p j)

  -- Two maps with ascending keys that read alike under every key are the same list.
  pub get_ext :
      (m n : BTreeMap K V) → IsSorted m → IsSorted n → ((k : K) → get k m ≡ get k n) → m ≡ n
  get_ext [] [] s t h = refl
  get_ext [] ((k, w) ∷ n) s t h = unfold get in ground (arith, h k, o.eq_self k)
  get_ext ((j, v) ∷ m) [] s t h = unfold get in ground (arith, h j, o.eq_self j)
  get_ext ((j, v) ∷ m) ((k, w) ∷ n) s t h =
      let same : j ≡ k = o.eq_same j k (heads_eq j k v w m n s.0 t.0 h) in
      let t' : Above j n = rw same t.0 in
      let h' : (p : K) → get p ((j, v) ∷ m) ≡ get p ((j, w) ∷ n) = rw (← same) at h in
      let rest : m ≡ n = get_ext m n s.1 t.1 (tails_read j v w m n s.0 t' h') in
      let value : some v ≡ some w = sym (get_head j v m) ∙ h' j ∙ get_head j w n in ground arith

  -- Inserting the entries of a list: the last one under a key counts, then the old map.
  pub get-extend_append :
      (m : BTreeMap K V) (l r : List (K × V)) → extend m (l ++ r) ≡ extend (extend m l) r
  unfolding extend
  get-extend_append m [] r = refl
  get-extend_append m ((k, v) ∷ l) r = get-extend_append (insert k v m) l r

  pub get-insert_self : (k : K) (w : V) (m : BTreeMap K V) → get k (insert k w m) ≡ some w
  get-insert_self k w m = ground (arith, get-insert k k w m, o.eq_self k)

  pub get-insert_other :
      (p k : K) (w : V) (m : BTreeMap K V) → o.cmp p k ≢ eq → get p (insert k w m) ≡ get p m
  get-insert_other p k w m n = ground (arith, get-insert p k w m, n)

  pub get-remove_self : (k : K) (m : BTreeMap K V) → IsSorted m → get k (remove k m) ≡ none
  get-remove_self k m s = ground (arith, get-remove k k m s, o.eq_self k)

  pub get-remove_other :
      (p k : K) (m : BTreeMap K V) → IsSorted m → o.cmp p k ≢ eq → get p (remove k m) ≡ get p m
  get-remove_other p k m s n = ground (arith, get-remove p k m s, n)

-- ===== src/BTreeMap/Extend.antt =====
-- Inserting the entries of a map, one after the other.
use rpi4_usb_io_breaker.Base.{none, some, Option, [], ◌∷◌, arith, ◌≡◌, refl, ◌∙◌, All}
use rpi4_usb_io_breaker.Base.Ord.{Ord}
use rpi4_usb_io_breaker.BTreeMap.{BTreeMap, get, insert, extend}
use rpi4_usb_io_breaker.BTreeMap.Sorted.{IsSorted, extend-IsSorted, Above}
use rpi4_usb_io_breaker.BTreeMap.Lookup.{get-insert, get-Above, get_ext}

-- the newer value, if there is one
abbrev pub newer {κ} : {V : Type κ} → Option V → Option V → Option V
newer none old = old
newer (some v) old = some v

pub newer-none {κ} : {V : Type κ} (x : Option V) → newer x none ≡ x
newer-none none = refl
newer-none (some v) = refl

module _ {ℓ κ} {K : Type ℓ} {V : Type κ} ⦃o : Ord K⦄ where
  get-extend :
      (p : K) (m l : BTreeMap K V) → IsSorted l → get p (extend m l) ≡ newer (get p l) (get p m)
  unfolding get extend
  get-extend p m [] s = refl
  get-extend p m ((k, v) ∷ l) s = ground (
    arith,
    get-extend p (insert k v m) l s.1,
    get-insert p k v m,
    get-Above k l s.0,
    o.eq_same p k,
  )

  -- Collecting the entries of a map gives the map.
  pub extend-nil : (l : BTreeMap K V) → IsSorted l → extend [] l ≡ l
  unfolding get
  extend-nil l s =
      get_ext (extend [] l) l (extend-IsSorted [] l tt) s
        (λ p. get-extend p [] l s ∙ newer-none (get p l))

  -- a map reads an entry
  abbrev pub Holds : BTreeMap K V → K × V → Type κ
  Holds m e = get e.0 m ≡ some e.1

  Holds-cons :
      (k : K) (v : V) (m l : BTreeMap K V)
      → Above k l
      → All (Holds m) l
      → All (Holds ((k, v) ∷ m)) l
  unfolding get
  Holds-cons k v m [] s h = tt
  Holds-cons k v m ((j, w) ∷ l) s h =
      (ground (arith, o.swapped k j, s.0, h.0), Holds-cons k v m l s.1 h.1)

  pub All-self : (m : BTreeMap K V) → IsSorted m → All (Holds m) m
  unfolding get
  All-self [] s = tt
  All-self ((k, v) ∷ l) s = (ground (arith, o.eq_self k), Holds-cons k v l l s.0 (All-self l s.1))

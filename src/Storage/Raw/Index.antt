-- ===== src/Storage/Raw/Index.antt =====
-- Indices, names and numbers.
use rpi4_usb_io_breaker.Base.{
  ℕ, zero, suc, ◌+◌, some, List, [], ◌∷◌, get_elem?, ◌≡◌, ◌≢◌, refl, lt-of-get_elem?, arith, ap,
  ◌∙◌,
}
use Prim.Native.Nat.Ordering.{eq}
use rpi4_usb_io_breaker.Base.Ord.{lex, lex_order, Ordering-cases, is_lt, is_eq, is_gt}
use rpi4_usb_io_breaker.Core.Error.{Str, ok}
use rpi4_usb_io_breaker.Core.Types.{DbMapDesc, new_with_details}
use rpi4_usb_io_breaker.Storage.Schema.{DbMap, Schema, HasDbMap, desc_iter, index, get_elem?-index}
use rpi4_usb_io_breaker.Storage.Raw.{DbMapId, from_usize, from_name, position, info, name, new}

position_sound :
    (i : ℕ) (n : Str) (descs : List DbMapDesc) (j : ℕ)
    → position i n descs ≡ some j
    → (k : ℕ) × (j ≡ i + k) × (d : DbMapDesc) × (get_elem? descs k ≡ some d) × (d.name ≡ n)
unfolding position
position_sound i n [] j h = ground arith
position_sound i n (d ∷ descs) j h = elim (Ordering-cases (lex d.name n)) [
  | is_lt e ↦
      let (k, at, x, found, named) = position_sound (suc i) n descs j (rw (e, position) at h) in
      (suc k, omega (arith, at), x, found, named)
  | is_eq e ↦ (0, ground (arith, h, e), d, refl, lex_order.eq_same d.name n e)
  | is_gt e ↦
      let (k, at, x, found, named) = position_sound (suc i) n descs j (rw (e, position) at h) in
      (suc k, omega (arith, at), x, found, named)
]

-- An index that is found by a name is one of the schema, and has that name.
pub from_name-name :
    (sch : Schema) (n : Str) (i : DbMapId sch)
    → from_name sch n ≡ some i
    → (name sch i ≡ ok n) × (from_usize sch i ≡ some i)
unfolding from_name name info from_usize
from_name-name sch n i e =
    let (k, at, d, found, named) = position_sound 0 n (desc_iter sch) i e in
    let same : i ≡ k = omega (arith, at) in
    let fits = lt-of-get_elem? (desc_iter sch) k found in
    (rw (same, info, found) (rw named refl), ground (arith, same, fits))

-- no two maps of the schema have the same name
abbrev pub NamesUnique : List DbMapDesc → Type 0
NamesUnique descs =
    (i j : ℕ) (d e : DbMapDesc)
    → get_elem? descs i ≡ some d
    → get_elem? descs j ≡ some e
    → d.name ≡ e.name
    → i ≡ j

position_found :
    (i : ℕ) (descs : List DbMapDesc) (k : ℕ) (d : DbMapDesc)
    → NamesUnique descs
    → get_elem? descs k ≡ some d
    → position i d.name descs ≡ some (i + k)
unfolding position
position_found i [] k d u e = ground arith
position_found i (x ∷ descs) zero d u e = ground (arith, lex_order.eq_self x.name)
position_found i (x ∷ descs) (suc k) d u e =
    let unique : NamesUnique descs =
      λ a b y z p q same. omega (arith, u (suc a) (suc b) y z p q same) in
    let later = position_found (suc i) descs k d unique e in
    let here : lex x.name d.name ≢ eq =
      λ c. absurd (omega (arith, u 0 (suc k) x d refl e (lex_order.eq_same x.name d.name c))) in
    ground (arith, later, here)

-- If the names of a schema differ, a map is found by its name.
pub from_name-new :
    (m : DbMap) (sch : Schema) (h : HasDbMap m sch)
    → NamesUnique (desc_iter sch)
    → from_name sch m.name ≡ some (new h)
unfolding from_name new new_with_details
from_name-new m sch h u =
    position_found 0 (desc_iter sch) (index h) (new_with_details m.name m.size_hint) u
      (get_elem?-index m sch h)
    ∙ ap some (omega arith)

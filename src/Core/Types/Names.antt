-- ===== src/Core/Types/Names.antt =====
-- The check of `db_desc`: it passes exactly if the names of the maps differ.
use rpi4_usb_io_breaker.Base.{
  suc, ◌+◌, ◌≤◌, none, List, [], ◌∷◌, map, length, All, All-imp2, All-imp, ◌≡◌, ◌≢◌, refl, sym, ap,
  ◌∙◌, arith, ==_iff, Bool-cases, inl, inr, Option-cases, true, false, ◌==◌, ◌↔◌,
}
use rpi4_usb_io_breaker.Base.Ord.{list_ord, lex_order, lex}
use Prim.Native.Nat.Ordering.{lt}
use rpi4_usb_io_breaker.BTreeMap.{BTreeMap, get, insert, extend}
use rpi4_usb_io_breaker.BTreeMap.Sorted.{IsSorted, insert-IsSorted, Above-trans}
use rpi4_usb_io_breaker.BTreeMap.Lookup.{get-insert_self, get-insert_other, get-Above}
use rpi4_usb_io_breaker.Core.Error.{Str, ok, panicked}
use rpi4_usb_io_breaker.Core.Types.{DbMapDesc, name_set, db_desc, db_map_count}

abbrev NameSet : Type 0
NameSet = BTreeMap Str (Unit {0})

-- no two maps have the same name
abbrev pub Distinct : List DbMapDesc → Type 0
Distinct [] = Unit
Distinct (d ∷ descs) = All (λ (e : DbMapDesc). d.name ≢ e.name) descs × Distinct descs

-- no name is in a set
abbrev Fresh : NameSet → List DbMapDesc → Type 0
Fresh m descs = All (λ (d : DbMapDesc). get d.name m ≡ none) descs

length-insert :
    (k : Str) (m : NameSet) → IsSorted m → get k m ≡ none → length (insert k tt m) ≡ suc (length m)
unfolding get insert list_ord
length-insert k [] s h = refl
length-insert k ((j, v) ∷ m) s h = ground (arith, length-insert k m s.1, h)

length-insert_old :
    (k : Str) (m : NameSet) → IsSorted m → get k m ≢ none → length (insert k tt m) ≡ length m
unfolding get insert list_ord
length-insert_old k [] s n = absurd (n refl)
length-insert_old k ((j, v) ∷ m) s n =
    let below : lex k j ≡ lt → get k m ≡ none = λ e. get-Above k m (Above-trans k j m e s.0) in
    ground (arith, length-insert_old k m s.1, n, below)

length-insert_le : (k : Str) (m : NameSet) → length (insert k tt m) ≤ suc (length m)
unfolding insert list_ord
length-insert_le k [] = omega arith
length-insert_le k ((j, v) ∷ m) = ground (arith, length-insert_le k m)

Fresh-nil : (descs : List DbMapDesc) → Fresh [] descs
unfolding get
Fresh-nil [] = tt
Fresh-nil (d ∷ descs) = (refl, Fresh-nil descs)

-- the set of the names, built from another set
abbrev collected : NameSet → List DbMapDesc → NameSet
collected m descs = extend m (map (λ d. (d.name, tt)) descs)

length-collected :
    (m : NameSet) (descs : List DbMapDesc)
    → IsSorted m
    → Fresh m descs
    → Distinct descs
    → length (collected m descs) ≡ length m + length descs
unfolding extend list_ord
length-collected m [] s f u = omega arith
length-collected m (d ∷ descs) s f u =
    let fresh : Fresh (insert d.name tt m) descs =
      All-imp2 (λ (e : DbMapDesc). get e.name m ≡ none) (λ (e : DbMapDesc). d.name ≢ e.name)
        (λ (e : DbMapDesc). get e.name (insert d.name tt m) ≡ none) descs
        (λ e absent other.
          get-insert_other e.name d.name tt m
            (λ same. other (sym (lex_order.eq_same e.name d.name same)))
          ∙ absent)
        f.1 u.0 in
    omega (
      arith,
      length-collected (insert d.name tt m) descs (insert-IsSorted d.name tt m s) fresh u.1,
      length-insert d.name m s f.0,
    )

length-collected_le :
    (m : NameSet) (descs : List DbMapDesc) → length (collected m descs) ≤ length m + length descs
unfolding extend
length-collected_le m [] = omega arith
length-collected_le m (d ∷ descs) =
    omega (arith, length-collected_le (insert d.name tt m) descs, length-insert_le d.name m)

collected-Distinct :
    (m : NameSet) (descs : List DbMapDesc)
    → IsSorted m
    → length (collected m descs) ≡ length m + length descs
    → Fresh m descs × Distinct descs
unfolding extend list_ord
collected-Distinct m [] s h = (tt, tt)
collected-Distinct m (d ∷ descs) s h =
    let m1 = insert d.name tt m in
    let few = length-collected_le m1 descs in
    let fresh : get d.name m ≡ none = elim (Option-cases (get d.name m)) [
      | inl e ↦ e
      | inr (v, e) ↦
          absurd (omega (arith, h, few, length-insert_old d.name m s (ground (arith, e))))
    ] in
    let (rest, distinct) =
      collected-Distinct m1 descs (insert-IsSorted d.name tt m s)
        (omega (arith, h, length-insert d.name m s fresh)) in
    let differ : (e : DbMapDesc) → get e.name m1 ≡ none → d.name ≢ e.name = λ e absent same.
      ground (arith, get-insert_self d.name tt m, ap (λ (x : Str). get x m1) same, absent) in
    let earlier : (e : DbMapDesc) → get e.name m1 ≡ none → get e.name m ≡ none = λ e absent.
      sym (
        get-insert_other e.name d.name tt m
          (λ same. differ e absent (sym (lex_order.eq_same e.name d.name same))))
      ∙ absent in
    ((fresh, All-imp _ _ descs earlier rest), (All-imp _ _ descs differ rest, distinct))

-- `db_desc` makes the description of the maps exactly if their names differ, and panics exactly if they do not.
pub db_desc_iff :
    (descs : List DbMapDesc)
    → ((db_desc descs ≡ ok (record { map_descs = descs })) ↔ Distinct descs)
      × ((db_desc descs ≡ panicked) ↔ (¬ Distinct descs))
unfolding db_desc name_set db_map_count
db_desc_iff descs =
    let count = length (collected [] descs) in
    let passes = length-collected [] descs tt (Fresh-nil descs) in
    let differ : count ≡ length descs → Distinct descs =
      λ e. (collected-Distinct [] descs tt (omega (arith, e))).1 in
    let equal : count == length descs ≡ true → Distinct descs =
      λ e. differ (ground (arith, ==_iff count (length descs), e)) in
    let clash : count == length descs ≡ false → Distinct descs → ⊥ =
      λ e u. ground (arith, ==_iff count (length descs), passes u, e) in
    elim (Bool-cases (count == length descs)) [
      | inl e ↦
          ((λ p. equal e, λ u. rw e refl), (λ p u. ground (arith, e, p), λ n. absurd (n (equal e))))
      | inr e ↦ (
        (λ p. absurd (ground (arith, e, p)), λ u. absurd (clash e u)),
        (λ p. clash e, λ n. rw e refl),
      )
    ]

-- ===== src/Core/Locking/MergeJoin.antt =====
-- The prefix iterator of a read-write transaction (prefix_iter_rw.rs): the entries of the storage joined with the
-- changes. `MergeLaws` is what the documentation of `itertools::merge_join_by` says of each step.
use Prim.Native.Nat.Ordering.{lt, eq, gt}
use rpi4_usb_io_breaker.Base.{none, some, List, [], ◌∷◌, arith, ◌≡◌, refl, Ordering, Option}
use rpi4_usb_io_breaker.Base.Ord.{
  lt_of_gt, list_ord, lex, lex_order, ◌≺◌, Ordering-cases, is_lt, is_eq, is_gt,
}
use rpi4_usb_io_breaker.BTreeMap.{get}
use rpi4_usb_io_breaker.BTreeMap.Sorted.{Above, IsSorted, Above-trans, keep-IsSorted}
use rpi4_usb_io_breaker.BTreeMap.Lookup.{get-Above, get_ext, get-keep}
use rpi4_usb_io_breaker.Core.Data.{Data, starts_with}
use rpi4_usb_io_breaker.Core.Locking.{
  DeltaMap, Merge, DataPair, DeltaPair, left, right, both, comparator, merger, filter_map,
}
use rpi4_usb_io_breaker.Core.Locking.Overlay.{overlay, changed, get-overlay, overlay-IsSorted}
use rpi4_usb_io_breaker.Core.Contract.{Map}
use rpi4_usb_io_breaker.Core.Util.Collect.{with_prefix}

pub record MergeLaws (merge : Merge) : Type 0 where
  pub merge_nil : (c : DataPair → DeltaPair → Ordering) → merge c [] [] ≡ []
  pub merge_left :
      (c : DataPair → DeltaPair → Ordering) (a : DataPair) (l : List DataPair)
      → merge c (a ∷ l) [] ≡ left a ∷ merge c l []
  pub merge_right :
      (c : DataPair → DeltaPair → Ordering) (b : DeltaPair) (r : List DeltaPair)
      → merge c [] (b ∷ r) ≡ right b ∷ merge c [] r
  pub merge_lt :
      (c : DataPair → DeltaPair → Ordering) (a : DataPair) (l : List DataPair) (b : DeltaPair)
      (r : List DeltaPair)
      → c a b ≡ lt
      → merge c (a ∷ l) (b ∷ r) ≡ left a ∷ merge c l (b ∷ r)
  pub merge_eq :
      (c : DataPair → DeltaPair → Ordering) (a : DataPair) (l : List DataPair) (b : DeltaPair)
      (r : List DeltaPair)
      → c a b ≡ eq
      → merge c (a ∷ l) (b ∷ r) ≡ both a b ∷ merge c l r
  pub merge_gt :
      (c : DataPair → DeltaPair → Ordering) (a : DataPair) (l : List DataPair) (b : DeltaPair)
      (r : List DeltaPair)
      → c a b ≡ gt
      → merge c (a ∷ l) (b ∷ r) ≡ right b ∷ merge c (a ∷ l) r

-- a change as the entry that it leaves
abbrev put_change : Data × Option Data → Map → Map
put_change (k, none) m = m
put_change (k, some v) m = (k, v) ∷ m

Above-put_change :
    (b k : Data) (x : Option Data) (m : Map) → b ≺ k → Above b m → Above b (put_change (k, x) m)
Above-put_change b k none m h s = s
Above-put_change b k (some v) m h s = (h, s)

put_change-IsSorted :
    (k : Data) (x : Option Data) (m : Map) → Above k m → IsSorted m → IsSorted (put_change (k, x) m)
put_change-IsSorted k none m h s = s
put_change-IsSorted k (some v) m h s = (h, s)

get-put_change :
    (p k : Data) (x : Option Data) (m : Map)
    → Above k m
    → get p (put_change (k, x) m) ≡ elim (lex p k) [ eq ↦ x | _ ↦ get p m ]
unfolding get list_ord
get-put_change p k none m s = ground (arith, get-Above k m s, lex_order.eq_same p k)
get-put_change p k (some v) m s = refl

module _ (merge : Merge) (laws : MergeLaws merge) where
  joined : Map → DeltaMap → Map
  unfolding merger comparator filter_map
  joined m delta = filter_map merger (merge comparator m delta)

  joined-nil : joined [] [] ≡ []
  unfolding joined
  joined-nil = rw laws.merge_nil

  joined-left : (e : Data × Data) (m : Map) → joined (e ∷ m) [] ≡ e ∷ joined m []
  unfolding joined
  joined-left e m = rw laws.merge_left

  joined-right :
      (b : Data × Option Data) (r : DeltaMap) → joined [] (b ∷ r) ≡ put_change b (joined [] r)
  unfolding joined
  joined-right (k, none) r = rw (laws.merge_right comparator (k, none) r)
  joined-right (k, some v) r = rw (laws.merge_right comparator (k, some v) r)

  joined-lt :
      (a : Data × Data) (m : Map) (b : Data × Option Data) (r : DeltaMap)
      → lex a.0 b.0 ≡ lt
      → joined (a ∷ m) (b ∷ r) ≡ a ∷ joined m (b ∷ r)
  unfolding joined
  joined-lt a m b r h = rw (laws.merge_lt comparator a m b r h)

  joined-eq :
      (a : Data × Data) (m : Map) (b : Data × Option Data) (r : DeltaMap)
      → lex a.0 b.0 ≡ eq
      → joined (a ∷ m) (b ∷ r) ≡ put_change b (joined m r)
  unfolding joined
  joined-eq a m (k, none) r h = rw (laws.merge_eq comparator a m (k, none) r h)
  joined-eq a m (k, some v) r h = rw (laws.merge_eq comparator a m (k, some v) r h)

  joined-gt :
      (a : Data × Data) (m : Map) (b : Data × Option Data) (r : DeltaMap)
      → lex a.0 b.0 ≡ gt
      → joined (a ∷ m) (b ∷ r) ≡ put_change b (joined (a ∷ m) r)
  unfolding joined
  joined-gt a m (k, none) r h = rw (laws.merge_gt comparator a m (k, none) r h)
  joined-gt a m (k, some v) r h = rw (laws.merge_gt comparator a m (k, some v) r h)

  Above-joined :
      (b : Data) (m : Map) (delta : DeltaMap) → Above b m → Above b delta → Above b (joined m delta)
  Above-joined b [] [] s t = rw joined-nil tt
  Above-joined b (e ∷ m) [] s t = rw joined-left (s.0, Above-joined b m [] s.1 tt)
  Above-joined b [] ((k, x) ∷ r) s t =
      rw joined-right (Above-put_change b k x _ t.0 (Above-joined b [] r s t.1))
  Above-joined b ((j, w) ∷ m) ((k, x) ∷ r) s t = elim (Ordering-cases (lex j k)) [
    | is_lt e ↦ rw (joined-lt (j, w) m (k, x) r e) (s.0, Above-joined b m ((k, x) ∷ r) s.1 t)
    | is_eq e ↦
        rw (joined-eq (j, w) m (k, x) r e)
          (Above-put_change b k x _ t.0 (Above-joined b m r s.1 t.1))
    | is_gt e ↦
        rw (joined-gt (j, w) m (k, x) r e)
          (Above-put_change b k x _ t.0 (Above-joined b ((j, w) ∷ m) r s t.1))
  ]

  joined-IsSorted :
      (m : Map) (delta : DeltaMap) → IsSorted m → IsSorted delta → IsSorted (joined m delta)
  unfolding list_ord
  joined-IsSorted [] [] s t = rw joined-nil tt
  joined-IsSorted ((j, w) ∷ m) [] s t =
      rw joined-left (Above-joined j m [] s.0 tt, joined-IsSorted m [] s.1 tt)
  joined-IsSorted [] ((k, x) ∷ r) s t =
      rw joined-right
        (put_change-IsSorted k x _ (Above-joined k [] r tt t.0) (joined-IsSorted [] r s t.1))
  joined-IsSorted ((j, w) ∷ m) ((k, x) ∷ r) s t = elim (Ordering-cases (lex j k)) [
    | is_lt e ↦ rw (joined-lt (j, w) m (k, x) r e) (
      Above-joined j m ((k, x) ∷ r) s.0 (e, Above-trans j k r e t.0),
      joined-IsSorted m ((k, x) ∷ r) s.1 t,
    )
    | is_eq e ↦
        let same : j ≡ k = lex_order.eq_same j k e in
        rw (joined-eq (j, w) m (k, x) r e) (
          put_change-IsSorted k x _ (Above-joined k m r (rw same at (s.0)) t.0)
            (joined-IsSorted m r s.1 t.1))
    | is_gt e ↦
        let below : lex k j ≡ lt = lt_of_gt j k e in
        rw (joined-gt (j, w) m (k, x) r e) (
          put_change-IsSorted k x _
            (Above-joined k ((j, w) ∷ m) r (below, Above-trans k j m below s.0) t.0)
            (joined-IsSorted ((j, w) ∷ m) r s t.1))
  ]

  -- A read of the join finds the change of its key, or the storage's value.
  get-joined :
      (p : Data) (m : Map) (delta : DeltaMap)
      → IsSorted m
      → IsSorted delta
      → get p (joined m delta) ≡ changed (get p delta) (get p m)
  unfolding get list_ord
  get-joined p [] [] s t = rw joined-nil refl
  get-joined p ((j, w) ∷ m) [] s t = rw joined-left (ground (arith, get-joined p m [] s.1 tt))
  get-joined p [] ((k, x) ∷ r) s t = rw joined-right (
      ground (
        arith,
        get-put_change p k x (joined [] r) (Above-joined k [] r tt t.0),
        get-joined p [] r s t.1,
      ))
  get-joined p ((j, w) ∷ m) ((k, x) ∷ r) s t = elim (Ordering-cases (lex j k)) [
    | is_lt e ↦ rw (joined-lt (j, w) m (k, x) r e) (
        ground (
          arith,
          get-joined p m ((k, x) ∷ r) s.1 t,
          get-Above j r (Above-trans j k r e t.0),
          lex_order.eq_same p j,
        ))
    | is_eq e ↦
        let same : j ≡ k = lex_order.eq_same j k e in
        let above : Above k m = rw same at (s.0) in
        rw (joined-eq (j, w) m (k, x) r e) (
          ground (
            arith,
            get-put_change p k x (joined m r) (Above-joined k m r above t.0),
            get-joined p m r s.1 t.1,
          ))
    | is_gt e ↦
        let below : lex k j ≡ lt = lt_of_gt j k e in
        rw (joined-gt (j, w) m (k, x) r e) (
          ground (
            arith,
            get-put_change p k x (joined ((j, w) ∷ m) r)
                (Above-joined k ((j, w) ∷ m) r (below, Above-trans k j m below s.0) t.0),
            get-joined p ((j, w) ∷ m) r s t.1,
          ))
  ]

  joined-eq-overlay_at :
      (p : Data) (m : Map) (delta : DeltaMap) (q : Data)
      → IsSorted m
      → IsSorted delta
      → get q (joined (with_prefix p m) (with_prefix p delta))
        ≡ get q (with_prefix p (overlay delta m))
  joined-eq-overlay_at p m delta q s t = ground (
    arith,
    get-joined q (with_prefix p m) (with_prefix p delta) (keep-IsSorted _ m s)
        (keep-IsSorted _ delta t),
    get-keep (λ k. starts_with k p) q m,
    get-keep (λ k. starts_with k p) q delta,
    get-keep (λ k. starts_with k p) q (overlay delta m),
    get-overlay q delta m t s,
  )

  -- For a map and changes with ascending keys, and a function that merges as documented: the merge of
  -- the map's entries under a prefix with the changes under it, filtered by `merger`, is the entries
  -- under that prefix of the changed map.
  pub joined-eq-overlay :
      (p : Data) (m : Map) (delta : DeltaMap)
      → IsSorted m
      → IsSorted delta
      → filter_map merger (merge comparator (with_prefix p m) (with_prefix p delta))
        ≡ with_prefix p (overlay delta m)
  unfolding joined
  joined-eq-overlay p m delta s t =
      get_ext (joined (with_prefix p m) (with_prefix p delta)) (with_prefix p (overlay delta m))
        (joined-IsSorted (with_prefix p m) (with_prefix p delta) (keep-IsSorted _ m s)
          (keep-IsSorted _ delta t))
        (keep-IsSorted _ (overlay delta m) (overlay-IsSorted delta m s))
        (λ q. joined-eq-overlay_at p m delta q s t)

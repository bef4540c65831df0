-- ===== src/Core/Locking/Overlay.antt =====
-- The database that a read-write transaction stands for: the storage under the changes of the delta maps.
use Prim.Native.Nat.Ordering.{eq}
use rpi4_usb_io_breaker.Base.{
  ℕ, zero, suc, Option, none, some, List, [], ◌∷◌, get_elem?, set, arith, All, length, ◌≡◌, refl,
  ap,
}
use rpi4_usb_io_breaker.Base.Ord.{list_ord, lex, lex_order}
use rpi4_usb_io_breaker.BTreeMap.{get, insert, remove}
use rpi4_usb_io_breaker.BTreeMap.Sorted.{IsSorted, insert-IsSorted, remove-IsSorted}
use rpi4_usb_io_breaker.BTreeMap.Lookup.{get-Above, get-insert, get-remove, get_ext}
use rpi4_usb_io_breaker.Core.Data.{Data}
use rpi4_usb_io_breaker.Core.Locking.{DeltaMap}
use rpi4_usb_io_breaker.Core.Contract.{Map, Db, IsSortedDb, modify}

-- a map after one change
abbrev pub change : Data → Option Data → Map → Map
change k none m = remove k m
change k (some v) m = insert k v m

abbrev pub overlay : DeltaMap → Map → Map
overlay [] m = m
overlay ((k, x) ∷ delta) m = overlay delta (change k x m)

abbrev pub overlay_all : List DeltaMap → Db → Db
overlay_all [] d = d
overlay_all (delta ∷ deltas) [] = []
overlay_all (delta ∷ deltas) (m ∷ d) = overlay delta m ∷ overlay_all deltas d

-- what a read finds: the change of the key, if there is one
abbrev pub changed : Option (Option Data) → Option Data → Option Data
changed none old = old
changed (some x) old = x

pub change-IsSorted : (k : Data) (x : Option Data) (m : Map) → IsSorted m → IsSorted (change k x m)
change-IsSorted k none m s = remove-IsSorted k m s
change-IsSorted k (some v) m s = insert-IsSorted k v m s

pub get-change :
    (p k : Data) (x : Option Data) (m : Map)
    → IsSorted m
    → get p (change k x m) ≡ elim (lex p k) [ eq ↦ x | _ ↦ get p m ]
unfolding list_ord
get-change p k none m s = get-remove p k m s
get-change p k (some v) m s = get-insert p k v m

pub overlay-IsSorted : (delta : DeltaMap) (m : Map) → IsSorted m → IsSorted (overlay delta m)
overlay-IsSorted [] m s = s
overlay-IsSorted ((k, x) ∷ delta) m s =
    overlay-IsSorted delta (change k x m) (change-IsSorted k x m s)

-- A read of the overlay finds the change of its key, or the storage's value.
pub get-overlay :
    (p : Data) (delta : DeltaMap) (m : Map)
    → IsSorted delta
    → IsSorted m
    → get p (overlay delta m) ≡ changed (get p delta) (get p m)
unfolding get list_ord
get-overlay p [] m s t = refl
get-overlay p ((k, x) ∷ delta) m s t = ground (
  arith,
  get-overlay p delta (change k x m) s.1 (change-IsSorted k x m t),
  get-change p k x m t,
  get-Above k delta s.0,
  lex_order.eq_same p k,
)

-- One more change in the delta map is one more change of the overlay.
overlay-insert_at :
    (k : Data) (x : Option Data) (delta : DeltaMap) (m : Map) (p : Data)
    → IsSorted delta
    → IsSorted m
    → get p (overlay (insert k x delta) m) ≡ get p (change k x (overlay delta m))
unfolding list_ord
overlay-insert_at k x delta m p s t = ground (
  arith,
  get-overlay p (insert k x delta) m (insert-IsSorted k x delta s) t,
  get-overlay p delta m s t,
  get-insert p k x delta,
  get-change p k x (overlay delta m) (overlay-IsSorted delta m t),
)

pub overlay-insert :
    (k : Data) (x : Option Data) (delta : DeltaMap) (m : Map)
    → IsSorted delta
    → IsSorted m
    → overlay (insert k x delta) m ≡ change k x (overlay delta m)
overlay-insert k x delta m s t =
    let o = overlay-IsSorted delta m t in
    get_ext (overlay (insert k x delta) m) (change k x (overlay delta m))
      (overlay-IsSorted (insert k x delta) m t) (change-IsSorted k x (overlay delta m) o)
      (λ p. overlay-insert_at k x delta m p s t)

pub length-overlay_all :
    (deltas : List DeltaMap) (d : Db) → length (overlay_all deltas d) ≡ length d
length-overlay_all [] d = refl
length-overlay_all (delta ∷ deltas) [] = refl
length-overlay_all (delta ∷ deltas) (m ∷ d) = ap suc (length-overlay_all deltas d)

pub get_elem?-overlay_all :
    (deltas : List DeltaMap) (d : Db) (i : ℕ) (delta : DeltaMap) (m : Map)
    → get_elem? deltas i ≡ some delta
    → get_elem? d i ≡ some m
    → get_elem? (overlay_all deltas d) i ≡ some (overlay delta m)
get_elem?-overlay_all [] d i delta m e h = ground arith
get_elem?-overlay_all (x ∷ deltas) [] i delta m e h = ground arith
get_elem?-overlay_all (x ∷ deltas) (y ∷ d) zero delta m e h = ground arith
get_elem?-overlay_all (x ∷ deltas) (y ∷ d) (suc i) delta m e h =
    get_elem?-overlay_all deltas d i delta m e h

-- A change of one delta map is that change of the one map.
pub overlay_all-set :
    (deltas : List DeltaMap) (d : Db) (i : ℕ) (delta : DeltaMap) (k : Data) (x : Option Data)
    → All IsSorted deltas
    → IsSortedDb d
    → get_elem? deltas i ≡ some delta
    → overlay_all (set deltas i (insert k x delta)) d ≡ modify (change k x) i (overlay_all deltas d)
overlay_all-set [] d i delta k x s t e = ground arith
overlay_all-set (y ∷ deltas) [] zero delta k x s t e = refl
overlay_all-set (y ∷ deltas) [] (suc i) delta k x s t e = refl
overlay_all-set (y ∷ deltas) (m ∷ d) zero delta k x s t e =
    let same : y ≡ delta = cc in
    rw (← same) (ap (λ (r : Map). r ∷ overlay_all deltas d) (overlay-insert k x y m s.0 t.0))
overlay_all-set (y ∷ deltas) (m ∷ d) (suc i) delta k x s t e =
    ap (λ (r : Db). overlay y m ∷ r) (overlay_all-set deltas d i delta k x s.1 t.1 e)

pub overlay_all-IsSorted :
    (deltas : List DeltaMap) (d : Db) → IsSortedDb d → IsSortedDb (overlay_all deltas d)
overlay_all-IsSorted [] d s = s
overlay_all-IsSorted (delta ∷ deltas) [] s = tt
overlay_all-IsSorted (delta ∷ deltas) (m ∷ d) s =
    (overlay-IsSorted delta m s.0, overlay_all-IsSorted deltas d s.1)

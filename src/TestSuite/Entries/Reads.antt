-- ===== src/TestSuite/Entries/Reads.antt =====
-- What the places of a database read, after puts and removals.
use rpi4_usb_io_breaker.Base.{
  zero, suc, Option, none, some, List, [], ◌∷◌, length, get_elem?, All, ◌≡◌, refl, ◌<◌, arith,
}
use rpi4_usb_io_breaker.Base.Ord.{number_ord, list_ord, tuple_ord}
use Prim.Native.Nat.Ordering.{eq}
use rpi4_usb_io_breaker.BTreeMap.{get, remove}
use rpi4_usb_io_breaker.BTreeMap.Sorted.{IsSorted, remove-IsSorted}
use rpi4_usb_io_breaker.BTreeMap.Lookup.{get-insert, get-remove, get-Above}
use rpi4_usb_io_breaker.BTreeMap.Extend.{newer}
use rpi4_usb_io_breaker.Core.Data.{Data}
use rpi4_usb_io_breaker.Core.Types.{DbMapId}
use rpi4_usb_io_breaker.Core.Contract.{Map, Db, IsSortedDb, db_put, db_del}
use rpi4_usb_io_breaker.Core.Contract.Modify.{length-modify, modify-IsSortedDb}
use rpi4_usb_io_breaker.TestSuite.Entries.{Place, Entries}

-- the value at a place
abbrev pub read_map : Data → Option Map → Option Data
read_map k none = none
read_map k (some m) = get k m

abbrev pub read_db : Db → Place → Option Data
read_db d (i, k) = read_map k (get_elem? d i)

pub read_db-put :
    (i : DbMapId) (k v : Data) (d : Db) (q : Place)
    → i < length d
    → read_db (db_put i k v d) q ≡ elim (tuple_ord.cmp q (i, k)) [ eq ↦ some v | _ ↦ read_db d q ]
unfolding tuple_ord number_ord
read_db-put i k v [] (j, p) h = absurd (omega arith)
read_db-put zero k v (m ∷ d) (zero, p) h = get-insert p k v m
read_db-put zero k v (m ∷ d) (suc j, p) h = ground arith
read_db-put (suc i) k v (m ∷ d) (zero, p) h = ground arith
read_db-put (suc i) k v (m ∷ d) (suc j, p) h =
    ground (arith, read_db-put i k v d (j, p) (omega arith))

pub read_db-del :
    (i : DbMapId) (k : Data) (d : Db) (q : Place)
    → IsSortedDb d
    → i < length d
    → read_db (db_del i k d) q ≡ elim (tuple_ord.cmp q (i, k)) [ eq ↦ none | _ ↦ read_db d q ]
unfolding tuple_ord number_ord
read_db-del i k [] (j, p) s h = absurd (omega arith)
read_db-del zero k (m ∷ d) (zero, p) s h = get-remove p k m s.0
read_db-del zero k (m ∷ d) (suc j, p) s h = ground arith
read_db-del (suc i) k (m ∷ d) (zero, p) s h = ground arith
read_db-del (suc i) k (m ∷ d) (suc j, p) s h =
    ground (arith, read_db-del i k d (j, p) s.1 (omega arith))

-- the entries put, and their keys removed, one after the other
abbrev pub put_all : List (Place × Data) → Db → Db
put_all [] d = d
put_all (((i, k), v) ∷ entries) d = put_all entries (db_put i k v d)

abbrev pub del_all : List (Place × Data) → Db → Db
del_all [] d = d
del_all (((i, k), v) ∷ entries) d = del_all entries (db_del i k d)

-- every entry is of one of the maps
abbrev pub EntriesIn : DbMapId → List (Place × Data) → Type 0
EntriesIn n entries = All (λ (e : Place × Data). e.0.0 < n) entries

-- what is left of a value when the key of another is removed
abbrev pub erased : Option Data → Option Data → Option Data
erased none x = x
erased (some v) x = none

place_eq : (p q : Place) → tuple_ord.cmp p q ≡ eq → p ≡ q
place_eq p q e = tuple_ord.eq_same p q e

pub read_db-put_all :
    (entries : Entries) (d : Db) (q : Place)
    → IsSorted entries
    → EntriesIn (length d) entries
    → read_db (put_all entries d) q ≡ newer (get q entries) (read_db d q)
unfolding get tuple_ord
read_db-put_all [] d q s h = refl
read_db-put_all (((i, k), v) ∷ entries) d q s h =
    let fits : EntriesIn (length (db_put i k v d)) entries = rw length-modify h.1 in
    ground (
      arith,
      read_db-put_all entries (db_put i k v d) q s.1 fits,
      read_db-put i k v d q h.0,
      get-Above (i, k) entries s.0,
      place_eq q (i, k),
    )

pub read_db-del_all :
    (entries : Entries) (d : Db) (q : Place)
    → IsSorted entries
    → IsSortedDb d
    → EntriesIn (length d) entries
    → read_db (del_all entries d) q ≡ erased (get q entries) (read_db d q)
unfolding get tuple_ord
read_db-del_all [] d q s t h = refl
read_db-del_all (((i, k), v) ∷ entries) d q s t h =
    let fits : EntriesIn (length (db_del i k d)) entries = rw length-modify h.1 in
    let ascending = modify-IsSortedDb (remove k) i d (remove-IsSorted k) t in
    ground (
      arith,
      read_db-del_all entries (db_del i k d) q s.1 ascending fits,
      read_db-del i k d q t h.0,
      get-Above (i, k) entries s.0,
      place_eq q (i, k),
    )

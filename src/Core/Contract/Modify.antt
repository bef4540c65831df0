-- ===== src/Core/Contract/Modify.antt =====
-- Changes of one map of a database.
use rpi4_usb_io_breaker.Base.{
  zero, suc, some, [], ◌∷◌, get_elem?, length, arith, ◌≡◌, ◌≢◌, refl, ap,
}
use rpi4_usb_io_breaker.Base.Ord.{list_ord}
use rpi4_usb_io_breaker.BTreeMap.Sorted.{IsSorted}
use rpi4_usb_io_breaker.Core.Types.{DbMapId}
use rpi4_usb_io_breaker.Core.Contract.{Map, Db, IsSortedDb, modify}

pub length-modify : (f : Map → Map) (i : DbMapId) (d : Db) → length (modify f i d) ≡ length d
length-modify f i [] = refl
length-modify f zero (m ∷ d) = refl
length-modify f (suc i) (m ∷ d) = ap suc (length-modify f i d)

pub modify-modify :
    (f g : Map → Map) (i : DbMapId) (d : Db) → modify g i (modify f i d) ≡ modify (λ m. g (f m)) i d
modify-modify f g i [] = refl
modify-modify f g zero (m ∷ d) = refl
modify-modify f g (suc i) (m ∷ d) = ap (λ (r : Db). m ∷ r) (modify-modify f g i d)

pub modify-id : (i : DbMapId) (d : Db) → modify (λ m. m) i d ≡ d
modify-id i [] = refl
modify-id zero (m ∷ d) = refl
modify-id (suc i) (m ∷ d) = ap (λ (r : Db). m ∷ r) (modify-id i d)

pub modify-IsSortedDb :
    (f : Map → Map) (i : DbMapId) (d : Db)
    → ((m : Map) → IsSorted m → IsSorted (f m))
    → IsSortedDb d
    → IsSortedDb (modify f i d)
modify-IsSortedDb f i [] h s = tt
modify-IsSortedDb f zero (m ∷ d) h s = (h m s.0, s.1)
modify-IsSortedDb f (suc i) (m ∷ d) h s = (s.0, modify-IsSortedDb f i d h s.1)

pub get_elem?-modify_self :
    (f : Map → Map) (i : DbMapId) (d : Db) (m : Map)
    → get_elem? d i ≡ some m
    → get_elem? (modify f i d) i ≡ some (f m)
get_elem?-modify_self f i [] m e = ground arith
get_elem?-modify_self f zero (x ∷ d) m e = ground arith
get_elem?-modify_self f (suc i) (x ∷ d) m e = get_elem?-modify_self f i d m e

pub get_elem?-modify_ne :
    (f : Map → Map) (i j : DbMapId) (d : Db) → i ≢ j → get_elem? (modify f i d) j ≡ get_elem? d j
get_elem?-modify_ne f i j [] n = refl
get_elem?-modify_ne f zero zero (x ∷ d) n = absurd (n refl)
get_elem?-modify_ne f zero (suc j) (x ∷ d) n = refl
get_elem?-modify_ne f (suc i) zero (x ∷ d) n = refl
get_elem?-modify_ne f (suc i) (suc j) (x ∷ d) n = get_elem?-modify_ne f i j d (λ e. n (ap suc e))

-- ===== src/Core/Contract/Shown.antt =====
-- Named tables that stand for the maps of a database: SQLite names them by their texts, LMDB by its handles.
use rpi4_usb_io_breaker.Base.{
  zero, suc, Option, some, List, [], ◌∷◌, get_elem?, All, All-get, length, ◌≡◌, ◌≢◌, refl, ap,
  arith, sym, subst,
}
use rpi4_usb_io_breaker.Core.Types.{DbMapId}
use rpi4_usb_io_breaker.Core.Contract.{Map, Db, modify}

module _ {N : Type 0} where
  -- the tables of those names are the maps of the database, and the names differ
  abbrev pub Shows : (N → Option Map) → List N → Db → Type 0
  Shows t [] [] = Unit
  Shows t [] (m ∷ d) = [] ≡ m ∷ d
  Shows t (n ∷ names) [] = n ∷ names ≡ []
  Shows t (n ∷ names) (m ∷ d) = (t n ≡ some m) × All (λ n'. n ≢ n') names × Shows t names d

  -- one table is now `m`, and the others are as they were
  pub record Changed (n : N) (m : Map) (t t' : N → Option Map) : Type 0 where
    pub this : t' n ≡ some m
    pub others : (n' : N) → n ≢ n' → t' n' ≡ t n'

  -- the name of a map, and its table
  pub Shows-get :
      (t : N → Option Map) (names : List N) (d : Db) (i : DbMapId) (m : Map)
      → Shows t names d
      → get_elem? d i ≡ some m
      → (n : N) × (get_elem? names i ≡ some n) × (t n ≡ some m)
  Shows-get t [] [] i m h e = ground arith
  Shows-get t [] (x ∷ d) i m h e = ground arith
  Shows-get t (n ∷ names) [] i m h e = ground arith
  Shows-get t (n ∷ names) (x ∷ d) zero m h e = (n, refl, ground arith)
  Shows-get t (n ∷ names) (x ∷ d) (suc i) m h e = Shows-get t names d i m h.2 e

  -- a table that is none of them does not matter
  Shows-other :
      (t t' : N → Option Map) (names : List N) (d : Db) (n : N) (m : Map)
      → Changed n m t t'
      → All (λ n'. n ≢ n') names
      → Shows t names d
      → Shows t' names d
  Shows-other t t' [] [] n m c a h = tt
  Shows-other t t' [] (x ∷ d) n m c a h = h
  Shows-other t t' (n' ∷ names) [] n m c a h = h
  Shows-other t t' (n' ∷ names) (x ∷ d) n m c a h =
      (rw (c.others n' a.0) h.0, h.1, Shows-other t t' names d n m c a.1 h.2)

  pub Shows-Changed :
      (t t' : N → Option Map) (names : List N) (d : Db) (i : DbMapId) (f : Map → Map) (n : N)
      (m : Map)
      → Changed n (f m) t t'
      → Shows t names d
      → get_elem? d i ≡ some m
      → get_elem? names i ≡ some n
      → Shows t' names (modify f i d)
  Shows-Changed t t' [] d i f n m c h e en = ground arith
  Shows-Changed t t' (n0 ∷ names) [] i f n m c h e en = ground arith
  Shows-Changed t t' (n0 ∷ names) (x ∷ d) zero f n m c h e en =
      let same : n0 ≡ n = ground arith in
      let now : x ≡ m = ground arith in
      let others : All (λ n'. n ≢ n') names =
        subst (λ (k : N). All (λ n'. k ≢ n') names) same h.1 in
      (rw (same, now) c.this, h.1, Shows-other t t' names d n (f m) c others h.2)
  Shows-Changed t t' (n0 ∷ names) (x ∷ d) (suc i) f n m c h e en =
      let apart : n ≢ n0 = λ eq. All-get (λ n'. n0 ≢ n') names i h.1 en (sym eq) in
      (rw (c.others n0 apart) h.0, h.1, Shows-Changed t t' names d i f n m c h.2 e en)

  pub length-Shows :
      (t : N → Option Map) (names : List N) (d : Db) → Shows t names d → length names ≡ length d
  length-Shows t [] [] h = refl
  length-Shows t [] (m ∷ d) h = ground arith
  length-Shows t (n ∷ names) [] h = ground arith
  length-Shows t (n ∷ names) (m ∷ d) h = ap suc (length-Shows t names d h.2)

-- ===== src/Sqlite/Shown.antt =====
-- Tables that show a database, and the rows of a table.
use rpi4_usb_io_breaker.Base.{
  zero, suc, Option, some, List, [], ◌∷◌, map, get_elem?, ◌≡◌, ◌≢◌, refl, ap, arith, inl, inr,
  Bool-cases,
}
use rpi4_usb_io_breaker.Base.Ord.{list_ord}
use rpi4_usb_io_breaker.Core.Data.{Data, starts_with}
use rpi4_usb_io_breaker.Core.Error.{Str, ok}
use rpi4_usb_io_breaker.Core.Types.{DbMapId}
use rpi4_usb_io_breaker.Core.Util.Collect.{with_prefix}
use rpi4_usb_io_breaker.Core.Contract.{Map}
use rpi4_usb_io_breaker.Core.Contract.Shown.{Changed}
use rpi4_usb_io_breaker.Sqlite.Queries.{from_name}
use rpi4_usb_io_breaker.Sqlite.Driver.{Driver}
use rpi4_usb_io_breaker.Sqlite.Errors.{map_err}
use rpi4_usb_io_breaker.Sqlite.Transaction.{items, collect_rows}
use rpi4_usb_io_breaker.Sqlite.Laws.{Str-discrete, Tables, set_table, rows_of}

pub set_table_other : (t : Tables) (n n' : Str) (m : Map) → n ≢ n' → set_table n m t n' ≡ t n'
set_table_other t n n' m h = go (Str-discrete n n')
  where
    go : (x : Dec (n ≡ n')) → elim x as (λ _. Option Map) [ yes _ ↦ some m | no _ ↦ t n' ] ≡ t n'
    go (yes e) = absurd (h e)
    go (no _) = refl

pub set_table_self : (t : Tables) (n : Str) (m : Map) → set_table n m t n ≡ some m
set_table_self t n m = go (Str-discrete n n)
  where
    go : (x : Dec (n ≡ n)) → elim x as (λ _. Option Map) [ yes _ ↦ some m | no _ ↦ t n ] ≡ some m
    go (yes e) = refl
    go (no h) = absurd (h refl)

pub set_table-Changed : (t : Tables) (n : Str) (m : Map) → Changed n m t (set_table n m t)
set_table-Changed t n m = record {
  this = set_table_self t n m;
  others = λ n' h. set_table_other t n n' m h;
}

pub get_elem?-map :
    (names : List Str) (i : DbMapId) (n : Str)
    → get_elem? names i ≡ some n
    → get_elem? (map from_name names) i ≡ some (from_name n)
get_elem?-map [] i n e = ground arith
get_elem?-map (x ∷ names) zero n e = ground arith
get_elem?-map (x ∷ names) (suc i) n e = get_elem?-map names i n e

-- the iterator ends with its entries, since all have the prefix
pub items-with_prefix : (p : Data) (m : Map) → items p (with_prefix p m) ≡ with_prefix p m
unfolding items
items-with_prefix p [] = refl
items-with_prefix p ((k, v) ∷ m) = elim (Bool-cases (starts_with k p)) [
  | inl e ↦ rw (e, items, e) (ap (λ (l : Map). (k, v) ∷ l) (items-with_prefix p m))
  | inr e ↦ rw e (items-with_prefix p m)
]

pub collect_rows-rows_of :
    (d : Driver) (p : Data) (m : Map) → collect_rows d p (rows_of m) ≡ ok (with_prefix p m)
unfolding collect_rows map_err
collect_rows-rows_of d p [] = refl
collect_rows-rows_of d p ((k, v) ∷ m) = elim (Bool-cases (starts_with k p)) [
  | inl e ↦ rw (e, collect_rows-rows_of d p m) refl
  | inr e ↦ rw (e, collect_rows-rows_of d p m) refl
]

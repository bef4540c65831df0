-- ===== src/Examples/Env.antt =====
-- A small LMDB that behaves as documented, with a database for each name, and the refinement over it.
use rpi4_usb_io_breaker.Base.{
  subst, ◌<◌, ◌^◌, ◌≢◌, ℕ, Bool, true, false, Option, none, some, List, [], ◌∷◌, ◌≡◌, refl, sym,
  ◌∙◌, ap, if◌then◌else◌, ltb, length, arith, All,
}
use rpi4_usb_io_breaker.Base.Ord.{list_ord}
use rpi4_usb_io_breaker.BTreeMap
use rpi4_usb_io_breaker.BTreeMap.{range_from}
use rpi4_usb_io_breaker.BTreeMap.Sorted.{IsSorted, insert-IsSorted, remove-IsSorted}
use rpi4_usb_io_breaker.Core.Data.{Data}
use rpi4_usb_io_breaker.Core.Error.{ok, Str, not_found}
use rpi4_usb_io_breaker.Core.Contract.{Map}
use rpi4_usb_io_breaker.Core.Contract.Shown.{Changed, Shows}
use rpi4_usb_io_breaker.Core.Sessions.{
  Session, SessionIn, SessionKeys, read_only, committed, dropped, get, prefix_iter, put, del,
  run_sessions, spec_sessions,
}
use rpi4_usb_io_breaker.Sqlite.Laws.{Str-discrete, Tables, set_table}
use rpi4_usb_io_breaker.Sqlite.Shown.{set_table_self, set_table_other}
use rpi4_usb_io_breaker.Lmdb.Errors.{missing, bad_val_size, IoError}
use rpi4_usb_io_breaker.Lmdb.Transaction.{LmdbResult, success, failure, Reader, Lmdb, LmdbImpl}
use rpi4_usb_io_breaker.Lmdb.Open.{LmdbSettings, lmdb_backend, open_lmdb}
use rpi4_usb_io_breaker.Lmdb.Laws.{items_of, Contents, ReaderLaws, EnvironmentLaws}
use rpi4_usb_io_breaker.Core.Types.{DbDesc, DbMapDesc, new_desc, db_map_count}
use rpi4_usb_io_breaker.Core.Types.Names.{Distinct}
use rpi4_usb_io_breaker.Core.Contract.{empty_db}
use rpi4_usb_io_breaker.Lmdb.Opens.{Apart, OpenLaws, open_lmdb_refines}
use rpi4_usb_io_breaker.Lmdb.Refines.{lmdb_refines}

-- the keys that the environment takes
takes : Data → Bool
takes [] = false
takes (b ∷ k) = ltb (length k) 511

abbrev IsKey : Data → Type 0
IsKey k = takes k ≡ true

get_now : Map → Data → LmdbResult Data
get_now m k =
    if takes k
    then (elim (BTreeMap.get k m) [ none ↦ failure missing | some v ↦ success v ])
    else failure bad_val_size

-- the map of a database, which is empty where nothing was written
or_empty : Option Map → Map
or_empty none = []
or_empty (some m) = m

map_at : Tables → Str → Map
unfolding or_empty
map_at t n = or_empty (t n)

put_now : Str → Data → Data → Tables → LmdbResult (Unit {0}) × Tables
put_now n k v t =
    if takes k
    then (success tt, set_table n (BTreeMap.insert k v (map_at t n)) t)
    else (failure bad_val_size, t)

del_now : Str → Data → Tables → LmdbResult (Unit {0}) × Tables
del_now n k t =
    if takes k
    then (elim (BTreeMap.get k (map_at t n)) [
      | none ↦ (failure missing, t)
      | some v ↦ (success tt, set_table n (BTreeMap.remove k (map_at t n)) t)
    ])
    else (failure bad_val_size, t)

reader : Reader Tables Str
unfolding get_now
reader = record {
  Cursor = Map;
  get = λ tx n k. get_now (map_at tx n) k;
  open_ro_cursor = λ tx n. success (map_at tx n);
  into_iter_start = λ c. items_of c;
  into_iter_from = λ c k. items_of (range_from k c);
}

small_env : Lmdb
unfolding reader put_now del_now
small_env = record {
  Environment = Tables;
  Database = Str;
  RoTransaction = Tables;
  RwTransaction = Tables;
  ro = reader;
  rw = reader;
  begin_ro_txn = λ env. success env;
  begin_rw_txn = λ size env. success env;
  put = λ n k v tx. put_now n k v tx;
  del = λ n k tx. del_now n k tx;
  commit = λ tx env. (success tt, tx);
  do_resize = λ env. (success tt, env);
}

abbrev contents_of : Tables → Str → Option Map
contents_of t n = some (map_at t n)

abbrev Holds : Tables → (Str → Option Map) → Type 0
Holds t c = ((n : Str) → c n ≡ some (map_at t n)) × ((n : Str) → IsSorted (map_at t n))

held :
    (t : Tables) (m : Map) (c : Str → Option Map) (n : Str)
    → Holds t c
    → c n ≡ some m
    → map_at t n ≡ m
held t m c n h e = let same : some (map_at t n) ≡ some m = sym (h.0 n) ∙ e in ground arith

map_at_self : (t : Tables) (n : Str) (m : Map) → map_at (set_table n m t) n ≡ m
unfolding map_at
map_at_self t n m = rw (set_table_self t n m) refl

map_at_other :
    (t : Tables) (n n' : Str) (m : Map) → n ≢ n' → map_at (set_table n m t) n' ≡ map_at t n'
unfolding map_at
map_at_other t n n' m h = rw (set_table_other t n n' m h) refl

set_table-Holds :
    (t : Tables) (n : Str) (m : Map) (c : Str → Option Map)
    → Holds t c
    → IsSorted m
    → Holds (set_table n m t) (contents_of (set_table n m t))
set_table-Holds t n m c h s = (λ k. refl, λ k. sorted_at k (Str-discrete n k))
  where
    sorted_at : (k : Str) → Dec (n ≡ k) → IsSorted (map_at (set_table n m t) k)
    sorted_at k (yes e) =
        subst (λ j. IsSorted (map_at (set_table n m t) j)) e (rw (map_at_self t n m) s)
    sorted_at k (no d) = rw (map_at_other t n k m d) (h.1 k)

set_table-Changed :
    (t : Tables) (n : Str) (m : Map) (c : Str → Option Map)
    → Holds t c
    → Changed n m c (contents_of (set_table n m t))
set_table-Changed t n m c h = record {
  this = ap (λ (x : Map). some x) (map_at_self t n m);
  others = λ k d. ap (λ (x : Map). some x) (map_at_other t n k m d) ∙ sym (h.0 k);
}

put_at :
    (t : Tables) (n : Str) (k v : Data)
    → IsKey k
    → put_now n k v t ≡ (success tt, set_table n (BTreeMap.insert k v (map_at t n)) t)
unfolding put_now
put_at t n k v key = rw key refl

del_at :
    (t : Tables) (n : Str) (k v : Data)
    → IsKey k
    → BTreeMap.get k (map_at t n) ≡ some v
    → del_now n k t ≡ (success tt, set_table n (BTreeMap.remove k (map_at t n)) t)
unfolding del_now
del_at t n k v key o = rw (key, o) refl

not_del_at :
    (t : Tables) (n : Str) (k : Data)
    → IsKey k
    → BTreeMap.get k (map_at t n) ≡ none
    → del_now n k t ≡ (failure missing, t)
unfolding del_now
not_del_at t n k key o = rw (key, o) refl

reader-laws : unfold small_env in ReaderLaws small_env IsKey reader Holds
unfolding small_env
reader-laws = record {
  ascending = λ tx c n m h e. rw (← held tx m c n h e) (h.1 n);
  get_found =
      λ tx c n m k v h e key o. unfold reader get_now in rw (held tx m c n h e, key, o) refl;
  get_missing =
      λ tx c n m k h e key o. unfold reader get_now in rw (held tx m c n h e, key, o) refl;
  cursor_lem = λ tx c n m h e.
      let same = held tx m c n h e in
      unfold reader in
      (map_at tx n, refl, ap items_of same, λ k x. ap (λ y. items_of (range_from k y)) same);
}

env-laws : EnvironmentLaws small_env IsKey
unfolding small_env reader-laws
env-laws = record {
  Stores = Holds;
  SeesRo = Holds;
  SeesRw = Holds;
  ro_laws = reader-laws;
  rw_laws = reader-laws;
  begin_ro_lem = λ env c h. (env, refl, h);
  begin_rw_lem = λ size env c h. (env, refl, h);
  put_lem = λ tx c n m k v h e key.
      let now = put_at tx n k v key in
      let same = held tx m c n h e in
      let x = BTreeMap.insert k v (map_at tx n) in
      (
        contents_of (set_table n x tx),
        rw now refl,
        rw now (set_table-Holds tx n x c h (insert-IsSorted k v (map_at tx n) (h.1 n))),
        rw (← same) (set_table-Changed tx n x c h),
      );
  del_found = λ tx c n m k v h e key o.
      let same = held tx m c n h e in
      let found : BTreeMap.get k (map_at tx n) ≡ some v = rw same o in
      let now = del_at tx n k v key found in
      let x = BTreeMap.remove k (map_at tx n) in
      (
        contents_of (set_table n x tx),
        rw now refl,
        rw now (set_table-Holds tx n x c h (remove-IsSorted k (map_at tx n) (h.1 n))),
        rw (← same) (set_table-Changed tx n x c h),
      );
  del_missing = λ tx c n m k h e key o.
      let absent : BTreeMap.get k (map_at tx n) ≡ none = rw (held tx m c n h e) o in
      let now = not_del_at tx n k key absent in (rw now refl, rw now h);
  commit_lem = λ tx env base c s h. (refl, h);
  do_resize_lem = λ env c h. (refl, h);
}

abbrev io_error : IoError
io_error = record { kind = not_found; text = [] }

abbrev settings : LmdbSettings (Unit {0})
settings = record { path = []; initial_map_size = record { initial_map_size = none }; passed = tt }

abbrev stored : Map
stored = (1 ∷ [], 10 ∷ []) ∷ (1 ∷ 2 ∷ [], 20 ∷ []) ∷ []

impl : LmdbImpl small_env
unfolding small_env
impl = record { env = λ n. some stored; dbs = (b'm' ∷ []) ∷ []; map_resize_scheduled = true }

contents : Contents small_env
unfolding small_env
contents db = some stored

create_db : small_env.Environment → Str → LmdbResult small_env.Database
unfolding small_env
create_db env name = success name

open_env : Option ℕ → ℕ → Unit {0} → Str → LmdbResult small_env.Environment
unfolding small_env
open_env size n p path = success (λ n. none)

impl-Stores : env-laws.Stores impl.env contents
unfolding env-laws impl small_env contents list_ord map_at
impl-Stores = ((λ _. refl), (λ _. ((refl, tt), (tt, tt))))

impl-Shows : Shows contents impl.dbs (stored ∷ [])
unfolding impl small_env contents
impl-Shows = (refl, tt, tt)

abbrev sessions : List Session
sessions =
    committed (put 0 (2 ∷ []) (30 ∷ []) ∷ del 0 (1 ∷ []) ∷ del 0 (9 ∷ []) ∷ [])
    ∷ dropped (del 0 (2 ∷ []) ∷ [])
    ∷ read_only (prefix_iter 0 (1 ∷ []) ∷ get 0 (2 ∷ []) ∷ [])
    ∷ []

sessions-Keys : All (SessionKeys IsKey) sessions
unfolding takes
sessions-Keys = ((refl, (refl, (refl, tt))), ((refl, tt), ((tt, (refl, tt)), tt)))

lmdb_refines_example :
    (run_sessions
      (lmdb_backend small_env
        (λ e. [])
        (λ n. io_error)
        io_error
        (λ a b. false)
        create_db
        (λ path. none)
        open_env
        settings)
      sessions
      impl).0
    ≡ spec_sessions sessions (stored ∷ [])
lmdb_refines_example =
    lmdb_refines small_env (λ e. []) (λ n. io_error) io_error (λ a b. false) IsKey env-laws
      create_db (λ path. none) open_env settings sessions impl (stored ∷ []) contents impl-Stores
      impl-Shows (omega arith) sessions-Keys

-- every path is new, since the environment starts with no database
abbrev IsNew : Str → Type 0
IsNew path = Unit

handle : Str → small_env.Database
unfolding small_env
handle name = name

creates_all :
    (env : small_env.Environment) (descs : List DbMapDesc)
    → All (λ (d : DbMapDesc). create_db env d.name ≡ success (handle d.name)) descs
unfolding create_db handle small_env
creates_all env [] = tt
creates_all env (d ∷ descs) = (refl, creates_all env descs)

no_entries : Contents small_env
unfolding small_env
no_entries n = some []

empty_all :
    (descs : List DbMapDesc) → All (λ (d : DbMapDesc). no_entries (handle d.name) ≡ some []) descs
unfolding no_entries handle small_env
empty_all [] = tt
empty_all (d ∷ descs) = (refl, empty_all descs)

one_differs :
    (n : Str) (descs : List DbMapDesc)
    → All (λ (d : DbMapDesc). n ≢ d.name) descs
    → All (λ (d : DbMapDesc). handle n ≢ handle d.name) descs
unfolding handle
one_differs n [] h = tt
one_differs n (d ∷ descs) h = (h.0, one_differs n descs h.1)

all_differ :
    (descs : List DbMapDesc) → Distinct descs → Apart small_env env-laws create_db handle descs
all_differ [] h = tt
all_differ (d ∷ descs) h = (one_differs d.name descs h.0, all_differ descs h.1)

opens : OpenLaws small_env env-laws create_db open_env IsNew
unfolding open_env no_entries small_env env-laws map_at
opens = record {
  open_env_lem = λ size count passed path descs is_new distinct few. (
    (λ n. none),
    refl,
    record {
      contents = no_entries;
      stored = ((λ n. refl), (λ n. tt));
      handle = handle;
      creates = creates_all (λ n. none) descs;
      empty = empty_all descs;
      apart = all_differ descs distinct;
    },
  );
}

abbrev two_maps : DbDesc
two_maps = record { map_descs = new_desc (b'm' ∷ []) ∷ new_desc (b'n' ∷ []) ∷ [] }

two_maps-Distinct : Distinct two_maps.map_descs
unfolding new_desc
two_maps-Distinct = ((ground arith, tt), (tt, tt))

few_maps : db_map_count two_maps.map_descs < 2 ^ 32
unfolding db_map_count
few_maps = omega arith

sessions-In : All (SessionIn (db_map_count two_maps.map_descs)) sessions
unfolding db_map_count
sessions-In = omega arith

open_lmdb_refines_example :
    (s : LmdbImpl small_env) × (open_lmdb small_env
        (λ e. [])
        (λ n. io_error)
        io_error
        (λ a b. false)
        create_db
        (λ path. none)
        open_env
        settings
        two_maps
      ≡ ok s)
    × ((run_sessions
          (lmdb_backend small_env
            (λ e. [])
            (λ n. io_error)
            io_error
            (λ a b. false)
            create_db
            (λ path. none)
            open_env
            settings)
          sessions
          s).0
        ≡ spec_sessions sessions (empty_db two_maps))
open_lmdb_refines_example =
    open_lmdb_refines small_env (λ e. []) (λ n. io_error) io_error (λ a b. false) IsKey env-laws
      create_db (λ path. none) open_env IsNew opens settings two_maps sessions refl tt
      two_maps-Distinct few_maps sessions-In sessions-Keys

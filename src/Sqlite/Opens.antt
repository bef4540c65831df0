-- ===== src/Sqlite/Opens.antt =====
-- Opening a database, with the tables that it has, and the sessions that follow.
use rpi4_usb_io_breaker.Base.{
  ℕ, true, false, Bool, Option, none, some, List, [], ◌∷◌, map, length, All, ◌≡◌, ◌≢◌, refl, ◌∙◌,
}
use rpi4_usb_io_breaker.Base.Ord.{list_ord}
use rpi4_usb_io_breaker.Core.Error.{Str, ok}
use rpi4_usb_io_breaker.Core.Types.{DbDesc, DbMapDesc, db_map_count, transform}
use rpi4_usb_io_breaker.Core.Types.Names.{Distinct}
use rpi4_usb_io_breaker.Core.Contract.{Map, Db}
use rpi4_usb_io_breaker.Core.Contract.Shown.{Shows}
use rpi4_usb_io_breaker.Core.Sessions.{Session, run_sessions, spec_sessions, SessionIn}
use rpi4_usb_io_breaker.Lmdb.Errors.{IoError}
use rpi4_usb_io_breaker.Sqlite.Queries.{from_name, from_desc}
use rpi4_usb_io_breaker.Sqlite.Errors.{map_err}
use rpi4_usb_io_breaker.Sqlite.Driver.{
  SqlError, SqlResult, done, Driver, begin_exclusive, commit_text, table_exists, locking_mode,
  exclusive, synchronous, off, fullfsync, true_text,
}
use rpi4_usb_io_breaker.Sqlite.Transaction.{SqliteImpl}
use rpi4_usb_io_breaker.Sqlite.Open.{
  SqliteStorageMode, in_memory, file, Sqlite, configure, take_lock, create_tables, open_connection,
  statement_cap, with_capacity, open_db, make_parent, open_sqlite, sqlite_backend,
}
use rpi4_usb_io_breaker.Sqlite.Laws.{Tables, DriverLaws, StatementLaws}
use rpi4_usb_io_breaker.Sqlite.Tables.{CreateLaws, or_empty, create_missing_lem}
use rpi4_usb_io_breaker.Sqlite.Refines.{run_sessions-Repr}

-- the map that a table gives: an empty one, if there is no table
abbrev pub map_of : Option Map → Map
map_of none = []
map_of (some m) = m

or_empty-map_of : (o : Option Map) → or_empty o ≡ some (map_of o)
or_empty-map_of none = refl
or_empty-map_of (some m) = refl

-- the database that the tables give for those maps
abbrev pub stored_db : Tables → List DbMapDesc → Db
stored_db t descs = map (λ (m : DbMapDesc). map_of (t m.name)) descs

-- What opens a database and prepares the connection, where none of it fails. `Stored` says which tables the file at a
-- path holds.
pub record ConnectLaws (d : Driver) (laws : DriverLaws d) (Stored : Str → Tables → Type 0)
    : Type 1 where
  pub in_memory_works : (c : d.Connection) × (d.open_in_memory ≡ done c) × laws.Open c (λ n. none)
  pub file_works :
      (path : Str) (t : Tables)
      → Stored path t
      → (c : d.Connection) × (d.open_file path ≡ done c) × laws.Open c t
  pub pragma_works :
      (name value : Str) (c : d.Connection) (t : Tables)
      → laws.Open c t
      → ((d.pragma_update name value c).0 ≡ done tt) × laws.Open (d.pragma_update name value c).1 t
  pub exclusive_works :
      (c : d.Connection) (t : Tables)
      → laws.Open c t
      → ((d.execute begin_exclusive c).0 ≡ done tt) × laws.InTx (d.execute begin_exclusive c).1 t t
  pub commit_text_works :
      (c : d.Connection) (base t : Tables)
      → laws.InTx c base t
      → ((d.execute commit_text c).0 ≡ done tt) × laws.Open (d.execute commit_text c).1 t
  pub exists_prepares :
      (c : d.Connection) (t : Tables)
      → laws.Open c t
      → (stmt : d.Statement) × (d.prepare_cached table_exists c ≡ done stmt)
  pub capacity_stays :
      (n : ℕ) (c : d.Connection) (t : Tables) → laws.Open c t → laws.Open (d.set_capacity n c) t

-- the tables that there are before the database is opened
abbrev pub Holds : (Str → Tables → Type 0) → SqliteStorageMode → Tables → Type 0
Holds Stored in_memory t = t ≡ λ n. none
Holds Stored (file path) t = Stored path t

-- the directory of a file is there, or can be made
abbrev pub HasParent : (Str → Option Str) → (Str → Option IoError) → SqliteStorageMode → Type 0
HasParent parent create_dir_all in_memory = Unit
HasParent parent create_dir_all (file path) =
    (dir : Str) × (parent path ≡ some dir) × (create_dir_all dir ≡ none)

names_lem :
    (descs : List DbMapDesc)
    → transform from_desc descs ≡ map from_name (map (λ (m : DbMapDesc). m.name) descs)
unfolding transform from_desc
names_lem [] = refl
names_lem (m ∷ descs) = rw (names_lem descs) refl

all_differ :
    (n : Str) (descs : List DbMapDesc)
    → All (λ (e : DbMapDesc). n ≢ e.name) descs
    → All (λ n'. n ≢ n') (map (λ (m : DbMapDesc). m.name) descs)
all_differ n [] h = tt
all_differ n (m ∷ descs) h = (h.0, all_differ n descs h.1)

stored_db-Shows :
    (t t' : Tables) (descs : List DbMapDesc)
    → Distinct descs
    → All (λ n. t' n ≡ or_empty (t n)) (map (λ (m : DbMapDesc). m.name) descs)
    → Shows t' (map (λ (m : DbMapDesc). m.name) descs) (stored_db t descs)
stored_db-Shows t t' [] distinct h = tt
stored_db-Shows t t' (m ∷ descs) distinct h = (
  h.0 ∙ or_empty-map_of (t m.name),
  all_differ m.name descs distinct.0,
  stored_db-Shows t t' descs distinct.1 h.1,
)

length-stored_db :
    (t : Tables) (descs : List DbMapDesc) → length (stored_db t descs) ≡ db_map_count descs
unfolding db_map_count
length-stored_db t [] = refl
length-stored_db t (m ∷ descs) = rw (length-stored_db t descs) refl

module _ (d : Driver) (laws : DriverLaws d) (IsName : Str → Type 0)
    (creates : CreateLaws d laws IsName) {Stored : Str → Tables → Type 0}
    (connects : ConnectLaws d laws Stored) where
  configure_lem :
      (fast : Bool) (c : d.Connection) (t : Tables)
      → laws.Open c t
      → ((configure d fast c).0 ≡ done tt) × laws.Open (configure d fast c).1 t
  unfolding configure
  configure_lem true c t r =
      let (locked, r1) = connects.pragma_works locking_mode exclusive c t r in
      rw locked
        (connects.pragma_works synchronous off (d.pragma_update locking_mode exclusive c).1 t r1)
  configure_lem false c t r =
      let (locked, r1) = connects.pragma_works locking_mode exclusive c t r in
      rw locked (
        connects.pragma_works fullfsync true_text (d.pragma_update locking_mode exclusive c).1 t r1)

  take_lock_lem :
      (c : d.Connection) (t : Tables)
      → laws.Open c t
      → ((take_lock d c).0 ≡ done tt) × laws.Open (take_lock d c).1 t
  unfolding take_lock
  take_lock_lem c t r =
      let (begun, r1) = connects.exclusive_works c t r in
      rw begun (connects.commit_text_works (d.execute begin_exclusive c).1 t t r1)

  open_connection_lem :
      (mode : SqliteStorageMode) (t : Tables)
      → Holds Stored mode t
      → (c : d.Connection) × (open_connection d mode ≡ done c) × laws.Open c t
  unfolding open_connection
  open_connection_lem in_memory t h = rw h connects.in_memory_works
  open_connection_lem (file path) t h = connects.file_works path t h

  create_tables_lem :
      (names : List Str) (c : d.Connection) (t : Tables)
      → laws.Open c t
      → All IsName names
      → ((create_tables d names c).0 ≡ done tt)
        × (t' : Tables) × laws.Open (create_tables d names c).1 t'
        × All (λ n. t' n ≡ or_empty (t n)) names
  unfolding create_tables
  create_tables_lem names c t r named =
      let (stmt, prepared) = connects.exists_prepares c t r in
      rw (create_tables, prepared)
        (create_missing_lem d laws IsName creates names stmt c t r prepared named)

  make_parent_lem :
      (parent : Str → Option Str) (create_dir_all : Str → Option IoError) (mode : SqliteStorageMode)
      → HasParent parent create_dir_all mode
      → make_parent d parent create_dir_all mode ≡ ok tt
  unfolding make_parent
  make_parent_lem parent create_dir_all in_memory h = refl
  make_parent_lem parent create_dir_all (file path) (dir, found, made) =
      rw (make_parent, found, made) refl

  with_capacity_lem :
      (n : ℕ) (p : SqlResult (SqlError d.Failure d.Other) (Unit {0}) × d.Connection)
      → p.0 ≡ done tt
      → with_capacity d n p ≡ done (d.set_capacity n p.1)
  with_capacity_lem n (r, c) e = rw e refl

  open_db_lem :
      (sqlite : Sqlite) (desc : DbDesc) (t : Tables)
      → Holds Stored sqlite.backend t
      → All IsName (map (λ (m : DbMapDesc). m.name) desc.map_descs)
      → (c : d.Connection) × (open_db d sqlite desc ≡ done c)
        × (t' : Tables) × laws.Open c t'
        × All (λ n. t' n ≡ or_empty (t n)) (map (λ (m : DbMapDesc). m.name) desc.map_descs)
  unfolding open_db
  open_db_lem sqlite desc t h named =
      let names = map (λ (m : DbMapDesc). m.name) desc.map_descs in
      let (c, opened, r) = open_connection_lem sqlite.backend t h in
      let (configured, r1) = configure_lem sqlite.disable_fsync c t r in
      let c1 = (configure d sqlite.disable_fsync c).1 in
      let (locked, r2) = take_lock_lem c1 t r1 in
      let c2 = (take_lock d c1).1 in
      let (created, t', r3, kept) = create_tables_lem names c2 t r2 named in
      let cap = statement_cap d (db_map_count desc.map_descs) in
      (
        d.set_capacity cap (create_tables d names c2).1,
        rw (open_db, opened, configured, locked)
            (with_capacity_lem cap (create_tables d names c2) created),
        t',
        connects.capacity_stays cap (create_tables d names c2).1 t' r3,
        kept,
      )

  -- Over a SQLite that works as documented and in which nothing fails: where the storage holds the tables `t`, the parent
  -- directory of a file can be made, and the maps have different names, which SQLite compares as the code does, the
  -- backend opens, and then answers every call of every session, on map ids that there are, as the abstract database does
  -- that starts with the map of each table, or an empty map where there is no table.
  pub open_sqlite_refines :
      (works : StatementLaws d laws IsName) (parent : Str → Option Str)
      (create_dir_all : Str → Option IoError) (poison_text : Str) (sqlite : Sqlite) (desc : DbDesc)
      (sessions : List Session) (t : Tables)
      → Holds Stored sqlite.backend t
      → HasParent parent create_dir_all sqlite.backend
      → Distinct desc.map_descs
      → All IsName (map (λ (m : DbMapDesc). m.name) desc.map_descs)
      → All (SessionIn (db_map_count desc.map_descs)) sessions
      → (s : SqliteImpl d) × (open_sqlite d parent create_dir_all sqlite desc ≡ ok s)
        × ((run_sessions (sqlite_backend d parent create_dir_all poison_text sqlite) sessions s).0
            ≡ spec_sessions sessions (stored_db t desc.map_descs))
  unfolding open_sqlite map_err
  open_sqlite_refines works parent create_dir_all poison_text sqlite desc sessions t holds dir
        distinct named h =
      let (c, opened, t', r, kept) = open_db_lem sqlite desc t holds named in
      let s : SqliteImpl d = record {
        connection = c;
        poisoned = false;
        queries = transform from_desc desc.map_descs;
      } in
      (
        s,
        rw (open_sqlite, make_parent_lem parent create_dir_all sqlite.backend dir, opened) refl,
        run_sessions-Repr d laws IsName works parent create_dir_all poison_text sqlite
            (db_map_count desc.map_descs) sessions s (stored_db t desc.map_descs)
            (record {
              names = map (λ (m : DbMapDesc). m.name) desc.map_descs;
              named = named;
              queries = names_lem desc.map_descs;
              healthy = refl;
              tables = t';
              connected = r;
              shows = stored_db-Shows t t' desc.map_descs distinct kept;
            })
            (length-stored_db t desc.map_descs) h,
      )

-- ===== src/Lmdb/Opens.antt =====
-- A new environment opens with an empty database for each map, and answers sessions from there.
use rpi4_usb_io_breaker.Base.{
  ℕ, ◌%◌, ◌^◌, ◌≤◌, ◌<◌, Bool, false, Option, none, some, List, [], ◌∷◌, replicate, length,
  length-replicate, All, arith, ◌≡◌, ◌≢◌, refl,
}
use rpi4_usb_io_breaker.Base.Ord.{list_ord}
use rpi4_usb_io_breaker.Core.Data.{Data}
use rpi4_usb_io_breaker.Core.Error.{Str, ErrorKind, ok}
use rpi4_usb_io_breaker.Core.Types.{DbDesc, DbMapDesc, db_map_count, try_transform}
use rpi4_usb_io_breaker.Core.Types.Names.{Distinct}
use rpi4_usb_io_breaker.Core.Contract.{Map, empty_db}
use rpi4_usb_io_breaker.Core.Contract.Shown.{Shows}
use rpi4_usb_io_breaker.Core.Sessions.{Session, run_sessions, spec_sessions, SessionIn, SessionKeys}
use rpi4_usb_io_breaker.Lmdb.Errors.{LmdbError, IoError}
use rpi4_usb_io_breaker.Lmdb.Transaction.{LmdbResult, success, Lmdb, LmdbImpl}
use rpi4_usb_io_breaker.Lmdb.Open.{
  LmdbSettings, map_size, open_db, make_dir, or_error, open_lmdb, lmdb_backend,
}
use rpi4_usb_io_breaker.Lmdb.Laws.{Contents, EnvironmentLaws}
use rpi4_usb_io_breaker.Lmdb.Refines.{lmdb_refines}

module _ (lmdb : Lmdb) {IsKey : Data → Type 0} (laws : EnvironmentLaws lmdb IsKey)
    (create_db : lmdb.Environment → Str → LmdbResult lmdb.Database) where
  -- the handles of databases of different names differ
  abbrev pub Apart : (Str → lmdb.Database) → List DbMapDesc → Type 0
  Apart handle [] = Unit
  Apart handle (d ∷ descs) =
      All (λ (e : DbMapDesc). handle d.name ≢ handle e.name) descs × Apart handle descs

  -- an environment in which those databases can be created, and are empty
  pub record IsEmpty (descs : List DbMapDesc) (env : lmdb.Environment) : Type 0 where
    pub contents : Contents lmdb
    pub stored : laws.Stores env contents
    pub handle : Str → lmdb.Database
    pub creates : All (λ (d : DbMapDesc). create_db env d.name ≡ success (handle d.name)) descs
    pub empty : All (λ (d : DbMapDesc). contents (handle d.name) ≡ some []) descs
    pub apart : Apart handle descs

  -- `IsNew` holds of the paths where an environment without databases can be made
  pub record OpenLaws {Passed : Type 0}
      (open_env : Option ℕ → ℕ → Passed → Str → LmdbResult lmdb.Environment) (IsNew : Str → Type 0)
      : Type 0 where
    pub open_env_lem :
        (size : Option ℕ) (count : ℕ) (passed : Passed) (path : Str) (descs : List DbMapDesc)
        → IsNew path
        → Distinct descs
        → length descs ≤ count
        → (env : lmdb.Environment) × (open_env size count passed path ≡ success env)
          × IsEmpty descs env

module _ (lmdb : Lmdb) (to_string : LmdbError → Str) (from_raw_os_error : ℕ → IoError)
    (last_os_error : IoError) (same_kind : ErrorKind → ErrorKind → Bool) (IsKey : Data → Type 0)
    (laws : EnvironmentLaws lmdb IsKey)
    (create_db : lmdb.Environment → Str → LmdbResult lmdb.Database) where
  abbrev handles : (Str → lmdb.Database) → List DbMapDesc → List lmdb.Database
  handles handle [] = []
  handles handle (d ∷ descs) = handle d.name ∷ handles handle descs

  opened_all :
      (env : lmdb.Environment) (handle : Str → lmdb.Database) (descs : List DbMapDesc)
      → All (λ (d : DbMapDesc). create_db env d.name ≡ success (handle d.name)) descs
      → try_transform
          (open_db lmdb to_string from_raw_os_error last_os_error same_kind create_db env)
          descs
        ≡ ok (handles handle descs)
  unfolding try_transform open_db
  opened_all env handle [] h = refl
  opened_all env handle (d ∷ descs) h = rw (h.0, opened_all env handle descs h.1) refl

  all_differ :
      (handle : Str → lmdb.Database) (n : lmdb.Database) (descs : List DbMapDesc)
      → All (λ (e : DbMapDesc). n ≢ handle e.name) descs
      → All (λ n'. n ≢ n') (handles handle descs)
  all_differ handle n [] h = tt
  all_differ handle n (d ∷ descs) h = (h.0, all_differ handle n descs h.1)

  handles-Shows :
      (c : Contents lmdb) (handle : Str → lmdb.Database) (descs : List DbMapDesc)
      → All (λ (d : DbMapDesc). c (handle d.name) ≡ some []) descs
      → Apart lmdb laws create_db handle descs
      → Shows c (handles handle descs) (replicate (length descs) [])
  handles-Shows c handle [] h a = tt
  handles-Shows c handle (d ∷ descs) h a =
      (h.0, all_differ handle (handle d.name) descs a.0, handles-Shows c handle descs h.1 a.1)

  module _ {Passed : Type 0} (create_dir_all : Str → Option IoError)
      (open_env : Option ℕ → ℕ → Passed → Str → LmdbResult lmdb.Environment) (IsNew : Str → Type 0)
      (opens : OpenLaws lmdb laws create_db open_env IsNew) (settings : LmdbSettings Passed) where
    open_lmdb_lem :
        (desc : DbDesc)
        → create_dir_all settings.path ≡ none
        → IsNew settings.path
        → Distinct desc.map_descs
        → db_map_count desc.map_descs < 2 ^ 32
        → (s : LmdbImpl lmdb) × (c : Contents lmdb) × (open_lmdb lmdb to_string from_raw_os_error
              last_os_error same_kind create_db create_dir_all open_env settings desc
            ≡ ok s)
          × laws.Stores s.env c
          × Shows c s.dbs (empty_db desc)
    unfolding open_lmdb db_map_count make_dir or_error
    open_lmdb_lem desc made new_path distinct few =
        let count = length desc.map_descs % 2 ^ 32 in
        let (env, opened, e) =
          opens.open_env_lem (map_size settings.initial_map_size) count settings.passed
            settings.path desc.map_descs new_path distinct (omega arith) in
        (
          record { env = env; dbs = handles e.handle desc.map_descs; map_resize_scheduled = false },
          e.contents,
          rw
              (
                open_lmdb,
                make_dir,
                made,
                or_error,
                opened,
                opened_all env e.handle desc.map_descs e.creates,
              )
              refl,
          e.stored,
          handles-Shows e.contents e.handle desc.map_descs e.empty e.apart,
        )

    -- Where LMDB works as documented and no call fails but for a key that is not there: at a path whose directory can be made
    -- and holds no database yet, for maps of different names, fewer than 2^32 of them, the backend opens, and then answers
    -- every call of every session, on map ids that there are and keys that LMDB takes, as the abstract database does that
    -- starts with every map empty.
    pub open_lmdb_refines :
        (desc : DbDesc) (sessions : List Session)
        → create_dir_all settings.path ≡ none
        → IsNew settings.path
        → Distinct desc.map_descs
        → db_map_count desc.map_descs < 2 ^ 32
        → All (SessionIn (db_map_count desc.map_descs)) sessions
        → All (SessionKeys IsKey) sessions
        → (s : LmdbImpl lmdb) × (open_lmdb lmdb to_string from_raw_os_error last_os_error same_kind
              create_db create_dir_all open_env settings desc
            ≡ ok s)
          × ((run_sessions
                (lmdb_backend lmdb to_string from_raw_os_error last_os_error same_kind create_db
                  create_dir_all open_env settings)
                sessions
                s).0
              ≡ spec_sessions sessions (empty_db desc))
    open_lmdb_refines desc sessions made new_path distinct few h keys =
        let (s, c, opened, stored, shows) = open_lmdb_lem desc made new_path distinct few in
        let size = length-replicate {A = Map} (db_map_count desc.map_descs) [] in
        (
          s,
          opened,
          lmdb_refines lmdb to_string from_raw_os_error last_os_error same_kind IsKey laws create_db
              create_dir_all open_env settings sessions s (empty_db desc) c stored shows (rw size h)
              keys,
        )

-- ===== src/Lmdb/Open.antt =====
-- storage/lmdb/src/lib.rs: opening an environment with a database for each map. The settings of the resizes with their
-- callback, and the flags, are passed on to the crate lmdb as they are.
use rpi4_usb_io_breaker.Base.{ℕ, ◌%◌, ◌^◌, Bool, false, Option, none, some}
use rpi4_usb_io_breaker.Core.Error.{Str, ErrorKind, Result, ok, err, ◌>>=◌, ◌>>◌}
use rpi4_usb_io_breaker.Core.Types.{DbDesc, DbMapDesc, db_map_count, try_transform}
use rpi4_usb_io_breaker.Lmdb.Errors.{LmdbError, IoError, process_with_err, process_io_error}
use rpi4_usb_io_breaker.Lmdb.MemSize.{InitialMapSize, into_memsize, as_bytes}
use rpi4_usb_io_breaker.Core.Backend.{Backend}
use rpi4_usb_io_breaker.Lmdb.Transaction
use rpi4_usb_io_breaker.Lmdb.Transaction.{LmdbResult, success, failure, Lmdb, LmdbImpl, DbTx}

-- `Lmdb`, without what is only passed on
pub record LmdbSettings (Passed : Type 0) : Type 0 where
  pub path : Str
  pub initial_map_size : InitialMapSize
  pub passed : Passed

-- a `u64` fits in a `usize` of the targets that the crate compiles for
unfoldable pub map_size : InitialMapSize → Option ℕ
map_size size = elim (into_memsize size) [ none ↦ none | some v ↦ some (as_bytes v) ]

module _ (lmdb : Lmdb) (to_string : LmdbError → Str) (from_raw_os_error : ℕ → IoError)
    (last_os_error : IoError) (same_kind : ErrorKind → ErrorKind → Bool)
    (create_db : lmdb.Environment → Str → LmdbResult lmdb.Database) where
  -- `.or_else(error::process_with_err)`
  unfoldable pub or_error : {A : Type 0} → LmdbResult A → Result A
  or_error (success a) = ok a
  or_error (failure e) = process_with_err to_string from_raw_os_error last_os_error same_kind e

  -- `Lmdb::open_db`
  unfoldable pub open_db : lmdb.Environment → DbMapDesc → Result lmdb.Database
  unfolding or_error
  open_db env desc = or_error (create_db env desc.name)

  module _ {Passed : Type 0} (create_dir_all : Str → Option IoError)
      (open_env : Option ℕ → ℕ → Passed → Str → LmdbResult lmdb.Environment) where
    unfoldable pub make_dir : Str → Result (Unit {0})
    make_dir path = elim (create_dir_all path) [ none ↦ ok tt | some e ↦ err (process_io_error e) ]

    -- `Backend::open`; the number of databases is cut to 32 bits
    unfoldable pub open_lmdb : LmdbSettings Passed → DbDesc → Result (LmdbImpl lmdb)
    unfolding make_dir or_error map_size
    open_lmdb settings desc = do
      make_dir settings.path
      env ← or_error (
          open_env (map_size settings.initial_map_size) (db_map_count desc.map_descs % 2 ^ 32)
            settings.passed settings.path)
      dbs ← try_transform (open_db env) desc.map_descs
      ok (record { env = env; dbs = dbs; map_resize_scheduled = false })

    -- `Backend for Lmdb`, and `BackendImpl for LmdbImpl`. The abort of a transaction that is dropped leaves the environment
    -- as it was.
    abbrev pub lmdb_backend : LmdbSettings Passed → Backend
    lmdb_backend settings = record {
      Impl = LmdbImpl lmdb;
      TxRo = DbTx lmdb lmdb.RoTransaction;
      TxRw = DbTx lmdb lmdb.RwTransaction;
      ro = record {
        get = Transaction.get lmdb to_string from_raw_os_error last_os_error same_kind lmdb.ro;
        prefix_iter =
            Transaction.prefix_iter lmdb to_string from_raw_os_error last_os_error same_kind
              lmdb.ro;
      };
      rw = record {
        get = Transaction.get lmdb to_string from_raw_os_error last_os_error same_kind lmdb.rw;
        prefix_iter =
            Transaction.prefix_iter lmdb to_string from_raw_os_error last_os_error same_kind
              lmdb.rw;
      };
      write = record {
        put = Transaction.put lmdb to_string from_raw_os_error last_os_error same_kind;
        del = Transaction.del lmdb to_string from_raw_os_error last_os_error same_kind;
      };
      open_db = open_lmdb settings;
      transaction_ro =
          Transaction.transaction_ro lmdb to_string from_raw_os_error last_os_error same_kind;
      transaction_rw = λ size s.
          (Transaction.transaction_rw lmdb to_string from_raw_os_error last_os_error same_kind size
            s).0;
      drop_ro = λ tx. tx.backend;
      drop_rw = λ tx. tx.backend;
      commit = Transaction.commit lmdb to_string from_raw_os_error last_os_error same_kind;
    }

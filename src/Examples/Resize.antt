-- ===== src/Examples/Resize.antt =====
-- An environment of LMDB with room for a number of values, and the theorems about resizing over it.
use rpi4_usb_io_breaker.Base.{
  ℕ, zero, suc, Bool, true, false, none, some, [], ◌∷◌, ◌≡◌, refl, get_elem?,
}
use rpi4_usb_io_breaker.Core.Error.{Str, ErrorKind, not_found, err, fatal_error, internal_error}
use rpi4_usb_io_breaker.Lmdb.Errors.{LmdbError, map_full, missing, IoError}
use rpi4_usb_io_breaker.Lmdb.Transaction
use rpi4_usb_io_breaker.Lmdb.Transaction.{
  LmdbResult, success, failure, Reader, Lmdb, LmdbImpl, DbTx, start_transaction, transaction_rw,
}
use rpi4_usb_io_breaker.Lmdb.Resize.{Reach, here, next, put, Reach-scheduled, put-map_full}

-- the transaction knows how many values it has room for
put_value : ℕ → LmdbResult (Unit {0}) × ℕ
put_value zero = (failure map_full, zero)
put_value (suc room) = (success tt, room)

abbrev no_values : Reader ℕ (Unit {0})
no_values = record {
  Cursor = Unit {0};
  get = λ tx db k. failure missing;
  open_ro_cursor = λ tx db. success tt;
  into_iter_start = λ c. [];
  into_iter_from = λ c k. [];
}

small_env : Lmdb
unfolding put_value
small_env = record {
  Environment = ℕ;
  Database = Unit {0};
  RoTransaction = ℕ;
  RwTransaction = ℕ;
  ro = no_values;
  rw = no_values;
  begin_ro_txn = λ env. success env;
  begin_rw_txn = λ size env. success env;
  put = λ db k v tx. put_value tx;
  del = λ db k tx. (success tt, tx);
  commit = λ tx env. (success tt, tx);
  do_resize = λ env. (success tt, suc env);
}

abbrev to_string : LmdbError → Str
to_string e = []

abbrev io_error : IoError
io_error = record { kind = not_found; text = [] }

abbrev from_raw : ℕ → IoError
from_raw n = io_error

abbrev same_kind : ErrorKind → ErrorKind → Bool
same_kind a b = false

backend : LmdbImpl small_env
unfolding small_env
backend = record { env = zero; dbs = tt ∷ []; map_resize_scheduled = false }

full_tx : DbTx small_env small_env.RwTransaction
unfolding small_env
full_tx = record { tx = zero; backend = backend }

the_db : small_env.Database
unfolding small_env
the_db = tt

found : get_elem? full_tx.backend.dbs 0 ≡ some the_db
unfolding full_tx backend the_db
found = refl

full : (small_env.put the_db (1 ∷ []) (2 ∷ []) full_tx.tx).0 ≡ failure map_full
unfolding small_env full_tx
full = refl

resized : (small_env.do_resize full_tx.backend.env).0 ≡ success tt
unfolding small_env
resized = refl

put-map_full_example :
    ((Transaction.put small_env to_string from_raw io_error same_kind 0 (1 ∷ []) (2 ∷ []) full_tx).0
      ≡ err (fatal_error (internal_error [])))
    × ((transaction_rw small_env to_string from_raw io_error same_kind none
          (Transaction.put small_env to_string from_raw io_error same_kind 0
            (1 ∷ [])
            (2 ∷ [])
            full_tx).1.backend).0
        ≡ start_transaction small_env to_string from_raw io_error same_kind
            (small_env.begin_rw_txn none)
            (record {
              env = (small_env.do_resize full_tx.backend.env).1;
              dbs = full_tx.backend.dbs;
              map_resize_scheduled = false;
            }))
put-map_full_example =
    put-map_full small_env to_string from_raw io_error same_kind full_tx 0 (1 ∷ []) (2 ∷ []) the_db
      none found full resized

-- the backend after the write that found the map full
abbrev after : LmdbImpl small_env
after =
    (Transaction.put small_env to_string from_raw io_error same_kind 0 (1 ∷ []) (2 ∷ [])
      full_tx).1.backend

one_write : Reach small_env to_string from_raw io_error same_kind full_tx.backend after true
unfolding full_tx small_env
one_write = next here (put full_tx 0 (1 ∷ []) (2 ∷ []) the_db refl found)

unscheduled : full_tx.backend.map_resize_scheduled ≡ false
unfolding full_tx backend
unscheduled = refl

Reach-scheduled_example : after.map_resize_scheduled ≡ true
Reach-scheduled_example =
    Reach-scheduled small_env to_string from_raw io_error same_kind full_tx.backend after true
      unscheduled one_write

-- ===== src/Lmdb/Errors.antt =====
-- storage/lmdb/src/error.rs. The text of an error, and the I/O errors of the operating system, are parameters.
pub mod Reports
use rpi4_usb_io_breaker.Base.{ℕ, Bool, Option, none, ◌≡◌, ◌⊎◌, inl, inr, refl, if◌then◌else◌}
use rpi4_usb_io_breaker.Core.Error.{
  Str, ErrorKind, broken_pipe, already_exists, permission_denied, not_found, other_kind,
  transaction_failed, temporarily_unavailable, db_init, io, database_corrupted, schema_mismatch,
  internal_error, fatal_io, Error, recoverable_error, fatal_error, Result, ok, err,
}

-- `lmdb::Error`, as the code matches on it; a number of the operating system is not negative
pub data LmdbError : Type 0 where
  key_exist missing page_not_found corrupted panic version_mismatch invalid map_full dbs_full :
      LmdbError
  readers_full tls_full txn_full cursor_full page_full map_resized incompatible : LmdbError
  bad_rslot bad_txn bad_val_size bad_dbi : LmdbError
  other : ℕ → LmdbError

-- `std::io::Error`, by its kind and its text
pub record IoError : Type 0 where
  pub kind : ErrorKind
  pub text : Str

-- `process_io_error`
unfoldable pub process_io_error : IoError → Error
process_io_error e = elim (e.kind) [
  | broken_pipe ↦ recoverable_error (io e.kind e.text)
  | already_exists ↦ recoverable_error (io e.kind e.text)
  | permission_denied ↦ recoverable_error (io e.kind e.text)
  | not_found ↦ recoverable_error (io e.kind e.text)
  | other_kind n ↦ fatal_error (fatal_io e.kind e.text)
]

module _ (to_string : LmdbError → Str) (from_raw_os_error : ℕ → IoError) (last_os_error : IoError)
    (same_kind : ErrorKind → ErrorKind → Bool) where
  -- the error of the system, if it is of the same kind, has the better text
  unfoldable pub system_error : ℕ → IoError
  system_error errno =
      let e = from_raw_os_error errno in
      if same_kind e.kind last_os_error.kind then last_os_error else e

  internal : {T : Type 0} → LmdbError → Result T
  internal e = err (fatal_error (internal_error (to_string e)))

  -- `process`
  unfoldable pub process : {T : Type 0} → LmdbError → Result T → Result T
  unfolding system_error process_io_error internal
  process missing default = default
  process key_exist default = default
  process invalid default = err (recoverable_error db_init)
  process version_mismatch default = err (recoverable_error db_init)
  process bad_txn default = err (recoverable_error transaction_failed)
  process readers_full default = err (recoverable_error temporarily_unavailable)
  process txn_full default = err (recoverable_error temporarily_unavailable)
  process tls_full default = err (recoverable_error temporarily_unavailable)
  process bad_dbi default = internal bad_dbi
  process panic default = internal panic
  process cursor_full default = internal cursor_full
  process page_full default = internal page_full
  process bad_rslot default = internal bad_rslot
  process map_full default = internal map_full
  process map_resized default = internal map_resized
  process dbs_full default = err (fatal_error schema_mismatch)
  process bad_val_size default = err (fatal_error schema_mismatch)
  process incompatible default = err (fatal_error schema_mismatch)
  process page_not_found default = err (fatal_error database_corrupted)
  process corrupted default = err (fatal_error database_corrupted)
  process (other errno) default = err (process_io_error (system_error errno))

  -- `process_with_unit`, `process_with_none` and `process_with_err`
  unfoldable pub process_with_unit : LmdbError → Result (Unit {0})
  unfolding process
  process_with_unit e = process e (ok tt)

  unfoldable pub process_with_none : {T : Type 0} → LmdbError → Result (Option T)
  unfolding process
  process_with_none e = process e (ok none)

  unfoldable pub process_with_err : {T : Type 0} → LmdbError → Result T
  unfolding process
  process_with_err e = process e (err (fatal_error (internal_error (to_string e))))

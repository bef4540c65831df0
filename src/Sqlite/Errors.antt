-- ===== src/Sqlite/Errors.antt =====
-- storage/sqlite/src/error.rs: every error of SQLite is fatal.
use rpi4_usb_io_breaker.Base.{none, some}
use rpi4_usb_io_breaker.Core.Error.{Error, fatal_error, internal_error, Result, ok, err}
use rpi4_usb_io_breaker.Sqlite.Driver.{
  SqlError, sqlite_failure, other_error, SqlResult, done, failed, Driver,
}

module _ (d : Driver) where
  unfoldable pub process_sqlite_error : SqlError d.Failure d.Other → Error
  process_sqlite_error (sqlite_failure e none) = fatal_error (internal_error (d.failure_text e))
  process_sqlite_error (sqlite_failure e (some text)) = fatal_error (internal_error text)
  process_sqlite_error (other_error e) = fatal_error (internal_error (d.other_text e))

  -- `.map_err(process_sqlite_error)`
  unfoldable pub map_err : {A : Type 0} → SqlResult (SqlError d.Failure d.Other) A → Result A
  unfolding process_sqlite_error
  map_err (done a) = ok a
  map_err (failed e) = err (process_sqlite_error e)

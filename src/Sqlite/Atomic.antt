-- ===== src/Sqlite/Atomic.antt =====
-- A commit is atomic, also where SQLite fails.
use rpi4_usb_io_breaker.Base.{◌≡◌, refl, ◌⊎◌, inl, inr, none, some}
use rpi4_usb_io_breaker.Core.Error.{ok, err, Fatal, fatal_error}
use rpi4_usb_io_breaker.Sqlite.Driver.{
  SqlError, sqlite_failure, other_error, SqlResult, done, failed, Driver, commit_transaction,
}
use rpi4_usb_io_breaker.Sqlite.Errors.{process_sqlite_error, map_err}
use rpi4_usb_io_breaker.Sqlite.Transaction.{DbTx, drop_tx, commit}
use rpi4_usb_io_breaker.Sqlite.Laws.{Tables, DriverLaws}

module _ (d : Driver) (laws : DriverLaws d) where
  -- dropping a transaction that is open, or that has ended
  pub drop-InTx :
      (tx : DbTx d) (base t : Tables)
      → laws.InTx tx.connection base t
      → laws.Open (drop_tx d tx) base
  unfolding drop_tx
  drop-InTx tx base t r =
      rw (laws.autocommit_tx tx.connection base t r) (laws.rollback_lem tx.connection base t r)

  pub drop-Open :
      (tx : DbTx d) (t : Tables) → laws.Open tx.connection t → laws.Open (drop_tx d tx) t
  unfolding drop_tx
  drop-Open tx t r = rw (laws.autocommit_open tx.connection t r) r

  process_sqlite_error-fatal :
      (e : SqlError d.Failure d.Other) → (f : Fatal) × (process_sqlite_error d e ≡ fatal_error f)
  unfolding process_sqlite_error
  process_sqlite_error-fatal (sqlite_failure e none) = (_, refl)
  process_sqlite_error-fatal (sqlite_failure e (some text)) = (_, refl)
  process_sqlite_error-fatal (other_error e) = (_, refl)

  -- For every transaction over SQLite: a commit either succeeds, and the connection then stands for what the
  -- transaction read, or it returns a fatal error, and then the connection stands for what it did before the
  -- transaction. In both cases no transaction is left open.
  pub commit_atomic :
      (tx : DbTx d) (base t : Tables)
      → laws.InTx tx.connection base t
      → (((commit d tx).0 ≡ ok tt) × laws.Open (commit d tx).1 t)
        ⊎ ((f : Fatal) × ((commit d tx).0 ≡ err (fatal_error f)) × laws.Open (commit d tx).1 base)
  unfolding commit map_err
  commit_atomic tx base t r = go (d.execute commit_transaction tx.connection).0 refl
    where
      after : DbTx d
      after = record {
        connection = (d.execute commit_transaction tx.connection).1;
        queries = tx.queries;
      }

      go :
          (o : SqlResult (SqlError d.Failure d.Other) (Unit {0}))
          → (d.execute commit_transaction tx.connection).0 ≡ o
          → (((commit d tx).0 ≡ ok tt) × laws.Open (commit d tx).1 t)
            ⊎ ((f : Fatal) × ((commit d tx).0 ≡ err (fatal_error f))
                × laws.Open (commit d tx).1 base)
      go (done _) e = inl (rw e refl, drop-Open after t (laws.commit_done tx.connection base t r e))
      go (failed x) e =
          let (f, fatal) = process_sqlite_error-fatal x in
          inr (
            f,
            rw (e, map_err, fatal) refl,
            elim (laws.commit_failed tx.connection base t x r e) [
              | inl still ↦ drop-InTx after base t still
              | inr back ↦ drop-Open after base back
            ],
          )

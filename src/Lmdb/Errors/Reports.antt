-- ===== src/Lmdb/Errors/Reports.antt =====
-- Which error of the storage each error of the environment becomes.
use rpi4_usb_io_breaker.Base.{if◌then◌else◌, ℕ, Bool, List, [], ◌∷◌, none, ◌≡◌, ◌⊎◌, inl, inr, refl}
use rpi4_usb_io_breaker.Core.Error.{
  Str, ErrorKind, broken_pipe, already_exists, permission_denied, not_found, other_kind,
  transaction_failed, temporarily_unavailable, db_init, io, database_corrupted, schema_mismatch,
  internal_error, fatal_io, Error, recoverable_error, fatal_error, ok, err,
}
use rpi4_usb_io_breaker.Lmdb.Errors.{
  LmdbError, key_exist, missing, page_not_found, corrupted, panic, version_mismatch, invalid,
  map_full, dbs_full, readers_full, tls_full, txn_full, cursor_full, page_full, map_resized,
  incompatible, bad_rslot, bad_txn, bad_val_size, bad_dbi, other, IoError, process_io_error,
  system_error, process_with_unit, process_with_none, process_with_err,
}

abbrev pub Among : {A : Type 0} → A → List A → Type 0
Among x [] = ⊥
Among x (y ∷ ys) = (x ≡ y) ⊎ Among x ys

-- the errors that only say that a key is there, or is not
abbrev pub benign : List LmdbError
benign = missing ∷ key_exist ∷ []

-- no database, or one of another version, was found
abbrev pub not_opened : List LmdbError
not_opened = invalid ∷ version_mismatch ∷ []

-- a limit that concurrent transactions reach, and leave again
abbrev pub busy : List LmdbError
busy = readers_full ∷ txn_full ∷ tls_full ∷ []

-- a schema that does not fit the database
abbrev pub misfit : List LmdbError
misfit = dbs_full ∷ bad_val_size ∷ incompatible ∷ []

abbrev pub damaged : List LmdbError
damaged = page_not_found ∷ corrupted ∷ []

-- what the code does not recover from otherwise, a full map among them
abbrev pub unexpected : List LmdbError
unexpected = bad_dbi ∷ panic ∷ cursor_full ∷ page_full ∷ bad_rslot ∷ map_full ∷ map_resized ∷ []

-- The kinds of I/O errors that a caller can recover from are kept, the others are fatal.
abbrev pub IoReports : IoError → Error → Type 0
IoReports e x =
    (Among e.kind (broken_pipe ∷ already_exists ∷ permission_denied ∷ not_found ∷ [])
      × (x ≡ recoverable_error (io e.kind e.text)))
    ⊎ ((n : ℕ) × (e.kind ≡ other_kind n) × (x ≡ fatal_error (fatal_io e.kind e.text)))

-- a kind with its text
kind-IoReports :
    (k : ErrorKind) (t : Str)
    → IoReports (record { kind = k; text = t }) (process_io_error (record { kind = k; text = t }))
unfolding process_io_error
kind-IoReports broken_pipe t = inl (inl refl, refl)
kind-IoReports already_exists t = inl (inr (inl refl), refl)
kind-IoReports permission_denied t = inl (inr (inr (inl refl)), refl)
kind-IoReports not_found t = inl (inr (inr (inr (inl refl))), refl)
kind-IoReports (other_kind n) t = inr (n, refl, refl)

process_io_error-IoReports : (e : IoError) → IoReports e (process_io_error e)
process_io_error-IoReports e = kind-IoReports e.kind e.text

module _ (to_string : LmdbError → Str) (from_raw_os_error : ℕ → IoError) (last_os_error : IoError)
    (same_kind : ErrorKind → ErrorKind → Bool) where
  -- the error of the storage that an error is reported as, by its group
  abbrev pub Reports : LmdbError → Error → Type 0
  Reports e x =
      ((x ≡ recoverable_error db_init) × Among e not_opened)
      ⊎ ((x ≡ recoverable_error transaction_failed) × Among e (bad_txn ∷ []))
      ⊎ ((x ≡ recoverable_error temporarily_unavailable) × Among e busy)
      ⊎ ((x ≡ fatal_error schema_mismatch) × Among e misfit)
      ⊎ ((x ≡ fatal_error database_corrupted) × Among e damaged)
      ⊎ ((x ≡ fatal_error (internal_error (to_string e))) × Among e unexpected)
      ⊎ ((errno : ℕ) × (e ≡ other errno)
          × IoReports
              (if same_kind (from_raw_os_error errno).kind last_os_error.kind
                then last_os_error
                else from_raw_os_error errno)
              x)

  -- Only a missing key and a key that exists are benign: a success for operations without a result, a missing value for
  -- reads, and an internal error elsewhere. All three ways to process any other error give the same error: "database
  -- initialization", "transaction failed" and "temporarily unavailable", which are recoverable, "schema mismatch",
  -- "database corrupted" and internal errors, a full map among them, which are fatal, by the groups of Lmdb/Errors/Reports. A number of
  -- the operating system gives an I/O error, with the text of the last error of the system if that is of the same kind; it is recoverable if it is
  -- a broken pipe, or something exists already, is not permitted or is not found.
  pub process-Reports :
      {T : Type 0} (e : LmdbError)
      → (Among e benign
          × (process_with_unit to_string from_raw_os_error last_os_error same_kind e ≡ ok tt)
          × (process_with_none to_string from_raw_os_error last_os_error same_kind {T = T} e
              ≡ ok none)
          × (process_with_err to_string from_raw_os_error last_os_error same_kind {T = T} e
              ≡ err (fatal_error (internal_error (to_string e)))))
        ⊎ ((x : Error) × Reports e x
            × (process_with_unit to_string from_raw_os_error last_os_error same_kind e ≡ err x)
            × (process_with_none to_string from_raw_os_error last_os_error same_kind {T = T} e
                ≡ err x)
            × (process_with_err to_string from_raw_os_error last_os_error same_kind {T = T} e
                ≡ err x))
  unfolding process_with_unit process_with_none process_with_err system_error
  process-Reports missing = inl (inl refl, refl, refl, refl)
  process-Reports key_exist = inl (inr (inl refl), refl, refl, refl)
  process-Reports invalid = inr (_, inl (refl, inl refl), refl, refl, refl)
  process-Reports version_mismatch = inr (_, inl (refl, inr (inl refl)), refl, refl, refl)
  process-Reports bad_txn = inr (_, inr (inl (refl, inl refl)), refl, refl, refl)
  process-Reports readers_full = inr (_, inr (inr (inl (refl, inl refl))), refl, refl, refl)
  process-Reports txn_full = inr (_, inr (inr (inl (refl, inr (inl refl)))), refl, refl, refl)
  process-Reports tls_full = inr (_, inr (inr (inl (refl, inr (inr (inl refl))))), refl, refl, refl)
  process-Reports dbs_full = inr (_, inr (inr (inr (inl (refl, inl refl)))), refl, refl, refl)
  process-Reports bad_val_size =
      inr (_, inr (inr (inr (inl (refl, inr (inl refl))))), refl, refl, refl)
  process-Reports incompatible =
      inr (_, inr (inr (inr (inl (refl, inr (inr (inl refl)))))), refl, refl, refl)
  process-Reports page_not_found =
      inr (_, inr (inr (inr (inr (inl (refl, inl refl))))), refl, refl, refl)
  process-Reports corrupted =
      inr (_, inr (inr (inr (inr (inl (refl, inr (inl refl)))))), refl, refl, refl)
  process-Reports bad_dbi =
      inr (_, inr (inr (inr (inr (inr (inl (refl, inl refl)))))), refl, refl, refl)
  process-Reports panic =
      inr (_, inr (inr (inr (inr (inr (inl (refl, inr (inl refl))))))), refl, refl, refl)
  process-Reports cursor_full =
      inr (_, inr (inr (inr (inr (inr (inl (refl, inr (inr (inl refl)))))))), refl, refl, refl)
  process-Reports page_full =
      inr
        (_, inr (inr (inr (inr (inr (inl (refl, inr (inr (inr (inl refl))))))))), refl, refl, refl)
  process-Reports bad_rslot = inr (
    _,
    inr (inr (inr (inr (inr (inl (refl, inr (inr (inr (inr (inl refl)))))))))),
    refl,
    refl,
    refl,
  )
  process-Reports map_full = inr (
    _,
    inr (inr (inr (inr (inr (inl (refl, inr (inr (inr (inr (inr (inl refl))))))))))),
    refl,
    refl,
    refl,
  )
  process-Reports map_resized = inr (
    _,
    inr (inr (inr (inr (inr (inl (refl, inr (inr (inr (inr (inr (inr (inl refl)))))))))))),
    refl,
    refl,
    refl,
  )
  process-Reports (other errno) = inr (
    _,
    inr (
        inr (
          inr (
            inr (
              inr (
                inr (
                  (
                    errno,
                    refl,
                    process_io_error-IoReports
                        (system_error to_string from_raw_os_error last_os_error same_kind errno),
                  ))))))),
    refl,
    refl,
    refl,
  )

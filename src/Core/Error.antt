-- ===== src/Core/Error.antt =====
-- storage/core/src/error.rs, and `storage_core::Result` of storage/core/src/lib.rs. A panic of the code is
-- a third outcome beside `Ok` and `Err`.
use rpi4_usb_io_breaker.Base.{ℕ, Bool, true, false, List}

-- `String` and `str`, as their bytes
abbrev pub Str : Type 0
Str = List ℕ

-- `std::io::ErrorKind`: the kinds that the code names, and the others
pub data ErrorKind : Type 0 where
  broken_pipe already_exists permission_denied not_found : ErrorKind
  other_kind : ℕ → ErrorKind

pub data Recoverable : Type 0 where
  transaction_failed temporarily_unavailable db_init : Recoverable
  io : ErrorKind → Str → Recoverable

pub data Fatal : Type 0 where
  out_of_space database_corrupted schema_mismatch : Fatal
  internal_error : Str → Fatal
  fatal_io : ErrorKind → Str → Fatal

pub data Error : Type 0 where
  recoverable_error : Recoverable → Error
  fatal_error : Fatal → Error

pub data Result {ℓ} (A : Type ℓ) : Type ℓ where
  ok : A → Result A
  err : Error → Result A
  panicked : Result A

infixl 5 ◌>>=◌ ◌>>◌
abbrev pub ◌>>=◌ {ℓ κ} : {A : Type ℓ} {B : Type κ} → Result A → (A → Result B) → Result B
ok a >>= f = f a
err e >>= f = err e
panicked >>= f = panicked

abbrev pub ◌>>◌ {ℓ} : {A : Type ℓ} → Result (Unit {0}) → Result A → Result A
m >> k = m >>= λ _. k

-- `Error::recoverable`
unfoldable pub recoverable : Error → Result Recoverable
recoverable (recoverable_error e) = ok e
recoverable (fatal_error e) = panicked

-- `Error::is_recoverable`
unfoldable pub is_recoverable : Error → Bool
is_recoverable (recoverable_error e) = true
is_recoverable (fatal_error e) = false

-- ===== src/Core/Backend.antt =====
-- storage/core/src/backend.rs and storage/core/src/adaptor/mod.rs: the traits, as records of their methods.
-- A method with `&mut self` returns the changed object; an iterator is the list of its items, since the
-- borrow keeps the object as it is while the iterator lives.
use rpi4_usb_io_breaker.Base.{ℕ, Option, List}
use rpi4_usb_io_breaker.Core.Data.{Data}
use rpi4_usb_io_breaker.Core.Error.{Result}
use rpi4_usb_io_breaker.Core.Types.{DbMapId, DbDesc}

pub record ReadOps (T : Type 0) : Type 0 where
  pub get : T → DbMapId → Data → Result (Option Data)
  pub prefix_iter : T → DbMapId → Data → Result (List (Data × Data))

pub record WriteOps (T : Type 0) : Type 0 where
  pub put : DbMapId → Data → Data → T → Result (Unit {0}) × T
  pub del : DbMapId → Data → T → Result (Unit {0}) × T

-- `CoreOps`: `ReadOps + WriteOps + Construct`
pub record CoreOps (From T : Type 0) : Type 0 where
  pub read : ReadOps T
  pub write : WriteOps T
  pub construct : From → DbDesc → Result T

-- `Backend` with its `Impl`, and the transactions of that. A transaction borrows the storage for as long as it lives: it
-- holds the storage's state, and hands it back where it ends, by `commit` or by being dropped.
pub record Backend : Type 1 where
  pub Impl : Type 0
  pub TxRo : Type 0
  pub TxRw : Type 0
  pub ro : ReadOps TxRo
  pub rw : ReadOps TxRw
  pub write : WriteOps TxRw
  pub open_db : DbDesc → Result Impl
  pub transaction_ro : Impl → Result TxRo
  pub transaction_rw : Option ℕ → Impl → Result TxRw
  pub drop_ro : TxRo → Impl
  pub drop_rw : TxRw → Impl
  pub commit : TxRw → Result (Unit {0}) × Impl

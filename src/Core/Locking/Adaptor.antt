-- ===== src/Core/Locking/Adaptor.antt =====
-- `Locking<T>` as a `Backend`. A transaction is its guard with the handle that it borrows from: dropping it gives
-- the handle back over the storage as it stands behind the lock.
use rpi4_usb_io_breaker.Core.Error.{Result, ok, ◌>>=◌}
use rpi4_usb_io_breaker.Core.Exec.{Exec}
use rpi4_usb_io_breaker.Core.Types.{DbMapCount}
use rpi4_usb_io_breaker.Core.Backend.{ReadOps, CoreOps, Backend}
use rpi4_usb_io_breaker.Core.Locking
use rpi4_usb_io_breaker.Core.Locking.{TxRo, TxRw, TransactionLockImpl, Merge}

pub record Borrowed (X : Type 0) : Type 0 where
  pub tx : X
  pub num_maps : DbMapCount

abbrev pub lift_read : {X : Type 0} → ReadOps X → ReadOps (Borrowed X)
lift_read ops = record {
  get = λ g i k. ops.get g.tx i k;
  prefix_iter = λ g i p. ops.prefix_iter g.tx i p;
}

abbrev pub lift_exec : {X : Type 0} → Exec X (Unit {0}) → Exec (Borrowed X) (Unit {0})
lift_exec m g = let (r, tx') = m g.tx in (r, record { tx = tx'; num_maps = g.num_maps })

abbrev pub borrow : {X : Type 0} → DbMapCount → Result X → Result (Borrowed X)
borrow n r = r >>= λ x. ok (record { tx = x; num_maps = n })

abbrev pub handle : {T : Type 0} → DbMapCount → T → TransactionLockImpl T
handle n t = record { db = t; num_maps = n }

abbrev pub locking : {From T : Type 0} → CoreOps From T → Merge → From → Backend
locking {T = T} core merge init = record {
  Impl = TransactionLockImpl T;
  TxRo = Borrowed (TxRo T);
  TxRw = Borrowed (TxRw T);
  ro = lift_read (Locking.ro_ops core);
  rw = lift_read (Locking.rw_ops core merge);
  write = record {
    put = λ i k v. lift_exec (Locking.put i k v);
    del = λ i k. lift_exec (Locking.del i k);
  };
  open_db = Locking.open_db core init;
  transaction_ro = λ s. borrow s.num_maps (Locking.transaction_ro s);
  transaction_rw = λ size s. borrow s.num_maps (Locking.transaction_rw size s);
  drop_ro = λ g. handle g.num_maps g.tx.db;
  drop_rw = λ g. handle g.num_maps g.tx.db;
  commit = λ g. let (r, t) = Locking.commit core g.tx in (r, handle g.num_maps t);
}

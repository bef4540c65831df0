-- ===== src/TestSuite/Model/OnBackend.antt =====
-- The model's actions on the database, and the model read back from a transaction.
use rpi4_usb_io_breaker.Base.{some, List, [], ◌∷◌, get_elem?, length, ◌≡◌, refl, ◌<◌, All-get}
use rpi4_usb_io_breaker.Base.Ord.{list_ord}
use rpi4_usb_io_breaker.BTreeMap.Sorted.{IsSorted}
use rpi4_usb_io_breaker.Core.Error.{ok}
use rpi4_usb_io_breaker.Core.Types.{DbMapId}
use rpi4_usb_io_breaker.Core.Backend.{ReadOps, WriteOps, Backend}
use rpi4_usb_io_breaker.Core.Contract.{Map, Db, modify, ReadLaws, WriteLaws, BackendLaws}
use rpi4_usb_io_breaker.Core.Contract.Modify.{length-modify, modify-modify, modify-id}
use rpi4_usb_io_breaker.TestSuite.Model.{
  WriteAction, put, del, apply_action, apply_actions, model_action, extend_model, from_tx, from_db,
}
use rpi4_usb_io_breaker.TestSuite.Model.Laws.{db_actions}
use rpi4_usb_io_breaker.BTreeMap.Extend.{extend-nil}
use rpi4_usb_io_breaker.Core.Util.Collect.{with_prefix-nil}

module _ {T : Type 0} {ops : WriteOps T} {Repr : T → Db → Type 0} (laws : WriteLaws ops Repr) where
  apply_action_lem :
      (i : DbMapId) (a : WriteAction) (t : T) (d : Db)
      → Repr t d
      → i < length d
      → (t' : T) × (apply_action ops i a t ≡ ok t') × Repr t' (modify (model_action a) i d)
  unfolding apply_action model_action
  apply_action_lem i (put k v) t d r h =
      let (done, r') = laws.put_lem t d i k v r h in ((ops.put i k v t).1, rw done refl, r')
  apply_action_lem i (del k) t d r h =
      let (done, r') = laws.del_lem t d i k r h in ((ops.del i k t).1, rw done refl, r')

  -- The actions succeed, and change the one map as they change the model.
  pub apply_actions_lem :
      (i : DbMapId) (actions : List WriteAction) (t : T) (d : Db)
      → Repr t d
      → i < length d
      → (t' : T) × (apply_actions ops i actions t ≡ ok t') × Repr t' (db_actions i actions d)
  unfolding apply_actions extend_model
  apply_actions_lem i [] t d r h = (t, refl, rw modify-id r)
  apply_actions_lem i (a ∷ actions) t d r h =
      let (t1, done, r1) = apply_action_lem i a t d r h in
      let d1 = modify (model_action a) i d in
      let fits : i < length d1 = rw length-modify h in
      let (t2, done2, r2) = apply_actions_lem i actions t1 d1 r1 fits in
      (t2, rw done done2, rw modify-modify at r2)

-- The model read from a transaction is the map that the transaction shows.
pub from_tx_lem :
    {T : Type 0} {ops : ReadOps T} {Repr : T → Db → Type 0} (laws : ReadLaws ops Repr) (t : T)
    (d : Db) (i : DbMapId) (m : Map)
    → Repr t d
    → get_elem? d i ≡ some m
    → IsSorted m
    → from_tx ops t i ≡ ok m
unfolding from_tx
from_tx_lem laws t d i m r e s =
    rw (laws.prefix_iter_lem t d i m [] r e) (rw (with_prefix-nil, extend-nil m s) refl)

-- The model read from the storage is its map, and the storage stands for the same database afterwards.
pub from_db_lem :
    (b : Backend) (laws : BackendLaws b) (s : b.Impl) (d : Db) (i : DbMapId) (m : Map)
    → laws.Repr s d
    → get_elem? d i ≡ some m
    → (s' : b.Impl) × (from_db b s i ≡ ok (m, s')) × laws.Repr s' d
unfolding from_db
from_db_lem b laws s d i m r e =
    let (tx, started, r') = laws.ro_lem s d r in
    let read =
      from_tx_lem laws.ro_reads tx d i m r' e (All-get IsSorted d i (laws.sorted s d r) e) in
    (b.drop_ro tx, rw (started, read) refl, laws.drop_ro_lem tx d r')

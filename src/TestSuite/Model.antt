-- ===== src/TestSuite/Model.antt =====
-- storage/backend-test-suite/src/model.rs: a reference implementation of one map.
pub mod Laws
pub mod OnBackend
use rpi4_usb_io_breaker.Base.{Option, List, [], ◌∷◌, map}
use rpi4_usb_io_breaker.Base.Ord.{list_ord}
use rpi4_usb_io_breaker.BTreeMap
use rpi4_usb_io_breaker.BTreeMap.{BTreeMap, extend}
use rpi4_usb_io_breaker.Core.Data.{Data}
use rpi4_usb_io_breaker.Core.Error.{Result, ok, err, panicked, ◌>>=◌}
use rpi4_usb_io_breaker.Core.Types.{DbMapId}
use rpi4_usb_io_breaker.Core.Backend.{ReadOps, WriteOps, Backend}

pub data WriteAction : Type 0 where
  put : Data → Data → WriteAction
  del : Data → WriteAction

unfoldable pub map_key : (Data → Data) → WriteAction → WriteAction
map_key f (put k v) = put (f k) v
map_key f (del k) = del (f k)

-- `unwrap` and `expect`
abbrev pub unwrap {ℓ} : {A : Type ℓ} → Result A → Result A
unwrap (ok a) = ok a
unwrap (err e) = panicked
unwrap panicked = panicked

-- `unwrap` of a call that changes an object: the object goes on
abbrev pub unwrap_exec {ℓ κ} : {A : Type ℓ} {S : Type κ} → Result A × S → Result S
unwrap_exec (ok a, s) = ok s
unwrap_exec (err e, s) = panicked
unwrap_exec (panicked, s) = panicked

module _ {T : Type 0} (ops : WriteOps T) where
  -- `ApplyActions::apply_action`
  unfoldable pub apply_action : DbMapId → WriteAction → T → Result T
  apply_action i (put key val) t = unwrap_exec (ops.put i key val t)
  apply_action i (del key) t = unwrap_exec (ops.del i key t)

  -- `ApplyActions::apply_actions`
  unfoldable pub apply_actions : DbMapId → List WriteAction → T → Result T
  unfolding apply_action
  apply_actions i [] t = ok t
  apply_actions i (a ∷ actions) t = do t' ← apply_action i a t; apply_actions i actions t'

-- `Model`
abbrev pub Model : Type 0
Model = BTreeMap Data Data

-- `Model::apply_action`
unfoldable pub model_action : WriteAction → Model → Model
model_action (put key val) m = BTreeMap.insert key val m
model_action (del key) m = BTreeMap.remove key m

-- `Extend<WriteAction> for Model`, and `Model::apply_actions`
unfoldable pub extend_model : Model → List WriteAction → Model
unfolding model_action
extend_model m [] = m
extend_model m (a ∷ actions) = extend_model (model_action a m) actions

-- `Model::from_actions`
unfoldable pub from_actions : List WriteAction → Model
unfolding extend_model
from_actions actions = extend_model [] actions

-- `Model::get`
unfoldable pub model_get : Data → Model → Option Data
model_get key m = BTreeMap.get key m

-- `Model::from_tx`
unfoldable pub from_tx : {T : Type 0} → ReadOps T → T → DbMapId → Result Model
from_tx ops tx i = do items ← unwrap (ops.prefix_iter tx i []); ok (extend [] items)

-- `Model::from_db`: the storage comes back when the transaction is dropped
unfoldable pub from_db : (b : Backend) → b.Impl → DbMapId → Result (Model × b.Impl)
unfolding from_tx
from_db b store i = do
  tx ← unwrap (b.transaction_ro store)
  m ← from_tx b.ro tx i
  ok (m, b.drop_ro tx)

-- ===== src/TestSuite/Property.antt =====
-- storage/backend-test-suite/src/property.rs: each test as a function of the backend and of the generated input.
pub mod Steps
pub mod Passes
use rpi4_usb_io_breaker.Base.{ℕ, Option, none, some, List, [], ◌∷◌}
use rpi4_usb_io_breaker.Core.Data.{Data}
use rpi4_usb_io_breaker.Core.Error.{Result, ok, ◌>>=◌, ◌>>◌}
use rpi4_usb_io_breaker.Core.Types.{DbMapId}
use rpi4_usb_io_breaker.Core.Backend.{ReadOps, Backend}
use rpi4_usb_io_breaker.TestSuite.Model.{
  WriteAction, unwrap, unwrap_exec, apply_actions, extend_model, from_actions, from_db, from_tx,
  model_get,
}
use rpi4_usb_io_breaker.TestSuite.Harness.{open_store, assert_value, assert_model}

-- `vals.last()`
abbrev pub last : List Data → Option Data
last [] = none
last (v ∷ []) = some v
last (v ∷ w ∷ vals) = last (w ∷ vals)

-- `for key in &keys`: each key reads as expected
pub check_keys : {T : Type 0} → ReadOps T → T → (Data → Option Data) → List Data → Result (Unit {0})
check_keys ops tx expected [] = ok tt
check_keys ops tx expected (key ∷ keys) = do
  found ← unwrap (ops.get tx 0 key)
  assert_value found (expected key)
  check_keys ops tx expected keys

module _ (b : Backend) where
  -- a read-only transaction that reads one key, compares, and is dropped
  pub check_value : b.Impl → DbMapId → Data → Option Data → Result b.Impl
  check_value store i key expected = do
    tx ← unwrap (b.transaction_ro store)
    found ← unwrap (b.ro.get tx i key)
    assert_value found expected
    ok (b.drop_ro tx)

  -- a read-write transaction that puts one value, and is committed or dropped
  pub put_commit : b.Impl → DbMapId → Data → Data → Result b.Impl
  put_commit store i key val = do
    tx ← unwrap (b.transaction_rw none store)
    tx' ← unwrap_exec (b.write.put i key val tx)
    unwrap_exec (b.commit tx')

  pub put_abort : b.Impl → DbMapId → Data → Data → Result b.Impl
  put_abort store i key val = do
    tx ← unwrap (b.transaction_rw none store)
    tx' ← unwrap_exec (b.write.put i key val tx)
    ok (b.drop_rw tx')

  -- a read-write transaction that applies actions and is committed
  pub commit_actions : b.Impl → DbMapId → List WriteAction → Result b.Impl
  commit_actions store i actions = do
    tx ← unwrap (b.transaction_rw none store)
    tx' ← apply_actions b.write i actions tx
    unwrap_exec (b.commit tx')

  -- `assert_eq!(model, Model::from_db(&store, i))`
  pub check_db : b.Impl → DbMapId → List (Data × Data) → Result b.Impl
  check_db store i model = do
    (found, store') ← from_db b store i
    assert_model model found
    ok store'

  -- `for val in vals { dbtx.put(MAPID.0, key.clone(), val).unwrap(); }`
  pub put_all : b.TxRw → Data → List Data → Result b.TxRw
  put_all tx key [] = ok tx
  put_all tx key (val ∷ vals) = do
    tx' ← unwrap_exec (b.write.put 0 key val tx)
    put_all tx' key vals

  pub overwrite_and_abort : Data → Data → Data → Result (Unit {0})
  unfolding check_value put_commit put_abort
  overwrite_and_abort key val0 val1 = do
    store0 ← open_store b 1
    store1 ← check_value store0 0 key none
    store2 ← put_commit store1 0 key val0
    store3 ← check_value store2 0 key (some val0)
    store4 ← put_abort store3 0 key val1
    store5 ← check_value store4 0 key (some val0)
    store6 ← put_commit store5 0 key val1
    store7 ← check_value store6 0 key (some val1)
    ok tt

  pub last_write_wins : Data → List Data → Result (Unit {0})
  unfolding check_value
  last_write_wins key vals = do
    store0 ← open_store b 1
    tx ← unwrap (b.transaction_rw none store0)
    tx' ← put_all tx key vals
    store1 ← unwrap_exec (b.commit tx')
    store2 ← check_value store1 0 key (last vals)
    ok tt

  pub add_modify_abort_modify_commit :
      List WriteAction → List WriteAction → List WriteAction → Result (Unit {0})
  unfolding commit_actions check_db from_actions
  add_modify_abort_modify_commit to_prepopulate to_abort to_commit = do
    let model = from_actions to_prepopulate
    store0 ← open_store b 1
    store1 ← commit_actions store0 0 to_prepopulate
    store2 ← check_db store1 0 model
    let tx_model = extend_model model to_abort
    tx ← unwrap (b.transaction_rw none store2)
    tx' ← apply_actions b.write 0 to_abort tx
    seen ← from_tx b.rw tx' 0
    assert_model tx_model seen
    store3 ← check_db (b.drop_rw tx') 0 model
    store4 ← commit_actions store3 0 to_commit
    store5 ← check_db store4 0 (extend_model model to_commit)
    ok tt

  pub add_modify_abort_replay_commit : List WriteAction → List WriteAction → Result (Unit {0})
  unfolding commit_actions check_db
  add_modify_abort_replay_commit initial actions = do
    store0 ← open_store b 1
    store1 ← commit_actions store0 0 initial
    (initial_model, store2) ← from_db b store1 0
    tx ← unwrap (b.transaction_rw none store2)
    tx' ← apply_actions b.write 0 actions tx
    modified_model ← from_tx b.rw tx' 0
    store3 ← check_db (b.drop_rw tx') 0 initial_model
    store4 ← commit_actions store3 0 actions
    store5 ← check_db store4 0 modified_model
    ok tt

  pub db_writes_do_not_interfere : List WriteAction → List WriteAction → Result (Unit {0})
  unfolding commit_actions check_db
  db_writes_do_not_interfere actions0 actions1 = do
    store0 ← open_store b 2
    store1 ← commit_actions store0 0 actions0
    (model, store2) ← from_db b store1 0
    store3 ← commit_actions store2 1 actions1
    store4 ← check_db store3 0 model
    ok tt

  pub empty_after_abort : List WriteAction → List Data → Result (Unit {0})
  unfolding from_actions
  empty_after_abort actions keys = do
    store0 ← open_store b 5
    let model = from_actions actions
    tx ← unwrap (b.transaction_rw none store0)
    tx' ← apply_actions b.write 0 actions tx
    check_keys b.rw tx' (λ key. model_get key model) keys
    ro ← unwrap (b.transaction_ro (b.drop_rw tx'))
    check_keys b.ro ro (λ _. none) keys

  pub post_commit_consistency : List WriteAction → Result (Unit {0})
  unfolding check_db
  post_commit_consistency actions = do
    store0 ← open_store b 1
    tx ← unwrap (b.transaction_rw none store0)
    tx' ← apply_actions b.write 0 actions tx
    model ← from_tx b.rw tx' 0
    store1 ← unwrap_exec (b.commit tx')
    store2 ← check_db store1 0 model
    ok tt

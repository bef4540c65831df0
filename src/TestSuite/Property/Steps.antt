-- ===== src/TestSuite/Property/Steps.antt =====
-- What each step of a test does to the database, over any backend that keeps the contract.
use rpi4_usb_io_breaker.Base.{Option, none, some, List, [], ◌∷◌, get_elem?, length, ◌≡◌, refl, ◌<◌}
use rpi4_usb_io_breaker.Base.Ord.{list_ord}
use rpi4_usb_io_breaker.BTreeMap
use rpi4_usb_io_breaker.Core.Data.{Data}
use rpi4_usb_io_breaker.Core.Error.{ok}
use rpi4_usb_io_breaker.Core.Types.{DbMapId}
use rpi4_usb_io_breaker.Core.Backend.{ReadOps, Backend}
use rpi4_usb_io_breaker.Core.Contract.{Map, Db, db_put, ReadLaws, BackendLaws}
use rpi4_usb_io_breaker.TestSuite.Model.{WriteAction}
use rpi4_usb_io_breaker.TestSuite.Model.Laws.{db_actions}
use rpi4_usb_io_breaker.TestSuite.Model.OnBackend.{apply_actions_lem, from_db_lem}
use rpi4_usb_io_breaker.TestSuite.Harness.Laws.{assert_value_refl, assert_model_refl}
use rpi4_usb_io_breaker.TestSuite.Property.{
  check_keys, check_value, put_commit, put_abort, commit_actions, check_db,
}

pub check_keys_lem :
    {T : Type 0} {ops : ReadOps T} {Repr : T → Db → Type 0} (laws : ReadLaws ops Repr) (t : T)
    (d : Db) (m : Map) (expected : Data → Option Data) (keys : List Data)
    → Repr t d
    → get_elem? d 0 ≡ some m
    → ((key : Data) → BTreeMap.get key m ≡ expected key)
    → check_keys ops t expected keys ≡ ok tt
unfolding check_keys
check_keys_lem laws t d m expected [] r e h = refl
check_keys_lem laws t d m expected (key ∷ keys) r e h =
    rw (laws.get_lem t d 0 m key r e, h key, assert_value_refl)
      (check_keys_lem laws t d m expected keys r e h)

module _ (b : Backend) (laws : BackendLaws b) where
  pub check_value_lem :
      (s : b.Impl) (d : Db) (i : DbMapId) (m : Map) (key : Data) (expected : Option Data)
      → laws.Repr s d
      → get_elem? d i ≡ some m
      → BTreeMap.get key m ≡ expected
      → (s' : b.Impl) × (check_value b s i key expected ≡ ok s') × laws.Repr s' d
  unfolding check_value
  check_value_lem s d i m key expected r e h =
      let (tx, started, r') = laws.ro_lem s d r in
      (
        b.drop_ro tx,
        rw (started, laws.ro_reads.get_lem tx d i m key r' e, h, assert_value_refl) refl,
        laws.drop_ro_lem tx d r',
      )

  pub put_commit_lem :
      (s : b.Impl) (d : Db) (i : DbMapId) (key val : Data)
      → laws.Repr s d
      → i < length d
      → (s' : b.Impl) × (put_commit b s i key val ≡ ok s') × laws.Repr s' (db_put i key val d)
  unfolding put_commit
  put_commit_lem s d i key val r h =
      let (tx, started, r1) = laws.rw_lem none s d r in
      let (put, r2) = (laws.rw_writes d).put_lem tx d i key val r1 h in
      let tx' = (b.write.put i key val tx).1 in
      let (done, r3) = laws.commit_lem tx' d (db_put i key val d) r2 in
      ((b.commit tx').1, rw (started, put, done) refl, r3)

  pub put_abort_lem :
      (s : b.Impl) (d : Db) (i : DbMapId) (key val : Data)
      → laws.Repr s d
      → i < length d
      → (s' : b.Impl) × (put_abort b s i key val ≡ ok s') × laws.Repr s' d
  unfolding put_abort
  put_abort_lem s d i key val r h =
      let (tx, started, r1) = laws.rw_lem none s d r in
      let (put, r2) = (laws.rw_writes d).put_lem tx d i key val r1 h in
      let tx' = (b.write.put i key val tx).1 in
      (b.drop_rw tx', rw (started, put) refl, laws.drop_rw_lem tx' d (db_put i key val d) r2)

  pub commit_actions_lem :
      (s : b.Impl) (d : Db) (i : DbMapId) (actions : List WriteAction)
      → laws.Repr s d
      → i < length d
      → (s' : b.Impl) × (commit_actions b s i actions ≡ ok s')
        × laws.Repr s' (db_actions i actions d)
  unfolding commit_actions
  commit_actions_lem s d i actions r h =
      let (tx, started, r1) = laws.rw_lem none s d r in
      let (tx', applied, r2) = apply_actions_lem (laws.rw_writes d) i actions tx d r1 h in
      let (done, r3) = laws.commit_lem tx' d (db_actions i actions d) r2 in
      ((b.commit tx').1, rw (started, applied, done) refl, r3)

  pub check_db_lem :
      (s : b.Impl) (d : Db) (i : DbMapId) (m : Map)
      → laws.Repr s d
      → get_elem? d i ≡ some m
      → (s' : b.Impl) × (check_db b s i m ≡ ok s') × laws.Repr s' d
  unfolding check_db
  check_db_lem s d i m r e =
      let (s', read, r') = from_db_lem b laws s d i m r e in
      (s', rw (read, assert_model_refl) refl, r')

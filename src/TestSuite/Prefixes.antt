-- ===== src/TestSuite/Prefixes.antt =====
-- storage/backend-test-suite/src/property.rs: the test on iteration over prefixes.
pub mod Kept
pub mod Passes
use rpi4_usb_io_breaker.Base.{ℕ, none, List, [], ◌∷◌, ◌++◌, map}
use rpi4_usb_io_breaker.Core.Data.{Data}
use rpi4_usb_io_breaker.Core.Error.{Result, ok, ◌>>=◌, ◌>>◌}
use rpi4_usb_io_breaker.Core.Backend.{Backend}
use rpi4_usb_io_breaker.TestSuite.Model.{WriteAction, map_key, unwrap, unwrap_exec, from_actions}
use rpi4_usb_io_breaker.TestSuite.Harness.{open_store, assert_model, assert_entry}
use rpi4_usb_io_breaker.TestSuite.Property.{commit_actions}
use rpi4_usb_io_breaker.TestSuite.Basic.{first, del_each}

-- `add_prefix`
abbrev pub add_prefix : ℕ → Data → Data
add_prefix pfx key = pfx ∷ key

abbrev pub prefixed : ℕ → List WriteAction → List WriteAction
prefixed pfx actions = map (map_key (add_prefix pfx)) actions

module _ (b : Backend) where
  -- iteration in a read-only transaction yields a model, or nothing
  pub check_iter : b.Impl → Data → List (Data × Data) → Result b.Impl
  check_iter store prefix model = do
    dbtx ← unwrap (b.transaction_ro store)
    items ← unwrap (b.ro.prefix_iter dbtx 0 prefix)
    assert_model model items
    ok (b.drop_ro dbtx)

  pub check_none : b.Impl → Data → Result b.Impl
  check_none store prefix = do
    dbtx ← unwrap (b.transaction_ro store)
    items ← unwrap (b.ro.prefix_iter dbtx 0 prefix)
    assert_entry (first items) none
    ok (b.drop_ro dbtx)

  -- the prefixes a, b and c are the bytes 97, 98 and 99
  pub prefix_iteration : List WriteAction → List WriteAction → Result (Unit {0})
  unfolding check_iter check_none
  prefix_iteration generated_a generated_b = do
    let actions_a = prefixed 97 generated_a
    let actions_b = prefixed 98 generated_b
    store0 ← open_store b 5
    store1 ← commit_actions b store0 0 (actions_a ++ actions_b)
    store2 ← check_iter store1 (97 ∷ []) (from_actions actions_a)
    store3 ← check_iter store2 (98 ∷ []) (from_actions actions_b)
    store4 ← check_none store3 (99 ∷ [])
    dbtx ← unwrap (b.transaction_rw none store4)
    items ← unwrap (b.rw.prefix_iter dbtx 0 (97 ∷ []))
    dbtx' ← del_each b (map (λ e. e.0) items) dbtx
    store5 ← unwrap_exec (b.commit dbtx')
    store6 ← check_none store5 (97 ∷ [])
    ok tt

-- ===== src/TestSuite/Basic.antt =====
-- storage/backend-test-suite/src/basic.rs: each test as a function of the backend. Consecutive calls of `put`, of `del`
-- and of `check_prefix` are lists of their arguments.
pub mod Steps
pub mod Passes
use rpi4_usb_io_breaker.Base.{ℕ, Option, none, some, List, [], ◌∷◌, length, map, ◌+◌}
use rpi4_usb_io_breaker.Core.Data.{Data}
use rpi4_usb_io_breaker.Core.Error.{Result, ok, ◌>>=◌, ◌>>◌}
use rpi4_usb_io_breaker.Core.Backend.{ReadOps, Backend}
use rpi4_usb_io_breaker.TestSuite.Model.{unwrap, unwrap_exec}
use rpi4_usb_io_breaker.TestSuite.Harness.{
  open_store, assert_value, assert_model, assert_entry, assert_values, assert_count,
}

abbrev hello : Data
hello = 104 ∷ 101 ∷ 108 ∷ 108 ∷ 111 ∷ []

abbrev world : Data
world = 119 ∷ 111 ∷ 114 ∷ 108 ∷ 100 ∷ []

abbrev pub a_key : Data
a_key = 97 ∷ []

abbrev pub b_key : Data
b_key = 98 ∷ []

-- `x.to_string()` of a number below 10
abbrev pub digit : ℕ → Data
digit x = (48 + x) ∷ []

-- the entries of the tests, in the order of the puts
abbrev pub prefix_entries : List (Data × Data)
prefix_entries =
    (97 ∷ 99 ∷ [], digit 2)
    ∷ (98 ∷ 102 ∷ [], digit 7)
    ∷ (97 ∷ 98 ∷ [], digit 1)
    ∷ (97 ∷ 99 ∷ 97 ∷ [], digit 3)
    ∷ (98 ∷ 122 ∷ [], digit 8)
    ∷ (120 ∷ [], digit 9)
    ∷ (98 ∷ 98 ∷ [], digit 6)
    ∷ (98 ∷ [], digit 5)
    ∷ (97 ∷ 99 ∷ 98 ∷ [], digit 4)
    ∷ (97 ∷ 97 ∷ [], digit 0)
    ∷ []

abbrev pub delete_entries : List (Data × Data)
delete_entries =
    (97 ∷ 97 ∷ [], digit 0)
    ∷ (97 ∷ 98 ∷ [], digit 1)
    ∷ (97 ∷ 99 ∷ [], digit 2)
    ∷ (97 ∷ 99 ∷ 97 ∷ [], digit 3)
    ∷ (97 ∷ 99 ∷ 98 ∷ [], digit 4)
    ∷ (98 ∷ [], digit 5)
    ∷ []

abbrev pub deleted_keys : List Data
deleted_keys = (97 ∷ 99 ∷ 97 ∷ []) ∷ (97 ∷ 98 ∷ []) ∷ []

-- what iteration over "", "aa" and "ac" is to yield
abbrev pub full_checks : List (Data × List (Data × Data))
full_checks =
    (
      [],
      (97 ∷ 97 ∷ [], digit 0)
          ∷ (97 ∷ 98 ∷ [], digit 1)
          ∷ (97 ∷ 99 ∷ [], digit 2)
          ∷ (97 ∷ 99 ∷ 97 ∷ [], digit 3)
          ∷ (97 ∷ 99 ∷ 98 ∷ [], digit 4)
          ∷ (98 ∷ [], digit 5)
          ∷ [],
    )
    ∷ (97 ∷ 97 ∷ [], (97 ∷ 97 ∷ [], digit 0) ∷ [])
    ∷ (
      97 ∷ 99 ∷ [],
      (97 ∷ 99 ∷ [], digit 2) ∷ (97 ∷ 99 ∷ 97 ∷ [], digit 3) ∷ (97 ∷ 99 ∷ 98 ∷ [], digit 4) ∷ [],
    )
    ∷ []

abbrev pub deleted_checks : List (Data × List (Data × Data))
deleted_checks =
    (
      [],
      (97 ∷ 97 ∷ [], digit 0)
          ∷ (97 ∷ 99 ∷ [], digit 2)
          ∷ (97 ∷ 99 ∷ 98 ∷ [], digit 4)
          ∷ (98 ∷ [], digit 5)
          ∷ [],
    )
    ∷ (97 ∷ 97 ∷ [], (97 ∷ 97 ∷ [], digit 0) ∷ [])
    ∷ (97 ∷ 99 ∷ [], (97 ∷ 99 ∷ [], digit 2) ∷ (97 ∷ 99 ∷ 98 ∷ [], digit 4) ∷ [])
    ∷ []

-- `iter.next()` of a fresh iterator
abbrev pub first : List (Data × Data) → Option (Data × Data)
first [] = none
first (e ∷ items) = some e

module _ {T : Type 0} (ops : ReadOps T) (dbtx : T) where
  -- `assert_eq!(dbtx.get(MAPID.0, key).unwrap(), expected)`
  pub check_get : Data → Option Data → Result (Unit {0})
  check_get key expected = do found ← unwrap (ops.get dbtx 0 key); assert_value found expected

  -- `check_prefix`
  pub check_prefix : Data → List (Data × Data) → Result (Unit {0})
  check_prefix prefix expected = do
    entries ← unwrap (ops.prefix_iter dbtx 0 prefix)
    assert_model entries expected

  pub check_prefixes : List (Data × List (Data × Data)) → Result (Unit {0})
  unfolding check_prefix
  check_prefixes [] = ok tt
  check_prefixes ((prefix, expected) ∷ checks) = do
    check_prefix prefix expected
    check_prefixes checks

  -- the values under a prefix
  pub check_vals : Data → List Data → Result (Unit {0})
  check_vals prefix expected = do
    entries ← unwrap (ops.prefix_iter dbtx 0 prefix)
    assert_values (map (λ e. e.1) entries) expected

module _ (b : Backend) where
  pub put_each : List (Data × Data) → b.TxRw → Result b.TxRw
  put_each [] dbtx = ok dbtx
  put_each ((key, val) ∷ entries) dbtx = do
    dbtx' ← unwrap_exec (b.write.put 0 key val dbtx)
    put_each entries dbtx'

  pub del_each : List Data → b.TxRw → Result b.TxRw
  del_each [] dbtx = ok dbtx
  del_each (key ∷ keys) dbtx = do dbtx' ← unwrap_exec (b.write.del 0 key dbtx); del_each keys dbtx'

  pub put_and_commit : Result (Unit {0})
  unfolding put_each check_get
  put_and_commit = do
    store ← open_store b 1
    dbtx ← unwrap (b.transaction_rw none store)
    dbtx' ← put_each ((hello, world) ∷ []) dbtx
    store' ← unwrap_exec (b.commit dbtx')
    ro ← unwrap (b.transaction_ro store')
    check_get b.ro ro hello (some world)

  pub put_and_abort : Result (Unit {0})
  unfolding put_each check_get
  put_and_abort = do
    store ← open_store b 1
    dbtx ← unwrap (b.transaction_rw none store)
    dbtx' ← put_each ((hello, world) ∷ []) dbtx
    ro ← unwrap (b.transaction_ro (b.drop_rw dbtx'))
    check_get b.ro ro hello none

  pub put_two_under_different_keys : Result (Unit {0})
  unfolding put_each check_get
  put_two_under_different_keys = do
    store ← open_store b 1
    dbtx ← unwrap (b.transaction_rw none store)
    dbtx' ← put_each ((a_key, digit 0) ∷ (b_key, digit 1) ∷ []) dbtx
    store1 ← unwrap_exec (b.commit dbtx')
    ro ← unwrap (b.transaction_ro store1)
    check_get b.ro ro a_key (some (digit 0))
    check_get b.ro ro b_key (some (digit 1))
    dbtx2 ← unwrap (b.transaction_rw none (b.drop_ro ro))
    dbtx3 ← put_each ((a_key, 48 ∷ 48 ∷ []) ∷ (b_key, 49 ∷ 49 ∷ []) ∷ []) dbtx2
    ro2 ← unwrap (b.transaction_ro (b.drop_rw dbtx3))
    check_get b.ro ro2 a_key (some (digit 0))
    check_get b.ro ro2 b_key (some (digit 1))

  pub put_twice_then_commit_read_last : Result (Unit {0})
  unfolding put_each check_get
  put_twice_then_commit_read_last = do
    store ← open_store b 1
    dbtx ← unwrap (b.transaction_rw none store)
    dbtx1 ← put_each ((hello, a_key) ∷ []) dbtx
    check_get b.rw dbtx1 hello (some a_key)
    dbtx2 ← put_each ((hello, b_key) ∷ []) dbtx1
    check_get b.rw dbtx2 hello (some b_key)
    store' ← unwrap_exec (b.commit dbtx2)
    ro ← unwrap (b.transaction_ro store')
    check_get b.ro ro hello (some b_key)

  pub put_iterator_count_matches : Result (Unit {0})
  unfolding put_each
  put_iterator_count_matches = do
    store ← open_store b 1
    dbtx ← unwrap (b.transaction_rw none store)
    dbtx' ← put_each ((0 ∷ [], []) ∷ (1 ∷ [], []) ∷ (2 ∷ [], []) ∷ (3 ∷ [], []) ∷ []) dbtx
    store' ← unwrap_exec (b.commit dbtx')
    ro ← unwrap (b.transaction_ro store')
    entries ← unwrap (b.ro.prefix_iter ro 0 [])
    assert_count (length entries) 4

  -- the closure `check`: a read-only transaction of its own
  pub check_range : b.Impl → Data → List ℕ → Result b.Impl
  unfolding check_vals
  check_range store prefix range = do
    ro ← unwrap (b.transaction_ro store)
    check_vals b.ro ro prefix (map digit range)
    ok (b.drop_ro ro)

  pub put_and_iterate_over_prefixes : Result (Unit {0})
  unfolding put_each check_range
  put_and_iterate_over_prefixes = do
    store ← open_store b 1
    dbtx ← unwrap (b.transaction_rw none store)
    dbtx' ← put_each prefix_entries dbtx
    store0 ← unwrap_exec (b.commit dbtx')
    ro ← unwrap (b.transaction_ro store0)
    entries ← unwrap (b.ro.prefix_iter ro 0 (102 ∷ 111 ∷ 111 ∷ []))
    assert_entry (first entries) none
    store1 ← check_range (b.drop_ro ro) [] (0 ∷ 1 ∷ 2 ∷ 3 ∷ 4 ∷ 5 ∷ 6 ∷ 7 ∷ 8 ∷ 9 ∷ [])
    store2 ← check_range store1 a_key (0 ∷ 1 ∷ 2 ∷ 3 ∷ 4 ∷ [])
    store3 ← check_range store2 (97 ∷ 97 ∷ []) (0 ∷ [])
    store4 ← check_range store3 (97 ∷ 99 ∷ []) (2 ∷ 3 ∷ 4 ∷ [])
    store5 ← check_range store4 b_key (5 ∷ 6 ∷ 7 ∷ 8 ∷ [])
    store6 ← check_range store5 (120 ∷ []) (9 ∷ [])
    ok tt

  -- the three checks of the contents, before and after the deletions
  pub check_full : {T : Type 0} → ReadOps T → T → Result (Unit {0})
  unfolding check_prefixes
  check_full ops dbtx = check_prefixes ops dbtx full_checks

  pub check_deleted : {T : Type 0} → ReadOps T → T → Result (Unit {0})
  unfolding check_prefixes
  check_deleted ops dbtx = check_prefixes ops dbtx deleted_checks

  pub put_and_iterate_delete_some : Result (Unit {0})
  unfolding put_each del_each check_full check_deleted
  put_and_iterate_delete_some = do
    store ← open_store b 1
    dbtx ← unwrap (b.transaction_rw none store)
    dbtx1 ← put_each delete_entries dbtx
    check_full b.rw dbtx1
    store1 ← unwrap_exec (b.commit dbtx1)
    ro1 ← unwrap (b.transaction_ro store1)
    check_full b.ro ro1
    dbtx2 ← unwrap (b.transaction_rw none (b.drop_ro ro1))
    dbtx3 ← del_each deleted_keys dbtx2
    check_deleted b.rw dbtx3
    ro2 ← unwrap (b.transaction_ro (b.drop_rw dbtx3))
    check_full b.ro ro2
    dbtx4 ← unwrap (b.transaction_rw none (b.drop_ro ro2))
    dbtx5 ← del_each deleted_keys dbtx4
    check_deleted b.rw dbtx5
    store2 ← unwrap_exec (b.commit dbtx5)
    ro3 ← unwrap (b.transaction_ro store2)
    check_deleted b.ro ro3

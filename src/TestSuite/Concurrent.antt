-- ===== src/TestSuite/Concurrent.antt =====
-- storage/backend-test-suite/src/concurrent.rs, over the locking adaptor: the threads of a test are the transactions of
-- a system, and what the main thread does once it has joined them is a function of their results and of the storage.
pub mod Alone
pub mod Two
pub mod Passes
use rpi4_usb_io_breaker.Base.{
  ℕ, suc, ◌+◌, ◌⊎◌, inl, inr, Bool, true, false, Option, none, some, List, [], ◌∷◌, ltb,
  if◌then◌else◌,
}
use rpi4_usb_io_breaker.Core.Data.{Data}
use rpi4_usb_io_breaker.Core.Error.{Result, ok, err, panicked, ◌>>=◌, ◌>>◌}
use rpi4_usb_io_breaker.Core.Backend.{CoreOps, Backend}
use rpi4_usb_io_breaker.Core.Sessions.{Read, Call, get, read, put, Answer, value, done, finished}
use rpi4_usb_io_breaker.Core.Locking.{TxRo, TransactionLockImpl, Merge}
use rpi4_usb_io_breaker.Core.Locking.Adaptor.{locking, Borrowed}
use rpi4_usb_io_breaker.Core.Locking.Threads.{
  Body, ending, call, End, committed, dropped, Job, reader, writer, Thread, waiting, reading,
  writing, ended, System,
}
use rpi4_usb_io_breaker.TestSuite.Model.{unwrap, unwrap_exec}
use rpi4_usb_io_breaker.TestSuite.Harness.{open_store, assert_value, assert_model, Option-discrete}
use rpi4_usb_io_breaker.TestSuite.Basic.{check_get, check_prefix}

abbrev pub test_key : Data
test_key = 102 ∷ 111 ∷ 111 ∷ []

unfoldable pub setup : (b : Backend) → Data → Result b.Impl
setup b init = do
  store ← open_store b 1
  dbtx ← unwrap (b.transaction_rw none store)
  dbtx' ← unwrap_exec (b.write.put 0 test_key init dbtx)
  unwrap_exec (b.commit dbtx')

-- `dbtx.put(..).unwrap(); dbtx.commit().unwrap();`, where a panic drops the transaction
abbrev pub then_commit : {n : ℕ} → Result Answer → Body Call (End Answer) n
then_commit (ok a) = ending (committed (λ r. unwrap (finished r)))
then_commit (err e) = ending (dropped panicked)
then_commit panicked = ending (dropped panicked)

abbrev pub put_job : Data → Data → Job Answer
put_job key val = writer (call {n = 0} (put 0 key val) then_commit)

-- `v.first().unwrap()`, and then the sum as `u8`, which panics on overflow in the profile of the tests
abbrev pub put_sum : ℕ → Result Answer → Body Call (End Answer) 1
put_sum n (ok (value (some (b ∷ v)))) =
    if ltb (b + n) 256
    then call (put 0 test_key ((b + n) ∷ [])) then_commit
    else ending (dropped panicked)
put_sum n answer = ending (dropped panicked)

abbrev pub add_job : ℕ → Job Answer
add_job n = writer (call (read (get 0 test_key)) (put_sum n))

-- `dbtx.get(..).unwrap()`
abbrev pub get_job : Job Answer
get_job = reader (call {n = 0} (get 0 test_key) (λ a. ending (unwrap a)))

-- `unwrap` of the `Option` too
abbrev some_value : Result Answer → Result Answer
some_value (ok (value (some v))) = ok (value (some v))
some_value answer = panicked

abbrev pub get_some_job : Job Answer
get_some_job = reader (call {n = 0} (get 0 test_key) (λ a. ending (some_value a)))

-- `thr.join().unwrap()`, of a thread that has ended
abbrev pub join : Thread Answer → Result Answer
join th = elim th.stage [
  | waiting ↦ panicked
  | reading body ↦ panicked
  | writing deltas body ↦ panicked
  | ended r ↦ unwrap r
]

-- both threads of a test
abbrev pub join_both : List (Thread Answer) → Result (Answer × Answer)
join_both (a ∷ b ∷ []) = do x ← join a; y ← join b; ok (x, y)
join_both threads = panicked

-- `assert!(expected.contains(..))`
abbrev pub assert_one_of : Option Data → Option Data → Answer → Result (Unit {0})
assert_one_of x y (value v) = elim (Option-discrete v x) [ yes _ ↦ ok tt | no _ ↦ assert_value v y ]
assert_one_of x y answer = panicked

abbrev pub assert_is : Data → Answer → Result (Unit {0})
assert_is x (value v) = assert_value v (some x)
assert_is x answer = panicked

-- A test: the storage that it opens, the transactions of its threads, and what it does when they have ended.
pub record Test (T : Type 0) : Type 0 where
  pub prepare : Result (TransactionLockImpl T)
  pub jobs : List (Job Answer)
  pub rest : TransactionLockImpl T → System T Answer → Result (Unit {0})

module _ {From T : Type 0} (core : CoreOps From T) (merge : Merge) (init : From) where
  abbrev pub backend : Backend
  backend = locking core merge init

  -- `store.transaction_ro().unwrap()` of the main thread, over what the threads left behind the lock
  abbrev pub transaction_after :
      TransactionLockImpl T → System T Answer → Result (Borrowed (TxRo T))
  transaction_after store s =
      if s.db.poisoned
      then panicked
      else unwrap (backend.transaction_ro (record { db = s.db.storage; num_maps = store.num_maps }))

  unfoldable pub read_initialize_race : Test T
  read_initialize_race = record {
    prepare = open_store backend 1;
    jobs = put_job test_key (2 ∷ []) ∷ get_job ∷ [];
    rest = λ store s. do
      results ← join_both s.threads
      assert_one_of none (some (2 ∷ [])) results.1;
  }

  unfoldable pub read_write_race : Test T
  unfolding setup
  read_write_race = record {
    prepare = setup backend (0 ∷ []);
    jobs = put_job test_key (2 ∷ []) ∷ get_job ∷ [];
    rest = λ store s. do
      results ← join_both s.threads
      assert_one_of (some (0 ∷ [])) (some (2 ∷ [])) results.1;
  }

  unfoldable pub commutative_read_modify_write : Test T
  unfolding setup
  commutative_read_modify_write = record {
    prepare = setup backend (0 ∷ []);
    jobs = add_job 5 ∷ add_job 3 ∷ [];
    rest = λ store s. do
      results ← join_both s.threads
      dbtx ← transaction_after store s
      check_get backend.ro dbtx test_key (some (8 ∷ []));
  }

  unfoldable pub threaded_reads_consistent : Test T
  unfolding setup
  threaded_reads_consistent = record {
    prepare = setup backend (0x77 ∷ 0x88 ∷ 0x99 ∷ []);
    jobs = get_some_job ∷ get_some_job ∷ [];
    rest = λ store s. do
      results ← join_both s.threads
      assert_is (0x77 ∷ 0x88 ∷ 0x99 ∷ []) results.0
      assert_is (0x77 ∷ 0x88 ∷ 0x99 ∷ []) results.1;
  }

  unfoldable pub write_different_keys_and_iterate : Test T
  write_different_keys_and_iterate = record {
    prepare = open_store backend 1;
    jobs = put_job (1 ∷ []) (0xf1 ∷ []) ∷ put_job (2 ∷ []) (0xf2 ∷ []) ∷ [];
    rest = λ store s. do
      results ← join_both s.threads
      dbtx ← transaction_after store s
      check_prefix backend.ro dbtx [] ((1 ∷ [], 0xf1 ∷ []) ∷ (2 ∷ [], 0xf2 ∷ []) ∷ []);
  }

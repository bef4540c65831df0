-- ===== src/Examples/Threads.antt =====
-- Threads over the in-memory storage, in a given order of their steps.
use mathlib.Core.List.{Perm}
use rpi4_usb_io_breaker.Base.{
  ℕ, none, some, List, [], ◌∷◌, get_elem?, Option, false, ◌≡◌, refl, arith, All,
}
use rpi4_usb_io_breaker.Base.Ord.{list_ord}
use rpi4_usb_io_breaker.BTreeMap.{get, insert, extend}
use rpi4_usb_io_breaker.Core.Error.{Result, ok}
use rpi4_usb_io_breaker.Core.Sessions.{Answer, done, answer_read}
use rpi4_usb_io_breaker.Core.Types.{new, into_iter_with_id, transform}
use rpi4_usb_io_breaker.Core.Locking
use rpi4_usb_io_breaker.Core.Locking.{TransactionLockImpl}
use rpi4_usb_io_breaker.Core.Locking.Threads.{
  Job, waiting, System, advance, Step, step, Run, here, next, start, IsEnded, Shared, Thread,
  Guards, Stage,
}
use rpi4_usb_io_breaker.Core.Locking.Threads.Exclusion.{
  IsExclusive, run-IsExclusive, run-not_deadlocked,
}
use rpi4_usb_io_breaker.Core.Locking.Threads.Progress.{run-completes}
use rpi4_usb_io_breaker.Core.Locking.Threads.Alone.{IsSerial}
use rpi4_usb_io_breaker.Core.Locking.Threads.Serial.{run-IsSerial, results}
use rpi4_usb_io_breaker.InMemory.{StorageMaps, storage_maps}
use rpi4_usb_io_breaker.InMemory.Laws.{storage_maps-laws}
use rpi4_usb_io_breaker.TestSuite.Harness.{open_store, desc}
use rpi4_usb_io_breaker.TestSuite.Concurrent.{test_key, add_job, commutative_read_modify_write}
use rpi4_usb_io_breaker.TestSuite.Concurrent.Passes.{commutative_read_modify_write_passes}
use rpi4_usb_io_breaker.Examples.{merge, merge-laws}

record Ran (s : System StorageMaps Answer) : Type 0 where
  history : List (Job Answer × Result Answer)
  last : System StorageMaps Answer
  reach : Run storage_maps merge 1 s history last

-- a step of the thread `i`, if it has one
turn_of :
    {s : System StorageMaps Answer} (r : Ran s) (i : ℕ) (th : Thread Answer)
    → get_elem? r.last.threads i ≡ some th
    → (o : Option (Shared StorageMaps × Guards × Stage Answer))
    → advance storage_maps merge 1 th.job th.stage r.last.db r.last.guards ≡ o
    → Ran s
turn_of r i th found none e = r
turn_of r i th found (some (db, g, stage)) e = record {
  history = _;
  last = _;
  reach = next r.reach (step i th db g stage found e);
}

turn :
    {s : System StorageMaps Answer} (r : Ran s) (i : ℕ) (o : Option (Thread Answer))
    → get_elem? r.last.threads i ≡ o
    → Ran s
unfolding turn_of
turn r i none e = r
turn r i (some th) e =
    turn_of r i th e (advance storage_maps merge 1 th.job th.stage r.last.db r.last.guards) refl

schedule : {s : System StorageMaps Answer} → Ran s → List ℕ → Ran s
unfolding turn
schedule r [] = r
schedule r (i ∷ turns) = schedule (turn r i (get_elem? r.last.threads i) refl) turns

abbrev store : TransactionLockImpl StorageMaps
store = record { db = ((test_key, 0 ∷ []) ∷ []) ∷ []; num_maps = 1 }

abbrev jobs : List (Job Answer)
jobs = add_job 5 ∷ add_job 3 ∷ []

-- the second thread waits for the first
abbrev all_ended : Ran (start store.db jobs)
all_ended =
    schedule (record { history = []; last = _; reach = here })
      (0 ∷ 1 ∷ 0 ∷ 1 ∷ 0 ∷ 0 ∷ 1 ∷ 1 ∷ 1 ∷ 1 ∷ [])

all_ended_lem :
    all_ended.last.db ≡ record { storage = ((test_key, 8 ∷ []) ∷ []) ∷ []; poisoned = false }
unfolding schedule advance answer_read Locking.rw_ops Locking.get new get storage_maps list_ord
    Locking.put Locking.commit into_iter_with_id insert
all_ended_lem = refl

joins : All IsEnded all_ended.last.threads
unfolding schedule advance answer_read Locking.rw_ops Locking.get new get storage_maps list_ord
    Locking.put Locking.commit into_iter_with_id insert
joins = ((ok done, refl), ((ok done, refl), tt))

opened : (commutative_read_modify_write storage_maps merge tt).prepare ≡ ok store
unfolding commutative_read_modify_write open_store desc extend insert Locking.open_db storage_maps
    Locking.transaction_rw Locking.put new Locking.commit into_iter_with_id transform
opened = refl

commutative_read_modify_write_passes_example :
    (commutative_read_modify_write storage_maps merge tt).rest store all_ended.last ≡ ok tt
unfolding commutative_read_modify_write
commutative_read_modify_write_passes_example =
    commutative_read_modify_write_passes storage_maps storage_maps-laws merge merge-laws tt store
      all_ended.history all_ended.last opened all_ended.reach joins

-- the second thread waits while the first writes
abbrev writing_first : Ran (start store.db jobs)
writing_first = schedule (record { history = []; last = _; reach = here }) (0 ∷ 1 ∷ 0 ∷ [])

run-IsExclusive_example : IsExclusive writing_first.last
run-IsExclusive_example =
    run-IsExclusive storage_maps merge 1 store.db jobs writing_first.history writing_first.last
      writing_first.reach

run-IsSerial_example :
    IsSerial storage_maps merge 1
      (record { storage = store.db; poisoned = false })
      all_ended.history
      all_ended.last.db
    × Perm all_ended.history (results all_ended.last.threads)
run-IsSerial_example =
    run-IsSerial storage_maps merge 1 store.db jobs all_ended.history all_ended.last all_ended.reach

run-completes_example :
    (more : List (Job Answer × Result Answer)) × (s' : System StorageMaps Answer) × Run storage_maps
      merge 1 writing_first.last more s'
    × All IsEnded s'.threads
run-completes_example =
    run-completes storage_maps merge 1 store.db jobs writing_first.history writing_first.last
      writing_first.reach

writing_first-found :
    get_elem? writing_first.last.threads 1 ≡ some (record { job = add_job 3; stage = waiting })
unfolding schedule advance answer_read Locking.rw_ops Locking.get new get storage_maps list_ord
    Locking.put Locking.commit into_iter_with_id insert
writing_first-found = refl

run-not_deadlocked_example :
    (more : List (Job Answer × Result Answer)) × (s' : System StorageMaps Answer) × Step
      storage_maps merge 1 writing_first.last more s'
run-not_deadlocked_example =
    run-not_deadlocked storage_maps merge 1 store.db jobs writing_first.history writing_first.last 1
      (record { job = add_job 3; stage = waiting }) writing_first.reach writing_first-found
      (λ h. ground arith)

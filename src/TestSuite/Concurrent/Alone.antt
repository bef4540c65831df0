-- ===== src/TestSuite/Concurrent/Alone.antt =====
-- What each transaction of the tests does with the storage to itself.
use rpi4_usb_io_breaker.Base.{ℕ, ◌+◌, ◌<◌, true, false, some, [], ◌∷◌, ◌≡◌, refl, arith, ltb}
use rpi4_usb_io_breaker.Base.Ord.{list_ord}
use rpi4_usb_io_breaker.BTreeMap
use rpi4_usb_io_breaker.Core.Data.{Data}
use rpi4_usb_io_breaker.Core.Error.{ok}
use rpi4_usb_io_breaker.Core.Backend.{CoreOps}
use rpi4_usb_io_breaker.Core.Sessions.{Answer, value, done, finished, answer_read}
use rpi4_usb_io_breaker.Core.Contract.{Map, CoreLaws}
use rpi4_usb_io_breaker.Core.Types.{new, indices}
use rpi4_usb_io_breaker.Core.Locking
use rpi4_usb_io_breaker.Core.Locking.{TransactionLockImpl, TxRw, Merge, update}
use rpi4_usb_io_breaker.Core.Locking.Commit.{commit_lem}
use rpi4_usb_io_breaker.Core.Locking.Threads.{Job, committed, end_rw, answer}
use rpi4_usb_io_breaker.Core.Locking.Threads.Alone.{run_alone, run_writer, run_reader}
use rpi4_usb_io_breaker.TestSuite.Model.{unwrap}
use rpi4_usb_io_breaker.TestSuite.Concurrent.{test_key, put_job, add_job, get_job, get_some_job}

module _ {From T : Type 0} (core : CoreOps From T) (laws : CoreLaws core) (merge : Merge) where
  -- a transaction that succeeds, from a storage to one that stands for a database of one map
  abbrev pub Does : Job Answer → T → Answer → Map → Type 0
  Does job t a m =
      (t' : T) × (run_alone core merge 1 job (record { storage = t; poisoned = false })
        ≡ (ok a, record { storage = t'; poisoned = false }))
      × laws.Repr t' (m ∷ [])

  committed_alone :
      (key val : Data) (t : T) (m : Map)
      → laws.Repr t (m ∷ [])
      → (t' : T) × (end_rw core merge 1
            (committed (λ r. unwrap (finished r)))
            (((key, some val) ∷ []) ∷ [])
            t
          ≡ (ok done, record { storage = t'; poisoned = false }))
        × laws.Repr t' (BTreeMap.insert key val m ∷ [])
  unfolding end_rw
  committed_alone key val t m r =
      let tx : TxRw T = record { db = t; deltas = ((key, some val) ∷ []) ∷ [] } in
      let (e, r') = commit_lem core laws tx (m ∷ []) r (omega arith) in (_, rw e refl, r')

  module _ (t : T) (m : Map) (r : laws.Repr t (m ∷ [])) where
    pub put_alone : (key val : Data) → Does (put_job key val) t done (BTreeMap.insert key val m)
    unfolding run_alone run_writer answer Locking.put update new indices BTreeMap.insert
    put_alone key val = committed_alone key val t m r

    pub get_alone : Does get_job t (value (BTreeMap.get test_key m)) m
    unfolding run_alone run_reader answer_read Locking.ro_ops
    get_alone = (t, rw (laws.reads.get_lem t (m ∷ []) 0 m test_key r refl) refl, r)

    pub get_some_alone :
        (v : Data) → BTreeMap.get test_key m ≡ some v → Does get_some_job t (value (some v)) m
    unfolding run_alone run_reader answer_read Locking.ro_ops
    get_some_alone v e = (t, rw (laws.reads.get_lem t (m ∷ []) 0 m test_key r refl, e) refl, r)

    -- the sum fits in a byte
    pub add_alone :
        (n b : ℕ)
        → BTreeMap.get test_key m ≡ some (b ∷ [])
        → b + n < 256
        → Does (add_job n) t done (BTreeMap.insert test_key ((b + n) ∷ []) m)
    unfolding run_alone run_writer answer answer_read Locking.rw_ops Locking.get Locking.put update
        new indices BTreeMap.insert BTreeMap.get
    add_alone n b e h =
        let fits : ltb (b + n) 256 ≡ true = ground arith in
        rw (laws.reads.get_lem t (m ∷ []) 0 m test_key r refl, e, fits)
          (committed_alone test_key ((b + n) ∷ []) t m r)

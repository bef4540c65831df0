-- ===== src/TestSuite/Concurrent/Two.antt =====
-- The two threads of a test: how it prepares its storage, and what is left when both have ended.
use rpi4_usb_io_breaker.TestSuite.Harness.{open_store, assert_value, Option-discrete}
use rpi4_usb_io_breaker.Base.{
  Option, ◌⊎◌, inl, inr, false, none, List, [], ◌∷◌, All, ◌≡◌, refl, arith, sym,
}
use rpi4_usb_io_breaker.Base.Ord.{list_ord}
use rpi4_usb_io_breaker.BTreeMap.{insert}
use rpi4_usb_io_breaker.Core.Data.{Data}
use rpi4_usb_io_breaker.Core.Error.{Result, ok}
use rpi4_usb_io_breaker.Core.Backend.{CoreOps, Backend}
use rpi4_usb_io_breaker.Core.Sessions.{Answer, value}
use rpi4_usb_io_breaker.Core.Contract.{Map, CoreLaws, BackendLaws}
use rpi4_usb_io_breaker.Core.Locking.{TxRo, TransactionLockImpl, Merge}
use rpi4_usb_io_breaker.Core.Locking.Adaptor.{Borrowed}
use rpi4_usb_io_breaker.Core.Locking.MergeJoin.{MergeLaws}
use rpi4_usb_io_breaker.Core.Locking.Refines.{contract, locking-Repr, Repr}
use rpi4_usb_io_breaker.Core.Locking.Threads.{Job, Shared, System, Run, start, IsEnded}
use rpi4_usb_io_breaker.Core.Locking.Threads.Alone.{IsSerial}
use rpi4_usb_io_breaker.Core.Locking.Threads.Pair.{both_ended}
use rpi4_usb_io_breaker.TestSuite.Harness.Laws.{open_store_lem, one, assert_value_refl}
use rpi4_usb_io_breaker.TestSuite.Concurrent.{
  test_key, setup, backend, transaction_after, join_both, assert_one_of,
}
use rpi4_usb_io_breaker.TestSuite.Concurrent.Alone.{Does}

-- the preparation of a test with a value
setup_lem :
    (b : Backend) (laws : BackendLaws b) (val : Data)
    → (s : b.Impl) × (setup b val ≡ ok s) × laws.Repr s (((test_key, val) ∷ []) ∷ [])
unfolding setup insert
setup_lem b laws val =
    let (s, e0, r0) = open_store_lem b laws one in
    let (tx, e1, r1) = laws.rw_lem none s ([] ∷ []) r0 in
    let (e2, r2) =
      (laws.rw_writes ([] ∷ [])).put_lem tx ([] ∷ []) 0 test_key val r1 (omega arith) in
    let (e3, r3) = laws.commit_lem (b.write.put 0 test_key val tx).1 ([] ∷ []) _ r2 in
    (_, rw (e0, e1, e2, e3) refl, r3)

pub one_of-first : (x y : Option Data) → assert_one_of x y (value x) ≡ ok tt
one_of-first x y = go (Option-discrete x x)
  where
    go :
        (d : Dec (x ≡ x))
        → elim d as (λ _. Result (Unit {0})) [ yes _ ↦ ok tt | no _ ↦ assert_value x y ] ≡ ok tt
    go (yes _) = refl
    go (no n) = absurd (n refl)

pub one_of-second : (x y : Option Data) → assert_one_of x y (value y) ≡ ok tt
one_of-second x y = go (Option-discrete y x)
  where
    go :
        (d : Dec (y ≡ x))
        → elim d as (λ _. Result (Unit {0})) [ yes _ ↦ ok tt | no _ ↦ assert_value y y ] ≡ ok tt
    go (yes _) = refl
    go (no n) = assert_value_refl y

module _ {From T : Type 0} (core : CoreOps From T) (laws : CoreLaws core) (merge : Merge) where
  -- how a run of two threads ended: their answers, and the database that is left
  pub record Left (s : System T Answer) (a0 a1 : Answer) (m : Map) : Type 0 where
    pub joined : join_both s.threads ≡ ok (a0, a1)
    pub storage : T
    pub db : s.db ≡ record { storage = storage; poisoned = false }
    pub repr : laws.Repr storage (m ∷ [])

  -- one transaction after the other
  serial_two :
      (j0 j1 : Job Answer) (x0 x1 : Result Answer) (t : T) (db : Shared T) (a0 a1 : Answer)
      (m0 m1 : Map)
      → IsSerial core merge 1
          (record { storage = t; poisoned = false })
          ((j0, x0) ∷ (j1, x1) ∷ [])
          db
      → Does core laws merge j0 t a0 m0
      → ((t0 : T) → laws.Repr t0 (m0 ∷ []) → Does core laws merge j1 t0 a1 m1)
      → (x0 ≡ ok a0)
        × (x1 ≡ ok a1)
        × (t1 : T) × (db ≡ record { storage = t1; poisoned = false })
        × laws.Repr t1 (m1 ∷ [])
  unfolding IsSerial
  serial_two j0 j1 x0 x1 t db a0 a1 m0 m1 h (t0, e0, r0) d1 =
      let (t1, e1, r1) = d1 t0 r0 in
      let h' = rw e0 at h in let h2 = rw e1 at (h'.1) in (sym h'.0, sym h2.0, t1, sym h2.1, r1)

  pub both_do :
      (store : TransactionLockImpl T) (j0 j1 : Job Answer)
      (history : List (Job Answer × Result Answer)) (s : System T Answer) (a0 a1 b0 b1 : Answer)
      (m0 m1 n0 n1 : Map)
      → store.num_maps ≡ 1
      → Run core merge store.num_maps (start store.db (j0 ∷ j1 ∷ [])) history s
      → All IsEnded s.threads
      → Does core laws merge j0 store.db a0 m0
      → ((t : T) → laws.Repr t (m0 ∷ []) → Does core laws merge j1 t a1 m1)
      → Does core laws merge j1 store.db b1 n1
      → ((t : T) → laws.Repr t (n1 ∷ []) → Does core laws merge j0 t b0 n0)
      → Left s a0 a1 m1 ⊎ Left s b0 b1 n0
  both_do store j0 j1 history s a0 a1 b0 b1 m0 m1 n0 n1 size run all d0 d1 d1' d0' =
      let (x0, x1, threads, order) =
        both_ended core merge store.num_maps store.db j0 j1 history s run all in
      elim (rw size at order) [
        | inl h ↦
            let (e0, e1, t, db, r) = serial_two j0 j1 x0 x1 store.db s.db a0 a1 m0 m1 h d0 d1 in
            inl (record { joined = rw (threads, e0, e1) refl; storage = t; db = db; repr = r })
        | inr h ↦
            let (e1, e0, t, db, r) = serial_two j1 j0 x1 x0 store.db s.db b1 b0 n1 n0 h d1' d0' in
            inr (record { joined = rw (threads, e0, e1) refl; storage = t; db = db; repr = r })
      ]

  module _ (merging : MergeLaws merge) (init : From) where
    pub opened-empty :
        (store : TransactionLockImpl T)
        → open_store (backend core merge init) 1 ≡ ok store
        → Repr core laws store ([] ∷ [])
    opened-empty store opened =
        let (s, e, r) =
          open_store_lem (backend core merge init) (contract core laws merge init merging) one in
        let same : s ≡ store = cc in
        (locking-Repr core laws merge init merging store _).0 (rw same at r)

    pub opened-value :
        (store : TransactionLockImpl T) (val : Data)
        → setup (backend core merge init) val ≡ ok store
        → Repr core laws store (((test_key, val) ∷ []) ∷ [])
    opened-value store val opened =
        let (s, e, r) =
          setup_lem (backend core merge init) (contract core laws merge init merging) val in
        let same : s ≡ store = cc in
        (locking-Repr core laws merge init merging store _).0 (rw same at r)

    -- the main thread's transaction, once both threads have ended
    pub read_after :
        (store : TransactionLockImpl T) (s : System T Answer) (a0 a1 : Answer) (m : Map)
        → store.num_maps ≡ 1
        → Left s a0 a1 m
        → (tx : Borrowed (TxRo T)) × (transaction_after core merge init store s ≡ ok tx)
          × (contract core laws merge init merging).ReprRo tx (m ∷ [])
    read_after store s a0 a1 m size left =
        let b_laws = contract core laws merge init merging in
        let handle : TransactionLockImpl T = record {
          db = left.storage;
          num_maps = store.num_maps;
        } in
        let r : Repr core laws handle (m ∷ []) = record { db = left.repr; count = size } in
        let (tx, e, r') =
          b_laws.ro_lem handle (m ∷ [])
            ((locking-Repr core laws merge init merging handle (m ∷ [])).1 r) in
        (tx, rw (left.db, e) refl, r')

-- ===== src/TestSuite/Concurrent/Passes.antt =====
-- However the threads are scheduled, the tests pass over the locking adaptor.
use rpi4_usb_io_breaker.Base.{ℕ, inl, inr, none, some, List, [], ◌∷◌, All, ◌≡◌, refl, arith}
use rpi4_usb_io_breaker.Base.Ord.{list_ord}
use rpi4_usb_io_breaker.BTreeMap.{get, insert}
use rpi4_usb_io_breaker.Core.Data.{Data, starts_with}
use rpi4_usb_io_breaker.Core.Error.{Result, ok}
use rpi4_usb_io_breaker.Core.Backend.{CoreOps}
use rpi4_usb_io_breaker.Core.Sessions.{Answer, value, done}
use rpi4_usb_io_breaker.Core.Contract.{Map, CoreLaws}
use rpi4_usb_io_breaker.Core.Locking.{TransactionLockImpl, Merge}
use rpi4_usb_io_breaker.Core.Locking.MergeJoin.{MergeLaws}
use rpi4_usb_io_breaker.Core.Locking.Refines.{contract}
use rpi4_usb_io_breaker.Core.Locking.Threads.{Job, System, Run, start, IsEnded}
use rpi4_usb_io_breaker.TestSuite.Harness.Laws.{assert_value_refl}
use rpi4_usb_io_breaker.TestSuite.Basic.Steps.{check_get_lem, check_prefix_lem}
use rpi4_usb_io_breaker.TestSuite.Concurrent.{
  test_key, read_initialize_race, read_write_race, commutative_read_modify_write,
  threaded_reads_consistent, write_different_keys_and_iterate,
}
use rpi4_usb_io_breaker.TestSuite.Concurrent.Alone.{put_alone, get_alone, get_some_alone, add_alone}
use rpi4_usb_io_breaker.TestSuite.Concurrent.Two.{
  Left, both_do, opened-empty, opened-value, read_after, one_of-first, one_of-second,
}

module _ {From T : Type 0} (core : CoreOps From T) (laws : CoreLaws core) (merge : Merge)
    (merging : MergeLaws merge) (init : From) where
  -- Over a storage that keeps the contract without transactions, for every schedule in which both threads end: the
  -- reader finds no value or the value that the writer puts.
  pub read_initialize_race_passes :
      (store : TransactionLockImpl T) (history : List (Job Answer × Result Answer))
      (s : System T Answer)
      → (read_initialize_race core merge init).prepare ≡ ok store
      → Run core merge store.num_maps
          (start store.db (read_initialize_race core merge init).jobs)
          history
          s
      → All IsEnded s.threads
      → (read_initialize_race core merge init).rest store s ≡ ok tt
  unfolding read_initialize_race insert get list_ord
  read_initialize_race_passes store history s opened run all =
      let r = opened-empty core laws merge merging init store opened in
      let m : Map = (test_key, 2 ∷ []) ∷ [] in
      elim (both_do core laws merge store _ _ history s done (value (some (2 ∷ []))) done
        (value none) m m m [] r.count run all
        (put_alone core laws merge store.db [] r.db test_key (2 ∷ []))
        (λ t r'. get_alone core laws merge t m r') (get_alone core laws merge store.db [] r.db)
        (λ t r'. put_alone core laws merge t [] r' test_key (2 ∷ []))) [
          | inl left ↦ rw (left.joined, one_of-second none (some (2 ∷ []))) refl
          | inr left ↦ rw (left.joined, one_of-first none (some (2 ∷ []))) refl
        ]

  -- Over a storage that keeps the contract without transactions, for every schedule in which both threads end: the
  -- reader finds the old value or the one that the writer puts.
  pub read_write_race_passes :
      (store : TransactionLockImpl T) (history : List (Job Answer × Result Answer))
      (s : System T Answer)
      → (read_write_race core merge init).prepare ≡ ok store
      → Run core merge store.num_maps
          (start store.db (read_write_race core merge init).jobs)
          history
          s
      → All IsEnded s.threads
      → (read_write_race core merge init).rest store s ≡ ok tt
  unfolding read_write_race insert get list_ord
  read_write_race_passes store history s opened run all =
      let r = opened-value core laws merge merging init store (0 ∷ []) opened in
      let m0 : Map = (test_key, 0 ∷ []) ∷ [] in
      let m : Map = (test_key, 2 ∷ []) ∷ [] in
      elim (both_do core laws merge store _ _ history s done (value (some (2 ∷ []))) done
        (value (some (0 ∷ []))) m m m m0 r.count run all
        (put_alone core laws merge store.db m0 r.db test_key (2 ∷ []))
        (λ t r'. get_alone core laws merge t m r') (get_alone core laws merge store.db m0 r.db)
        (λ t r'. put_alone core laws merge t m0 r' test_key (2 ∷ []))) [
          | inl left ↦ rw (left.joined, one_of-second (some (0 ∷ [])) (some (2 ∷ []))) refl
          | inr left ↦ rw (left.joined, one_of-first (some (0 ∷ [])) (some (2 ∷ []))) refl
        ]

  -- Over a storage that keeps the contract without transactions, for every schedule in which both threads end: the
  -- two additions are both in the value that is left.
  pub commutative_read_modify_write_passes :
      (store : TransactionLockImpl T) (history : List (Job Answer × Result Answer))
      (s : System T Answer)
      → (commutative_read_modify_write core merge init).prepare ≡ ok store
      → Run core merge store.num_maps
          (start store.db (commutative_read_modify_write core merge init).jobs)
          history
          s
      → All IsEnded s.threads
      → (commutative_read_modify_write core merge init).rest store s ≡ ok tt
  unfolding commutative_read_modify_write insert get list_ord
  commutative_read_modify_write_passes store history s opened run all =
      let r = opened-value core laws merge merging init store (0 ∷ []) opened in
      let m : ℕ → Map = λ n. (test_key, n ∷ []) ∷ [] in
      let final : Left core laws merge s done done (m 8) =
        elim (both_do core laws merge store _ _ history s done done done done (m 5) (m 8) (m 8)
          (m 3) r.count run all
          (add_alone core laws merge store.db (m 0) r.db 5 0 refl (omega arith))
          (λ t r'. add_alone core laws merge t (m 5) r' 3 5 refl (omega arith))
          (add_alone core laws merge store.db (m 0) r.db 3 0 refl (omega arith))
          (λ t r'. add_alone core laws merge t (m 3) r' 5 3 refl (omega arith))) [
            | inl left ↦ left
            | inr left ↦ left
          ] in
      let (tx, e, r') =
        read_after core laws merge merging init store s done done (m 8) r.count final in
      let found =
        check_get_lem (contract core laws merge init merging).ro_reads tx (m 8) r' test_key
          (some (8 ∷ [])) refl in
      rw (final.joined, e) found

  -- Over a storage that keeps the contract without transactions, for every schedule in which both threads end: both
  -- read the value.
  pub threaded_reads_consistent_passes :
      (store : TransactionLockImpl T) (history : List (Job Answer × Result Answer))
      (s : System T Answer)
      → (threaded_reads_consistent core merge init).prepare ≡ ok store
      → Run core merge store.num_maps
          (start store.db (threaded_reads_consistent core merge init).jobs)
          history
          s
      → All IsEnded s.threads
      → (threaded_reads_consistent core merge init).rest store s ≡ ok tt
  unfolding threaded_reads_consistent insert get list_ord
  threaded_reads_consistent_passes store history s opened run all =
      let val : Data = 0x77 ∷ 0x88 ∷ 0x99 ∷ [] in
      let r = opened-value core laws merge merging init store val opened in
      let m : Map = (test_key, val) ∷ [] in
      let read =
        λ (t : T) (r' : laws.Repr t (m ∷ [])). get_some_alone core laws merge t m r' val refl in
      let final : Left core laws merge s (value (some val)) (value (some val)) m =
        elim (both_do core laws merge store _ _ history s _ _ _ _ m m m m r.count run all
          (read store.db r.db) read (read store.db r.db) read) [
            | inl left ↦ left
            | inr left ↦ left
          ] in
      rw (final.joined, assert_value_refl (some val)) refl

  -- Over a storage that keeps the contract without transactions, for every schedule in which both threads end:
  -- iteration yields both entries, in the order of their keys.
  pub write_different_keys_and_iterate_passes :
      (store : TransactionLockImpl T) (history : List (Job Answer × Result Answer))
      (s : System T Answer)
      → (write_different_keys_and_iterate core merge init).prepare ≡ ok store
      → Run core merge store.num_maps
          (start store.db (write_different_keys_and_iterate core merge init).jobs)
          history
          s
      → All IsEnded s.threads
      → (write_different_keys_and_iterate core merge init).rest store s ≡ ok tt
  unfolding write_different_keys_and_iterate insert list_ord starts_with
  write_different_keys_and_iterate_passes store history s opened run all =
      let r = opened-empty core laws merge merging init store opened in
      let m0 : Map = (1 ∷ [], 0xf1 ∷ []) ∷ [] in
      let m1 : Map = (2 ∷ [], 0xf2 ∷ []) ∷ [] in
      let m : Map = (1 ∷ [], 0xf1 ∷ []) ∷ (2 ∷ [], 0xf2 ∷ []) ∷ [] in
      let final : Left core laws merge s done done m =
        elim (both_do core laws merge store _ _ history s done done done done m0 m m m1 r.count run
          all (put_alone core laws merge store.db [] r.db (1 ∷ []) (0xf1 ∷ []))
          (λ t r'. put_alone core laws merge t m0 r' (2 ∷ []) (0xf2 ∷ []))
          (put_alone core laws merge store.db [] r.db (2 ∷ []) (0xf2 ∷ []))
          (λ t r'. put_alone core laws merge t m1 r' (1 ∷ []) (0xf1 ∷ []))) [
            | inl left ↦ left
            | inr left ↦ left
          ] in
      let (tx, e, r') = read_after core laws merge merging init store s done done m r.count final in
      let found =
        check_prefix_lem (contract core laws merge init merging).ro_reads tx m r' [] m refl in
      rw (final.joined, e) found

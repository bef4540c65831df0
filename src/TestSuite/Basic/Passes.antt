-- ===== src/TestSuite/Basic/Passes.antt =====
-- Over any backend that keeps the contract, each basic test passes.
use rpi4_usb_io_breaker.Base.{none, some, List, [], ◌∷◌, ℕ, map, ◌≡◌, refl, All}
use rpi4_usb_io_breaker.Base.Ord.{list_ord}
use rpi4_usb_io_breaker.BTreeMap.{get, insert, remove, extend}
use rpi4_usb_io_breaker.Core.Data.{Data, starts_with}
use rpi4_usb_io_breaker.Core.Error.{ok}
use rpi4_usb_io_breaker.Core.Backend.{Backend}
use rpi4_usb_io_breaker.Core.Util.Collect.{with_prefix}
use rpi4_usb_io_breaker.Core.Contract.{Map, BackendLaws}
use rpi4_usb_io_breaker.TestSuite.Harness.Laws.{
  open_store_lem, assert_entry_refl, assert_count_refl, one,
}
use rpi4_usb_io_breaker.TestSuite.Basic.{
  hello, world, a_key, b_key, digit, prefix_entries, delete_entries, deleted_keys, full_checks,
  deleted_checks, check_full, check_deleted, check_range, put_and_commit, put_and_abort,
  put_two_under_different_keys, put_twice_then_commit_read_last, put_iterator_count_matches,
  put_and_iterate_over_prefixes, put_and_iterate_delete_some,
}
use rpi4_usb_io_breaker.TestSuite.Basic.Steps.{
  remove_all, check_get_lem, check_prefixes_lem, check_vals_lem, put_each_lem, del_each_lem,
}

module _ (b : Backend) (laws : BackendLaws b) where
  -- Over a backend that keeps the contract the test passes: a value that was put and committed is read.
  pub put_and_commit_passes : put_and_commit b ≡ ok tt
  unfolding put_and_commit get insert extend list_ord
  put_and_commit_passes =
      let (s, e0, r0) = open_store_lem b laws one in
      let (tx, e1, r1) = laws.rw_lem none s ([] ∷ []) r0 in
      let (tx', e2, r2) = put_each_lem b laws ([] ∷ []) ((hello, world) ∷ []) tx [] r1 in
      let m : Map = (hello, world) ∷ [] in
      let (e3, r3) = laws.commit_lem tx' ([] ∷ []) (m ∷ []) r2 in
      let (ro, e4, r4) = laws.ro_lem (b.commit tx').1 (m ∷ []) r3 in
      let e5 = check_get_lem laws.ro_reads ro m r4 hello (some world) refl in
      rw (e0, e1, e2, e3, e4, e5) refl

  -- Over a backend that keeps the contract the test passes: a value that was put and dropped is not read.
  pub put_and_abort_passes : put_and_abort b ≡ ok tt
  unfolding put_and_abort get
  put_and_abort_passes =
      let (s, e0, r0) = open_store_lem b laws one in
      let (tx, e1, r1) = laws.rw_lem none s ([] ∷ []) r0 in
      let (tx', e2, r2) = put_each_lem b laws ([] ∷ []) ((hello, world) ∷ []) tx [] r1 in
      let r3 = laws.drop_rw_lem tx' ([] ∷ []) _ r2 in
      let (ro, e4, r4) = laws.ro_lem (b.drop_rw tx') ([] ∷ []) r3 in
      let e5 = check_get_lem laws.ro_reads ro [] r4 hello none refl in rw (e0, e1, e2, e4, e5) refl

  -- Over a backend that keeps the contract the test passes: two values that were committed are read, also after
  -- a transaction that would have changed them was dropped.
  pub put_two_under_different_keys_passes : put_two_under_different_keys b ≡ ok tt
  unfolding put_two_under_different_keys get insert extend list_ord
  put_two_under_different_keys_passes =
      let m : Map = (a_key, digit 0) ∷ (b_key, digit 1) ∷ [] in
      let changes : Map = (a_key, 48 ∷ 48 ∷ []) ∷ (b_key, 49 ∷ 49 ∷ []) ∷ [] in
      let (s, e0, r0) = open_store_lem b laws one in
      let (tx, e1, r1) = laws.rw_lem none s ([] ∷ []) r0 in
      let (tx', e2, r2) = put_each_lem b laws ([] ∷ []) m tx [] r1 in
      let (e3, r3) = laws.commit_lem tx' ([] ∷ []) (m ∷ []) r2 in
      let (ro, e4, r4) = laws.ro_lem (b.commit tx').1 (m ∷ []) r3 in
      let e5 = check_get_lem laws.ro_reads ro m r4 a_key (some (digit 0)) refl in
      let e6 = check_get_lem laws.ro_reads ro m r4 b_key (some (digit 1)) refl in
      let (tx2, e7, r7) = laws.rw_lem none (b.drop_ro ro) (m ∷ []) (laws.drop_ro_lem ro _ r4) in
      let (tx3, e8, r8) = put_each_lem b laws (m ∷ []) changes tx2 m r7 in
      let (ro2, e9, r9) =
        laws.ro_lem (b.drop_rw tx3) (m ∷ []) (laws.drop_rw_lem tx3 (m ∷ []) _ r8) in
      let e10 = check_get_lem laws.ro_reads ro2 m r9 a_key (some (digit 0)) refl in
      let e11 = check_get_lem laws.ro_reads ro2 m r9 b_key (some (digit 1)) refl in
      rw (e0, e1, e2, e3, e4, e5, e6, e7, e8, e9, e10, e11) refl

  -- Over a backend that keeps the contract the test passes: the later of two values under one key is read, in
  -- the transaction and after its commit.
  pub put_twice_then_commit_read_last_passes : put_twice_then_commit_read_last b ≡ ok tt
  unfolding put_twice_then_commit_read_last get insert extend list_ord
  put_twice_then_commit_read_last_passes =
      let m1 : Map = (hello, a_key) ∷ [] in
      let m2 : Map = (hello, b_key) ∷ [] in
      let (s, e0, r0) = open_store_lem b laws one in
      let (tx, e1, r1) = laws.rw_lem none s ([] ∷ []) r0 in
      let (tx1, e2, r2) = put_each_lem b laws ([] ∷ []) m1 tx [] r1 in
      let e3 = check_get_lem (laws.rw_reads ([] ∷ [])) tx1 m1 r2 hello (some a_key) refl in
      let (tx2, e4, r4) = put_each_lem b laws ([] ∷ []) m2 tx1 m1 r2 in
      let e5 = check_get_lem (laws.rw_reads ([] ∷ [])) tx2 m2 r4 hello (some b_key) refl in
      let (e6, r6) = laws.commit_lem tx2 ([] ∷ []) (m2 ∷ []) r4 in
      let (ro, e7, r7) = laws.ro_lem (b.commit tx2).1 (m2 ∷ []) r6 in
      let e8 = check_get_lem laws.ro_reads ro m2 r7 hello (some b_key) refl in
      rw (e0, e1, e2, e3, e4, e5, e6, e7, e8) refl

  -- Over a backend that keeps the contract the test passes: of four entries that were committed, iteration
  -- yields four.
  pub put_iterator_count_matches_passes : put_iterator_count_matches b ≡ ok tt
  unfolding put_iterator_count_matches insert extend list_ord starts_with
  put_iterator_count_matches_passes =
      let m : Map = (0 ∷ [], []) ∷ (1 ∷ [], []) ∷ (2 ∷ [], []) ∷ (3 ∷ [], []) ∷ [] in
      let (s, e0, r0) = open_store_lem b laws one in
      let (tx, e1, r1) = laws.rw_lem none s ([] ∷ []) r0 in
      let (tx', e2, r2) = put_each_lem b laws ([] ∷ []) m tx [] r1 in
      let (e3, r3) = laws.commit_lem tx' ([] ∷ []) (m ∷ []) r2 in
      let (ro, e4, r4) = laws.ro_lem (b.commit tx').1 (m ∷ []) r3 in
      let e5 = laws.ro_reads.prefix_iter_lem ro (m ∷ []) 0 m [] r4 refl in
      rw (e0, e1, e2, e3, e4, e5, assert_count_refl 4) refl

  check_range_lem :
      (s : b.Impl) (m : Map) (p : Data) (range : List ℕ)
      → laws.Repr s (m ∷ [])
      → map (λ e. e.1) (with_prefix p m) ≡ map digit range
      → (s' : b.Impl) × (check_range b s p range ≡ ok s') × laws.Repr s' (m ∷ [])
  unfolding check_range
  check_range_lem s m p range r h =
      let (ro, e, r') = laws.ro_lem s (m ∷ []) r in
      (
        b.drop_ro ro,
        rw (e, check_vals_lem laws.ro_reads ro m r' p (map digit range) h) refl,
        laws.drop_ro_lem ro (m ∷ []) r',
      )

  -- Over a backend that keeps the contract the test passes: iteration over a prefix yields the values of the
  -- keys that start with it, in the order of the keys.
  pub put_and_iterate_over_prefixes_passes : put_and_iterate_over_prefixes b ≡ ok tt
  unfolding put_and_iterate_over_prefixes insert extend list_ord starts_with
  put_and_iterate_over_prefixes_passes =
      let m : Map = extend [] prefix_entries in
      let (s, e0, r0) = open_store_lem b laws one in
      let (tx, e1, r1) = laws.rw_lem none s ([] ∷ []) r0 in
      let (tx', e2, r2) = put_each_lem b laws ([] ∷ []) prefix_entries tx [] r1 in
      let (e3, r3) = laws.commit_lem tx' ([] ∷ []) (m ∷ []) r2 in
      let (ro, e4, r4) = laws.ro_lem (b.commit tx').1 (m ∷ []) r3 in
      let e5 = laws.ro_reads.prefix_iter_lem ro (m ∷ []) 0 m (102 ∷ 111 ∷ 111 ∷ []) r4 refl in
      let r5 = laws.drop_ro_lem ro (m ∷ []) r4 in
      let all = 0 ∷ 1 ∷ 2 ∷ 3 ∷ 4 ∷ 5 ∷ 6 ∷ 7 ∷ 8 ∷ 9 ∷ [] in
      let (s1, f1, q1) = check_range_lem (b.drop_ro ro) m [] all r5 refl in
      let (s2, f2, q2) = check_range_lem s1 m a_key (0 ∷ 1 ∷ 2 ∷ 3 ∷ 4 ∷ []) q1 refl in
      let (s3, f3, q3) = check_range_lem s2 m (97 ∷ 97 ∷ []) (0 ∷ []) q2 refl in
      let (s4, f4, q4) = check_range_lem s3 m (97 ∷ 99 ∷ []) (2 ∷ 3 ∷ 4 ∷ []) q3 refl in
      let (s5, f5, q5) = check_range_lem s4 m b_key (5 ∷ 6 ∷ 7 ∷ 8 ∷ []) q4 refl in
      let (s6, f6, q6) = check_range_lem s5 m (120 ∷ []) (9 ∷ []) q5 refl in
      rw (e0, e1, e2, e3, e4, e5, assert_entry_refl none, f1, f2, f3, f4, f5, f6) refl

  -- Over a backend that keeps the contract the test passes: after a transaction with deletions iteration yields all
  -- entries if it was dropped, and what is left if it was committed; inside it, what is left.
  pub put_and_iterate_delete_some_passes : put_and_iterate_delete_some b ≡ ok tt
  unfolding put_and_iterate_delete_some check_full check_deleted insert remove extend list_ord
      starts_with
  put_and_iterate_delete_some_passes =
      let m : Map = extend [] delete_entries in
      let m' : Map = remove_all m deleted_keys in
      let full : All (λ (c : Data × Map). with_prefix c.0 m ≡ c.1) full_checks =
        (refl, (refl, (refl, tt))) in
      let left : All (λ (c : Data × Map). with_prefix c.0 m' ≡ c.1) deleted_checks =
        (refl, (refl, (refl, tt))) in
      let (s, e0, r0) = open_store_lem b laws one in
      let (tx, e1, r1) = laws.rw_lem none s ([] ∷ []) r0 in
      let (tx1, e2, r2) = put_each_lem b laws ([] ∷ []) delete_entries tx [] r1 in
      let e3 = check_prefixes_lem (laws.rw_reads ([] ∷ [])) tx1 m r2 full_checks full in
      let (e4, r4) = laws.commit_lem tx1 ([] ∷ []) (m ∷ []) r2 in
      let (ro1, e5, r5) = laws.ro_lem (b.commit tx1).1 (m ∷ []) r4 in
      let e6 = check_prefixes_lem laws.ro_reads ro1 m r5 full_checks full in
      let (tx2, e7, r7) = laws.rw_lem none (b.drop_ro ro1) (m ∷ []) (laws.drop_ro_lem ro1 _ r5) in
      let (tx3, e8, r8) = del_each_lem b laws (m ∷ []) deleted_keys tx2 m [] r7 in
      let e9 = check_prefixes_lem (laws.rw_reads (m ∷ [])) tx3 m' r8 deleted_checks left in
      let (ro2, e10, r10) =
        laws.ro_lem (b.drop_rw tx3) (m ∷ []) (laws.drop_rw_lem tx3 (m ∷ []) _ r8) in
      let e11 = check_prefixes_lem laws.ro_reads ro2 m r10 full_checks full in
      let (tx4, e12, r12) =
        laws.rw_lem none (b.drop_ro ro2) (m ∷ []) (laws.drop_ro_lem ro2 _ r10) in
      let (tx5, e13, r13) = del_each_lem b laws (m ∷ []) deleted_keys tx4 m [] r12 in
      let e14 = check_prefixes_lem (laws.rw_reads (m ∷ [])) tx5 m' r13 deleted_checks left in
      let (e15, r15) = laws.commit_lem tx5 (m ∷ []) (m' ∷ []) r13 in
      let (ro3, e16, r16) = laws.ro_lem (b.commit tx5).1 (m' ∷ []) r15 in
      let e17 = check_prefixes_lem laws.ro_reads ro3 m' r16 deleted_checks left in
      rw (e0, e1, e2, e3, e4, e5, e6, e7, e8, e9, e10, e11, e12, e13, e14, e15, e16, e17) refl

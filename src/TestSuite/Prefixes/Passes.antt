-- ===== src/TestSuite/Prefixes/Passes.antt =====
-- Over any backend that keeps the contract, the test on iteration over prefixes passes.
use rpi4_usb_io_breaker.Base.{none, List, [], ◌∷◌, ◌++◌, map, replicate, ◌≡◌, refl, ◌∙◌, ap, arith}
use rpi4_usb_io_breaker.Base.Ord.{list_ord}
use rpi4_usb_io_breaker.Core.Data.{Data}
use rpi4_usb_io_breaker.Core.Error.{ok}
use rpi4_usb_io_breaker.Core.Backend.{Backend}
use rpi4_usb_io_breaker.Core.Util.Collect.{with_prefix}
use rpi4_usb_io_breaker.Core.Contract.{Map, Db, BackendLaws}
use rpi4_usb_io_breaker.TestSuite.Model.{WriteAction, extend_model, from_actions}
use rpi4_usb_io_breaker.TestSuite.Model.Laws.{extend_model-IsSorted}
use rpi4_usb_io_breaker.TestSuite.Harness.Laws.{
  open_store_lem, assert_model_refl, assert_entry_refl, five,
}
use rpi4_usb_io_breaker.TestSuite.Property.Steps.{commit_actions_lem}
use rpi4_usb_io_breaker.TestSuite.Basic.Steps.{remove_all, del_each_lem}
use rpi4_usb_io_breaker.TestSuite.Prefixes.{prefixed, check_iter, check_none, prefix_iteration}
use rpi4_usb_io_breaker.TestSuite.Prefixes.Kept.{
  remove_all-keys, with_prefix-remove_all, with_prefix-prefixed, with_prefix-others,
  extend_model-append,
}

module _ (b : Backend) (laws : BackendLaws b) where
  check_iter_lem :
      (s : b.Impl) (m : Map) (rest : Db) (p : Data) (model : Map)
      → laws.Repr s (m ∷ rest)
      → with_prefix p m ≡ model
      → (s' : b.Impl) × (check_iter b s p model ≡ ok s') × laws.Repr s' (m ∷ rest)
  unfolding check_iter
  check_iter_lem s m rest p model r e =
      let (tx, e0, r0) = laws.ro_lem s (m ∷ rest) r in
      let e1 = laws.ro_reads.prefix_iter_lem tx (m ∷ rest) 0 m p r0 refl in
      (b.drop_ro tx, rw (e0, e1, e, assert_model_refl) refl, laws.drop_ro_lem tx (m ∷ rest) r0)

  check_none_lem :
      (s : b.Impl) (m : Map) (rest : Db) (p : Data)
      → laws.Repr s (m ∷ rest)
      → with_prefix p m ≡ []
      → (s' : b.Impl) × (check_none b s p ≡ ok s') × laws.Repr s' (m ∷ rest)
  unfolding check_none
  check_none_lem s m rest p r e =
      let (tx, e0, r0) = laws.ro_lem s (m ∷ rest) r in
      let e1 = laws.ro_reads.prefix_iter_lem tx (m ∷ rest) 0 m p r0 refl in
      (b.drop_ro tx, rw (e0, e1, e, assert_entry_refl none) refl, laws.drop_ro_lem tx (m ∷ rest) r0)

  -- Over a backend that keeps the contract the test passes on all actions: of actions on keys that start with a and
  -- actions on keys that start with b, iteration over a prefix yields what those on its keys leave, over another
  -- prefix nothing, and after the removal of the keys that it yields nothing.
  pub prefix_iteration_passes :
      (generated_a generated_b : List WriteAction)
      → prefix_iteration b generated_a generated_b ≡ ok tt
  unfolding prefix_iteration from_actions
  prefix_iteration_passes generated_a generated_b =
      let as' = prefixed 97 generated_a in
      let bs = prefixed 98 generated_b in
      let four : Db = replicate 4 [] in
      let mid = extend_model [] as' in
      let m = extend_model [] (as' ++ bs) in
      let split : m ≡ extend_model mid bs = extend_model-append [] as' bs in
      let mid-IsSorted = extend_model-IsSorted [] as' tt in
      let m-IsSorted = extend_model-IsSorted [] (as' ++ bs) tt in
      let in_a : with_prefix (97 ∷ []) m ≡ mid = rw split (
        with_prefix-others 97 98 mid generated_b (ground arith) mid-IsSorted
        ∙ with_prefix-prefixed 97 [] generated_a tt) in
      let in_b : with_prefix (98 ∷ []) m ≡ extend_model [] bs = rw split (
        with_prefix-prefixed 98 mid generated_b mid-IsSorted
        ∙ ap (λ (x : Map). extend_model x bs)
            (with_prefix-others 98 97 [] generated_a (ground arith) tt)) in
      let in_c : with_prefix (99 ∷ []) m ≡ [] = rw split (
        with_prefix-others 99 98 mid generated_b (ground arith) mid-IsSorted
        ∙ with_prefix-others 99 97 [] generated_a (ground arith) tt) in
      let (s0, e0, r0) = open_store_lem b laws five in
      let (s1, e1, r1) = commit_actions_lem b laws s0 ([] ∷ four) 0 (as' ++ bs) r0 (omega arith) in
      let (s2, e2, r2) = check_iter_lem s1 m four (97 ∷ []) mid r1 in_a in
      let (s3, e3, r3) = check_iter_lem s2 m four (98 ∷ []) (extend_model [] bs) r2 in_b in
      let (s4, e4, r4) = check_none_lem s3 m four (99 ∷ []) r3 in_c in
      let (tx, e5, r5) = laws.rw_lem none s4 (m ∷ four) r4 in
      let e6 = (laws.rw_reads (m ∷ four)).prefix_iter_lem tx (m ∷ four) 0 m (97 ∷ []) r5 refl in
      let ks = map (λ (e : Data × Data). e.0) (with_prefix (97 ∷ []) m) in
      let (tx', e7, r7) = del_each_lem b laws (m ∷ four) ks tx m four r5 in
      let left = remove_all m ks in
      let (e8, r8) = laws.commit_lem tx' (m ∷ four) (left ∷ four) r7 in
      let gone : with_prefix (97 ∷ []) left ≡ [] =
        with_prefix-remove_all (97 ∷ []) m ks m-IsSorted
        ∙ remove_all-keys (with_prefix (97 ∷ []) m) in
      let (s9, e9, r9) = check_none_lem (b.commit tx').1 left four (97 ∷ []) r8 gone in
      rw (e0, e1, e2, e3, e4, e5, e6, e7, e8, e9) refl

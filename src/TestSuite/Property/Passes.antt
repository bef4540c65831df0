-- ===== src/TestSuite/Property/Passes.antt =====
-- Over any backend that keeps the contract, each property test passes on every input.
use rpi4_usb_io_breaker.Base.{Option, none, some, List, [], ◌∷◌, replicate, ◌≡◌, refl, ◌∙◌, arith}
use rpi4_usb_io_breaker.Base.Ord.{list_ord, lex_order}
use rpi4_usb_io_breaker.BTreeMap.{get, insert}
use rpi4_usb_io_breaker.BTreeMap.Lookup.{get-insert}
use rpi4_usb_io_breaker.Core.Data.{Data}
use rpi4_usb_io_breaker.Core.Error.{ok}
use rpi4_usb_io_breaker.Core.Backend.{Backend}
use rpi4_usb_io_breaker.Core.Contract.{Map, Db, db_put, BackendLaws}
use rpi4_usb_io_breaker.TestSuite.Model.{WriteAction, extend_model, from_actions, model_get}
use rpi4_usb_io_breaker.TestSuite.Model.Laws.{db_actions, extend_model-IsSorted}
use rpi4_usb_io_breaker.BTreeMap.Extend.{newer, newer-none}
use rpi4_usb_io_breaker.TestSuite.Model.OnBackend.{apply_actions_lem, from_db_lem, from_tx_lem}
use rpi4_usb_io_breaker.TestSuite.Harness.Laws.{open_store_lem, assert_model_refl, one, two, five}
use rpi4_usb_io_breaker.TestSuite.Property.{
  last, put_all, overwrite_and_abort, last_write_wins, add_modify_abort_modify_commit,
  add_modify_abort_replay_commit, db_writes_do_not_interfere, empty_after_abort,
  post_commit_consistency,
}
use rpi4_usb_io_breaker.TestSuite.Property.Steps.{
  check_keys_lem, check_value_lem, put_commit_lem, put_abort_lem, commit_actions_lem, check_db_lem,
}

get-insert_self : (k v : Data) (m : Map) → get k (insert k v m) ≡ some v
unfolding get list_ord
get-insert_self k v m = rw (get-insert k k v m, lex_order.eq_self k) refl

last_nonempty :
    (w : Data) (ws : List Data) (x y : Option Data)
    → newer (last (w ∷ ws)) x ≡ newer (last (w ∷ ws)) y
last_nonempty w [] x y = refl
last_nonempty w (v ∷ vs) x y = last_nonempty v vs x y

last-cons :
    (val : Data) (vals : List Data) (old : Option Data)
    → newer (last vals) (some val) ≡ newer (last (val ∷ vals)) old
last-cons val [] old = refl
last-cons val (w ∷ ws) old = last_nonempty w ws (some val) old

module _ (b : Backend) (laws : BackendLaws b) where
  -- Over a backend that keeps the contract the test passes on every input: a value that was put and
  -- committed is read; one that was put and dropped is not.
  pub overwrite_and_abort_passes :
      (key val0 val1 : Data) → overwrite_and_abort b key val0 val1 ≡ ok tt
  unfolding overwrite_and_abort get
  overwrite_and_abort_passes key val0 val1 =
      let (s0, e0, r0) = open_store_lem b laws one in
      let (s1, e1, r1) = check_value_lem b laws s0 ([] ∷ []) 0 [] key none r0 refl refl in
      let (s2, e2, r2) = put_commit_lem b laws s1 ([] ∷ []) 0 key val0 r1 (omega arith) in
      let d2 = db_put 0 key val0 ([] ∷ []) in
      let m2 = insert key val0 [] in
      let (s3, e3, r3) =
        check_value_lem b laws s2 d2 0 m2 key (some val0) r2 refl (get-insert_self key val0 []) in
      let (s4, e4, r4) = put_abort_lem b laws s3 d2 0 key val1 r3 (omega arith) in
      let (s5, e5, r5) =
        check_value_lem b laws s4 d2 0 m2 key (some val0) r4 refl (get-insert_self key val0 []) in
      let (s6, e6, r6) = put_commit_lem b laws s5 d2 0 key val1 r5 (omega arith) in
      let d6 = db_put 0 key val1 d2 in
      let m6 = insert key val1 m2 in
      let (s7, e7, r7) =
        check_value_lem b laws s6 d6 0 m6 key (some val1) r6 refl (get-insert_self key val1 m2) in
      rw (e0, e1, e2, e3, e4, e5, e6, e7) refl

  -- Over a backend that keeps the contract the test passes on every input: actions change the storage
  -- exactly if they are committed, and then as they change the model.
  pub add_modify_abort_modify_commit_passes :
      (to_prepopulate to_abort to_commit : List WriteAction)
      → add_modify_abort_modify_commit b to_prepopulate to_abort to_commit ≡ ok tt
  unfolding add_modify_abort_modify_commit
  add_modify_abort_modify_commit_passes pre abt fin =
      let (s0, e0, r0) = open_store_lem b laws one in
      let (s1, e1, r1) = commit_actions_lem b laws s0 ([] ∷ []) 0 pre r0 (omega arith) in
      let m1 = from_actions pre in
      let d1 = m1 ∷ [] in
      let (s2, e2, r2) = check_db_lem b laws s1 d1 0 m1 r1 refl in
      let (tx, e3, r3) = laws.rw_lem none s2 d1 r2 in
      let (tx', e4, r4) = apply_actions_lem (laws.rw_writes d1) 0 abt tx d1 r3 (omega arith) in
      let m4 = extend_model m1 abt in
      let ascends = extend_model-IsSorted m1 abt (extend_model-IsSorted [] pre tt) in
      let e5 = from_tx_lem (laws.rw_reads d1) tx' (m4 ∷ []) 0 m4 r4 refl ascends in
      let r5 = laws.drop_rw_lem tx' d1 (m4 ∷ []) r4 in
      let (s6, e6, r6) = check_db_lem b laws (b.drop_rw tx') d1 0 m1 r5 refl in
      let (s7, e7, r7) = commit_actions_lem b laws s6 d1 0 fin r6 (omega arith) in
      let m7 = extend_model m1 fin in
      let (s8, e8, r8) = check_db_lem b laws s7 (m7 ∷ []) 0 m7 r7 refl in
      rw (e0, e1, e2, e3, e4, e5, assert_model_refl m4, e6, e7, e8) refl

  -- Over a backend that keeps the contract the test passes on every input: after an aborted transaction
  -- the same actions, committed, lead to what that transaction had shown.
  pub add_modify_abort_replay_commit_passes :
      (initial actions : List WriteAction)
      → add_modify_abort_replay_commit b initial actions ≡ ok tt
  unfolding add_modify_abort_replay_commit
  add_modify_abort_replay_commit_passes initial actions =
      let (s0, e0, r0) = open_store_lem b laws one in
      let (s1, e1, r1) = commit_actions_lem b laws s0 ([] ∷ []) 0 initial r0 (omega arith) in
      let m1 = extend_model [] initial in
      let d1 = m1 ∷ [] in
      let (s2, e2, r2) = from_db_lem b laws s1 d1 0 m1 r1 refl in
      let (tx, e3, r3) = laws.rw_lem none s2 d1 r2 in
      let (tx', e4, r4) = apply_actions_lem (laws.rw_writes d1) 0 actions tx d1 r3 (omega arith) in
      let m4 = extend_model m1 actions in
      let ascends = extend_model-IsSorted m1 actions (extend_model-IsSorted [] initial tt) in
      let e5 = from_tx_lem (laws.rw_reads d1) tx' (m4 ∷ []) 0 m4 r4 refl ascends in
      let r5 = laws.drop_rw_lem tx' d1 (m4 ∷ []) r4 in
      let (s6, e6, r6) = check_db_lem b laws (b.drop_rw tx') d1 0 m1 r5 refl in
      let (s7, e7, r7) = commit_actions_lem b laws s6 d1 0 actions r6 (omega arith) in
      let (s8, e8, r8) = check_db_lem b laws s7 (m4 ∷ []) 0 m4 r7 refl in
      rw (e0, e1, e2, e3, e4, e5, e6, e7, e8) refl

  -- Over a backend that keeps the contract the test passes on every input: writes to one map leave the
  -- other as it was.
  pub db_writes_do_not_interfere_passes :
      (actions0 actions1 : List WriteAction)
      → db_writes_do_not_interfere b actions0 actions1 ≡ ok tt
  unfolding db_writes_do_not_interfere
  db_writes_do_not_interfere_passes actions0 actions1 =
      let (s0, e0, r0) = open_store_lem b laws two in
      let (s1, e1, r1) = commit_actions_lem b laws s0 ([] ∷ [] ∷ []) 0 actions0 r0 (omega arith) in
      let m1 = extend_model [] actions0 in
      let d1 = m1 ∷ [] ∷ [] in
      let (s2, e2, r2) = from_db_lem b laws s1 d1 0 m1 r1 refl in
      let (s3, e3, r3) = commit_actions_lem b laws s2 d1 1 actions1 r2 (omega arith) in
      let d3 = m1 ∷ extend_model [] actions1 ∷ [] in
      let (s4, e4, r4) = check_db_lem b laws s3 d3 0 m1 r3 refl in rw (e0, e1, e2, e3, e4) refl

  -- Over a backend that keeps the contract the test passes on every input: a transaction reads its own
  -- changes, and nothing of them is left when it is dropped.
  pub empty_after_abort_passes :
      (actions : List WriteAction) (keys : List Data) → empty_after_abort b actions keys ≡ ok tt
  unfolding empty_after_abort model_get get
  empty_after_abort_passes actions keys =
      let (s0, e0, r0) = open_store_lem b laws five in
      let d0 = replicate 5 [] in
      let (tx, e1, r1) = laws.rw_lem none s0 d0 r0 in
      let (tx', e2, r2) = apply_actions_lem (laws.rw_writes d0) 0 actions tx d0 r1 (omega arith) in
      let m2 = from_actions actions in
      let d2 = db_actions 0 actions d0 in
      let e3 =
        check_keys_lem (laws.rw_reads d0) tx' d2 m2 (λ k. get k m2) keys r2 refl (λ k. refl) in
      let r3 = laws.drop_rw_lem tx' d0 d2 r2 in
      let (ro, e4, r4) = laws.ro_lem (b.drop_rw tx') d0 r3 in
      let e5 = check_keys_lem laws.ro_reads ro d0 [] (λ k. none) keys r4 refl (λ k. refl) in
      rw (e0, e1, e2, e3, e4) e5

  -- Over a backend that keeps the contract the test passes on every input: what a transaction shows
  -- just before its commit is what the storage holds after it.
  pub post_commit_consistency_passes :
      (actions : List WriteAction) → post_commit_consistency b actions ≡ ok tt
  unfolding post_commit_consistency
  post_commit_consistency_passes actions =
      let (s0, e0, r0) = open_store_lem b laws one in
      let (tx, e1, r1) = laws.rw_lem none s0 ([] ∷ []) r0 in
      let (tx', e2, r2) =
        apply_actions_lem (laws.rw_writes ([] ∷ [])) 0 actions tx ([] ∷ []) r1 (omega arith) in
      let m2 = extend_model [] actions in
      let e3 =
        from_tx_lem (laws.rw_reads ([] ∷ [])) tx' (m2 ∷ []) 0 m2 r2 refl
          (extend_model-IsSorted [] actions tt) in
      let (e4, r4) = laws.commit_lem tx' ([] ∷ []) (m2 ∷ []) r2 in
      let (s5, e5, r5) = check_db_lem b laws (b.commit tx').1 (m2 ∷ []) 0 m2 r4 refl in
      rw (e0, e1, e2, e3, e4, e5) refl

  -- the values put one after the other: the last one is read
  put_all_lem :
      (base : Db) (key : Data) (vals : List Data) (tx : b.TxRw) (m : Map)
      → laws.ReprRw base tx (m ∷ [])
      → (tx' : b.TxRw) × (put_all b tx key vals ≡ ok tx')
        × (m' : Map) × laws.ReprRw base tx' (m' ∷ [])
        × (get key m' ≡ newer (last vals) (get key m))
  unfolding put_all
  put_all_lem base key [] tx m r = (tx, refl, m, r, refl)
  put_all_lem base key (val ∷ vals) tx m r =
      let (done, r1) = (laws.rw_writes base).put_lem tx (m ∷ []) 0 key val r (omega arith) in
      let tx1 = (b.write.put 0 key val tx).1 in
      let (tx2, rest, m2, r2, e2) = put_all_lem base key vals tx1 (insert key val m) r1 in
      (tx2, rw done rest, m2, r2, rw get-insert_self at e2 ∙ last-cons val vals (get key m))

  -- Over a backend that keeps the contract the test passes on every input: of the values put under one
  -- key the last one is read after the commit.
  pub last_write_wins_passes : (key : Data) (vals : List Data) → last_write_wins b key vals ≡ ok tt
  unfolding last_write_wins get
  last_write_wins_passes key vals =
      let (s0, e0, r0) = open_store_lem b laws one in
      let (tx, e1, r1) = laws.rw_lem none s0 ([] ∷ []) r0 in
      let (tx', e2, m2, r2, h2) = put_all_lem ([] ∷ []) key vals tx [] r1 in
      let (e3, r3) = laws.commit_lem tx' ([] ∷ []) (m2 ∷ []) r2 in
      let (s4, e4, r4) =
        check_value_lem b laws (b.commit tx').1 (m2 ∷ []) 0 m2 key (last vals) r3 refl
          (h2 ∙ newer-none (last vals)) in
      rw (e0, e1, e2, e3, e4) refl

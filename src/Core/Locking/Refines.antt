-- ===== src/Core/Locking/Refines.antt =====
-- The adaptor keeps the contract of a backend, over any storage that keeps the contract without transactions.
use rpi4_usb_io_breaker.Base.{
  ℕ, zero, suc, Option, none, some, List, [], ◌∷◌, get_elem?, All, arith, length, ◌≡◌, refl, ap,
  ◌<◌, ◌∙◌, sym, length-set, length-replicate, All-get, All-set, All-replicate, get_elem?-of_lt,
  lt-of-get_elem?, replicate, map, subst, ◌↔◌,
}
use rpi4_usb_io_breaker.Base.Ord.{list_ord}
use rpi4_usb_io_breaker.BTreeMap
use rpi4_usb_io_breaker.BTreeMap.{BTreeMap}
use rpi4_usb_io_breaker.BTreeMap.Sorted.{IsSorted, insert-IsSorted}
use rpi4_usb_io_breaker.Core.Data.{Data}
use rpi4_usb_io_breaker.Core.Error.{ok}
use rpi4_usb_io_breaker.Core.Types.{DbMapId, DbMapCount}
use rpi4_usb_io_breaker.Core.Types
use rpi4_usb_io_breaker.Core.Util.Collect.{with_prefix, collect-new}
use rpi4_usb_io_breaker.Core.Backend.{CoreOps}
use rpi4_usb_io_breaker.Core.Contract.{Map, Db, modify, CoreLaws, BackendLaws, WriteLaws}
use rpi4_usb_io_breaker.Core.Locking
use rpi4_usb_io_breaker.Core.Locking.{DeltaMap, TxRo, TxRw, TransactionLockImpl, Merge, update}
use rpi4_usb_io_breaker.Core.Locking.Overlay.{
  change, overlay, overlay_all, get-overlay, overlay_all-set, get_elem?-overlay_all,
  length-overlay_all,
}
use rpi4_usb_io_breaker.Core.Locking.MergeJoin.{MergeLaws, joined-eq-overlay}
use rpi4_usb_io_breaker.Core.Locking.Commit.{commit_lem}
use rpi4_usb_io_breaker.Core.Locking.Adaptor.{Borrowed, locking}

-- `DbMapsData::new` with a constant constructor
new-replicate {ℓ} : {A : Type ℓ} (n : ℕ) (a : A) → Types.new n (λ i. a) ≡ replicate n a
unfolding Types.new Types.indices
new-replicate n a = go 0 n
  where
    go : (i n : ℕ) → map (λ i. a) (Types.indices_from i n) ≡ replicate n a
    go i zero = refl
    go i (suc n) = ap (λ r. a ∷ r) (go (suc i) n)

overlay_all-empty : (n : ℕ) (d : Db) → overlay_all (replicate n []) d ≡ d
overlay_all-empty zero d = refl
overlay_all-empty (suc n) [] = refl
overlay_all-empty (suc n) (m ∷ d) = ap (λ (r : Db). m ∷ r) (overlay_all-empty n d)

module _ {From T : Type 0} (core : CoreOps From T) (laws : CoreLaws core) where
  pub record Repr (s : TransactionLockImpl T) (d : Db) : Type 0 where
    pub db : laws.Repr s.db d
    pub count : s.num_maps ≡ length d

  pub record ReprRo (g : Borrowed (TxRo T)) (d : Db) : Type 0 where
    pub db : laws.Repr g.tx.db d
    pub count : g.num_maps ≡ length d

  -- behind the lock stands the base, and the delta maps lead from it to what the transaction reads
  pub record ReprRw (base : Db) (g : Borrowed (TxRw T)) (d : Db) : Type 0 where
    pub db : laws.Repr g.tx.db base
    pub count : g.num_maps ≡ length base
    pub deltas : length g.tx.deltas ≡ length base
    pub ascending : All IsSorted g.tx.deltas
    pub current : overlay_all g.tx.deltas base ≡ d

  abbrev Change : Data → Option Data → DbMapId → Db → Db
  Change k x i d = modify (change k x) i d

  sizes : (base d : Db) (g : Borrowed (TxRw T)) → ReprRw base g d → length base ≡ length d
  sizes base d g r = sym (length-overlay_all g.tx.deltas base) ∙ ap (λ (e : Db). length e) r.current

  update_lem :
      (base d : Db) (g : Borrowed (TxRw T)) (i : DbMapId) (k : Data) (x : Option Data)
      → ReprRw base g d
      → i < length d
      → ((update i k x g.tx).0 ≡ ok tt)
        × ReprRw base
            (record { tx = (update i k x g.tx).1; num_maps = g.num_maps })
            (Change k x i d)
  unfolding update
  update_lem base d g i k x r h =
      let (delta, e) = get_elem?-of_lt g.tx.deltas i (omega (arith, sizes base d g r, r.deltas)) in
      rw (e, update)
        (
          refl,
          record {
            db = r.db;
            count = r.count;
            deltas = length-set g.tx.deltas i _ ∙ r.deltas;
            ascending =
                All-set IsSorted g.tx.deltas i _
                  (insert-IsSorted k x delta (All-get IsSorted g.tx.deltas i r.ascending e))
                  r.ascending;
            current =
                overlay_all-set g.tx.deltas base i delta k x r.ascending
                  (laws.sorted g.tx.db base r.db) e
                ∙ ap (Change k x i) r.current;
          },
        )

  writes_lem :
      (base : Db) (merge : Merge) (init : From)
      → WriteLaws (locking core merge init).write (ReprRw base)
  unfolding Locking.put Locking.del
  writes_lem base merge init = record {
    put_lem = λ g d i k v r h. update_lem base d g i k (some v) r h;
    del_lem = λ g d i k r h. update_lem base d g i k none r h;
  }

  -- a transaction starts with empty delta maps
  start-ReprRw :
      (s : TransactionLockImpl T) (d : Db) (deltas : List DeltaMap)
      → Repr s d
      → deltas ≡ replicate s.num_maps []
      → ReprRw d (record { tx = record { db = s.db; deltas = deltas }; num_maps = s.num_maps }) d
  start-ReprRw s d deltas r e = record {
    db = r.db;
    count = r.count;
    deltas = rw e (length-replicate s.num_maps [] ∙ r.count);
    ascending = rw e (All-replicate IsSorted s.num_maps [] tt);
    current = rw e (overlay_all-empty s.num_maps d);
  }

  -- the delta map and the storage's map behind a map that the transaction reads
  record Parts (base : Db) (g : Borrowed (TxRw T)) (i : DbMapId) (m : Map) : Type 0 where
    delta : DeltaMap
    old : Map
    at_delta : get_elem? g.tx.deltas i ≡ some delta
    at_base : get_elem? base i ≡ some old
    shown : overlay delta old ≡ m
    delta_sorted : IsSorted delta
    old_sorted : IsSorted old

  parts :
      (base d : Db) (g : Borrowed (TxRw T)) (i : DbMapId) (m : Map)
      → ReprRw base g d
      → get_elem? d i ≡ some m
      → Parts base g i m
  parts base d g i m r e =
      let within : i < length d = lt-of-get_elem? d i e in
      let (delta, at_delta) =
        get_elem?-of_lt g.tx.deltas i (omega (arith, sizes base d g r, r.deltas)) in
      let (old, at_base) = get_elem?-of_lt base i (omega (arith, sizes base d g r)) in
      let found : get_elem? d i ≡ some (overlay delta old) =
        subst (λ (e : Db). get_elem? e i ≡ some (overlay delta old)) r.current
          (get_elem?-overlay_all g.tx.deltas base i delta old at_delta at_base) in
      record {
        delta = delta;
        old = old;
        at_delta = at_delta;
        at_base = at_base;
        shown = cc;
        delta_sorted = All-get IsSorted g.tx.deltas i r.ascending at_delta;
        old_sorted = All-get IsSorted base i (laws.sorted g.tx.db base r.db) at_base;
      }

  rw_get_lem :
      (base d : Db) (g : Borrowed (TxRw T)) (i : DbMapId) (m : Map) (k : Data)
      → ReprRw base g d
      → get_elem? d i ≡ some m
      → Locking.get core g.tx i k ≡ ok (BTreeMap.get k m)
  unfolding Locking.get
  rw_get_lem base d g i m k r e =
      let p = parts base d g i m r e in
      ground (
        arith,
        p.at_delta,
        p.shown,
        get-overlay k p.delta p.old p.delta_sorted p.old_sorted,
        laws.reads.get_lem g.tx.db base i p.old k r.db p.at_base,
      )

  rw_prefix_iter_lem :
      (merge : Merge) (merging : MergeLaws merge) (base d : Db) (g : Borrowed (TxRw T))
      (i : DbMapId) (m : Map) (p : Data)
      → ReprRw base g d
      → get_elem? d i ≡ some m
      → Locking.prefix_iter core merge g.tx i p ≡ ok (with_prefix p m)
  unfolding Locking.prefix_iter
  rw_prefix_iter_lem merge merging base d g i m p r e =
      let q = parts base d g i m r e in
      rw
        (
          laws.reads.prefix_iter_lem g.tx.db base i q.old p r.db q.at_base,
          Locking.prefix_iter,
          q.at_delta,
          collect-new q.delta p q.delta_sorted,
          joined-eq-overlay merge merging p q.old q.delta q.old_sorted q.delta_sorted,
          q.shown,
        )
        refl

  -- the contract, with `Repr`, `ReprRo` and `ReprRw` as its relations
  pub contract :
      (merge : Merge) (init : From) → MergeLaws merge → BackendLaws (locking core merge init)
  unfolding Locking.open_db Locking.transaction_ro Locking.transaction_rw Locking.ro_ops
      Locking.rw_ops
  contract merge init merging = record {
    Repr = Repr;
    ReprRo = ReprRo;
    ReprRw = ReprRw;
    sorted = λ s d r. laws.sorted s.db d r.db;
    ro_reads = record {
      get_lem = λ g d i m k r e. laws.reads.get_lem g.tx.db d i m k r.db e;
      prefix_iter_lem = λ g d i m p r e. laws.reads.prefix_iter_lem g.tx.db d i m p r.db e;
    };
    rw_reads = λ base. record {
      get_lem = λ g d i m k r e. rw_get_lem base d g i m k r e;
      prefix_iter_lem = λ g d i m p r e. rw_prefix_iter_lem merge merging base d g i m p r e;
    };
    rw_writes = λ base. writes_lem base merge init;
    open_lem = λ desc.
        let (t, made, r) = laws.construct_lem init desc in
        (
          record { db = t; num_maps = Types.db_map_count desc.map_descs },
          rw (made, Locking.open_db),
          record { db = r; count = sym (length-replicate _ _) },
        );
    ro_lem = λ s d r. (_, refl, record { db = r.db; count = r.count });
    rw_lem = λ size s d r. (_, refl, start-ReprRw s d _ r (new-replicate s.num_maps []));
    drop_ro_lem = λ g d r. record { db = r.db; count = r.count };
    drop_rw_lem = λ g base d r. record { db = r.db; count = r.count };
    commit_lem = λ g base d r.
        let (done, r') = commit_lem core laws g.tx base r.db (omega (arith, r.deltas)) in
        (done, record { db = rw r.current at r'; count = r.count ∙ sizes base d g r });
  }

  -- a storage behind the lock that stands for a database, told from its parts
  pub locking-Repr :
      (merge : Merge) (init : From) (merging : MergeLaws merge) (s : TransactionLockImpl T) (d : Db)
      → (contract merge init merging).Repr s d ↔ Repr s d
  unfolding contract
  locking-Repr merge init merging s d = (λ r. r, λ r. r)

  -- Over any storage that keeps the contract without transactions, and for any function that merges as
  -- documented, the adaptor keeps the contract of a backend.
  pub locking-laws :
      (merge : Merge) (init : From) → MergeLaws merge → BackendLaws (locking core merge init)
  locking-laws = contract

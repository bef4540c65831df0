-- ===== src/TestSuite/Entries/Steps.antt =====
-- What each step of a test on entries does to the database.
use rpi4_usb_io_breaker.Base.{
  ℕ, zero, suc, Option, none, some, List, [], ◌∷◌, ◌++◌, length, get_elem?-of_lt, All, ◌≡◌, refl,
  ◌<◌, replicate, ◌∙◌,
}
use rpi4_usb_io_breaker.Base.Ord.{number_ord, list_ord, tuple_ord}
use rpi4_usb_io_breaker.BTreeMap.{get}
use rpi4_usb_io_breaker.Core.Data.{Data}
use rpi4_usb_io_breaker.Core.Error.{ok}
use rpi4_usb_io_breaker.Core.Backend.{ReadOps, Backend}
use rpi4_usb_io_breaker.Core.Contract.{Db, ReadLaws, BackendLaws, db_put, db_del}
use rpi4_usb_io_breaker.Core.Contract.Modify.{length-modify}
use rpi4_usb_io_breaker.TestSuite.Harness.Laws.{assert_value_refl}
use rpi4_usb_io_breaker.TestSuite.Entries.{
  Place, check_reads, put_entries, del_entries, check_store, commit_puts, commit_dels,
}
use rpi4_usb_io_breaker.TestSuite.Entries.Reads.{read_db, put_all, del_all, EntriesIn, read_map}

-- a read that the database answers as expected
abbrev pub Reads : Db → Place × Option Data → Type 0
Reads d c = (c.0.0 < length d) × (read_db d c.0 ≡ c.1)

pub length-put_all :
    (entries : List (Place × Data)) (d : Db) → length (put_all entries d) ≡ length d
length-put_all [] d = refl
length-put_all (((i, k), v) ∷ entries) d =
    length-put_all entries (db_put i k v d) ∙ length-modify _ i d

pub length-del_all :
    (entries : List (Place × Data)) (d : Db) → length (del_all entries d) ≡ length d
length-del_all [] d = refl
length-del_all (((i, k), v) ∷ entries) d =
    length-del_all entries (db_del i k d) ∙ length-modify _ i d

pub put_all-append :
    (xs ys : List (Place × Data)) (d : Db) → put_all (xs ++ ys) d ≡ put_all ys (put_all xs d)
put_all-append [] ys d = refl
put_all-append (((i, k), v) ∷ xs) ys d = put_all-append xs ys (db_put i k v d)

pub read_db-replicate : (n : ℕ) (q : Place) → read_db (replicate n []) q ≡ none
unfolding get
read_db-replicate zero q = refl
read_db-replicate (suc n) (zero, k) = refl
read_db-replicate (suc n) (suc j, k) = read_db-replicate n (j, k)

pub check_reads_lem :
    {T : Type 0} {ops : ReadOps T} {Repr : T → Db → Type 0} (laws : ReadLaws ops Repr) (t : T)
    (d : Db) (checks : List (Place × Option Data))
    → Repr t d
    → All (Reads d) checks
    → check_reads ops t checks ≡ ok tt
unfolding check_reads
check_reads_lem laws t d [] r h = refl
check_reads_lem laws t d (((i, k), expected) ∷ checks) r h =
    let (m, e) = get_elem?-of_lt d i h.0.0 in
    let found : read_map k (some m) ≡ expected = rw e at (h.0.1) in
    rw (laws.get_lem t d i m k r e, found, assert_value_refl)
      (check_reads_lem laws t d checks r h.1)

module _ (b : Backend) (laws : BackendLaws b) where
  put_entries_lem :
      (base : Db) (entries : List (Place × Data)) (tx : b.TxRw) (d : Db)
      → laws.ReprRw base tx d
      → EntriesIn (length d) entries
      → (tx' : b.TxRw) × (put_entries b entries tx ≡ ok tx')
        × laws.ReprRw base tx' (put_all entries d)
  unfolding put_entries
  put_entries_lem base [] tx d r h = (tx, refl, r)
  put_entries_lem base (((i, k), v) ∷ entries) tx d r h =
      let (done, r1) = (laws.rw_writes base).put_lem tx d i k v r h.0 in
      let fits : EntriesIn (length (db_put i k v d)) entries = rw length-modify h.1 in
      let (tx', rest, r2) =
        put_entries_lem base entries (b.write.put i k v tx).1 (db_put i k v d) r1 fits in
      (tx', rw done rest, r2)

  del_entries_lem :
      (base : Db) (entries : List (Place × Data)) (tx : b.TxRw) (d : Db)
      → laws.ReprRw base tx d
      → EntriesIn (length d) entries
      → (tx' : b.TxRw) × (del_entries b entries tx ≡ ok tx')
        × laws.ReprRw base tx' (del_all entries d)
  unfolding del_entries
  del_entries_lem base [] tx d r h = (tx, refl, r)
  del_entries_lem base (((i, k), v) ∷ entries) tx d r h =
      let (done, r1) = (laws.rw_writes base).del_lem tx d i k r h.0 in
      let fits : EntriesIn (length (db_del i k d)) entries = rw length-modify h.1 in
      let (tx', rest, r2) =
        del_entries_lem base entries (b.write.del i k tx).1 (db_del i k d) r1 fits in
      (tx', rw done rest, r2)

  pub commit_puts_lem :
      (entries : List (Place × Data)) (s : b.Impl) (d : Db)
      → laws.Repr s d
      → EntriesIn (length d) entries
      → (s' : b.Impl) × (commit_puts b entries s ≡ ok s') × laws.Repr s' (put_all entries d)
  unfolding commit_puts
  commit_puts_lem entries s d r h =
      let (tx, e0, r0) = laws.rw_lem none s d r in
      let (tx', e1, r1) = put_entries_lem d entries tx d r0 h in
      let (e2, r2) = laws.commit_lem tx' d (put_all entries d) r1 in
      ((b.commit tx').1, rw (e0, e1, e2) refl, r2)

  pub commit_dels_lem :
      (entries : List (Place × Data)) (s : b.Impl) (d : Db)
      → laws.Repr s d
      → EntriesIn (length d) entries
      → (s' : b.Impl) × (commit_dels b entries s ≡ ok s') × laws.Repr s' (del_all entries d)
  unfolding commit_dels
  commit_dels_lem entries s d r h =
      let (tx, e0, r0) = laws.rw_lem none s d r in
      let (tx', e1, r1) = del_entries_lem d entries tx d r0 h in
      let (e2, r2) = laws.commit_lem tx' d (del_all entries d) r1 in
      ((b.commit tx').1, rw (e0, e1, e2) refl, r2)

  pub check_store_lem :
      (checks : List (Place × Option Data)) (s : b.Impl) (d : Db)
      → laws.Repr s d
      → All (Reads d) checks
      → (s' : b.Impl) × (check_store b checks s ≡ ok s') × laws.Repr s' d
  unfolding check_store
  check_store_lem checks s d r h =
      let (tx, e0, r0) = laws.ro_lem s d r in
      (
        b.drop_ro tx,
        rw (e0, check_reads_lem laws.ro_reads tx d checks r0 h) refl,
        laws.drop_ro_lem tx d r0,
      )

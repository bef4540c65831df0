-- ===== src/TestSuite/Entries/Passes.antt =====
-- Over any backend that keeps the contract, the tests on entries pass.
use rpi4_usb_io_breaker.Base.{
  Option, none, some, true, List, [], ◌++◌, map, length, replicate, All, All-append, All-imp,
  All-imp2, All-keep, All-map, ◌≡◌, refl, ◌<◌, ◌∙◌, arith,
}
use rpi4_usb_io_breaker.Base.Ord.{number_ord, list_ord, tuple_ord}
use rpi4_usb_io_breaker.BTreeMap.{get}
use rpi4_usb_io_breaker.BTreeMap.Sorted.{IsSorted}
use rpi4_usb_io_breaker.BTreeMap.Extend.{newer, All-self, Holds}
use rpi4_usb_io_breaker.Core.Data.{Data}
use rpi4_usb_io_breaker.Core.Error.{ok}
use rpi4_usb_io_breaker.Core.Backend.{Backend}
use rpi4_usb_io_breaker.Core.Contract.{Db, BackendLaws}
use rpi4_usb_io_breaker.TestSuite.Harness.Laws.{open_store_lem, five}
use rpi4_usb_io_breaker.TestSuite.Entries.{
  Place, Entries, present, absent, keys, or_else, is_none, without, add_and_delete,
  add_and_delete_some,
}
use rpi4_usb_io_breaker.TestSuite.Entries.Reads.{
  read_db, put_all, del_all, EntriesIn, read_db-put_all, read_db-del_all,
}
use rpi4_usb_io_breaker.TestSuite.Entries.Steps.{
  Reads, length-put_all, length-del_all, put_all-append, read_db-replicate, check_reads_lem,
  commit_puts_lem, commit_dels_lem, check_store_lem,
}

is_none-lem : (x : Option Data) → is_none x ≡ true → x ≡ none
is_none-lem none h = refl
is_none-lem (some v) h = ground arith

or_else-newer : (x y : Option Data) → newer x (newer y none) ≡ or_else x y
or_else-newer none none = refl
or_else-newer none (some v) = refl
or_else-newer (some v) y = refl

abbrev empty5 : Db
empty5 = replicate 5 []

-- both lists put into five empty maps: the second list counts
read_db-both :
    (entries1 entries2 : Entries)
    → IsSorted entries1
    → IsSorted entries2
    → EntriesIn 5 entries1
    → EntriesIn 5 entries2
    → (p : Place)
    → read_db (put_all (entries1 ++ entries2) empty5) p ≡ or_else (get p entries2) (get p entries1)
read_db-both entries1 entries2 s1 s2 h1 h2 p =
    let mid = put_all entries1 empty5 in
    let hm : EntriesIn (length mid) entries2 = rw (length-put_all entries1 empty5) h2 in
    rw
      (
        put_all-append entries1 entries2 empty5,
        read_db-put_all entries2 mid p s2 hm,
        read_db-put_all entries1 empty5 p s1 h1,
        read_db-replicate 5 p,
      )
      (or_else-newer (get p entries2) (get p entries1))

keys-All :
    (entries1 entries2 : Entries) (extra_keys : List Place)
    → EntriesIn 5 entries1
    → EntriesIn 5 entries2
    → All (λ (p : Place). p.0 < 5) extra_keys
    → All (λ (p : Place). p.0 < 5) ((keys entries1 ++ keys entries2) ++ extra_keys)
keys-All entries1 entries2 extra_keys h1 h2 h =
    All-append _ (keys entries1 ++ keys entries2) extra_keys
      (All-append _ (keys entries1) (keys entries2) (All-map _ _ entries1 h1)
        (All-map _ _ entries2 h2))
      h

module _ (b : Backend) (laws : BackendLaws b) where
  -- Over a backend that keeps the contract the test passes on all entries of the five maps, under distinct keys:
  -- each is read after it was put, and none after it was removed.
  pub add_and_delete_passes :
      (entries : Entries)
      → IsSorted entries
      → EntriesIn 5 entries
      → add_and_delete b entries ≡ ok tt
  unfolding add_and_delete
  add_and_delete_passes entries s h =
      let (s0, e0, r0) = open_store_lem b laws five in
      let (s1, e1, r1) = commit_puts_lem b laws entries s0 empty5 r0 h in
      let d1 = put_all entries empty5 in
      let size1 : length d1 ≡ 5 = length-put_all entries empty5 in
      let h1 : EntriesIn (length d1) entries = rw size1 h in
      let own = All-self entries s in
      let reads1 : All (Reads d1) (present entries) = All-map (Reads d1) _ entries (
        All-imp2 _ _ _ entries
          (λ e fits found. (fits, rw (read_db-put_all entries empty5 e.0 s h, found) refl)) h1
          own) in
      let (s2, e2, r2) = check_store_lem b laws (present entries) s1 d1 r1 reads1 in
      let (s3, e3, r3) = commit_dels_lem b laws entries s2 d1 r2 h1 in
      let d3 = del_all entries d1 in
      let h3 : EntriesIn (length d3) entries = rw (length-del_all entries d1) h1 in
      let ascending = laws.sorted s1 d1 r1 in
      let reads3 : All (Reads d3) (absent entries) = All-map (Reads d3) _ entries (
        All-imp2 _ _ _ entries
          (λ e fits found. (fits, rw (read_db-del_all entries d1 e.0 s ascending h1, found) refl))
          h3 own) in
      let (s4, e4, r4) = check_store_lem b laws (absent entries) s3 d3 r3 reads3 in
      rw (e0, e1, e2, e3, e4) refl

  -- Over a backend that keeps the contract the test passes on all entries of the five maps, each of the two lists
  -- under distinct keys, and all extra keys: after both lists were put, a key reads as in the second, or else as
  -- in the first; after the keys of the second were removed, they are not read, and the other keys of the first are.
  pub add_and_delete_some_passes :
      (entries1 entries2 : Entries) (extra_keys : List Place)
      → IsSorted entries1
      → IsSorted entries2
      → EntriesIn 5 entries1
      → EntriesIn 5 entries2
      → All (λ (p : Place). p.0 < 5) extra_keys
      → add_and_delete_some b entries1 entries2 extra_keys ≡ ok tt
  unfolding add_and_delete_some
  add_and_delete_some_passes entries1 entries2 extra_keys s1 s2 h1 h2 h =
      let both = entries1 ++ entries2 in
      let d1 = put_all both empty5 in
      let size1 : length d1 ≡ 5 = length-put_all both empty5 in
      let expected = λ (p : Place). or_else (get p entries2) (get p entries1) in
      let reads = read_db-both entries1 entries2 s1 s2 h1 h2 in
      let (t0, e0, r0) = open_store_lem b laws five in
      let (t1, e1, r1) =
        commit_puts_lem b laws both t0 empty5 r0 (All-append _ entries1 entries2 h1 h2) in
      let In = λ (p : Place). p.0 < length d1 in
      let in_keys : All In ((keys entries1 ++ keys entries2) ++ extra_keys) =
        rw size1 (keys-All entries1 entries2 extra_keys h1 h2 h) in
      let ents = (keys entries1 ++ keys entries2) ++ extra_keys in
      let reads1 : All (Reads d1) (map (λ (p : Place). (p, expected p)) ents) =
        All-map (Reads d1) _ ents (All-imp In _ ents (λ p fits. (fits, reads p)) in_keys) in
      let (t2, e2, r2) = check_store_lem b laws _ t1 d1 r1 reads1 in
      let g2 : EntriesIn (length d1) entries2 = rw size1 h2 in
      let (t3, e3, r3) = commit_dels_lem b laws entries2 t2 d1 r2 g2 in
      let d3 = del_all entries2 d1 in
      let size3 : length d3 ≡ 5 = length-del_all entries2 d1 ∙ size1 in
      let ascending = laws.sorted t1 d1 r1 in
      let erase = λ (p : Place). read_db-del_all entries2 d1 p s2 ascending g2 in
      let (ro, e4, r4) = laws.ro_lem t3 d3 r3 in
      let f2 : EntriesIn (length d3) entries2 = rw size3 h2 in
      let f1 : EntriesIn (length d3) entries1 = rw size3 h1 in
      let gone : All (Reads d3) (absent entries2) = All-map (Reads d3) _ entries2 (
        All-imp2 _ _ _ entries2 (λ e fits found. (fits, rw (erase e.0, found) refl)) f2
          (All-self entries2 s2)) in
      let FromFirst = λ (e : Place × Data). (e.0.0 < length d3) × Holds entries1 e in
      let kept : All (Reads d3) (present (without entries2 entries1)) =
        All-map (Reads d3) _ (without entries2 entries1) (
          All-keep FromFirst _ _ entries1
            (λ e t p.
              let no : get e.0 entries2 ≡ none = is_none-lem (get e.0 entries2) t in
              (p.0, rw (erase e.0, no, reads e.0, no, p.1) refl))
            (All-imp2 _ _ FromFirst entries1 (λ e fits found. (fits, found)) f1
              (All-self entries1 s1))) in
      let e5 = check_reads_lem laws.ro_reads ro d3 (absent entries2) r4 gone in
      let e6 = check_reads_lem laws.ro_reads ro d3 (present (without entries2 entries1)) r4 kept in
      rw (e0, e1, e2, e3, e4, e5, e6) refl

-- ===== src/TestSuite/Basic/Steps.antt =====
-- What each step of a basic test does, over a database of one map.
use rpi4_usb_io_breaker.Base.{Option, List, [], ◌∷◌, map, ◌≡◌, refl, arith, All}
use rpi4_usb_io_breaker.Base.Ord.{list_ord}
use rpi4_usb_io_breaker.BTreeMap
use rpi4_usb_io_breaker.BTreeMap.{extend}
use rpi4_usb_io_breaker.Core.Data.{Data}
use rpi4_usb_io_breaker.Core.Error.{ok}
use rpi4_usb_io_breaker.Core.Backend.{ReadOps, Backend}
use rpi4_usb_io_breaker.Core.Util.Collect.{with_prefix}
use rpi4_usb_io_breaker.Core.Contract.{Map, Db, ReadLaws, BackendLaws}
use rpi4_usb_io_breaker.TestSuite.Harness.Laws.{
  assert_value_refl, assert_model_refl, assert_values_refl,
}
use rpi4_usb_io_breaker.TestSuite.Basic.{
  check_get, check_prefix, check_prefixes, check_vals, put_each, del_each,
}

-- the keys removed one after the other
abbrev pub remove_all : Map → List Data → Map
remove_all m [] = m
remove_all m (key ∷ keys) = remove_all (BTreeMap.remove key m) keys

module _ {T : Type 0} {ops : ReadOps T} {Repr : T → Db → Type 0} (laws : ReadLaws ops Repr) (t : T)
    (m : Map) (r : Repr t (m ∷ [])) where
  pub check_get_lem :
      (key : Data) (expected : Option Data)
      → BTreeMap.get key m ≡ expected
      → check_get ops t key expected ≡ ok tt
  unfolding check_get
  check_get_lem key expected e =
      rw (laws.get_lem t (m ∷ []) 0 m key r refl, e, assert_value_refl) refl

  pub check_prefixes_lem :
      (checks : List (Data × Map))
      → All (λ (c : Data × Map). with_prefix c.0 m ≡ c.1) checks
      → check_prefixes ops t checks ≡ ok tt
  unfolding check_prefixes check_prefix
  check_prefixes_lem [] h = refl
  check_prefixes_lem ((p, expected) ∷ checks) h =
      rw (laws.prefix_iter_lem t (m ∷ []) 0 m p r refl, h.0, assert_model_refl)
        (check_prefixes_lem checks h.1)

  pub check_prefix_lem :
      (p : Data) (expected : Map)
      → with_prefix p m ≡ expected
      → check_prefix ops t p expected ≡ ok tt
  unfolding check_prefix
  check_prefix_lem p expected e =
      rw (laws.prefix_iter_lem t (m ∷ []) 0 m p r refl, e, assert_model_refl) refl

  pub check_vals_lem :
      (p : Data) (expected : List Data)
      → map (λ e. e.1) (with_prefix p m) ≡ expected
      → check_vals ops t p expected ≡ ok tt
  unfolding check_vals
  check_vals_lem p expected e =
      rw (laws.prefix_iter_lem t (m ∷ []) 0 m p r refl, e, assert_values_refl) refl

module _ (b : Backend) (laws : BackendLaws b) (base : Db) where
  pub put_each_lem :
      (entries : List (Data × Data)) (tx : b.TxRw) (m : Map)
      → laws.ReprRw base tx (m ∷ [])
      → (tx' : b.TxRw) × (put_each b entries tx ≡ ok tx')
        × laws.ReprRw base tx' (extend m entries ∷ [])
  unfolding put_each extend
  put_each_lem [] tx m r = (tx, refl, r)
  put_each_lem ((k, v) ∷ entries) tx m r =
      let (done, r1) = (laws.rw_writes base).put_lem tx (m ∷ []) 0 k v r (omega arith) in
      let (tx', rest, r2) =
        put_each_lem entries (b.write.put 0 k v tx).1 (BTreeMap.insert k v m) r1 in
      (tx', rw done rest, r2)

  pub del_each_lem :
      (keys : List Data) (tx : b.TxRw) (m : Map) (rest : Db)
      → laws.ReprRw base tx (m ∷ rest)
      → (tx' : b.TxRw) × (del_each b keys tx ≡ ok tx')
        × laws.ReprRw base tx' (remove_all m keys ∷ rest)
  unfolding del_each
  del_each_lem [] tx m rest r = (tx, refl, r)
  del_each_lem (k ∷ keys) tx m rest r =
      let (done, r1) = (laws.rw_writes base).del_lem tx (m ∷ rest) 0 k r (omega arith) in
      let (tx', later, r2) =
        del_each_lem keys (b.write.del 0 k tx).1 (BTreeMap.remove k m) rest r1 in
      (tx', rw done later, r2)

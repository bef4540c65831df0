-- ===== src/TestSuite/Prefixes/Kept.antt =====
-- The entries under a prefix, after actions on keys with that prefix, or with another.
use rpi4_usb_io_breaker.Base.{
  ℕ, true, false, List, [], ◌∷◌, ◌++◌, map, arith, ◌≡◌, ◌≢◌, refl, ◌∙◌, ap,
}
use rpi4_usb_io_breaker.Base.Ord.{list_ord, lex_order}
use rpi4_usb_io_breaker.BTreeMap.{insert, remove}
use rpi4_usb_io_breaker.BTreeMap.Sorted.{IsSorted, insert-IsSorted, remove-IsSorted, keep-IsSorted}
use rpi4_usb_io_breaker.BTreeMap.Lookup.{get-insert, get-remove, get-keep, get_ext}
use rpi4_usb_io_breaker.Core.Data.{Data, starts_with}
use rpi4_usb_io_breaker.Core.Util.Collect.{with_prefix}
use rpi4_usb_io_breaker.Core.Contract.{Map}
use rpi4_usb_io_breaker.TestSuite.Model.{WriteAction, put, del, map_key, extend_model, model_action}
use rpi4_usb_io_breaker.TestSuite.Basic.Steps.{remove_all}
use rpi4_usb_io_breaker.TestSuite.Prefixes.{prefixed}

module _ (p k : Data) (m : Map) (s : IsSorted m) where
  with_prefix-insert_in :
      (v : Data)
      → starts_with k p ≡ true
      → with_prefix p (insert k v m) ≡ insert k v (with_prefix p m)
  unfolding list_ord
  with_prefix-insert_in v h =
      get_ext (with_prefix p (insert k v m)) (insert k v (with_prefix p m))
        (keep-IsSorted _ (insert k v m) (insert-IsSorted k v m s))
        (insert-IsSorted k v _ (keep-IsSorted _ m s))
        (λ q. ground (
          arith,
          get-keep (λ j. starts_with j p) q (insert k v m),
          get-keep (λ j. starts_with j p) q m,
          get-insert q k v m,
          get-insert q k v (with_prefix p m),
          lex_order.eq_same q k,
        ))

  with_prefix-insert_out :
      (v : Data) → starts_with k p ≡ false → with_prefix p (insert k v m) ≡ with_prefix p m
  unfolding list_ord
  with_prefix-insert_out v h =
      get_ext (with_prefix p (insert k v m)) (with_prefix p m)
        (keep-IsSorted _ (insert k v m) (insert-IsSorted k v m s)) (keep-IsSorted _ m s)
        (λ q. ground (
          arith,
          get-keep (λ j. starts_with j p) q (insert k v m),
          get-keep (λ j. starts_with j p) q m,
          get-insert q k v m,
          lex_order.eq_same q k,
        ))

  with_prefix-remove : with_prefix p (remove k m) ≡ remove k (with_prefix p m)
  with_prefix-remove =
      get_ext (with_prefix p (remove k m)) (remove k (with_prefix p m))
        (keep-IsSorted _ (remove k m) (remove-IsSorted k m s))
        (remove-IsSorted k _ (keep-IsSorted _ m s))
        (λ q. ground (
          arith,
          get-keep (λ j. starts_with j p) q (remove k m),
          get-keep (λ j. starts_with j p) q m,
          get-remove q k m s,
          get-remove q k (with_prefix p m) (keep-IsSorted _ m s),
        ))

  with_prefix-remove_out : starts_with k p ≡ false → with_prefix p (remove k m) ≡ with_prefix p m
  unfolding list_ord
  with_prefix-remove_out h =
      get_ext (with_prefix p (remove k m)) (with_prefix p m)
        (keep-IsSorted _ (remove k m) (remove-IsSorted k m s)) (keep-IsSorted _ m s)
        (λ q. ground (
          arith,
          get-keep (λ j. starts_with j p) q (remove k m),
          get-keep (λ j. starts_with j p) q m,
          get-remove q k m s,
          lex_order.eq_same q k,
        ))

remove-head : (k v : Data) (m : Map) → remove k ((k, v) ∷ m) ≡ m
unfolding remove list_ord
remove-head k v m = ground (arith, lex_order.eq_self k)

-- the removal of all keys of a map
pub remove_all-keys : (m : Map) → remove_all m (map (λ e. e.0) m) ≡ []
remove_all-keys [] = refl
remove_all-keys ((k, v) ∷ m) =
    ap (λ (x : Map). remove_all x (map (λ e. e.0) m)) (remove-head k v m) ∙ remove_all-keys m

pub with_prefix-remove_all :
    (p : Data) (m : Map) (ks : List Data)
    → IsSorted m
    → with_prefix p (remove_all m ks) ≡ remove_all (with_prefix p m) ks
with_prefix-remove_all p m [] s = refl
with_prefix-remove_all p m (k ∷ ks) s =
    with_prefix-remove_all p (remove k m) ks (remove-IsSorted k m s)
    ∙ ap (λ (x : Map). remove_all x ks) (with_prefix-remove p k m s)

module _ (a : ℕ) where
  -- actions on keys with the prefix of one byte
  pub with_prefix-prefixed :
      (m : Map) (actions : List WriteAction)
      → IsSorted m
      → with_prefix (a ∷ []) (extend_model m (prefixed a actions))
        ≡ extend_model (with_prefix (a ∷ []) m) (prefixed a actions)
  unfolding extend_model map_key model_action starts_with
  with_prefix-prefixed m [] s = refl
  with_prefix-prefixed m (put k v ∷ actions) s =
      with_prefix-prefixed (insert (a ∷ k) v m) actions (insert-IsSorted (a ∷ k) v m s)
      ∙ ap (λ (x : Map). extend_model x (prefixed a actions))
          (with_prefix-insert_in (a ∷ []) (a ∷ k) m s v (ground arith))
  with_prefix-prefixed m (del k ∷ actions) s =
      with_prefix-prefixed (remove (a ∷ k) m) actions (remove-IsSorted (a ∷ k) m s)
      ∙ ap (λ (x : Map). extend_model x (prefixed a actions))
          (with_prefix-remove (a ∷ []) (a ∷ k) m s)

  -- actions on keys with another
  pub with_prefix-others :
      (b : ℕ) (m : Map) (actions : List WriteAction)
      → b ≢ a
      → IsSorted m
      → with_prefix (a ∷ []) (extend_model m (prefixed b actions)) ≡ with_prefix (a ∷ []) m
  unfolding extend_model map_key model_action starts_with
  with_prefix-others b m [] n s = refl
  with_prefix-others b m (put k v ∷ actions) n s =
      with_prefix-others b (insert (b ∷ k) v m) actions n (insert-IsSorted (b ∷ k) v m s)
      ∙ with_prefix-insert_out (a ∷ []) (b ∷ k) m s v (ground arith)
  with_prefix-others b m (del k ∷ actions) n s =
      with_prefix-others b (remove (b ∷ k) m) actions n (remove-IsSorted (b ∷ k) m s)
      ∙ with_prefix-remove_out (a ∷ []) (b ∷ k) m s (ground arith)

pub extend_model-append :
    (m : Map) (xs ys : List WriteAction)
    → extend_model m (xs ++ ys) ≡ extend_model (extend_model m xs) ys
unfolding extend_model
extend_model-append m [] ys = refl
extend_model-append m (x ∷ xs) ys = extend_model-append (model_action x m) xs ys

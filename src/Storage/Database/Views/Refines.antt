-- ===== src/Storage/Database/Views/Refines.antt =====
-- A view of a map acts as a map from typed keys to typed values, in the order of the encoded keys.
use mathlib.Core.Option
use rpi4_usb_io_breaker.Base.{
  Bool, Option, none, some, [], ◌∷◌, map, keep, get_elem?, arith, ◌≡◌, refl, ap, ◌∙◌,
  lt-of-get_elem?,
}
use rpi4_usb_io_breaker.Base.Ord.{Ord, lex, lex_order, list_ord}
use rpi4_usb_io_breaker.BTreeMap
use rpi4_usb_io_breaker.BTreeMap.{BTreeMap}
use rpi4_usb_io_breaker.Core.Data.{Data, starts_with}
use rpi4_usb_io_breaker.Core.Error.{ok}
use rpi4_usb_io_breaker.Core.Types.{DbMapId}
use rpi4_usb_io_breaker.Core.Util.Collect.{with_prefix}
use rpi4_usb_io_breaker.Core.Backend.{ReadOps, WriteOps}
use rpi4_usb_io_breaker.Core.Contract.{Map, Db, ReadLaws, WriteLaws, db_put, db_del}
use rpi4_usb_io_breaker.Core.Contract.Modify.{get_elem?-modify_self}
use rpi4_usb_io_breaker.Storage.Encoded
use rpi4_usb_io_breaker.Storage.Encoded.{
  Codec, RoundTrips, Encoded, from_bytes_unchecked-encode, decode-new,
}
use rpi4_usb_io_breaker.Storage.Schema.{DbMap}
use rpi4_usb_io_breaker.Storage.Database
use rpi4_usb_io_breaker.Storage.Database.{
  MapRef, MapMut, put, del, encoded_value, entry, decoded_key, decoded_entry, prefix_iter_decoded,
}
use rpi4_usb_io_breaker.Storage.Database.Typed.{encode_inj}
use rpi4_usb_io_breaker.Storage.Database.Views.{ref_get, ref_prefix_iter, ref_prefix_iter_keys}

module _ (m : DbMap) (keys : RoundTrips m.key_codec) where
  -- typed keys in the order of their encodings
  abbrev pub by_encoding : Ord m.Key
  by_encoding = record {
    cmp = λ a b. lex (m.key_codec.encode a) (m.key_codec.encode b);
    order = record {
      swapped = λ a b. lex_order.swapped (m.key_codec.encode a) (m.key_codec.encode b);
      eq_self = λ a. lex_order.eq_self (m.key_codec.encode a);
      eq_same = λ a b e.
          encode_inj m.key_codec keys a b
            (lex_order.eq_same (m.key_codec.encode a) (m.key_codec.encode b) e);
      lt_trans = λ a b c p q.
          lex_order.lt_trans (m.key_codec.encode a) (m.key_codec.encode b) (m.key_codec.encode c) p
            q;
    };
  }

  abbrev pub TypedMap : Type 0
  TypedMap = BTreeMap m.Key m.Value

  -- the map of bytes that stands for a typed one
  abbrev pub encoded : TypedMap → Map
  encoded [] = []
  encoded ((k, v) ∷ x) = (m.key_codec.encode k, m.value_codec.encode v) ∷ encoded x

  insert-encoded :
      (k : m.Key) (v : m.Value) (x : TypedMap)
      → BTreeMap.insert (m.key_codec.encode k) (m.value_codec.encode v) (encoded x)
        ≡ encoded (BTreeMap.insert ⦃o = by_encoding⦄ k v x)
  unfolding BTreeMap.insert list_ord
  insert-encoded k v [] = refl
  insert-encoded k v ((j, w) ∷ x) = ground (arith, insert-encoded k v x)

  remove-encoded :
      (k : m.Key) (x : TypedMap)
      → BTreeMap.remove (m.key_codec.encode k) (encoded x)
        ≡ encoded (BTreeMap.remove ⦃o = by_encoding⦄ k x)
  unfolding BTreeMap.remove list_ord
  remove-encoded k [] = refl
  remove-encoded k ((j, w) ∷ x) = ground (arith, remove-encoded k x)

  get-encoded :
      (k : m.Key) (x : TypedMap)
      → BTreeMap.get (m.key_codec.encode k) (encoded x)
        ≡ Option.map m.value_codec.encode (BTreeMap.get ⦃o = by_encoding⦄ k x)
  unfolding BTreeMap.get list_ord
  get-encoded k [] = refl
  get-encoded k ((j, w) ∷ x) = ground (arith, get-encoded k x)

  abbrev pub typed_prefix : Data → TypedMap → TypedMap
  typed_prefix p x = keep (λ e. starts_with (m.key_codec.encode e.0) p) x

  with_prefix-encoded :
      (p : Data) (x : TypedMap) → with_prefix p (encoded x) ≡ encoded (typed_prefix p x)
  with_prefix-encoded p [] = refl
  with_prefix-encoded p ((k, v) ∷ x) = ground (arith, with_prefix-encoded p x)

module _ {T : Type 0} {ops : ReadOps T} {write : WriteOps T} {Repr : T → Db → Type 0}
    (reads : ReadLaws ops Repr) (writes : WriteLaws write Repr) (debug : Bool) (m : DbMap)
    (keys : RoundTrips m.key_codec) (values : RoundTrips m.value_codec) where
  decoded_key-encode : (k : m.Key) → decoded_key ops debug m (m.key_codec.encode k) ≡ ok k
  unfolding decoded_key
  decoded_key-encode k =
      rw (from_bytes_unchecked-encode m.key_codec keys debug k) (decode-new m.key_codec keys k)

  entry-encode :
      (k : m.Key) (v : m.Value)
      → entry ops debug m (m.key_codec.encode k, m.value_codec.encode v)
        ≡ ok (k, Encoded.new m.value_codec v)
  unfolding entry
  entry-encode k v =
      rw (decoded_key-encode k, from_bytes_unchecked-encode m.value_codec values debug v) refl

  entries-encoded :
      (x : TypedMap m keys)
      → map (entry ops debug m) (encoded m keys x)
        ≡ map (λ e. ok (e.0, Encoded.new m.value_codec e.1)) x
  entries-encoded [] = refl
  entries-encoded ((k, v) ∷ x) = rw (entry-encode k v, entries-encoded x) refl

  keys-encoded :
      (x : TypedMap m keys)
      → map (λ e. decoded_key ops debug m e.0) (encoded m keys x) ≡ map (λ e. ok e.0) x
  keys-encoded [] = refl
  keys-encoded ((k, v) ∷ x) = rw (decoded_key-encode k, keys-encoded x) refl

  decoded_entries :
      (x : TypedMap m keys)
      → map (decoded_entry ops debug m) (map (λ e. ok (e.0, Encoded.new m.value_codec e.1)) x)
        ≡ map (λ e. ok e) x
  unfolding decoded_entry
  decoded_entries [] = refl
  decoded_entries ((k, v) ∷ x) = rw (decode-new m.value_codec values v, decoded_entries x) refl

  value-encoded :
      (o : Option m.Value)
      → encoded_value ops debug m (Option.map m.value_codec.encode o)
        ≡ ok (Option.map (Encoded.new m.value_codec) o)
  unfolding encoded_value
  value-encoded none = refl
  value-encoded (some v) = rw (from_bytes_unchecked-encode m.value_codec values debug v) refl

  -- the transaction stands for a database whose map of that index is the typed one
  abbrev pub Holds : T → DbMapId → TypedMap m keys → Type 0
  Holds t i x = (d : Db) × Repr t d × (get_elem? d i ≡ some (encoded m keys x))

  module _ (t : T) (i : DbMapId) (x : TypedMap m keys) where
    abbrev View : MapRef T
    View = record { dbtx = t; map_id = i }

    abbrev Mutable : MapMut T
    Mutable = record { dbtx = t; map_id = i }

    get_lem :
        (k : m.Key)
        → Holds t i x
        → ref_get ops debug m View k
          ≡ ok (Option.map (Encoded.new m.value_codec) (BTreeMap.get ⦃o = by_encoding m keys⦄ k x))
    unfolding ref_get Database.get
    get_lem k (d, r, e) =
        rw
          (
            reads.get_lem t d i (encoded m keys x) (m.key_codec.encode k) r e,
            get-encoded m keys k x,
          )
          (value-encoded (BTreeMap.get ⦃o = by_encoding m keys⦄ k x))

    module _ {Pfx : Type 0} (pfx_codec : Codec Pfx) (p : Pfx) where
      abbrev Found : TypedMap m keys
      Found = typed_prefix m keys (pfx_codec.encode p) x

      prefix_lem :
          Holds t i x → ops.prefix_iter t i (pfx_codec.encode p) ≡ ok (encoded m keys Found)
      prefix_lem (d, r, e) =
          reads.prefix_iter_lem t d i (encoded m keys x) (pfx_codec.encode p) r e
          ∙ ap (λ (l : Map). ok l) (with_prefix-encoded m keys (pfx_codec.encode p) x)

      iter_lem :
          Holds t i x
          → ref_prefix_iter ops debug m pfx_codec View p
            ≡ ok (map (λ e. ok (e.0, Encoded.new m.value_codec e.1)) Found)
      unfolding ref_prefix_iter Database.prefix_iter
      iter_lem h = rw (prefix_lem h) (ap (λ l. ok l) (entries-encoded Found))

      iter_keys_lem :
          Holds t i x
          → ref_prefix_iter_keys ops debug m pfx_codec View p ≡ ok (map (λ e. ok e.0) Found)
      unfolding ref_prefix_iter_keys Database.prefix_iter_keys
      iter_keys_lem h = rw (prefix_lem h) (ap (λ l. ok l) (keys-encoded Found))

      iter_decoded_lem :
          Holds t i x
          → prefix_iter_decoded ops debug m pfx_codec View p ≡ ok (map (λ e. ok e) Found)
      unfolding prefix_iter_decoded ref_prefix_iter
      iter_decoded_lem h = rw (iter_lem h) (ap (λ l. ok l) (decoded_entries Found))

    put_lem :
        (k : m.Key) (v : m.Value)
        → Holds t i x
        → ((put write m k v Mutable).0 ≡ ok tt)
          × Holds
              (put write m k v Mutable).1.dbtx
              i
              (BTreeMap.insert ⦃o = by_encoding m keys⦄ k v x)
    unfolding put
    put_lem k v (d, r, e) =
        let a = m.key_codec.encode k in
        let b = m.value_codec.encode v in
        let (done, r') = writes.put_lem t d i a b r (lt-of-get_elem? d i e) in
        (
          done,
          (
            db_put i a b d,
            r',
            get_elem?-modify_self (BTreeMap.insert a b) i d (encoded m keys x) e
                ∙ ap (λ (l : Map). some l) (insert-encoded m keys k v x),
          ),
        )

    del_lem :
        (k : m.Key)
        → Holds t i x
        → ((del write m k Mutable).0 ≡ ok tt)
          × Holds (del write m k Mutable).1.dbtx i (BTreeMap.remove ⦃o = by_encoding m keys⦄ k x)
    unfolding del
    del_lem k (d, r, e) =
        let a = m.key_codec.encode k in
        let (done, r') = writes.del_lem t d i a r (lt-of-get_elem? d i e) in
        (
          done,
          (
            db_del i a d,
            r',
            get_elem?-modify_self (BTreeMap.remove a) i d (encoded m keys x) e
                ∙ ap (λ (l : Map). some l) (remove-encoded m keys k x),
          ),
        )

    -- Over a transaction that keeps the contract, and stands for a database in which the map of an index encodes a typed
    -- map, with codecs that round-trip: the views of that index act on the typed map, in the order of the encoded keys.
    -- `get` finds the encoded value; the iterators yield the entries whose encoded key starts with the encoded prefix,
    -- with their values encoded, with their keys only, and decoded; `put` and `del` succeed, and leave the index encoding
    -- the typed map with the entry inserted, or removed.
    pub views_refine :
        {Pfx : Type 0} (pfx_codec : Codec Pfx) (p : Pfx) (k : m.Key) (v : m.Value)
        → Holds t i x
        → (ref_get ops debug m View k
            ≡ ok (
                Option.map (Encoded.new m.value_codec) (BTreeMap.get ⦃o = by_encoding m keys⦄ k x)))
          × (ref_prefix_iter ops debug m pfx_codec View p
              ≡ ok (
                  map
                    (λ e. ok (e.0, Encoded.new m.value_codec e.1))
                    (typed_prefix m keys (pfx_codec.encode p) x)))
          × (ref_prefix_iter_keys ops debug m pfx_codec View p
              ≡ ok (map (λ e. ok e.0) (typed_prefix m keys (pfx_codec.encode p) x)))
          × (prefix_iter_decoded ops debug m pfx_codec View p
              ≡ ok (map (λ e. ok e) (typed_prefix m keys (pfx_codec.encode p) x)))
          × (((put write m k v Mutable).0 ≡ ok tt)
              × Holds
                  (put write m k v Mutable).1.dbtx
                  i
                  (BTreeMap.insert ⦃o = by_encoding m keys⦄ k v x))
          × (((del write m k Mutable).0 ≡ ok tt)
              × Holds
                  (del write m k Mutable).1.dbtx
                  i
                  (BTreeMap.remove ⦃o = by_encoding m keys⦄ k x))
    views_refine pfx_codec p k v h = (
      get_lem k h,
      iter_lem pfx_codec p h,
      iter_keys_lem pfx_codec p h,
      iter_decoded_lem pfx_codec p h,
      put_lem k v h,
      del_lem k h,
    )

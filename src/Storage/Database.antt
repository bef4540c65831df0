-- ===== src/Storage/Database.antt =====
-- storage/src/database/mod.rs and internal.rs: the storage with a schema, its transactions, and typed views of the
-- maps. `TransactionRo` and `TransactionRw` are the transactions of the backend that they wrap.
pub mod Load
pub mod Typed
pub mod Views
use rpi4_usb_io_breaker.Base.{ℕ, Bool, Option, none, some, List, [], ◌∷◌, map}
use rpi4_usb_io_breaker.Core.Data.{Data}
use rpi4_usb_io_breaker.Core.Error.{Result, ok, err, panicked, ◌>>=◌}
use rpi4_usb_io_breaker.Core.Types.{DbMapId, db_desc}
use rpi4_usb_io_breaker.Core.Backend.{ReadOps, WriteOps, Backend}
use rpi4_usb_io_breaker.Storage.Encoded
use rpi4_usb_io_breaker.Storage.Encoded.{Codec, Encoded, from_bytes_unchecked, decode}
use rpi4_usb_io_breaker.Storage.Schema.{DbMap, Schema, HasDbMap, desc_iter, index}
use rpi4_usb_io_breaker.Storage.Raw.{StorageContents, MapContents, dump_storage}

-- `e?` of a call that changes an object: the object goes on
abbrev pub try_exec {ℓ κ} : {A : Type ℓ} {S : Type κ} → Result A × S → Result S
try_exec (ok a, s) = ok s
try_exec (err e, s) = err e
try_exec (panicked, s) = panicked

module _ (b : Backend) where
  -- `Storage::new`
  unfoldable pub new : Schema → Result b.Impl
  new sch = do desc ← db_desc (desc_iter sch); b.open_db desc

  -- the loops of `Storage::new_from_dump`
  unfoldable pub put_values : DbMapId → MapContents → b.TxRw → Result b.TxRw
  put_values id [] dbtx = ok dbtx
  put_values id ((key, val) ∷ values) dbtx = do
    dbtx' ← try_exec (b.write.put id key val dbtx)
    put_values id values dbtx'

  unfoldable pub put_maps : List (DbMapId × MapContents) → b.TxRw → Result b.TxRw
  unfolding put_values
  put_maps [] dbtx = ok dbtx
  put_maps ((id, values) ∷ dump) dbtx = do dbtx' ← put_values id values dbtx; put_maps dump dbtx'

  -- `Storage::new_from_dump`
  unfoldable pub new_from_dump : (sch : Schema) → StorageContents sch → Result b.Impl
  unfolding new put_maps
  new_from_dump sch dump = do
    backend ← new sch
    dbtx ← b.transaction_rw none backend
    dbtx' ← put_maps dump dbtx
    try_exec (b.commit dbtx')

  -- `Storage::transaction_ro` and `Storage::transaction_rw`
  unfoldable pub transaction_ro : b.Impl → Result b.TxRo
  transaction_ro s = do dbtx ← b.transaction_ro s; ok dbtx

  unfoldable pub transaction_rw : Option ℕ → b.Impl → Result b.TxRw
  transaction_rw size s = do dbtx ← b.transaction_rw size s; ok dbtx

  -- `TransactionRo::close`, `TransactionRw::commit` and `TransactionRw::abort`
  unfoldable pub close : b.TxRo → b.Impl
  close dbtx = b.drop_ro dbtx

  unfoldable pub commit : b.TxRw → Result (Unit {0}) × b.Impl
  commit dbtx = b.commit dbtx

  unfoldable pub abort : b.TxRw → b.Impl
  abort dbtx = b.drop_rw dbtx

  -- `TransactionRo::dump_raw`
  unfoldable pub dump_raw : (sch : Schema) → b.TxRo → Result (StorageContents sch)
  dump_raw sch dbtx = dump_storage b.ro dbtx sch

-- `MapRef` and `MapMut`: a transaction and the index of a map
pub record MapRef (T : Type 0) : Type 0 where
  pub dbtx : T
  pub map_id : DbMapId

pub record MapMut (T : Type 0) : Type 0 where
  pub dbtx : T
  pub map_id : DbMapId

-- `MakeMapRef::get` and `TransactionRw::get_mut`
unfoldable pub get_ref : {T : Type 0} {m : DbMap} {sch : Schema} → HasDbMap m sch → T → MapRef T
get_ref h dbtx = record { dbtx = dbtx; map_id = index h }

unfoldable pub get_mut : {T : Type 0} {m : DbMap} {sch : Schema} → HasDbMap m sch → T → MapMut T
get_mut h dbtx = record { dbtx = dbtx; map_id = index h }

-- The functions of internal.rs. `debug` says whether the code is built with debug assertions. An item of an iterator
-- panics when it is reached, so each item is a result.
module _ {T : Type 0} (ops : ReadOps T) (debug : Bool) (m : DbMap) where
  unfoldable pub encoded_value : Option Data → Result (Option (Encoded m.Value))
  encoded_value none = ok none
  encoded_value (some bytes) = do e ← from_bytes_unchecked m.value_codec debug bytes; ok (some e)

  -- `internal::get`
  unfoldable pub get : T → DbMapId → m.Key → Result (Option (Encoded m.Value))
  unfolding encoded_value
  get dbtx map_id key = do found ← ops.get dbtx map_id (m.key_codec.encode key); encoded_value found

  unfoldable pub decoded_key : Data → Result m.Key
  decoded_key k = do e ← from_bytes_unchecked m.key_codec debug k; decode m.key_codec e

  unfoldable pub entry : Data × Data → Result (m.Key × Encoded m.Value)
  unfolding decoded_key
  entry (k, v) = do
    key ← decoded_key k
    value ← from_bytes_unchecked m.value_codec debug v
    ok (key, value)

  -- `internal::prefix_iter`
  unfoldable pub prefix_iter : T → DbMapId → Data → Result (List (Result (m.Key × Encoded m.Value)))
  unfolding entry
  prefix_iter dbtx map_id prefix = do
    items ← ops.prefix_iter dbtx map_id prefix
    ok (map entry items)

  -- `internal::prefix_iter_keys`
  unfoldable pub prefix_iter_keys : T → DbMapId → Data → Result (List (Result m.Key))
  unfolding decoded_key
  prefix_iter_keys dbtx map_id prefix = do
    items ← ops.prefix_iter dbtx map_id prefix
    ok (map (λ e. decoded_key e.0) items)

  unfoldable pub decoded_entry : Result (m.Key × Encoded m.Value) → Result (m.Key × m.Value)
  decoded_entry item = do (key, e) ← item; value ← decode m.value_codec e; ok (key, value)

  module _ {Pfx : Type 0} (pfx_codec : Codec Pfx) where
    -- `MapRef::prefix_iter_decoded`
    unfoldable pub prefix_iter_decoded : MapRef T → Pfx → Result (List (Result (m.Key × m.Value)))
    unfolding prefix_iter decoded_entry
    prefix_iter_decoded view prefix = do
      items ← prefix_iter view.dbtx view.map_id (pfx_codec.encode prefix)
      ok (map decoded_entry items)

module _ {T : Type 0} (ops : WriteOps T) (m : DbMap) where
  -- `MapMut::put` and `MapMut::del`
  unfoldable pub put : m.Key → m.Value → MapMut T → Result (Unit {0}) × MapMut T
  put key value view =
      let (done, dbtx') =
        ops.put view.map_id (m.key_codec.encode key) (m.value_codec.encode value) view.dbtx in
      (done, record view { dbtx = dbtx' })

  unfoldable pub del : m.Key → MapMut T → Result (Unit {0}) × MapMut T
  del key view =
      let (done, dbtx') = ops.del view.map_id (m.key_codec.encode key) view.dbtx in
      (done, record view { dbtx = dbtx' })

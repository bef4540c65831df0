-- ===== src/Storage/Database/Views.antt =====
-- The reads of the views `MapRef` and `MapMut` of storage/src/database/mod.rs, which add the index of the map and encode
-- the prefix.
pub mod Refines
use rpi4_usb_io_breaker.Base.{Bool, Option, List}
use rpi4_usb_io_breaker.Core.Error.{Result}
use rpi4_usb_io_breaker.Core.Backend.{ReadOps}
use rpi4_usb_io_breaker.Storage.Encoded.{Codec, Encoded}
use rpi4_usb_io_breaker.Storage.Schema.{DbMap}
use rpi4_usb_io_breaker.Storage.Database
use rpi4_usb_io_breaker.Storage.Database.{MapRef, MapMut}

module _ {T : Type 0} (ops : ReadOps T) (debug : Bool) (m : DbMap) where
  -- `MapRef::get` and `MapMut::get`
  pub ref_get : MapRef T → m.Key → Result (Option (Encoded m.Value))
  ref_get view key = Database.get ops debug m view.dbtx view.map_id key

  pub mut_get : MapMut T → m.Key → Result (Option (Encoded m.Value))
  mut_get view key = Database.get ops debug m view.dbtx view.map_id key

  module _ {Pfx : Type 0} (pfx_codec : Codec Pfx) where
    -- `MapRef::prefix_iter`, `MapRef::prefix_iter_keys` and `MapMut::prefix_iter`
    pub ref_prefix_iter : MapRef T → Pfx → Result (List (Result (m.Key × Encoded m.Value)))
    ref_prefix_iter view prefix =
        Database.prefix_iter ops debug m view.dbtx view.map_id (pfx_codec.encode prefix)

    pub ref_prefix_iter_keys : MapRef T → Pfx → Result (List (Result m.Key))
    ref_prefix_iter_keys view prefix =
        Database.prefix_iter_keys ops debug m view.dbtx view.map_id (pfx_codec.encode prefix)

    pub mut_prefix_iter : MapMut T → Pfx → Result (List (Result (m.Key × Encoded m.Value)))
    mut_prefix_iter view prefix =
        Database.prefix_iter ops debug m view.dbtx view.map_id (pfx_codec.encode prefix)

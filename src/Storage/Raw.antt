-- ===== src/Storage/Raw.antt =====
-- storage/src/database/raw.rs: map indices that a schema stands behind, and the dump of a storage.
pub mod Index
pub mod Dump
use rpi4_usb_io_breaker.Base.{
  ℕ, suc, Option, none, some, List, [], ◌∷◌, length, get_elem?, ltb, if◌then◌else◌,
}
use rpi4_usb_io_breaker.Base.Ord.{lex, list_ord, number_ord}
use rpi4_usb_io_breaker.BTreeMap.{BTreeMap, extend}
use Prim.Native.Nat.Ordering.{eq}
use rpi4_usb_io_breaker.Core.Data.{Data}
use rpi4_usb_io_breaker.Core.Error.{Str, Result, ok, panicked, ◌>>=◌}
use rpi4_usb_io_breaker.Core.Types.{DbMapDesc, enumerate_from}
use rpi4_usb_io_breaker.Core.Types
use rpi4_usb_io_breaker.Core.Backend.{ReadOps}
use rpi4_usb_io_breaker.Storage.Schema.{DbMap, Schema, HasDbMap, desc_iter, index}

-- `DbMapId<Sch>`
abbrev pub DbMapId : Schema → Type 0
DbMapId sch = Types.DbMapId

-- `DbMapId::new`
unfoldable pub new : {m : DbMap} {sch : Schema} → HasDbMap m sch → DbMapId sch
new h = index h

-- `DbMapId::from_usize`
unfoldable pub from_usize : (sch : Schema) → ℕ → Option (DbMapId sch)
from_usize sch idx = if ltb idx (length (desc_iter sch)) then some idx else none

-- `Iterator::position`, from an index on, for the first description of that name
unfoldable pub position : ℕ → Str → List DbMapDesc → Option ℕ
position i name [] = none
position i name (d ∷ descs) =
    let rest = position (suc i) name descs in elim (lex d.name name) [ eq ↦ some i | _ ↦ rest ]

-- `DbMapId::from_name`
unfoldable pub from_name : (sch : Schema) → Str → Option (DbMapId sch)
unfolding position
from_name sch name = position 0 name (desc_iter sch)

-- `DbMapId::info`
unfoldable pub info : (sch : Schema) → DbMapId sch → Result DbMapDesc
info sch id = elim (get_elem? (desc_iter sch) id) [ none ↦ panicked | some d ↦ ok d ]

-- `DbMapId::name`
unfoldable pub name : (sch : Schema) → DbMapId sch → Result Str
unfolding info
name sch id = do d ← info sch id; ok d.name

abbrev pub MapContents : Type 0
MapContents = BTreeMap Data Data

abbrev pub StorageContents : Schema → Type 0
StorageContents sch = BTreeMap (DbMapId sch) MapContents

module _ {T : Type 0} (ops : ReadOps T) (dbtx : T) where
  unfoldable pub dump_maps : List (Types.DbMapId × DbMapDesc) → Result (List (ℕ × MapContents))
  dump_maps [] = ok []
  dump_maps ((idx, dbinfo) ∷ rest) = do
    items ← ops.prefix_iter dbtx idx []
    more ← dump_maps rest
    ok ((idx, extend [] items) ∷ more)

  unfoldable pub dump_storage : (sch : Schema) → Result (StorageContents sch)
  unfolding dump_maps
  dump_storage sch = do
    contents ← dump_maps (enumerate_from 0 (desc_iter sch))
    ok (extend [] contents)

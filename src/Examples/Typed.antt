-- ===== src/Examples/Typed.antt =====
-- The typed storage at concrete inputs: a schema of two maps from bytes to bytes.
use rpi4_usb_io_breaker.Core.Types.Names.{Distinct, db_desc_iff}
use rpi4_usb_io_breaker.Base.{ℕ, zero, suc, none, some, true, [], ◌∷◌, ◌≡◌, refl, arith, ◌↔◌}
use rpi4_usb_io_breaker.Base.Ord.{list_ord}
use rpi4_usb_io_breaker.BTreeMap.{extend, insert}
use rpi4_usb_io_breaker.Core.Error.{ok, panicked}
use rpi4_usb_io_breaker.Core.Types.{DbDesc, new_with_details, db_desc, db_map_count}
use rpi4_usb_io_breaker.Core.Backend.{Backend}
use rpi4_usb_io_breaker.Core.Contract.{Db, BackendLaws, db_put, empty_db}
use rpi4_usb_io_breaker.InMemory.{in_memory}
use rpi4_usb_io_breaker.InMemory.Laws.{in_memory-laws}
use rpi4_usb_io_breaker.TestSuite.Property.Steps.{put_commit_lem}
use rpi4_usb_io_breaker.Storage.Encoded
use rpi4_usb_io_breaker.Storage.Encoded.{Codec, RoundTrips}
use rpi4_usb_io_breaker.Storage.Schema.{DbMap, Schema, HasDbMap, here, there, desc_iter, index}
use rpi4_usb_io_breaker.Storage.Raw.{StorageContents, from_name, from_usize, name, new}
use rpi4_usb_io_breaker.Storage.Raw.Index.{NamesUnique, from_name-name, from_name-new}
use rpi4_usb_io_breaker.Storage.Database.{new_from_dump, dump_raw, get, put, del, get_mut}
use rpi4_usb_io_breaker.Storage.Database.Load.{new_from_dump-dump_raw}
use rpi4_usb_io_breaker.Storage.Database.Typed.{get-put, get-del}
use rpi4_usb_io_breaker.Examples.{merge, merge-laws}

abbrev pub byte : Codec ℕ
byte = record {
  encode = λ n. n ∷ [];
  decode_all =
      λ bytes. elim bytes [ [] ↦ none | n ∷ rest ↦ elim rest [ [] ↦ some n | _ ∷ _ ↦ none ] ];
}

pub byte-RoundTrips : RoundTrips byte
byte-RoundTrips a = refl

abbrev pub bytes_map : ℕ → DbMap
bytes_map n = record {
  name = n ∷ [];
  size_hint = (0, 100);
  Key = ℕ;
  Value = ℕ;
  key_codec = byte;
  value_codec = byte;
}

abbrev two_maps : Schema
two_maps = bytes_map 97 ∷ bytes_map 98 ∷ []

abbrev second : HasDbMap (bytes_map 98) two_maps
second = there here

two_maps-NamesUnique : NamesUnique (desc_iter two_maps)
unfolding desc_iter new_with_details
two_maps-NamesUnique zero zero d e p q h = refl
two_maps-NamesUnique zero (suc zero) d e p q h = ground arith
two_maps-NamesUnique (suc zero) zero d e p q h = ground arith
two_maps-NamesUnique (suc zero) (suc zero) d e p q h = refl
two_maps-NamesUnique zero (suc (suc j)) d e p q h = ground arith
two_maps-NamesUnique (suc zero) (suc (suc j)) d e p q h = ground arith
two_maps-NamesUnique (suc (suc i)) j d e p q h = ground arith

from_name-name_example : (name two_maps 1 ≡ ok (98 ∷ [])) × (from_usize two_maps 1 ≡ some 1)
unfolding from_name desc_iter new_with_details
from_name-name_example = from_name-name two_maps (98 ∷ []) 1 refl

from_name-new_example : from_name two_maps (98 ∷ []) ≡ some (new second)
from_name-new_example = from_name-new (bytes_map 98) two_maps second two_maps-NamesUnique

abbrev pub backend : Backend
backend = in_memory merge

pub laws : BackendLaws backend
laws = in_memory-laws merge merge-laws

abbrev two_descs : DbDesc
two_descs = record { map_descs = desc_iter two_maps }

two_descs-named : db_desc (desc_iter two_maps) ≡ ok two_descs
unfolding db_desc desc_iter new_with_details extend insert list_ord
two_descs-named = refl

abbrev pub filled_db : Db
filled_db = db_put 1 (5 ∷ []) (6 ∷ []) (empty_db two_descs)

filled : (s : backend.Impl) × laws.Repr s filled_db
unfolding db_map_count desc_iter
filled =
    let (s, opened, r) = laws.open_lem two_descs in
    let (s', written, r') =
      put_commit_lem backend laws s (empty_db two_descs) 1 (5 ∷ []) (6 ∷ []) r (omega arith) in
    (s', r')

new_from_dump-dump_raw_example :
    (tx : backend.TxRo) × (backend.transaction_ro filled.0 ≡ ok tx)
    × (dump : StorageContents two_maps) × (dump_raw backend two_maps tx ≡ ok dump)
    × (copy : backend.Impl) × (new_from_dump backend two_maps dump ≡ ok copy)
    × laws.Repr copy filled_db
unfolding db_map_count desc_iter
new_from_dump-dump_raw_example =
    new_from_dump-dump_raw backend backend laws laws two_maps two_descs filled.0 filled_db
      two_descs-named filled.1 refl

pub started : (tx : backend.TxRw) × laws.ReprRw filled_db tx filled_db
started = let (tx, begun, r) = laws.rw_lem none filled.0 filled_db filled.1 in (tx, r)

get-put_example :
    let (done, view) = put backend.write (bytes_map 98) 7 8 (get_mut second started.0) in
    (done ≡ ok tt)
    × (get backend.rw true (bytes_map 98) view.dbtx view.map_id 7 ≡ ok (some (Encoded.new byte 8)))
    × (get backend.rw true (bytes_map 98) view.dbtx view.map_id 9
        ≡ get backend.rw true (bytes_map 98) started.0 (index second) 9)
unfolding db_map_count desc_iter index
get-put_example =
    get-put (laws.rw_reads filled_db) (laws.rw_writes filled_db) true (bytes_map 98) byte-RoundTrips
      byte-RoundTrips second started.0 filled_db 7 9 8 started.1 (omega arith) (ground arith)

get-del_example :
    let (done, view) = del backend.write (bytes_map 98) 5 (get_mut second started.0) in
    (done ≡ ok tt)
    × (get backend.rw true (bytes_map 98) view.dbtx view.map_id 5 ≡ ok none)
    × (get backend.rw true (bytes_map 98) view.dbtx view.map_id 9
        ≡ get backend.rw true (bytes_map 98) started.0 (index second) 9)
unfolding db_map_count desc_iter index
get-del_example =
    get-del (laws.rw_reads filled_db) (laws.rw_writes filled_db) true (bytes_map 98) byte-RoundTrips
      second started.0 filled_db 5 9 started.1 (laws.sorted filled.0 filled_db filled.1)
      (omega arith) (ground arith)

db_desc_iff_example :
    ((db_desc (desc_iter two_maps) ≡ ok two_descs) ↔ Distinct (desc_iter two_maps))
    × ((db_desc (desc_iter two_maps) ≡ panicked) ↔ (¬ Distinct (desc_iter two_maps)))
db_desc_iff_example = db_desc_iff (desc_iter two_maps)

-- ===== src/Storage/Schema.antt =====
-- storage/src/schema.rs: a schema is the list of its maps.
use rpi4_usb_io_breaker.Base.{ℕ, suc, some, List, [], ◌∷◌, get_elem?, ◌≡◌, refl}
use rpi4_usb_io_breaker.Core.Error.{Str}
use rpi4_usb_io_breaker.Core.Types.{DbMapId, DbMapDesc, new_with_details}
use rpi4_usb_io_breaker.Storage.Encoded.{Codec}

-- the trait `DbMap`: the constants, and the types of keys and values with their codecs
pub record DbMap : Type 1 where
  pub name : Str
  pub size_hint : ℕ × ℕ
  pub Key : Type 0
  pub Value : Type 0
  pub key_codec : Codec Key
  pub value_codec : Codec Value

abbrev pub Schema : Type 1
Schema = List DbMap

-- `Schema::desc_iter`
unfoldable pub desc_iter : Schema → List DbMapDesc
desc_iter [] = []
desc_iter (m ∷ rest) = new_with_details m.name m.size_hint ∷ desc_iter rest

-- the trait `HasDbMap`, by its two implementations
pub data HasDbMap (m : DbMap) : Schema → Type 1 where
  here : {rest : Schema} → HasDbMap m (m ∷ rest)
  there : {head : DbMap} {rest : Schema} → HasDbMap m rest → HasDbMap m (head ∷ rest)

-- `HasDbMap::INDEX`
unfoldable pub index : {m : DbMap} {sch : Schema} → HasDbMap m sch → DbMapId
index here = 0
index (there h) = suc (index h)

-- The description at a map's index is that of the map.
pub get_elem?-index :
    (m : DbMap) (sch : Schema) (h : HasDbMap m sch)
    → get_elem? (desc_iter sch) (index h) ≡ some (new_with_details m.name m.size_hint)
unfolding desc_iter index
get_elem?-index m _ here = refl
get_elem?-index m (head ∷ rest) (there h) = get_elem?-index m rest h

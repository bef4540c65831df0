-- ===== src/Core/Locking/Commit.antt =====
-- A commit writes the overlay: after it the storage stands for the database that the transaction read.
use rpi4_usb_io_breaker.Core.Contract.Modify.{length-modify, modify-modify, modify-id}
use rpi4_usb_io_breaker.Base.{
  ℕ, suc, Option, none, some, List, [], ◌∷◌, arith, length, ◌≡◌, refl, ap, ◌<◌, ◌≤◌, ◌+◌, ◌∙◌,
}
use rpi4_usb_io_breaker.Core.Data.{Data}
use rpi4_usb_io_breaker.Core.Error.{ok}
use rpi4_usb_io_breaker.Core.Types.{DbMapId, into_iter_with_id}
use rpi4_usb_io_breaker.Core.Types
use rpi4_usb_io_breaker.Core.Backend.{CoreOps}
use rpi4_usb_io_breaker.Core.Contract.{Map, Db, modify, CoreLaws}
use rpi4_usb_io_breaker.Core.Locking.{DeltaMap, TxRw, commit_entry, commit_map, commit_maps, commit}
use rpi4_usb_io_breaker.Core.Locking.Overlay.{change, overlay, overlay_all}

-- the delta maps written one after the other, from the map `n` on
abbrev overlay_from : ℕ → List DeltaMap → Db → Db
overlay_from n [] d = d
overlay_from n (delta ∷ deltas) d = overlay_from (suc n) deltas (modify (overlay delta) n d)

overlay_from-suc :
    (n : ℕ) (deltas : List DeltaMap) (m : Map) (d : Db)
    → overlay_from (suc n) deltas (m ∷ d) ≡ m ∷ overlay_from n deltas d
overlay_from-suc n [] m d = refl
overlay_from-suc n (delta ∷ deltas) m d =
    overlay_from-suc (suc n) deltas m (modify (overlay delta) n d)

overlay_from-nil : (n : ℕ) (deltas : List DeltaMap) → overlay_from n deltas [] ≡ []
overlay_from-nil n [] = refl
overlay_from-nil n (delta ∷ deltas) = overlay_from-nil (suc n) deltas

overlay_from-eq : (deltas : List DeltaMap) (d : Db) → overlay_from 0 deltas d ≡ overlay_all deltas d
overlay_from-eq [] d = refl
overlay_from-eq (delta ∷ deltas) [] = overlay_from-nil 1 deltas
overlay_from-eq (delta ∷ deltas) (m ∷ d) =
    overlay_from-suc 0 deltas (overlay delta m) d
    ∙ ap (λ (r : Db). overlay delta m ∷ r) (overlay_from-eq deltas d)

module _ {From T : Type 0} (core : CoreOps From T) (laws : CoreLaws core) where
  commit_entry_lem :
      (i : DbMapId) (k : Data) (x : Option Data) (t : T) (d : Db)
      → laws.Repr t d
      → i < length d
      → ((commit_entry core i k x t).0 ≡ ok tt)
        × laws.Repr (commit_entry core i k x t).1 (modify (change k x) i d)
  unfolding commit_entry
  commit_entry_lem i k none t d r h = laws.writes.del_lem t d i k r h
  commit_entry_lem i k (some v) t d r h = laws.writes.put_lem t d i k v r h

  commit_map_lem :
      (i : DbMapId) (delta : DeltaMap) (t : T) (d : Db)
      → laws.Repr t d
      → i < length d
      → ((commit_map core i delta t).0 ≡ ok tt)
        × laws.Repr (commit_map core i delta t).1 (modify (overlay delta) i d)
  unfolding commit_map
  commit_map_lem i [] t d r h = (refl, rw modify-id r)
  commit_map_lem i ((k, x) ∷ delta) t d r h =
      let step = commit_entry_lem i k x t d r h in
      let d' = modify (change k x) i d in
      let fits : i < length d' = rw length-modify h in
      let rest = commit_map_lem i delta (commit_entry core i k x t).1 d' step.1 fits in
      rw step.0 (rest.0, rw modify-modify at (rest.1))

  commit_maps_lem :
      (n : ℕ) (deltas : List DeltaMap) (t : T) (d : Db)
      → laws.Repr t d
      → n + length deltas ≤ length d
      → ((commit_maps core (Types.enumerate_from n deltas) t).0 ≡ ok tt)
        × laws.Repr (commit_maps core (Types.enumerate_from n deltas) t).1 (overlay_from n deltas d)
  unfolding commit_maps Types.enumerate_from
  commit_maps_lem n [] t d r h = (refl, r)
  commit_maps_lem n (delta ∷ deltas) t d r h =
      let step = commit_map_lem n delta t d r (omega arith) in
      let d' = modify (overlay delta) n d in
      let fits : suc n + length deltas ≤ length d' = rw length-modify (omega arith) in
      let rest = commit_maps_lem (suc n) deltas (commit_map core n delta t).1 d' step.1 fits in
      rw step.0 rest

  -- If the storage of a transaction stands for a database, and has a map for each of its delta maps,
  -- the commit succeeds, and the storage then stands for that database with all the changes.
  pub commit_lem :
      (tx : TxRw T) (d : Db)
      → laws.Repr tx.db d
      → length tx.deltas ≤ length d
      → ((commit core tx).0 ≡ ok tt) × laws.Repr (commit core tx).1 (overlay_all tx.deltas d)
  unfolding commit into_iter_with_id
  commit_lem tx d r h = rw (← overlay_from-eq) (commit_maps_lem 0 tx.deltas tx.db d r (omega arith))

-- ===== src/Examples.antt =====
-- The theorems at concrete inputs, with a merge function that behaves as documented, and runs of the models.
pub mod Typed
pub mod Several
pub mod Lmdb
pub mod Env
pub mod Names
pub mod Views
pub mod Utils
pub mod Threads
pub mod Sqlite
pub mod Resize
use rpi4_usb_io_breaker.TestSuite.Basic.Passes.{
  put_and_iterate_delete_some_passes, put_and_iterate_over_prefixes_passes,
  put_two_under_different_keys_passes, put_twice_then_commit_read_last_passes,
}
use rpi4_usb_io_breaker.TestSuite.Basic.{
  put_and_iterate_delete_some, put_and_iterate_over_prefixes, put_two_under_different_keys,
  put_twice_then_commit_read_last,
}
use rpi4_usb_io_breaker.InMemory.Sessions.{in_memory_refines}
use rpi4_usb_io_breaker.TestSuite.Property.Passes.{
  overwrite_and_abort_passes, last_write_wins_passes, add_modify_abort_modify_commit_passes,
  add_modify_abort_replay_commit_passes, db_writes_do_not_interfere_passes,
  empty_after_abort_passes, post_commit_consistency_passes,
}
use rpi4_usb_io_breaker.TestSuite.Property.{
  overwrite_and_abort, last_write_wins, add_modify_abort_modify_commit,
  add_modify_abort_replay_commit, db_writes_do_not_interfere, empty_after_abort,
  post_commit_consistency,
}
use rpi4_usb_io_breaker.TestSuite.Model.{WriteAction, put, del}
use Prim.Native.Nat.Ordering.{lt, eq, gt}
use rpi4_usb_io_breaker.Base.{none, some, List, [], ◌∷◌, Ordering, ◌≡◌, refl, arith}
use rpi4_usb_io_breaker.Base.Ord.{list_ord}
use rpi4_usb_io_breaker.BTreeMap.{range_from}
use rpi4_usb_io_breaker.Core.Data.{starts_with}
use rpi4_usb_io_breaker.Core.Error.{ok}
use rpi4_usb_io_breaker.Core.Types.{DbDesc, new_desc, db_map_count}
use rpi4_usb_io_breaker.Core.Util
use rpi4_usb_io_breaker.Core.Util.{PrefixIter, collect, collect_fuel, next}
use rpi4_usb_io_breaker.Core.Util.Collect.{
  with_prefix, advance, collect-new, collect_fuel-enough, next-fused,
}
use rpi4_usb_io_breaker.Core.Contract.{Map, BackendLaws, empty_db}
use rpi4_usb_io_breaker.Core.Locking.{
  Merge, DataPair, DeltaPair, EitherOrBoth, left, right, both, DeltaMap, comparator, merger,
  filter_map, TxRw, commit,
}
use rpi4_usb_io_breaker.Core.Locking.Overlay.{overlay, overlay_all}
use rpi4_usb_io_breaker.Core.Locking.Commit.{commit_lem}
use rpi4_usb_io_breaker.Core.Locking.MergeJoin.{MergeLaws, joined-eq-overlay}
use rpi4_usb_io_breaker.Core.Locking.Adaptor.{locking}
use rpi4_usb_io_breaker.Core.Locking.Refines.{locking-laws}
use rpi4_usb_io_breaker.Core.Sessions.{
  Session, committed, dropped, read_only, Call, Read, run_sessions, spec_sessions,
}
use rpi4_usb_io_breaker.Core.Sessions
use rpi4_usb_io_breaker.InMemory.{StorageMaps, storage_maps, in_memory}
use rpi4_usb_io_breaker.InMemory.Laws.{storage_maps-laws, storage_maps-Repr, in_memory-laws}

-- itertools' join, as documented
merge_steps :
    (DataPair → DeltaPair → Ordering)
    → List DataPair
    → List DeltaPair
    → List (EitherOrBoth DataPair DeltaPair)
merge_steps c [] [] = []
merge_steps c (a ∷ l) [] = left a ∷ merge_steps c l []
merge_steps c [] (b ∷ r) = right b ∷ merge_steps c [] r
merge_steps c (a ∷ l) (b ∷ r) = elim (c a b) [
  | lt ↦ left a ∷ merge_steps c l (b ∷ r)
  | eq ↦ both a b ∷ merge_steps c l r
  | gt ↦ right b ∷ merge_steps c (a ∷ l) r
]

pub merge : Merge
unfolding merge_steps
merge = merge_steps

pub merge-laws : MergeLaws merge
unfolding merge
merge-laws = record {
  merge_nil = λ c. refl;
  merge_left = λ c a l. refl;
  merge_right = λ c b r. refl;
  merge_lt = λ c a l b r h. rw (h, merge_steps) refl;
  merge_eq = λ c a l b r h. rw (h, merge_steps) refl;
  merge_gt = λ c a l b r h. rw (h, merge_steps) refl;
}

abbrev sample_map : Map
sample_map = ((1 ∷ []), (7 ∷ [])) ∷ ((1 ∷ 2 ∷ []), (8 ∷ [])) ∷ ((2 ∷ []), (9 ∷ [])) ∷ []

abbrev sample_delta : DeltaMap
sample_delta = ((1 ∷ []), none) ∷ ((1 ∷ 5 ∷ []), some (4 ∷ [])) ∷ []

abbrev one_map : DbDesc
one_map = record { map_descs = new_desc (109 ∷ []) ∷ [] }

abbrev sample_sessions : List Session
sample_sessions =
    committed (Sessions.put 0 (1 ∷ []) (7 ∷ []) ∷ Sessions.put 0 (2 ∷ []) (8 ∷ []) ∷ [])
    ∷ dropped (Sessions.del 0 (1 ∷ []) ∷ Sessions.read (Sessions.get 0 (1 ∷ [])) ∷ [])
    ∷ read_only (Sessions.get 0 (1 ∷ []) ∷ Sessions.prefix_iter 0 [] ∷ [])
    ∷ []

locking-laws_example : BackendLaws (locking storage_maps merge tt)
locking-laws_example = locking-laws storage_maps storage_maps-laws merge tt merge-laws

collect-new_example : collect (Util.new sample_map (1 ∷ [])) ≡ with_prefix (1 ∷ []) sample_map
unfolding list_ord
collect-new_example = collect-new sample_map (1 ∷ []) ((refl, (refl, tt)), ((refl, tt), (tt, tt)))

next-fused_example : (next (advance 1 (next (advance 2 (Util.new sample_map (1 ∷ [])))).1)).0 ≡ none
unfolding next Util.new list_ord range_from starts_with
next-fused_example =
    next-fused sample_map (1 ∷ []) 2 1 ((refl, (refl, tt)), ((refl, tt), (tt, tt))) refl

joined-eq-overlay_example :
    filter_map merger
      (merge comparator (with_prefix (1 ∷ []) sample_map) (with_prefix (1 ∷ []) sample_delta))
    ≡ with_prefix (1 ∷ []) (overlay sample_delta sample_map)
unfolding list_ord
joined-eq-overlay_example =
    joined-eq-overlay merge merge-laws (1 ∷ []) sample_map sample_delta
      ((refl, (refl, tt)), ((refl, tt), (tt, tt))) ((refl, tt), (tt, tt))

abbrev actions0 : List WriteAction
actions0 = put (1 ∷ []) (7 ∷ []) ∷ put (2 ∷ []) (8 ∷ []) ∷ []

abbrev actions1 : List WriteAction
actions1 = del (1 ∷ []) ∷ put (3 ∷ []) [] ∷ []

add_modify_abort_modify_commit_passes_example :
    add_modify_abort_modify_commit (in_memory merge) actions0 actions1 actions1 ≡ ok tt
add_modify_abort_modify_commit_passes_example =
    add_modify_abort_modify_commit_passes (in_memory merge) (in_memory-laws merge merge-laws)
      actions0 actions1 actions1

add_modify_abort_replay_commit_passes_example :
    add_modify_abort_replay_commit (in_memory merge) actions0 actions1 ≡ ok tt
add_modify_abort_replay_commit_passes_example =
    add_modify_abort_replay_commit_passes (in_memory merge) (in_memory-laws merge merge-laws)
      actions0 actions1

collect_fuel-enough_example :
    collect_fuel 9 (Util.new sample_map (1 ∷ [])) ≡ collect (Util.new sample_map (1 ∷ []))
unfolding Util.new list_ord range_from
collect_fuel-enough_example = collect_fuel-enough 9 (Util.new sample_map (1 ∷ [])) (omega arith)

abbrev sample_tx : TxRw StorageMaps
sample_tx = record { db = sample_map ∷ []; deltas = sample_delta ∷ [] }

sample-Repr : storage_maps-laws.Repr (sample_map ∷ []) (sample_map ∷ [])
unfolding list_ord
sample-Repr = storage_maps-Repr (sample_map ∷ []) (((refl, (refl, tt)), ((refl, tt), (tt, tt))), tt)

commit_lem_example :
    ((commit storage_maps sample_tx).0 ≡ ok tt)
    × storage_maps-laws.Repr
        (commit storage_maps sample_tx).1
        (overlay_all (sample_delta ∷ []) (sample_map ∷ []))
commit_lem_example =
    commit_lem storage_maps storage_maps-laws sample_tx (sample_map ∷ []) sample-Repr (omega arith)

in_memory-laws_example : BackendLaws (in_memory merge)
in_memory-laws_example = in_memory-laws merge merge-laws

in_memory_refines_example :
    (s : (in_memory merge).Impl) × ((in_memory merge).open_db one_map ≡ ok s)
    × ((run_sessions (in_memory merge) sample_sessions s).0
        ≡ spec_sessions sample_sessions (empty_db one_map))
unfolding db_map_count
in_memory_refines_example = in_memory_refines merge merge-laws one_map sample_sessions (omega arith)

put_and_iterate_delete_some_passes_example : put_and_iterate_delete_some (in_memory merge) ≡ ok tt
put_and_iterate_delete_some_passes_example =
    put_and_iterate_delete_some_passes (in_memory merge) (in_memory-laws merge merge-laws)

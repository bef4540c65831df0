-- ===== src/Examples/Several.antt =====
-- The tests on entries of several maps, at concrete entries.
use rpi4_usb_io_breaker.TestSuite.Model.{put, del}
use rpi4_usb_io_breaker.TestSuite.Prefixes.Passes.{prefix_iteration_passes}
use rpi4_usb_io_breaker.TestSuite.Prefixes.{prefix_iteration}
use rpi4_usb_io_breaker.Base.{[], ◌∷◌, ◌≡◌, refl, arith}
use rpi4_usb_io_breaker.Base.Ord.{number_ord, list_ord, tuple_ord}
use rpi4_usb_io_breaker.BTreeMap.Sorted.{IsSorted}
use rpi4_usb_io_breaker.Core.Error.{ok}
use rpi4_usb_io_breaker.InMemory.{in_memory}
use rpi4_usb_io_breaker.InMemory.Laws.{in_memory-laws}
use rpi4_usb_io_breaker.TestSuite.Entries.{Entries, add_and_delete, add_and_delete_some}
use rpi4_usb_io_breaker.TestSuite.Entries.Passes.{add_and_delete_passes, add_and_delete_some_passes}
use rpi4_usb_io_breaker.Examples.{merge, merge-laws}

abbrev entries1 : Entries
entries1 = ((0, 7 ∷ []), 1 ∷ []) ∷ ((2, 5 ∷ []), 2 ∷ []) ∷ ((2, 6 ∷ []), []) ∷ []

abbrev entries2 : Entries
entries2 = ((2, 5 ∷ []), 3 ∷ []) ∷ ((4, 5 ∷ []), 4 ∷ []) ∷ []

entries1-IsSorted : IsSorted entries1
unfolding number_ord list_ord tuple_ord
entries1-IsSorted = ((refl, (refl, tt)), ((refl, tt), (tt, tt)))

entries2-IsSorted : IsSorted entries2
unfolding number_ord list_ord tuple_ord
entries2-IsSorted = ((refl, tt), (tt, tt))

add_and_delete_passes_example : add_and_delete (in_memory merge) entries1 ≡ ok tt
add_and_delete_passes_example =
    add_and_delete_passes (in_memory merge) (in_memory-laws merge merge-laws) entries1
      entries1-IsSorted (omega arith, (omega arith, (omega arith, tt)))

add_and_delete_some_passes_example :
    add_and_delete_some (in_memory merge) entries1 entries2 ((3, 9 ∷ []) ∷ []) ≡ ok tt
add_and_delete_some_passes_example =
    add_and_delete_some_passes (in_memory merge) (in_memory-laws merge merge-laws) entries1 entries2
      ((3, 9 ∷ []) ∷ []) entries1-IsSorted entries2-IsSorted
      (omega arith, (omega arith, (omega arith, tt))) (omega arith, (omega arith, tt))
      (omega arith, tt)

prefix_iteration_passes_example :
    prefix_iteration
      (in_memory merge)
      (put (1 ∷ []) (7 ∷ []) ∷ del (2 ∷ []) ∷ [])
      (put (1 ∷ []) (8 ∷ []) ∷ [])
    ≡ ok tt
prefix_iteration_passes_example =
    prefix_iteration_passes (in_memory merge) (in_memory-laws merge merge-laws)
      (put (1 ∷ []) (7 ∷ []) ∷ del (2 ∷ []) ∷ []) (put (1 ∷ []) (8 ∷ []) ∷ [])

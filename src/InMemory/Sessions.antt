-- ===== src/InMemory/Sessions.antt =====
-- What a client of the in-memory storage sees.
use rpi4_usb_io_breaker.Base.{List, All, ◌≡◌}
use rpi4_usb_io_breaker.Core.Error.{ok}
use rpi4_usb_io_breaker.Core.Types.{DbDesc, db_map_count}
use rpi4_usb_io_breaker.Core.Contract.{empty_db}
use rpi4_usb_io_breaker.Core.Locking.{Merge}
use rpi4_usb_io_breaker.Core.Locking.MergeJoin.{MergeLaws}
use rpi4_usb_io_breaker.Core.Sessions.{Session, SessionIn, run_sessions, spec_sessions}
use rpi4_usb_io_breaker.Core.Sessions.Refines.{run_sessions_refines}
use rpi4_usb_io_breaker.InMemory.{in_memory}
use rpi4_usb_io_breaker.InMemory.Laws.{in_memory-laws}

-- A fresh in-memory storage opens, and answers every call of every session (a sequence of transactions that
-- are read-only, committed or dropped, on map ids that there are) as the abstract database does: reads see the
-- transaction's own writes, a commit keeps them, and a drop forgets them. `merge_join_by` is to merge as
-- documented.
pub in_memory_refines :
    (merge : Merge) (merging : MergeLaws merge) (desc : DbDesc) (sessions : List Session)
    → All (SessionIn (db_map_count desc.map_descs)) sessions
    → (s : (in_memory merge).Impl) × ((in_memory merge).open_db desc ≡ ok s)
      × ((run_sessions (in_memory merge) sessions s).0 ≡ spec_sessions sessions (empty_db desc))
in_memory_refines merge merging desc sessions h =
    run_sessions_refines (in_memory merge) (in_memory-laws merge merging) desc sessions h

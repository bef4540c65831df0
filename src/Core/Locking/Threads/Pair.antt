-- ===== src/Core/Locking/Threads/Pair.antt =====
-- Two threads, as most of the tests have them: one transaction runs after the other.
use rpi4_usb_io_breaker.Base.{false, List, [], ◌∷◌, map, All, ◌⊎◌, inl, inr, ◌≡◌, arith}
use rpi4_usb_io_breaker.Core.Error.{Result}
use rpi4_usb_io_breaker.Core.Types.{DbMapCount}
use rpi4_usb_io_breaker.Core.Backend.{CoreOps}
use rpi4_usb_io_breaker.Core.Locking.{Merge}
use rpi4_usb_io_breaker.Core.Locking.Threads.{
  Job, ended, Thread, Shared, System, Run, start, IsEnded,
}
use rpi4_usb_io_breaker.Base.Orders.{two_orders}
use rpi4_usb_io_breaker.Core.Locking.Threads.Alone.{IsSerial}
use rpi4_usb_io_breaker.Core.Locking.Threads.Serial.{Run-Serial, Run-jobs}

two_ended :
    {A : Type 0} (threads : List (Thread A)) (j0 j1 : Job A)
    → map (λ (th : Thread A). th.job) threads ≡ j0 ∷ j1 ∷ []
    → All IsEnded threads
    → (r0 : Result A) × (r1 : Result A) × (threads
        ≡ record { job = j0; stage = ended r0 } ∷ record { job = j1; stage = ended r1 } ∷ [])
two_ended [] j0 j1 e all = ground arith
two_ended (a ∷ []) j0 j1 e all = ground arith
two_ended (a ∷ b ∷ []) j0 j1 e ((r0, e0), ((r1, e1), tt)) = (r0, r1, ground arith)
two_ended (a ∷ b ∷ c ∷ threads) j0 j1 e all = ground arith

module _ {From T A : Type 0} (core : CoreOps From T) (merge : Merge) (num_maps : DbMapCount) where
  -- Two threads: where both have ended, one transaction ran after the other, in one of the two orders.
  pub both_ended :
      (t : T) (j0 j1 : Job A) (history : List (Job A × Result A)) (s : System T A)
      → Run core merge num_maps (start t (j0 ∷ j1 ∷ [])) history s
      → All IsEnded s.threads
      → (r0 : Result A) × (r1 : Result A) × (s.threads
          ≡ record { job = j0; stage = ended r0 } ∷ record { job = j1; stage = ended r1 } ∷ [])
        × (IsSerial core merge num_maps
              (record { storage = t; poisoned = false })
              ((j0, r0) ∷ (j1, r1) ∷ [])
              s.db
            ⊎ IsSerial core merge num_maps
                (record { storage = t; poisoned = false })
                ((j1, r1) ∷ (j0, r0) ∷ [])
                s.db)
  unfolding IsSerial
  both_ended t j0 j1 history s r all =
      let inv = Run-Serial core merge num_maps t (j0 ∷ j1 ∷ []) history s r in
      let (r0, r1, e) =
        two_ended s.threads j0 j1 (Run-jobs core merge num_maps t (j0 ∷ j1 ∷ []) history s r) all in
      let db : Shared T = record { storage = t; poisoned = false } in
      (
        r0,
        r1,
        e,
        elim (two_orders (j0, r0) (j1, r1) history (rw e at inv.order)) [
          | inl h ↦ inl (rw h at inv.serial)
          | inr h ↦ inr (rw h at inv.serial)
        ],
      )

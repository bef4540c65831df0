-- ===== src/Core/Locking/Threads/Serial.antt =====
-- Transactions that run beside each other do what they do one after the other, in the order in which they end.
use mathlib.Core.List.{append-nil}
use mathlib.Core.List.{Perm}
use rpi4_usb_io_breaker.Base.{
  ℕ, false, some, List, [], ◌∷◌, ◌++◌, get_elem?, set, map, All, All-get, All-set, ◌⊎◌, inl, inr,
  ◌≡◌, refl, arith, ap, ◌∙◌, map-set,
}
use rpi4_usb_io_breaker.Base.Orders.{IsOrder, IsOrder-Perm, IsOrder-set, concat_map, concat_map-set}
use rpi4_usb_io_breaker.Core.Error.{Result}
use rpi4_usb_io_breaker.Core.Types.{DbMapCount}
use rpi4_usb_io_breaker.Core.Backend.{CoreOps}
use rpi4_usb_io_breaker.Core.Locking.{Merge}
use rpi4_usb_io_breaker.Core.Locking.Threads.{
  Job, Stage, waiting, reading, writing, ended, Thread, Guards, shared, Shared, System, outcome,
  step, Run, here, next, wait_all, start,
}
use rpi4_usb_io_breaker.Core.Locking.Threads.Exclusion.{
  reads, writes, Counted, IsExclusive, num_reading, num_writing, run-IsExclusive,
}
use rpi4_usb_io_breaker.Core.Locking.Threads.Alone.{
  run_alone, IsSerial, Ready, After, AfterStep, IsSerial-snoc, advance-After, advance-live,
  advance-db,
}

-- the results of the transactions that have ended, thread by thread
abbrev pub results : {A : Type 0} → List (Thread A) → List (Job A × Result A)
results {A} threads = concat_map (λ (th : Thread A). outcome th.job th.stage) threads

module _ {From T A : Type 0} (core : CoreOps From T) (merge : Merge) (num_maps : DbMapCount) where
  abbrev pub AllReady : Shared T → List (Thread A) → Type 0
  AllReady db threads =
      All (λ (th : Thread A). Ready core merge num_maps db th.job th.stage) threads

  no_guard-Ready :
      (db : Shared T) (job : Job A) (stage : Stage A)
      → reads stage ≡ 0
      → writes stage ≡ 0
      → Ready core merge num_maps db job stage
  unfolding Ready
  no_guard-Ready db job waiting n m = tt
  no_guard-Ready db job (reading body) n m = ground arith
  no_guard-Ready db job (writing deltas body) n m = ground arith
  no_guard-Ready db job (ended r) n m = tt

  no_guards-AllReady :
      (db : Shared T) (threads : List (Thread A))
      → num_reading threads ≡ 0
      → num_writing threads ≡ 0
      → AllReady db threads
  no_guards-AllReady db [] n m = tt
  no_guards-AllReady db (th ∷ threads) n m = (
    no_guard-Ready db th.job th.stage (omega (arith, n)) (omega (arith, m)),
    no_guards-AllReady db threads (omega (arith, n)) (omega (arith, m)),
  )

  pub record Serial (db : Shared T) (history : List (Job A × Result A)) (s : System T A)
      : Type 0 where
    pub ready : AllReady s.db s.threads
    pub serial : IsSerial core merge num_maps db history s.db
    pub order : IsOrder (results s.threads) history

  wait_all-Serial :
      (t : T) (jobs : List (Job A))
      → Serial (record { storage = t; poisoned = false }) [] (start t jobs)
  unfolding IsSerial Ready
  wait_all-Serial t jobs = record { ready = go jobs; serial = refl; order = none_ended jobs }
    where
      go :
          (jobs : List (Job A))
          → AllReady (record { storage = t; poisoned = false }) (wait_all jobs)
      go [] = tt
      go (job ∷ jobs) = (tt, go jobs)

      none_ended : (jobs : List (Job A)) → IsOrder (results (wait_all jobs)) []
      none_ended [] = refl
      none_ended (job ∷ jobs) = none_ended jobs

  module _ (db0 : Shared T) (history : List (Job A × Result A)) (s : System T A) (i : ℕ)
      (th : Thread A) (db : Shared T) (g : Guards) (found : get_elem? s.threads i ≡ some th)
      (old : Serial db0 history s) where
    abbrev moved : Stage A → System T A
    moved stage = record {
      db = db;
      guards = g;
      threads = set s.threads i (record { job = th.job; stage = stage });
    }

    -- a step after which the thread goes on
    going_on :
        (stage : Stage A)
        → outcome th.job th.stage ≡ []
        → outcome th.job stage ≡ []
        → s.db ≡ db
        → Ready core merge num_maps db th.job stage
        → Serial db0 (history ++ []) (moved stage)
    going_on stage live live' same r =
        let th' : Thread A = record { job = th.job; stage = stage } in
        let P : Thread A → Type 0 = λ t. Ready core merge num_maps db t.job t.stage in
        rw append-nil (record {
          ready = All-set P s.threads i th' r (rw same at old.ready);
          serial = rw same at old.serial;
          order =
              rw
                (concat_map-set (λ (t : Thread A). outcome t.job t.stage) s.threads i th' found live
                  live')
                old.order;
        })

    ending_now :
        (r : Result A)
        → outcome th.job th.stage ≡ []
        → (s.db ≡ db) ⊎ (g ≡ shared 0)
        → IsExclusive (moved (ended r))
        → run_alone core merge num_maps th.job s.db ≡ (r, db)
        → Serial db0 (history ++ ((th.job, r) ∷ [])) (moved (ended r))
    unfolding Ready
    ending_now r live changes excl e =
        let th' : Thread A = record { job = th.job; stage = ended r } in
        let P : Thread A → Type 0 = λ t. Ready core merge num_maps db t.job t.stage in
        let ready : AllReady db (set s.threads i th') = elim changes [
          | inl same ↦ All-set P s.threads i th' tt (rw same at old.ready)
          | inr free ↦
              let none : Counted (num_reading (set s.threads i th'))
                  (num_writing (set s.threads i th')) (shared 0) =
                rw free at excl in
              no_guards-AllReady db (set s.threads i th') none.0 none.1
        ] in
        record {
          ready = ready;
          serial = IsSerial-snoc core merge num_maps db0 s.db db history th.job r old.serial e;
          order =
              IsOrder-set (λ (t : Thread A). outcome t.job t.stage) s.threads i th' (th.job, r)
                found live refl history old.order;
        }

    moved-Serial :
        (stage : Stage A)
        → outcome th.job th.stage ≡ []
        → (s.db ≡ db) ⊎ (g ≡ shared 0)
        → IsExclusive (moved stage)
        → After core merge num_maps s.db db th.job stage
        → Serial db0 (history ++ outcome th.job stage) (moved stage)
    unfolding After Ready
    moved-Serial waiting live changes excl after = going_on waiting live refl after tt
    moved-Serial (reading body) live changes excl after =
        going_on (reading body) live refl after.0 (rw after.0 at (after.1))
    moved-Serial (writing deltas body) live changes excl after =
        going_on (writing deltas body) live refl after.0 (rw after.0 at (after.1))
    moved-Serial (ended r) live changes excl after = ending_now r live changes excl after

  pub Run-Serial :
      (t : T) (jobs : List (Job A)) (history : List (Job A × Result A)) (s : System T A)
      → Run core merge num_maps (start t jobs) history s
      → Serial (record { storage = t; poisoned = false }) history s
  unfolding AfterStep
  Run-Serial t jobs history s here = wait_all-Serial t jobs
  Run-Serial t jobs history s
        (next {history = earlier} {s1 = s1} r (step i th db g stage found e)) =
      let old = Run-Serial t jobs earlier s1 r in
      let P : Thread A → Type 0 = λ x. Ready core merge num_maps s1.db x.job x.stage in
      let after =
        advance-After core merge num_maps th.job th.stage s1.db s1.guards
          (All-get P s1.threads i old.ready found) in
      moved-Serial (record { storage = t; poisoned = false }) earlier s1 i th db g found old stage
        (advance-live core merge num_maps th.job th.stage s1.db s1.guards e)
        (advance-db core merge num_maps th.job th.stage s1.db db s1.guards g stage e)
        (run-IsExclusive core merge num_maps t jobs history s
          (next r (step i th db g stage found e)))
        (rw e at after)

  -- In every run from a start in which no thread holds the lock, the transactions that have ended did, in the order in which they ended, what they do one after
  -- the other with the storage to themselves: the same results, and the same storage in the end. Each ended
  -- transaction stands once in this order.
  pub run-IsSerial :
      (t : T) (jobs : List (Job A)) (history : List (Job A × Result A)) (s : System T A)
      → Run core merge num_maps (start t jobs) history s
      → IsSerial core merge num_maps (record { storage = t; poisoned = false }) history s.db
        × Perm history (results s.threads)
  run-IsSerial t jobs history s r =
      let inv = Run-Serial t jobs history s r in
      (inv.serial, IsOrder-Perm (results s.threads) history inv.order)

  -- the threads keep their transactions
  pub Run-jobs :
      (t : T) (jobs : List (Job A)) (history : List (Job A × Result A)) (s : System T A)
      → Run core merge num_maps (start t jobs) history s
      → map (λ (th : Thread A). th.job) s.threads ≡ jobs
  Run-jobs t jobs history s here = all jobs
    where
      all : (jobs : List (Job A)) → map (λ (th : Thread A). th.job) (wait_all jobs) ≡ jobs
      all [] = refl
      all (job ∷ jobs) = ap (λ r. job ∷ r) (all jobs)
  Run-jobs t jobs history s (next {history = earlier} {s1 = s1} r (step i th db g stage found e)) =
      map-set (λ (x : Thread A). x.job) s1.threads i (record { job = th.job; stage = stage }) found
        refl
      ∙ Run-jobs t jobs earlier s1 r

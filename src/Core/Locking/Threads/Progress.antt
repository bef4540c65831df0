-- ===== src/Core/Locking/Threads/Progress.antt =====
-- Every run can be brought to its end.
use mathlib.Core.List.{append_assoc, append-nil}
use rpi4_usb_io_breaker.Base.{
  ℕ, zero, suc, ◌+◌, ◌<◌, ◌≤◌, Bool, true, false, some, List, [], ◌∷◌, ◌++◌, get_elem?, ◌≡◌, refl,
  arith, total, total-set, All,
}
use rpi4_usb_io_breaker.Core.Error.{Result}
use rpi4_usb_io_breaker.Core.Types.{DbMapCount}
use rpi4_usb_io_breaker.Core.Sessions.{Read, Call}
use rpi4_usb_io_breaker.Core.Backend.{CoreOps}
use rpi4_usb_io_breaker.Core.Locking.{Merge}
use rpi4_usb_io_breaker.Core.Locking.Threads.{
  End, Body, ending, call, Job, reader, writer, Stage, waiting, reading, writing, ended, Thread,
  Guards, shared, exclusive, Shared, System, lock_read, lock_write, advance, Step, step, Run, here,
  next, start, IsEnded,
}
use rpi4_usb_io_breaker.Core.Locking.Threads.Exclusion.{run-not_deadlocked}

module _ {A : Type 0} where
  -- the steps of a transaction that has the lock to itself: taking it, the calls, and the end
  abbrev job_steps : Job A → ℕ
  job_steps (reader {n} body) = n + 2
  job_steps (writer {n} body) = n + 2

  abbrev steps_left : Job A → Stage A → ℕ
  steps_left job waiting = job_steps job
  steps_left job (reading {n} body) = n + 1
  steps_left job (writing {n} deltas body) = n + 1
  steps_left job (ended r) = 0

  abbrev all_left : List (Thread A) → ℕ
  all_left threads = total (λ th. steps_left th.job th.stage) threads

  lock_read-steps :
      {n : ℕ} (body : Body Read (Result A) n) (poisoned : Bool) (g g' : Guards) (stage : Stage A)
      (job : Job A)
      → lock_read body poisoned g ≡ some (g', stage)
      → steps_left job stage < n + 2
  unfolding lock_read
  lock_read-steps body poisoned exclusive g' stage job e = ground arith
  lock_read-steps body true (shared k) g' stage job e = ground arith
  lock_read-steps body false (shared k) g' stage job e = ground arith

  lock_write-steps :
      {n : ℕ} (num_maps : DbMapCount) (body : Body Call (End A) n) (poisoned : Bool) (g g' : Guards)
      (stage : Stage A) (job : Job A)
      → lock_write num_maps body poisoned g ≡ some (g', stage)
      → steps_left job stage < n + 2
  unfolding lock_write
  lock_write-steps num_maps body poisoned exclusive g' stage job e = ground arith
  lock_write-steps num_maps body poisoned (shared (suc k)) g' stage job e = ground arith
  lock_write-steps num_maps body true (shared zero) g' stage job e = ground arith
  lock_write-steps num_maps body false (shared zero) g' stage job e = ground arith

module _ {From T A : Type 0} (core : CoreOps From T) (merge : Merge) (num_maps : DbMapCount) where
  advance-steps :
      (job : Job A) (stage stage' : Stage A) (db db' : Shared T) (g g' : Guards)
      → advance core merge num_maps job stage db g ≡ some (db', g', stage')
      → steps_left job stage' < steps_left job stage
  unfolding advance
  advance-steps (reader body) waiting stage' db db' g g' e =
      ground (arith, lock_read-steps body db.poisoned g)
  advance-steps (writer body) waiting stage' db db' g g' e =
      ground (arith, lock_write-steps num_maps body db.poisoned g)
  advance-steps job (reading (ending r)) stage' db db' g g' e = ground arith
  advance-steps job (reading (call c k)) stage' db db' g g' e = ground arith
  advance-steps job (writing deltas (ending r)) stage' db db' g g' e = ground arith
  advance-steps job (writing deltas (call c k)) stage' db db' g g' e = ground arith
  advance-steps job (ended r) stage' db db' g g' e = ground arith

  Step-steps :
      {s s' : System T A} {more : List (Job A × Result A)}
      → Step core merge num_maps s more s'
      → all_left s'.threads < all_left s.threads
  Step-steps {s} (step i th db g stage found e) =
      let th' : Thread A = record { job = th.job; stage = stage } in
      let (n, n0, n1) =
        total-set (λ (t : Thread A). steps_left t.job t.stage) s.threads i th' found in
      omega (arith, n0, n1, advance-steps th.job th.stage stage s.db db s.guards g e)

  Run-trans :
      {s s1 s2 : System T A} {h k : List (Job A × Result A)}
      → Run core merge num_maps s h s1
      → Run core merge num_maps s1 k s2
      → Run core merge num_maps s (h ++ k) s2
  Run-trans {h} r here = rw append-nil r
  Run-trans r (next r' st) = rw (← append_assoc) (next (Run-trans r r') st)

  data Left (threads : List (Thread A)) : Type 0 where
    none_left : All IsEnded threads → Left threads
    some_left :
        (i : ℕ) (th : Thread A) → get_elem? threads i ≡ some th → ¬ IsEnded th → Left threads

  ended? : (stage : Stage A) → Dec ((r : Result A) × (stage ≡ ended r))
  ended? waiting = no (λ h. ground arith)
  ended? (reading body) = no (λ h. ground arith)
  ended? (writing deltas body) = no (λ h. ground arith)
  ended? (ended r) = yes (r, refl)

  left : (threads : List (Thread A)) → Left threads
  left [] = none_left tt
  left (th ∷ threads) = elim (ended? th.stage) [
    | no n ↦ some_left 0 th refl n
    | yes p ↦ elim (left threads) [
      | none_left h ↦ none_left (p, h)
      | some_left i th' e n ↦ some_left (suc i) th' e n
    ]
  ]

  Complete : System T A → Type 0
  Complete s =
      (more : List (Job A × Result A)) × (s' : System T A) × Run core merge num_maps s more s'
      × All IsEnded s'.threads

  complete :
      (t : T) (jobs : List (Job A)) (fuel : ℕ) (history : List (Job A × Result A)) (s : System T A)
      → Run core merge num_maps (start t jobs) history s
      → all_left s.threads ≤ fuel
      → Left s.threads
      → Complete s
  unfolding Complete
  complete t jobs fuel history s r h (none_left all) = ([], s, here, all)
  complete t jobs zero history s r h (some_left i th e n) =
      let (more, s1, st) = run-not_deadlocked core merge num_maps t jobs history s i th r e n in
      absurd (omega (arith, h, Step-steps st))
  complete t jobs (suc fuel) history s r h (some_left i th e n) =
      let (more, s1, st) = run-not_deadlocked core merge num_maps t jobs history s i th r e n in
      let (rest, s2, r', all) =
        complete t jobs fuel (history ++ more) s1 (next r st) (omega (arith, h, Step-steps st))
          (left s1.threads) in
      (more ++ rest, s2, Run-trans (next here st) r', all)

  -- Every run from a start in which no thread holds the lock can be brought to its end: from its last state a run leads
  -- to one in which all threads have ended their transactions.
  pub run-completes :
      (t : T) (jobs : List (Job A)) (history : List (Job A × Result A)) (s : System T A)
      → Run core merge num_maps (start t jobs) history s
      → (more : List (Job A × Result A)) × (s' : System T A) × Run core merge num_maps s more s'
        × All IsEnded s'.threads
  unfolding Complete
  run-completes t jobs history s r =
      complete t jobs (all_left s.threads) history s r (omega arith) (left s.threads)

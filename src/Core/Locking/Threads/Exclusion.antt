-- ===== src/Core/Locking/Threads/Exclusion.antt =====
-- The guards exclude each other, and some thread can always go on.
use rpi4_usb_io_breaker.Base.{
  ℕ, zero, suc, ◌+◌, ◌<◌, Bool, true, false, some, List, [], ◌∷◌, get_elem?, ◌≡◌, refl, arith,
  total, total-set, total-pos,
}
use rpi4_usb_io_breaker.Core.Error.{Result}
use rpi4_usb_io_breaker.Core.Types.{DbMapCount}
use rpi4_usb_io_breaker.Core.Sessions.{Read, Call}
use rpi4_usb_io_breaker.Core.Backend.{CoreOps}
use rpi4_usb_io_breaker.Core.Locking.{Merge}
use rpi4_usb_io_breaker.Core.Locking.Threads.{
  End, Body, ending, call, Job, reader, writer, Stage, waiting, reading, writing, ended, Thread,
  Guards, shared, exclusive, Shared, System, lock_read, lock_write, advance, Step, step, Run, here,
  next, wait_all, start, IsEnded,
}

module _ {A : Type 0} where
  abbrev pub reads : Stage A → ℕ
  reads waiting = 0
  reads (reading body) = 1
  reads (writing deltas body) = 0
  reads (ended r) = 0

  abbrev pub writes : Stage A → ℕ
  writes waiting = 0
  writes (reading body) = 0
  writes (writing deltas body) = 1
  writes (ended r) = 0

  abbrev pub num_reading : List (Thread A) → ℕ
  num_reading threads = total (λ th. reads th.stage) threads

  abbrev pub num_writing : List (Thread A) → ℕ
  num_writing threads = total (λ th. writes th.stage) threads

-- the guards of the lock are those that the threads hold: either read guards, or one write guard
abbrev pub Counted : ℕ → ℕ → Guards → Type 0
Counted n m (shared k) = (n ≡ k) × (m ≡ 0)
Counted n m exclusive = (n ≡ 0) × (m ≡ 1)

abbrev pub IsExclusive : {T A : Type 0} → System T A → Type 0
IsExclusive s = Counted (num_reading s.threads) (num_writing s.threads) s.guards

module _ {A : Type 0} where
  Counted-start :
      (jobs : List (Job A))
      → Counted (num_reading (wait_all jobs)) (num_writing (wait_all jobs)) (shared 0)
  Counted-start [] = (refl, refl)
  Counted-start (job ∷ jobs) = ground (arith, Counted-start jobs)

  lock_read-Counted :
      {n : ℕ} (body : Body Read (Result A) n) (poisoned : Bool) (g g' : Guards) (stage : Stage A)
      (i j : ℕ)
      → lock_read body poisoned g ≡ some (g', stage)
      → Counted i j g
      → Counted (i + reads stage) (j + writes stage) g'
  unfolding lock_read
  lock_read-Counted body poisoned exclusive g' stage i j e h = ground arith
  lock_read-Counted body true (shared k) g' stage i j e h = ground arith
  lock_read-Counted body false (shared k) g' stage i j e h = ground arith

  lock_write-Counted :
      {n : ℕ} (num_maps : DbMapCount) (body : Body Call (End A) n) (poisoned : Bool) (g g' : Guards)
      (stage : Stage A) (i j : ℕ)
      → lock_write num_maps body poisoned g ≡ some (g', stage)
      → Counted i j g
      → Counted (i + reads stage) (j + writes stage) g'
  unfolding lock_write
  lock_write-Counted num_maps body poisoned exclusive g' stage i j e h = ground arith
  lock_write-Counted num_maps body poisoned (shared (suc k)) g' stage i j e h = ground arith
  lock_write-Counted num_maps body true (shared zero) g' stage i j e h = ground arith
  lock_write-Counted num_maps body false (shared zero) g' stage i j e h = ground arith

module _ {From T A : Type 0} (core : CoreOps From T) (merge : Merge) (num_maps : DbMapCount) where
  -- a step changes the count of the guards as it changes what its thread holds
  advance-Counted :
      (n m : ℕ) (job : Job A) (stage stage' : Stage A) (db db' : Shared T) (g g' : Guards)
      → advance core merge num_maps job stage db g ≡ some (db', g', stage')
      → Counted (n + reads stage) (m + writes stage) g
      → Counted (n + reads stage') (m + writes stage') g'
  unfolding advance
  advance-Counted n m (reader body) waiting stage' db db' g g' e h =
      ground (arith, lock_read-Counted body db.poisoned g)
  advance-Counted n m (writer body) waiting stage' db db' g g' e h =
      ground (arith, lock_write-Counted num_maps body db.poisoned g)
  advance-Counted n m job (reading (ending r)) stage' db db' g g' e h = ground arith
  advance-Counted n m job (reading (call c k)) stage' db db' g g' e h = ground arith
  advance-Counted n m job (writing deltas (ending r)) stage' db db' g g' e h = ground arith
  advance-Counted n m job (writing deltas (call c k)) stage' db db' g g' e h = ground arith
  advance-Counted n m job (ended r) stage' db db' g g' e h = ground arith

  Step-IsExclusive :
      {s s' : System T A} {history : List (Job A × Result A)}
      → Step core merge num_maps s history s'
      → IsExclusive s
      → IsExclusive s'
  Step-IsExclusive {s} (step i th db g stage found e) h =
      let th' : Thread A = record { job = th.job; stage = stage } in
      let (n, n0, n1) = total-set (λ (t : Thread A). reads t.stage) s.threads i th' found in
      let (m, m0, m1) = total-set (λ (t : Thread A). writes t.stage) s.threads i th' found in
      rw (n1, m1)
        (advance-Counted n m th.job th.stage stage s.db db s.guards g e (rw (n0, m0) at h))

  -- In every state of every run, from a start in which no thread holds the lock: the lock has as many read guards as
  -- threads read and no thread writes, or it has the write guard, one thread writes and none reads.
  pub run-IsExclusive :
      (t : T) (jobs : List (Job A)) (history : List (Job A × Result A)) (s : System T A)
      → Run core merge num_maps (start t jobs) history s
      → IsExclusive s
  run-IsExclusive t jobs history s here = Counted-start jobs
  run-IsExclusive t jobs history s (next r st) = Step-IsExclusive st (run-IsExclusive t jobs _ _ r)

  lock_read-free :
      {n : ℕ} (body : Body Read (Result A) n) (poisoned : Bool) (k : ℕ)
      → (x : Guards × Stage A) × (lock_read body poisoned (shared k) ≡ some x)
  unfolding lock_read
  lock_read-free body true k = (_, refl)
  lock_read-free body false k = (_, refl)

  lock_write-free :
      {n : ℕ} (body : Body Call (End A) n) (poisoned : Bool)
      → (x : Guards × Stage A) × (lock_write num_maps body poisoned (shared 0) ≡ some x)
  unfolding lock_write
  lock_write-free body true = (_, refl)
  lock_write-free body false = (_, refl)

  -- a thread that has an end before it, and holds a guard or finds the lock free, can go on
  advance-holding :
      (job : Job A) (stage : Stage A) (db : Shared T) (g : Guards)
      → 0 < reads stage + writes stage
      → (x : Shared T × Guards × Stage A) × (advance core merge num_maps job stage db g ≡ some x)
  unfolding advance
  advance-holding job waiting db g h = elim h [ ]
  advance-holding job (reading (ending r)) db g h = (_, refl)
  advance-holding job (reading (call c k)) db g h = (_, refl)
  advance-holding job (writing deltas (ending r)) db g h = (_, refl)
  advance-holding job (writing deltas (call c k)) db g h = (_, refl)
  advance-holding job (ended r) db g h = elim h [ ]

  advance-free :
      (job : Job A) (stage : Stage A) (db : Shared T)
      → ¬ ((r : Result A) × (stage ≡ ended r))
      → (x : Shared T × Guards × Stage A) × (advance core merge num_maps job stage db (shared 0)
          ≡ some x)
  unfolding advance
  advance-free (reader body) waiting db h =
      let ((g, stage), e) = lock_read-free body db.poisoned 0 in
      ((db, g, stage), rw (advance, e) refl)
  advance-free (writer body) waiting db h =
      let ((g, stage), e) = lock_write-free body db.poisoned in
      ((db, g, stage), rw (advance, e) refl)
  advance-free job (reading body) db h =
      advance-holding job (reading body) db (shared 0) (omega arith)
  advance-free job (writing deltas body) db h =
      advance-holding job (writing deltas body) db (shared 0) (omega arith)
  advance-free job (ended r) db h = absurd (h (r, refl))

  CanStep : System T A → Type 0
  CanStep s =
      (more : List (Job A × Result A)) × (s' : System T A) × Step core merge num_maps s more s'

  step_of :
      (s : System T A) (i : ℕ) (th : Thread A) {g : Guards}
      → s.guards ≡ g
      → get_elem? s.threads i ≡ some th
      → (x : Shared T × Guards × Stage A) × (advance core merge num_maps th.job th.stage s.db g
          ≡ some x)
      → CanStep s
  unfolding CanStep
  step_of s i th eg found ((db, g', stage), e) = (_, _, step i th db g' stage found (rw eg e))

  can_step :
      (s : System T A) (g : Guards)
      → Counted (num_reading s.threads) (num_writing s.threads) g
      → s.guards ≡ g
      → (i : ℕ) (th : Thread A) → get_elem? s.threads i ≡ some th
      → ¬ IsEnded th
      → CanStep s
  can_step s exclusive c eg i th found h =
      let (j, holder, at, p) =
        total-pos (λ (t : Thread A). writes t.stage) s.threads (omega (arith, c.1)) in
      step_of s j holder eg at
        (advance-holding holder.job holder.stage s.db exclusive (omega (arith, p)))
  can_step s (shared (suc k)) c eg i th found h =
      let (j, holder, at, p) =
        total-pos (λ (t : Thread A). reads t.stage) s.threads (omega (arith, c.0)) in
      step_of s j holder eg at
        (advance-holding holder.job holder.stage s.db (shared (suc k)) (omega (arith, p)))
  can_step s (shared zero) c eg i th found h =
      step_of s i th eg found (advance-free th.job th.stage s.db h)

  -- In every state of every run from a start in which no thread holds the lock, as long as some thread has not ended
  -- its transaction, some thread has a step: the transactions never block each other for good.
  pub run-not_deadlocked :
      (t : T) (jobs : List (Job A)) (history : List (Job A × Result A)) (s : System T A) (i : ℕ)
      (th : Thread A)
      → Run core merge num_maps (start t jobs) history s
      → get_elem? s.threads i ≡ some th
      → ¬ IsEnded th
      → (more : List (Job A × Result A)) × (s' : System T A) × Step core merge num_maps s more s'
  unfolding CanStep
  run-not_deadlocked t jobs history s i th r found h =
      can_step s s.guards (run-IsExclusive t jobs history s r) refl i th found h

-- ===== src/Core/Locking/Threads/Alone.antt =====
-- What one transaction does with the storage to itself, and what a step of it leaves to do.
use rpi4_usb_io_breaker.Base.{
  ℕ, zero, suc, Bool, true, false, Option, none, some, List, [], ◌∷◌, ◌++◌, ◌⊎◌, inl, inr, ◌≡◌,
  refl, arith,
}
use rpi4_usb_io_breaker.Core.Error.{Result, panicked}
use rpi4_usb_io_breaker.Core.Types.{DbMapCount, new}
use rpi4_usb_io_breaker.Core.Sessions.{Read, Call, answer_read}
use rpi4_usb_io_breaker.Core.Backend.{CoreOps}
use rpi4_usb_io_breaker.Core.Locking
use rpi4_usb_io_breaker.Core.Locking.{DeltaMap, Merge}
use rpi4_usb_io_breaker.Core.Locking.Threads.{
  End, Body, ending, call, Job, reader, writer, Stage, waiting, reading, writing, ended, Guards,
  shared, exclusive, Shared, lock_read, lock_write, answer, end_rw, advance, outcome,
}

module _ {From T A : Type 0} (core : CoreOps From T) (merge : Merge) (num_maps : DbMapCount) where
  -- a transaction that has the storage to itself
  unfoldable pub run_reader : {n : ℕ} → Body Read (Result A) n → T → Result A
  run_reader (ending r) t = r
  run_reader (call c k) t =
      run_reader (k (answer_read (Locking.ro_ops core) (record { db = t }) c)) t

  unfoldable pub run_writer :
      {n : ℕ} → Body Call (End A) n → List DeltaMap → T → Result A × Shared T
  run_writer (ending e) deltas t = end_rw core merge num_maps e deltas t
  run_writer (call c k) deltas t =
      let (a, tx) = answer core merge c (record { db = t; deltas = deltas }) in
      run_writer (k a) tx.deltas t

  -- a whole transaction: over a poisoned lock the thread panics
  abbrev when_poisoned : Bool → Shared T → Result A × Shared T → Result A × Shared T
  when_poisoned true db r = (panicked, db)
  when_poisoned false db r = r

  unfoldable pub run_alone : Job A → Shared T → Result A × Shared T
  unfolding run_reader run_writer
  run_alone (reader body) db = when_poisoned db.poisoned db (run_reader body db.storage, db)
  run_alone (writer body) db =
      when_poisoned db.poisoned db (run_writer body (new num_maps (λ i. [])) db.storage)

  -- The transactions with their results, one after the other, lead from the one state to the other.
  unfoldable pub IsSerial : Shared T → List (Job A × Result A) → Shared T → Type 0
  IsSerial db [] db' = db ≡ db'
  IsSerial db ((job, r) ∷ history) db' =
      ((run_alone job db).0 ≡ r) × IsSerial (run_alone job db).1 history db'

  -- what a thread has left to do is what its transaction does now as a whole
  unfoldable pub Ready : Shared T → Job A → Stage A → Type 0
  unfolding run_reader run_writer
  Ready db job waiting = Unit
  Ready db job (reading body) = run_alone job db ≡ (run_reader body db.storage, db)
  Ready db job (writing deltas body) = run_alone job db ≡ run_writer body deltas db.storage
  Ready db job (ended r) = Unit

  pub IsSerial-snoc :
      (db db1 db2 : Shared T) (history : List (Job A × Result A)) (job : Job A) (r : Result A)
      → IsSerial db history db1
      → run_alone job db1 ≡ (r, db2)
      → IsSerial db (history ++ ((job, r) ∷ [])) db2
  unfolding IsSerial
  IsSerial-snoc db db1 db2 [] job r h e = rw (h, e) (refl, refl)
  IsSerial-snoc db db1 db2 ((j, x) ∷ history) job r h e =
      (h.0, IsSerial-snoc (run_alone j db).1 db1 db2 history job r h.1 e)

  -- what a step leaves: the same storage for a thread that goes on, and the result of the whole for one that ends
  unfoldable pub After : Shared T → Shared T → Job A → Stage A → Type 0
  unfolding Ready run_alone
  After db db' job waiting = db ≡ db'
  After db db' job (reading body) = (db ≡ db') × Ready db job (reading body)
  After db db' job (writing deltas body) = (db ≡ db') × Ready db job (writing deltas body)
  After db db' job (ended r) = run_alone job db ≡ (r, db')

  -- the same of the result of `lock_read` and `lock_write`, and of `advance`, where there is one
  AfterLock : Shared T → Job A → Option (Guards × Stage A) → Type 0
  unfolding After
  AfterLock db job none = Unit
  AfterLock db job (some x) = After db db job x.1

  unfoldable pub AfterStep : Shared T → Job A → Option (Shared T × Guards × Stage A) → Type 0
  unfolding After
  AfterStep db job none = Unit
  AfterStep db job (some (db', g', stage')) = After db db' job stage'

  lock_read-After :
      {n : ℕ} (body : Body Read (Result A) n) (t : T) (poisoned : Bool) (g : Guards)
      → AfterLock
          (record { storage = t; poisoned = poisoned })
          (reader body)
          (lock_read body poisoned g)
  unfolding lock_read AfterLock
  lock_read-After body t poisoned exclusive = tt
  lock_read-After body t true (shared k) = refl
  lock_read-After body t false (shared k) = (refl, refl)

  lock_write-After :
      {n : ℕ} (body : Body Call (End A) n) (t : T) (poisoned : Bool) (g : Guards)
      → AfterLock
          (record { storage = t; poisoned = poisoned })
          (writer body)
          (lock_write num_maps body poisoned g)
  unfolding lock_write AfterLock
  lock_write-After body t poisoned exclusive = tt
  lock_write-After body t poisoned (shared (suc k)) = tt
  lock_write-After body t true (shared zero) = refl
  lock_write-After body t false (shared zero) = (refl, refl)

  AfterLock-Step :
      (db : Shared T) (job : Job A) (o : Option (Guards × Stage A))
      → AfterLock db job o
      → AfterStep db job (elim o [ none ↦ none | some (g', stage) ↦ some (db, g', stage) ])
  unfolding AfterStep AfterLock
  AfterLock-Step db job none h = tt
  AfterLock-Step db job (some (g', stage)) h = h

  pub advance-After :
      (job : Job A) (stage : Stage A) (db : Shared T) (g : Guards)
      → Ready db job stage
      → AfterStep db job (advance core merge num_maps job stage db g)
  unfolding advance AfterStep
  advance-After (reader body) waiting db g h =
      AfterLock-Step db (reader body) _ (lock_read-After body db.storage db.poisoned g)
  advance-After (writer body) waiting db g h =
      AfterLock-Step db (writer body) _ (lock_write-After body db.storage db.poisoned g)
  advance-After job (reading (ending r)) db g h = h
  advance-After job (reading (call c k)) db g h = (refl, h)
  advance-After job (writing deltas (ending r)) db g h = h
  advance-After job (writing deltas (call c k)) db g h = (refl, h)
  advance-After job (ended r) db g h = tt

  pub advance-live :
      (job : Job A) (stage : Stage A) (db : Shared T) (g : Guards) {x : Shared T × Guards × Stage A}
      → advance core merge num_maps job stage db g ≡ some x
      → outcome job stage ≡ []
  unfolding advance
  advance-live job waiting db g e = refl
  advance-live job (reading body) db g e = refl
  advance-live job (writing deltas body) db g e = refl
  advance-live job (ended r) db g e = ground arith

  -- the storage is as it was, or no guard is left
  pub advance-db :
      (job : Job A) (stage : Stage A) (db db' : Shared T) (g g' : Guards) (stage' : Stage A)
      → advance core merge num_maps job stage db g ≡ some (db', g', stage')
      → (db ≡ db') ⊎ (g' ≡ shared 0)
  unfolding advance
  advance-db (reader body) waiting db db' g g' stage' e = inl (ground arith)
  advance-db (writer body) waiting db db' g g' stage' e = inl (ground arith)
  advance-db job (reading (ending r)) db db' g g' stage' e = inl (ground arith)
  advance-db job (reading (call c k)) db db' g g' stage' e = inl (ground arith)
  advance-db job (writing deltas (ending r)) db db' g g' stage' e = inr (ground arith)
  advance-db job (writing deltas (call c k)) db db' g g' stage' e = inl (ground arith)
  advance-db job (ended r) db db' g g' stage' e = ground arith

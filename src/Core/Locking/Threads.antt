-- ===== src/Core/Locking/Threads.antt =====
-- storage/core/src/adaptor/locking/mod.rs, as threads share it: the storage stands behind the `RwLock`, each thread
-- runs one transaction, and the scheduler picks a thread for each step. A step takes the lock, makes one
-- call, or ends the transaction and with it the guard. A commit is one step, since it works behind the write guard.
pub mod Exclusion
pub mod Progress
pub mod Alone
pub mod Serial
pub mod Pair
use rpi4_usb_io_breaker.Base.{
  ℕ, zero, suc, ◌-◌, Bool, true, false, Option, none, some, List, [], ◌∷◌, ◌++◌, get_elem?, set,
  ◌≡◌,
}
use rpi4_usb_io_breaker.Core.Error.{Result, ok, err, panicked}
use rpi4_usb_io_breaker.Core.Types.{DbMapCount, new}
use rpi4_usb_io_breaker.Core.Backend.{CoreOps}
use rpi4_usb_io_breaker.Core.Sessions.{Read, Call, read, put, del, Answer, answer_read, finished}
use rpi4_usb_io_breaker.Core.Locking
use rpi4_usb_io_breaker.Core.Locking.{DeltaMap, TxRo, TxRw, Merge}

-- the rest of a transaction: at most `n` calls, each chosen after the answers to the earlier ones, and then an ending
pub data Body (C E : Type 0) : ℕ → Type 0 where
  ending : {n : ℕ} → E → Body C E n
  call : {n : ℕ} → C → (Result Answer → Body C E n) → Body C E (suc n)

-- How a read-write transaction ends: with `commit`, after which the thread has a result, or dropped. A panic
-- drops it too.
pub data End (A : Type 0) : Type 0 where
  committed : (Result (Unit {0}) → Result A) → End A
  dropped : Result A → End A

pub data Job (A : Type 0) : Type 0 where
  reader : {n : ℕ} → Body Read (Result A) n → Job A
  writer : {n : ℕ} → Body Call (End A) n → Job A

-- where a thread stands; what a guard borrows is behind the lock, and not here
pub data Stage (A : Type 0) : Type 0 where
  waiting : Stage A
  reading : {n : ℕ} → Body Read (Result A) n → Stage A
  writing : {n : ℕ} → List DeltaMap → Body Call (End A) n → Stage A
  ended : Result A → Stage A

pub record Thread (A : Type 0) : Type 0 where
  pub job : Job A
  pub stage : Stage A

-- the guards that there are: `RwLockReadGuard`s, or one `RwLockWriteGuard`
pub data Guards : Type 0 where
  shared : ℕ → Guards
  exclusive : Guards

-- the storage behind the lock, and whether a panic left the lock poisoned
pub record Shared (T : Type 0) : Type 0 where
  pub storage : T
  pub poisoned : Bool

pub record System (T A : Type 0) : Type 0 where
  pub db : Shared T
  pub guards : Guards
  pub threads : List (Thread A)

abbrev pub is_panic {ℓ} : {A : Type ℓ} → Result A → Bool
is_panic (ok a) = false
is_panic (err e) = false
is_panic panicked = true

-- a panic in `commit` unwinds the thread
abbrev pub after_commit {ℓ} :
    {A : Type ℓ} → (Result (Unit {0}) → Result A) → Result (Unit {0}) → Result A
after_commit k (ok u) = k (ok u)
after_commit k (err e) = k (err e)
after_commit k panicked = panicked

module _ {A : Type 0} where
  -- `self.db.read().expect(..)`: waits for the writer, and panics where the lock is poisoned
  unfoldable pub lock_read :
      {n : ℕ} → Body Read (Result A) n → Bool → Guards → Option (Guards × Stage A)
  lock_read body poisoned exclusive = none
  lock_read body true (shared n) = some (shared n, ended panicked)
  lock_read body false (shared n) = some (shared (suc n), reading body)

  -- `self.db.write().expect(..)`: waits for every guard
  unfoldable pub lock_write :
      DbMapCount → {n : ℕ} → Body Call (End A) n → Bool → Guards → Option (Guards × Stage A)
  lock_write num_maps body poisoned exclusive = none
  lock_write num_maps body poisoned (shared (suc n)) = none
  lock_write num_maps body true (shared zero) = some (shared zero, ended panicked)
  lock_write num_maps body false (shared zero) =
      some (exclusive, writing (new num_maps (λ i. [])) body)

  -- the transaction that a step ended, with its result
  abbrev pub outcome : Job A → Stage A → List (Job A × Result A)
  outcome job waiting = []
  outcome job (reading body) = []
  outcome job (writing deltas body) = []
  outcome job (ended r) = (job, r) ∷ []

-- a read guard dropped
abbrev pub release_read : Guards → Guards
release_read (shared n) = shared (n - 1)
release_read exclusive = exclusive

module _ {From T : Type 0} (core : CoreOps From T) (merge : Merge) where
  -- one call inside a read-write transaction
  unfoldable pub answer : Call → TxRw T → Result Answer × TxRw T
  answer (read r) tx = (answer_read (Locking.rw_ops core merge) tx r, tx)
  answer (put i k v) tx = let (r, tx') = Locking.put i k v tx in (finished r, tx')
  answer (del i k) tx = let (r, tx') = Locking.del i k tx in (finished r, tx')

module _ {From T A : Type 0} (core : CoreOps From T) (merge : Merge) (num_maps : DbMapCount) where
  -- the end of a read-write transaction, on what is behind the lock: a panic in it poisons the lock
  unfoldable pub end_rw : End A → List DeltaMap → T → Result A × Shared T
  end_rw (committed k) deltas t =
      let (r, t') = Locking.commit core (record { db = t; deltas = deltas }) in
      (after_commit k r, record { storage = t'; poisoned = is_panic r })
  end_rw (dropped r) deltas t = (r, record { storage = t; poisoned = is_panic r })

  -- the next step of a thread, if it has one: what is behind the lock, the guards and the thread after it
  unfoldable pub advance :
      Job A → Stage A → Shared T → Guards → Option (Shared T × Guards × Stage A)
  unfolding lock_read lock_write answer end_rw
  advance (reader body) waiting db g = elim (lock_read body db.poisoned g) [
    | none ↦ none
    | some (g', stage) ↦ some (db, g', stage)
  ]
  advance (writer body) waiting db g = elim (lock_write num_maps body db.poisoned g) [
    | none ↦ none
    | some (g', stage) ↦ some (db, g', stage)
  ]
  advance job (reading (ending r)) db g = some (db, release_read g, ended r)
  advance job (reading (call c k)) db g =
      some (db, g, reading (k (answer_read (Locking.ro_ops core) (record { db = db.storage }) c)))
  advance job (writing deltas (ending e)) db g =
      let (r, db') = end_rw e deltas db.storage in some (db', shared 0, ended r)
  advance job (writing deltas (call c k)) db g =
      let (a, tx) = answer core merge c (record { db = db.storage; deltas = deltas }) in
      some (db, g, writing tx.deltas (k a))
  advance job (ended r) db g = none

  -- one step of the thread `i`
  pub data Step (s : System T A) : List (Job A × Result A) → System T A → Type 0 where
    step :
        (i : ℕ) (th : Thread A) (db : Shared T) (g : Guards) (stage : Stage A)
        → get_elem? s.threads i ≡ some th
        → advance th.job th.stage s.db s.guards ≡ some (db, g, stage)
        → Step s (outcome th.job stage) (record {
          db = db;
          guards = g;
          threads = set s.threads i (record { job = th.job; stage = stage });
        })

  -- a run, with the transactions that ended in it in the order in which they did
  pub data Run (s : System T A) : List (Job A × Result A) → System T A → Type 0 where
    here : Run s [] s
    next :
        {history more : List (Job A × Result A)} {s1 s2 : System T A}
        → Run s history s1
        → Step s1 more s2
        → Run s (history ++ more) s2

module _ {A : Type 0} where
  abbrev pub wait_all : List (Job A) → List (Thread A)
  wait_all [] = []
  wait_all (job ∷ jobs) = record { job = job; stage = waiting } ∷ wait_all jobs

  -- the lock is free, and no thread has started its transaction
  abbrev pub start : {T : Type 0} → T → List (Job A) → System T A
  start t jobs = record {
    db = record { storage = t; poisoned = false };
    guards = shared 0;
    threads = wait_all jobs;
  }

  abbrev pub IsEnded : Thread A → Type 0
  IsEnded th = (r : Result A) × (th.stage ≡ ended r)

-- ===== src/Core/Sessions.antt =====
-- What a client of a backend sees: sessions, each one transaction after the other, with the answer to every call.
-- The same sessions on the abstract database are the specification.
pub mod Refines
use rpi4_usb_io_breaker.Base.{Option, none, some, List, [], ◌∷◌, get_elem?, length, All, ◌<◌}
use rpi4_usb_io_breaker.Base.Ord.{list_ord}
use rpi4_usb_io_breaker.BTreeMap
use rpi4_usb_io_breaker.Core.Data.{Data}
use rpi4_usb_io_breaker.Core.Error.{Result, ok, err, panicked, ◌>>=◌}
use rpi4_usb_io_breaker.Core.Types.{DbMapId}
use rpi4_usb_io_breaker.Core.Util.Collect.{with_prefix}
use rpi4_usb_io_breaker.Core.Backend.{ReadOps, Backend}
use rpi4_usb_io_breaker.Core.Contract.{Db, db_put, db_del}

pub data Read : Type 0 where
  get : DbMapId → Data → Read
  prefix_iter : DbMapId → Data → Read

pub data Call : Type 0 where
  read : Read → Call
  put : DbMapId → Data → Data → Call
  del : DbMapId → Data → Call

-- a transaction: read-only, or read-write and then committed, or read-write and then dropped
pub data Session : Type 0 where
  read_only : List Read → Session
  committed : List Call → Session
  dropped : List Call → Session

pub data Answer : Type 0 where
  value : Option Data → Answer
  items : List (Data × Data) → Answer
  done : Answer

abbrev pub Answers : Type 0
Answers = List (Result Answer)

module _ {T : Type 0} (ops : ReadOps T) where
  unfoldable pub answer_read : T → Read → Result Answer
  answer_read t (get i k) = do x ← ops.get t i k; ok (value x)
  answer_read t (prefix_iter i p) = do l ← ops.prefix_iter t i p; ok (items l)

  pub answer_reads : T → List Read → Answers
  unfolding answer_read
  answer_reads t [] = []
  answer_reads t (r ∷ reads) = answer_read t r ∷ answer_reads t reads

abbrev pub finished : Result (Unit {0}) → Result Answer
finished r = r >>= λ _. ok done

module _ (b : Backend) where
  pub answer_call : Call → b.TxRw → Result Answer × b.TxRw
  unfolding answer_read
  answer_call (read r) tx = (answer_read b.rw tx r, tx)
  answer_call (put i k v) tx = let (r, tx') = b.write.put i k v tx in (finished r, tx')
  answer_call (del i k) tx = let (r, tx') = b.write.del i k tx in (finished r, tx')

  pub answer_calls : List Call → b.TxRw → Answers × b.TxRw
  unfolding answer_call
  answer_calls [] tx = ([], tx)
  answer_calls (c ∷ calls) tx =
      let (a, tx') = answer_call c tx in let (rest, tx2) = answer_calls calls tx' in (a ∷ rest, tx2)

  -- a transaction that does not start has one answer, and leaves the storage to the next session
  pub run_session : Session → b.Impl → Answers × b.Impl
  unfolding answer_reads answer_calls
  run_session (read_only reads) s = elim (b.transaction_ro s) [
    | ok tx ↦ (answer_reads b.ro tx reads, b.drop_ro tx)
    | err e ↦ (err e ∷ [], s)
    | panicked ↦ (panicked ∷ [], s)
  ]
  run_session (committed calls) s = elim (b.transaction_rw none s) [
    | ok tx ↦
        let (answers, tx') = answer_calls calls tx in
        let (r, s') = b.commit tx' in (finished r ∷ answers, s')
    | err e ↦ (err e ∷ [], s)
    | panicked ↦ (panicked ∷ [], s)
  ]
  run_session (dropped calls) s = elim (b.transaction_rw none s) [
    | ok tx ↦ let (answers, tx') = answer_calls calls tx in (answers, b.drop_rw tx')
    | err e ↦ (err e ∷ [], s)
    | panicked ↦ (panicked ∷ [], s)
  ]

  pub run_sessions : List Session → b.Impl → List Answers × b.Impl
  unfolding run_session
  run_sessions [] s = ([], s)
  run_sessions (x ∷ sessions) s =
      let (answers, s') = run_session x s in
      let (rest, s2) = run_sessions sessions s' in (answers ∷ rest, s2)

-- The specification: each call is answered from the database, and changes it if it writes.
abbrev pub spec_read : Read → Db → Result Answer
spec_read (get i k) d = elim (get_elem? d i) [
  | none ↦ panicked
  | some m ↦ ok (value (BTreeMap.get k m))
]
spec_read (prefix_iter i p) d = elim (get_elem? d i) [
  | none ↦ panicked
  | some m ↦ ok (items (with_prefix p m))
]

abbrev pub spec_reads : List Read → Db → Answers
spec_reads [] d = []
spec_reads (r ∷ reads) d = spec_read r d ∷ spec_reads reads d

abbrev pub spec_call : Call → Db → Result Answer × Db
spec_call (read r) d = (spec_read r d, d)
spec_call (put i k v) d = (ok done, db_put i k v d)
spec_call (del i k) d = (ok done, db_del i k d)

abbrev pub spec_calls : List Call → Db → Answers × Db
spec_calls [] d = ([], d)
spec_calls (c ∷ calls) d =
    let (a, d') = spec_call c d in let (rest, d2) = spec_calls calls d' in (a ∷ rest, d2)

-- A commit keeps the changes of its session, a drop forgets them.
abbrev pub spec_session : Session → Db → Answers × Db
spec_session (read_only reads) d = (spec_reads reads d, d)
spec_session (committed calls) d = let (answers, d') = spec_calls calls d in (ok done ∷ answers, d')
spec_session (dropped calls) d = let (answers, d') = spec_calls calls d in (answers, d)

abbrev pub spec_sessions : List Session → Db → List Answers
spec_sessions [] d = []
spec_sessions (x ∷ sessions) d =
    let (answers, d') = spec_session x d in answers ∷ spec_sessions sessions d'

-- every map id that the client names is one of the first `n`
abbrev pub ReadIn : DbMapId → Read → Type 0
ReadIn n (get i k) = i < n
ReadIn n (prefix_iter i p) = i < n

abbrev pub CallIn : DbMapId → Call → Type 0
CallIn n (read r) = ReadIn n r
CallIn n (put i k v) = i < n
CallIn n (del i k) = i < n

abbrev pub SessionIn : DbMapId → Session → Type 0
SessionIn n (read_only reads) = All (ReadIn n) reads
SessionIn n (committed calls) = All (CallIn n) calls
SessionIn n (dropped calls) = All (CallIn n) calls

-- every key that the client names is one that the backend takes
module _ (IsKey : Data → Type 0) where
  abbrev pub ReadKeys : Read → Type 0
  ReadKeys (get i k) = IsKey k
  ReadKeys (prefix_iter i p) = Unit

  abbrev pub CallKeys : Call → Type 0
  CallKeys (read r) = ReadKeys r
  CallKeys (put i k v) = IsKey k
  CallKeys (del i k) = IsKey k

  abbrev pub SessionKeys : Session → Type 0
  SessionKeys (read_only reads) = All ReadKeys reads
  SessionKeys (committed calls) = All CallKeys calls
  SessionKeys (dropped calls) = All CallKeys calls

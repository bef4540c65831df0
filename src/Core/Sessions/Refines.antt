-- ===== src/Core/Sessions/Refines.antt =====
-- Over a backend that keeps the contract, the sessions of a client are answered as the specification says.
use rpi4_usb_io_breaker.Base.{
  none, List, [], ◌∷◌, length, All, ◌≡◌, refl, ◌∙◌, get_elem?-of_lt, length-replicate,
}
use rpi4_usb_io_breaker.Base.Ord.{list_ord}
use rpi4_usb_io_breaker.Core.Data.{Data}
use rpi4_usb_io_breaker.Core.Error.{ok}
use rpi4_usb_io_breaker.Core.Types.{DbMapId, DbDesc, db_map_count}
use rpi4_usb_io_breaker.Core.Backend.{ReadOps, Backend}
use rpi4_usb_io_breaker.Core.Contract.{Db, empty_db, BackendLaws, TransactionLaws, transactions}
use rpi4_usb_io_breaker.Core.Contract.Keyed.{KeyedReads, KeyedLaws, AnyKey, keyed}
use rpi4_usb_io_breaker.Core.Contract.Modify.{length-modify}
use rpi4_usb_io_breaker.Core.Sessions.{
  Read, get, prefix_iter, Call, read, put, del, Session, read_only, committed, dropped, answer_read,
  answer_reads, answer_call, answer_calls, run_session, run_sessions, spec_read, spec_reads,
  spec_call, spec_calls, spec_session, spec_sessions, ReadIn, CallIn, SessionIn, ReadKeys, CallKeys,
  SessionKeys,
}

module _ {IsKey : Data → Type 0} {T : Type 0} {ops : ReadOps T} {Repr : T → Db → Type 0}
    (laws : KeyedReads IsKey ops Repr) where
  answer_read_lem :
      (t : T) (d : Db) (r : Read)
      → Repr t d
      → ReadIn (length d) r
      → ReadKeys IsKey r
      → answer_read ops t r ≡ spec_read r d
  unfolding answer_read
  answer_read_lem t d (get i k) r h key =
      let (m, e) = get_elem?-of_lt d i h in rw (laws.get_lem t d i m k r e key, spec_read, e) refl
  answer_read_lem t d (prefix_iter i p) r h key =
      let (m, e) = get_elem?-of_lt d i h in
      rw (laws.prefix_iter_lem t d i m p r e, spec_read, e) refl

  answer_reads_lem :
      (t : T) (d : Db) (reads : List Read)
      → Repr t d
      → All (ReadIn (length d)) reads
      → All (ReadKeys IsKey) reads
      → answer_reads ops t reads ≡ spec_reads reads d
  unfolding answer_reads
  answer_reads_lem t d [] r h keys = refl
  answer_reads_lem t d (x ∷ reads) r h keys =
      rw (answer_read_lem t d x r h.0 keys.0, answer_reads_lem t d reads r h.1 keys.1) refl

module _ {IsKey : Data → Type 0} (b : Backend) (laws : KeyedLaws IsKey b) where
  -- an answer, and the database that the transaction then stands for, are the specification's
  answer_call_lem :
      (base : Db) (c : Call) (tx : b.TxRw) (d : Db)
      → laws.ReprRw base tx d
      → CallIn (length d) c
      → CallKeys IsKey c
      → ((answer_call b c tx).0 ≡ (spec_call c d).0)
        × laws.ReprRw base (answer_call b c tx).1 (spec_call c d).1
        × (length (spec_call c d).1 ≡ length d)
  unfolding answer_call
  answer_call_lem base (read x) tx d r h key =
      (answer_read_lem (laws.rw_reads base) tx d x r h key, r, refl)
  answer_call_lem base (put i k v) tx d r h key =
      let (e, r') = (laws.rw_writes base).put_lem tx d i k v r h key in
      (rw e refl, r', length-modify _ i d)
  answer_call_lem base (del i k) tx d r h key =
      let (e, r') = (laws.rw_writes base).del_lem tx d i k r h key in
      (rw e refl, r', length-modify _ i d)

  answer_calls_lem :
      (base : Db) (n : DbMapId) (calls : List Call) (tx : b.TxRw) (d : Db)
      → laws.ReprRw base tx d
      → length d ≡ n
      → All (CallIn n) calls
      → All (CallKeys IsKey) calls
      → ((answer_calls b calls tx).0 ≡ (spec_calls calls d).0)
        × laws.ReprRw base (answer_calls b calls tx).1 (spec_calls calls d).1
        × (length (spec_calls calls d).1 ≡ n)
  unfolding answer_calls
  answer_calls_lem base n [] tx d r e h keys = (refl, r, e)
  answer_calls_lem base n (c ∷ calls) tx d r e h keys =
      let (e1, r1, l1) = answer_call_lem base c tx d r (rw e (h.0)) keys.0 in
      let (e2, r2, l2) =
        answer_calls_lem base n calls (answer_call b c tx).1 (spec_call c d).1 r1 (l1 ∙ e) h.1
          keys.1 in
      (rw (e1, e2) refl, r2, l2)

  run_session_lem :
      (n : DbMapId) (x : Session) (s : b.Impl) (d : Db)
      → laws.Repr s d
      → length d ≡ n
      → SessionIn n x
      → SessionKeys IsKey x
      → ((run_session b x s).0 ≡ (spec_session x d).0)
        × laws.Repr (run_session b x s).1 (spec_session x d).1
        × (length (spec_session x d).1 ≡ n)
  unfolding run_session
  run_session_lem n (read_only reads) s d r e h keys =
      let (tx, started, r1) = laws.ro_lem s d r in
      rw (started, run_session)
        (answer_reads_lem laws.ro_reads tx d reads r1 (rw e h) keys, laws.drop_ro_lem tx d r1, e)
  run_session_lem n (committed calls) s d r e h keys =
      let (tx, started, r1) = laws.rw_lem none s d r in
      let (e2, r2, l2) = answer_calls_lem d n calls tx d r1 e h keys in
      let (e3, r3) = laws.commit_lem (answer_calls b calls tx).1 d (spec_calls calls d).1 r2 in
      rw (started, run_session) (rw (e3, e2) refl, r3, l2)
  run_session_lem n (dropped calls) s d r e h keys =
      let (tx, started, r1) = laws.rw_lem none s d r in
      let (e2, r2, l2) = answer_calls_lem d n calls tx d r1 e h keys in
      rw (started, run_session)
        (e2, laws.drop_rw_lem (answer_calls b calls tx).1 d (spec_calls calls d).1 r2, e)

  pub run_sessions-keyed :
      (n : DbMapId) (sessions : List Session) (s : b.Impl) (d : Db)
      → laws.Repr s d
      → length d ≡ n
      → All (SessionIn n) sessions
      → All (SessionKeys IsKey) sessions
      → (run_sessions b sessions s).0 ≡ spec_sessions sessions d
  unfolding run_sessions
  run_sessions-keyed n [] s d r e h keys = refl
  run_sessions-keyed n (x ∷ sessions) s d r e h keys =
      let (e1, r1, l1) = run_session_lem n x s d r e h.0 keys.0 in
      let rest =
        run_sessions-keyed n sessions (run_session b x s).1 (spec_session x d).1 r1 l1 h.1 keys.1 in
      rw (e1, rest) refl

-- where every key is one
reads_any : (reads : List Read) → All (ReadKeys AnyKey) reads
reads_any [] = tt
reads_any (get i k ∷ reads) = (tt, reads_any reads)
reads_any (prefix_iter i p ∷ reads) = (tt, reads_any reads)

calls_any : (calls : List Call) → All (CallKeys AnyKey) calls
calls_any [] = tt
calls_any (read (get i k) ∷ calls) = (tt, calls_any calls)
calls_any (read (prefix_iter i p) ∷ calls) = (tt, calls_any calls)
calls_any (put i k v ∷ calls) = (tt, calls_any calls)
calls_any (del i k ∷ calls) = (tt, calls_any calls)

sessions_any : (sessions : List Session) → All (SessionKeys AnyKey) sessions
sessions_any [] = tt
sessions_any (read_only reads ∷ sessions) = (reads_any reads, sessions_any sessions)
sessions_any (committed calls ∷ sessions) = (calls_any calls, sessions_any sessions)
sessions_any (dropped calls ∷ sessions) = (calls_any calls, sessions_any sessions)

pub run_sessions_lem :
    (b : Backend) (laws : TransactionLaws b) (n : DbMapId) (sessions : List Session) (s : b.Impl)
    (d : Db)
    → laws.Repr s d
    → length d ≡ n
    → All (SessionIn n) sessions
    → (run_sessions b sessions s).0 ≡ spec_sessions sessions d
run_sessions_lem b laws n sessions s d r e h =
    run_sessions-keyed b (keyed laws) n sessions s d r e h (sessions_any sessions)

module _ (b : Backend) (laws : BackendLaws b) where
  -- A backend that keeps the contract opens, and then answers every call of every session, on map ids
  -- that there are, as the abstract database does.
  pub run_sessions_refines :
      (desc : DbDesc) (sessions : List Session)
      → All (SessionIn (db_map_count desc.map_descs)) sessions
      → (s : b.Impl) × (b.open_db desc ≡ ok s)
        × ((run_sessions b sessions s).0 ≡ spec_sessions sessions (empty_db desc))
  run_sessions_refines desc sessions h =
      let (s, opened, r) = laws.open_lem desc in
      let n = db_map_count desc.map_descs in
      (
        s,
        opened,
        run_sessions_lem b (transactions laws) n sessions s (empty_db desc) r
            (length-replicate n []) h,
      )

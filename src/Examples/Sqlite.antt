-- ===== src/Examples/Sqlite.antt =====
-- A small SQLite that behaves as documented, with one table, and the theorems over it.
use rpi4_usb_io_breaker.Base.{
  ℕ, Bool, true, false, ◌==◌, ◌&&◌, Option, none, some, List, [], ◌∷◌, ◌≡◌, refl, ◌⊎◌,
  if◌then◌else◌, ap, arith, All,
}
use rpi4_usb_io_breaker.Base.Ord.{list_ord}
use rpi4_usb_io_breaker.BTreeMap
use rpi4_usb_io_breaker.Core.Data.{Data}
use rpi4_usb_io_breaker.Core.Error.{Str, Fatal, ok, err, fatal_error}
use rpi4_usb_io_breaker.Core.Contract.{Map}
use rpi4_usb_io_breaker.Sqlite.Queries.{from_name, create_table_query}
use rpi4_usb_io_breaker.Sqlite.Driver.{
  SqlError, other_error, SqlResult, done, failed, Driver, begin_transaction, commit_transaction,
  rollback_transaction, table_exists, begin_exclusive, commit_text,
}
use rpi4_usb_io_breaker.Sqlite.Transaction.{DbTx, commit, SqliteImpl}
use rpi4_usb_io_breaker.Sqlite.Open.{file, Sqlite, open_sqlite, sqlite_backend, create_missing}
use rpi4_usb_io_breaker.Sqlite.Tables.{CreateLaws, create_missing_lem}
use rpi4_usb_io_breaker.Sqlite.Laws.{Tables, set_table, rows_of, DriverLaws, StatementLaws}
use rpi4_usb_io_breaker.Sqlite.Atomic.{commit_atomic}
use rpi4_usb_io_breaker.Sqlite.Opens.{ConnectLaws, open_sqlite_refines}
use rpi4_usb_io_breaker.Core.Types.{DbDesc, db_map_count}
use rpi4_usb_io_breaker.Core.Sessions
use rpi4_usb_io_breaker.Core.Sessions.{
  Session, read_only, committed, dropped, put, del, run_sessions, spec_sessions,
}

abbrev table : Str
table = 109 ∷ []

record Conn : Type 0 where
  stored : Tables
  current : Option Tables

data Stmt : Type 0 where
  select select_all insert delete exists : Stmt

abbrev E : Type 0
E = SqlError ℕ ℕ

same_text : Str → Str → Bool
same_text [] [] = true
same_text (a ∷ s) (b ∷ t) = (a == b) && same_text s t
same_text s t = false

begin_now : Conn → SqlResult E (Unit {0}) × Conn
begin_now c = elim (c.current) [
  | none ↦ (done tt, record { stored = c.stored; current = some c.stored })
  | some t ↦ (failed (other_error 1), c)
]

commit_now : Conn → SqlResult E (Unit {0}) × Conn
commit_now c = elim (c.current) [
  | none ↦ (failed (other_error 2), c)
  | some t ↦ (done tt, record { stored = t; current = none })
]

create_now : Conn → SqlResult E (Unit {0}) × Conn
create_now c = (done tt, record { stored = set_table table [] c.stored; current = c.current })

run_text : Str → Conn → SqlResult E (Unit {0}) × Conn
unfolding same_text begin_now commit_now create_now create_table_query
run_text text c =
    if same_text text begin_transaction
    then begin_now c
    else if same_text text commit_transaction
    then commit_now c
    else if same_text text begin_exclusive
    then begin_now c
    else if same_text text commit_text
    then commit_now c
    else if same_text text rollback_transaction
    then (done tt, record { stored = c.stored; current = none })
    else if same_text text (create_table_query table)
    then create_now c
    else (failed (other_error 3), c)

prepare : Str → SqlResult E Stmt
unfolding same_text from_name
prepare text =
    if same_text text (from_name table).get_query
    then done select
    else if same_text text (from_name table).prefix_iter_query
    then done select_all
    else if same_text text (from_name table).put_query
    then done insert
    else if same_text text (from_name table).delete_query
    then done delete
    else if same_text text table_exists
    then done exists
    else failed (other_error 4)

-- the table as a statement sees it
current_map : Conn → Map
current_map c = elim (c.current) [ none ↦ [] | some t ↦ elim (t table) [ none ↦ [] | some m ↦ m ] ]

named_table : Option Map → Data → Option Data
named_table none n = none
named_table (some m) n = some n

query_one : Stmt → Data → Conn → SqlResult E (Option Data)
unfolding current_map named_table
query_one select k c = done (BTreeMap.get k (current_map c))
query_one select_all k c = failed (other_error 7)
query_one insert k c = failed (other_error 7)
query_one delete k c = failed (other_error 7)
query_one exists k c = done (named_table (c.stored k) k)

change : (Map → Map) → Conn → SqlResult E (Unit {0}) × Conn
unfolding current_map
change f c = elim (c.current) [
  | none ↦ (failed (other_error 5), c)
  | some t ↦ (
    done tt,
    record { stored = c.stored; current = some (set_table table (f (current_map c)) t) },
  )
]

run_stmt : Stmt → List Data → Conn → SqlResult E (Unit {0}) × Conn
unfolding change
run_stmt insert (k ∷ v ∷ []) c = change (BTreeMap.insert k v) c
run_stmt delete (k ∷ []) c = change (BTreeMap.remove k) c
run_stmt stmt params c = (failed (other_error 6), c)

is_none : Option Tables → Bool
is_none none = true
is_none (some t) = false

abbrev before : Tables
before = λ n. some []

abbrev after : Tables
after = λ n. some ((1 ∷ [], 2 ∷ []) ∷ [])

small : Driver
unfolding run_text prepare current_map run_stmt is_none query_one
small = record {
  Failure = ℕ;
  Other = ℕ;
  failure_text = λ n. n ∷ [];
  other_text = λ n. n ∷ [];
  Connection = Conn;
  Statement = Stmt;
  execute = run_text;
  prepare_cached = λ text c. prepare text;
  query_row = query_one;
  query = λ stmt c. done (rows_of (current_map c));
  execute_statement = run_stmt;
  is_autocommit = λ c. is_none c.current;
  pragma_update = λ name value c. (done tt, c);
  set_capacity = λ n c. c;
  open_in_memory = done (record { stored = λ n. none; current = none });
  open_file = λ path. done (record { stored = after; current = none });
}

small-laws : DriverLaws small
unfolding small
small-laws = record {
  Open = λ c t. c ≡ record { stored = t; current = none };
  InTx = λ c base t. c ≡ record { stored = base; current = some t };
  autocommit_open = λ c t r. rw r refl;
  autocommit_tx = λ c base t r. rw r refl;
  begin_done = λ c t r h. rw r refl;
  commit_done = λ c base t r h. rw r refl;
  commit_failed = λ c base t e r h. let impossible : done tt ≡ failed e = rw r at h in ground arith;
  rollback_lem = λ c base t r. rw r refl;
}

current_map_lem :
    (c : Conn) (base t : Tables) (n : Str) (m : Map)
    → c ≡ record { stored = base; current = some t }
    → n ≡ table
    → t n ≡ some m
    → current_map c ≡ m
unfolding current_map
current_map_lem c base t n m r name shown =
    let at_table : t table ≡ some m = rw name at shown in rw (r, current_map, at_table) refl

changed_at :
    (f : Map → Map) (base t : Tables) (m : Map)
    → t table ≡ some m
    → change f (record { stored = base; current = some t })
      ≡ (done tt, record { stored = base; current = some (set_table table (f m) t) })
unfolding change current_map
changed_at f base t m e = rw e refl

changed :
    (f : Map → Map) (c : Conn) (base t : Tables) (n : Str) (m : Map)
    → c ≡ record { stored = base; current = some t }
    → n ≡ table
    → t n ≡ some m
    → change f c ≡ (done tt, record { stored = base; current = some (set_table n (f m) t) })
changed f c base t n m r name shown = rw (r, name) (changed_at f base t m (rw name at shown))

works : StatementLaws small small-laws (λ n. n ≡ table)
unfolding small small-laws
works = record {
  begin_works = λ c t r. rw r refl;
  commit_works = λ c base t r. rw r refl;
  get_works = λ c base t n m k r name shown. (
    select,
    rw name refl,
    ap (λ (x : Map). done (BTreeMap.get k x)) (current_map_lem c base t n m r name shown),
  );
  iter_works = λ c base t n m r name shown. (
    select_all,
    rw name refl,
    ap (λ (x : Map). done (rows_of x)) (current_map_lem c base t n m r name shown),
  );
  put_works = λ c base t n m k v r name shown.
      let e = changed (BTreeMap.insert k v) c base t n m r name shown in
      (insert, rw name refl, rw e refl, rw e refl);
  del_works = λ c base t n m k r name shown.
      let e = changed (BTreeMap.remove k) c base t n m r name shown in
      (delete, rw name refl, rw e refl, rw e refl);
}

open_tx : DbTx small
unfolding small
open_tx = record {
  connection = record { stored = before; current = some after };
  queries = from_name table ∷ [];
}

open_tx-InTx : small-laws.InTx open_tx.connection before after
unfolding small-laws open_tx
open_tx-InTx = refl

commit_atomic_example :
    (((commit small open_tx).0 ≡ ok tt) × small-laws.Open (commit small open_tx).1 after)
    ⊎ ((f : Fatal) × ((commit small open_tx).0 ≡ err (fatal_error f))
        × small-laws.Open (commit small open_tx).1 before)
commit_atomic_example = commit_atomic small small-laws open_tx before after open_tx-InTx

found_name :
    (o : Option Map) (n : Data) → named_table o n ≡ (elim o [ none ↦ none | some _ ↦ some n ])
unfolding named_table
found_name none n = refl
found_name (some m) n = refl

creates : CreateLaws small small-laws (λ n. n ≡ table)
unfolding small small-laws
creates = record {
  exists_works = λ c t stmt n r p.
      let same : exists ≡ stmt = ground arith in
      rw (← same) (rw r (ap (λ (x : Option Data). done x) (found_name (t n) n)));
  create_works = λ c t n r name missing. (rw name refl, rw (name, r) refl);
  prepare_stays = λ c t stmt n r p. p;
}

fresh : small.Connection
unfolding small
fresh = record { stored = λ n. none; current = none }

the_stmt : small.Statement
unfolding small
the_stmt = exists

fresh-Open : small-laws.Open fresh (λ n. none)
unfolding small-laws fresh
fresh-Open = refl

prepared : small.prepare_cached table_exists fresh ≡ done the_stmt
unfolding small the_stmt
prepared = refl

create_missing_lem_example :
    ((create_missing small the_stmt (table ∷ []) fresh).0 ≡ done tt)
    × (t' : Tables) × small-laws.Open (create_missing small the_stmt (table ∷ []) fresh).1 t'
    × All (λ n. t' n ≡ some []) (table ∷ [])
create_missing_lem_example =
    create_missing_lem small small-laws (λ n. n ≡ table) creates (table ∷ []) the_stmt fresh
      (λ n. none) fresh-Open prepared (refl, tt)

-- a file holds one entry
connects : ConnectLaws small small-laws (λ path t. t ≡ after)
unfolding small small-laws
connects = record {
  in_memory_works = (record { stored = λ n. none; current = none }, refl, refl);
  file_works = λ path t e. (record { stored = after; current = none }, refl, rw e refl);
  pragma_works = λ name value c t r. (refl, r);
  exclusive_works = λ c t r. (rw r refl, rw r refl);
  commit_text_works = λ c base t r. (rw r refl, rw r refl);
  exists_prepares = λ c t r. (exists, refl);
  capacity_stays = λ n c t r. r;
}

abbrev in_file : Sqlite
in_file = record { backend = file []; disable_fsync = false }

abbrev one_table : DbDesc
one_table = record { map_descs = record { name = table; value_size_hint = (0, 0) } ∷ [] }

abbrev sessions : List Session
sessions =
    committed (put 0 (3 ∷ []) (4 ∷ []) ∷ [])
    ∷ dropped (del 0 (3 ∷ []) ∷ [])
    ∷ read_only (Sessions.get 0 (3 ∷ []) ∷ Sessions.prefix_iter 0 [] ∷ [])
    ∷ []

open_sqlite_refines_example :
    (s : SqliteImpl small) × (open_sqlite small (λ path. some []) (λ path. none) in_file one_table
      ≡ ok s)
    × ((run_sessions
          (sqlite_backend small (λ path. some []) (λ path. none) [] in_file)
          sessions
          s).0
        ≡ spec_sessions sessions (((1 ∷ [], 2 ∷ []) ∷ []) ∷ []))
unfolding db_map_count
open_sqlite_refines_example =
    open_sqlite_refines small small-laws (λ n. n ≡ table) creates connects works (λ path. some [])
      (λ path. none) [] in_file one_table sessions after refl ([], refl, refl) (tt, tt) (refl, tt)
      (omega arith)

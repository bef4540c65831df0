-- ===== src/Sqlite/Tables.antt =====
-- Opening creates the tables that are missing.
use rpi4_usb_io_breaker.Base.{
  Option, none, some, List, [], ◌∷◌, All, All-imp, ◌≡◌, refl, ◌∙◌, ◌≢◌, arith, inl, inr,
  Option-cases,
}
use rpi4_usb_io_breaker.Core.Error.{Str}
use rpi4_usb_io_breaker.Core.Contract.{Map}
use rpi4_usb_io_breaker.Sqlite.Queries.{create_table_query}
use rpi4_usb_io_breaker.Sqlite.Driver.{done, Driver, table_exists}
use rpi4_usb_io_breaker.Sqlite.Open.{create_missing}
use rpi4_usb_io_breaker.Sqlite.Laws.{Str-discrete, Tables, set_table, DriverLaws}
use rpi4_usb_io_breaker.Sqlite.Shown.{set_table_self, set_table_other}

-- The statements with which the tables are found and created, where none fails.
pub record CreateLaws (d : Driver) (laws : DriverLaws d) (IsName : Str → Type 0) : Type 1 where
  pub exists_works :
      (c : d.Connection) (t : Tables) (stmt : d.Statement) (n : Str)
      → laws.Open c t
      → d.prepare_cached table_exists c ≡ done stmt
      → d.query_row stmt n c ≡ done (elim (t n) [ none ↦ none | some _ ↦ some n ])
  pub create_works :
      (c : d.Connection) (t : Tables) (n : Str)
      → laws.Open c t
      → IsName n
      → t n ≡ none
      → ((d.execute (create_table_query n) c).0 ≡ done tt)
        × laws.Open (d.execute (create_table_query n) c).1 (set_table n [] t)
  -- a statement serves every connection that the same code goes on with
  pub prepare_stays :
      (c : d.Connection) (t : Tables) (stmt : d.Statement) (n : Str)
      → laws.Open c t
      → d.prepare_cached table_exists c ≡ done stmt
      → d.prepare_cached table_exists (d.execute (create_table_query n) c).1 ≡ done stmt

-- the map in a table, or the empty map of a table that is to be created
abbrev pub or_empty : Option Map → Option Map
or_empty none = some []
or_empty (some m) = some m

or_empty_lem :
    (t : Tables) (n n' : Str) → t n ≡ none → or_empty (set_table n [] t n') ≡ or_empty (t n')
or_empty_lem t n n' h = go (Str-discrete n n')
  where
    go :
        (x : Dec (n ≡ n'))
        → or_empty (elim x as (λ _. Option Map) [ yes _ ↦ some [] | no _ ↦ t n' ]) ≡ or_empty (t n')
    go (yes e) = let missing : t n' ≡ none = rw e at h in rw missing refl
    go (no _) = refl

apart : (t : Tables) (n n' : Str) (m : Map) → t n ≡ none → t n' ≡ some m → n ≢ n'
apart t n n' m missing there same = let gone : t n' ≡ none = rw same at missing in ground arith

module _ (d : Driver) (laws : DriverLaws d) (IsName : Str → Type 0)
    (works : CreateLaws d laws IsName) where
  record Created (names : List Str) (t : Tables) (c : d.Connection) : Type 0 where
    tables : Tables
    connected : laws.Open c tables
    kept : (n : Str) (m : Map) → t n ≡ some m → tables n ≡ some m
    named : All (λ n. tables n ≡ or_empty (t n)) names

  created :
      (names : List Str) (stmt : d.Statement) (c : d.Connection) (t : Tables)
      → laws.Open c t
      → d.prepare_cached table_exists c ≡ done stmt
      → All IsName names
      → ((create_missing d stmt names c).0 ≡ done tt)
        × Created names t (create_missing d stmt names c).1
  unfolding create_missing
  created [] stmt c t r p a =
      (refl, record { tables = t; connected = r; kept = λ n m e. e; named = tt })
  created (n ∷ names) stmt c t r p a = elim (Option-cases (t n)) [
    | inr (m, e) ↦
        let (ok0, rest) = created names stmt c t r p a.1 in
        let here : rest.tables n ≡ or_empty (t n) = rw e (rest.kept n m e) in
        let look = works.exists_works c t stmt n r p in
        rw (create_missing, look, e)
          (
            ok0,
            record {
              tables = rest.tables;
              connected = rest.connected;
              kept = rest.kept;
              named = (here, rest.named);
            },
          )
    | inl e ↦
        let (made, r1) = works.create_works c t n r a.0 e in
        let p1 = works.prepare_stays c t stmt n r p in
        let (ok0, rest) =
          created names stmt (d.execute (create_table_query n) c).1 (set_table n [] t) r1 p1 a.1 in
        let look = works.exists_works c t stmt n r p in
        let head : rest.tables n ≡ or_empty (t n) = rw e (rest.kept n [] (set_table_self t n [])) in
        rw (create_missing, look, e, made)
          (
            ok0,
            record {
              tables = rest.tables;
              connected = rest.connected;
              kept = λ n' m' e'.
                  rest.kept n' m' (rw (set_table_other t n n' [] (apart t n n' m' e e')) e');
              named = (
                head,
                All-imp (λ n'. rest.tables n' ≡ or_empty (set_table n [] t n'))
                    (λ n'. rest.tables n' ≡ or_empty (t n')) names
                    (λ n' h. h ∙ or_empty_lem t n n' e) rest.named,
              );
            },
          )
  ]

  -- Over a SQLite whose statements to find and create tables work: for maps with names that it compares as the code
  -- does, the creation of the missing tables succeeds, and then the table of each map holds what it held before, or
  -- nothing if it was missing.
  pub create_missing_lem :
      (names : List Str) (stmt : d.Statement) (c : d.Connection) (t : Tables)
      → laws.Open c t
      → d.prepare_cached table_exists c ≡ done stmt
      → All IsName names
      → ((create_missing d stmt names c).0 ≡ done tt)
        × (t' : Tables) × laws.Open (create_missing d stmt names c).1 t'
        × All (λ n. t' n ≡ or_empty (t n)) names
  create_missing_lem names stmt c t r p a =
      let (ok0, rest) = created names stmt c t r p a in
      (ok0, rest.tables, rest.connected, rest.named)

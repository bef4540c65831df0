-- ===== src/Sqlite/Laws.antt =====
-- SQLite as documented, over the texts that the code passes to it: tables by their names, and a transaction that
-- stands for the tables that it reads and for those that a rollback restores.
use rpi4_usb_io_breaker.Base.{true, false, Option, some, List, [], ◌∷◌, ◌≡◌, ◌⊎◌}
use rpi4_usb_io_breaker.Base.Ord.{list_ord}
use rpi4_usb_io_breaker.BTreeMap
use rpi4_usb_io_breaker.Core.Data.{Data}
use rpi4_usb_io_breaker.Core.Error.{Str}
use rpi4_usb_io_breaker.Core.Contract.{Map}
use native.Mathlib.Decide.{ℕ_discrete}
use rpi4_usb_io_breaker.Sqlite.Queries.{from_name}
use rpi4_usb_io_breaker.Sqlite.Driver.{
  SqlError, SqlResult, done, failed, Row, Driver, begin_transaction, commit_transaction,
  rollback_transaction,
}

pub Str-discrete : Discrete Str
Str-discrete = hlevel ℕ_discrete

abbrev pub Tables : Type 0
Tables = Str → Option Map

abbrev pub set_table : Str → Map → Tables → Tables
set_table name m t n = elim (Str-discrete name n) [ yes _ ↦ some m | no _ ↦ t n ]

-- the rows of a table, in the order of the keys
abbrev pub rows_of : {E : Type 0} → Map → List (SqlResult E (Row E))
rows_of [] = []
rows_of ((k, v) ∷ m) = done (record { key = done k; value = done v }) ∷ rows_of m

-- Transactions, where any statement that controls one may fail: a failed BEGIN starts none, and a failed COMMIT
-- leaves the transaction open or rolls it back.
pub record DriverLaws (d : Driver) : Type 1 where
  pub Open : d.Connection → Tables → Type 0
  pub InTx : d.Connection → Tables → Tables → Type 0
  pub autocommit_open : (c : d.Connection) (t : Tables) → Open c t → d.is_autocommit c ≡ true
  pub autocommit_tx :
      (c : d.Connection) (base t : Tables) → InTx c base t → d.is_autocommit c ≡ false
  pub begin_done :
      (c : d.Connection) (t : Tables)
      → Open c t
      → (d.execute begin_transaction c).0 ≡ done tt
      → InTx (d.execute begin_transaction c).1 t t
  pub commit_done :
      (c : d.Connection) (base t : Tables)
      → InTx c base t
      → (d.execute commit_transaction c).0 ≡ done tt
      → Open (d.execute commit_transaction c).1 t
  pub commit_failed :
      (c : d.Connection) (base t : Tables) (e : SqlError d.Failure d.Other)
      → InTx c base t
      → (d.execute commit_transaction c).0 ≡ failed e
      → InTx (d.execute commit_transaction c).1 base t
        ⊎ Open (d.execute commit_transaction c).1 base
  pub rollback_lem :
      (c : d.Connection) (base t : Tables)
      → InTx c base t
      → Open (d.execute rollback_transaction c).1 base

-- The statements of a transaction, where none fails. `IsName` holds of the names of tables on which SQLite compares
-- as the code does, identifiers without upper case for instance.
pub record StatementLaws (d : Driver) (laws : DriverLaws d) (IsName : Str → Type 0) : Type 1 where
  pub begin_works :
      (c : d.Connection) (t : Tables) → laws.Open c t → (d.execute begin_transaction c).0 ≡ done tt
  pub commit_works :
      (c : d.Connection) (base t : Tables)
      → laws.InTx c base t
      → (d.execute commit_transaction c).0 ≡ done tt
  pub get_works :
      (c : d.Connection) (base t : Tables) (n : Str) (m : Map) (k : Data)
      → laws.InTx c base t
      → IsName n
      → t n ≡ some m
      → (stmt : d.Statement) × (d.prepare_cached (from_name n).get_query c ≡ done stmt)
        × (d.query_row stmt k c ≡ done (BTreeMap.get k m))
  pub iter_works :
      (c : d.Connection) (base t : Tables) (n : Str) (m : Map)
      → laws.InTx c base t
      → IsName n
      → t n ≡ some m
      → (stmt : d.Statement) × (d.prepare_cached (from_name n).prefix_iter_query c ≡ done stmt)
        × (d.query stmt c ≡ done (rows_of m))
  pub put_works :
      (c : d.Connection) (base t : Tables) (n : Str) (m : Map) (k v : Data)
      → laws.InTx c base t
      → IsName n
      → t n ≡ some m
      → (stmt : d.Statement) × (d.prepare_cached (from_name n).put_query c ≡ done stmt)
        × ((d.execute_statement stmt (k ∷ v ∷ []) c).0 ≡ done tt)
        × laws.InTx
            (d.execute_statement stmt (k ∷ v ∷ []) c).1
            base
            (set_table n (BTreeMap.insert k v m) t)
  pub del_works :
      (c : d.Connection) (base t : Tables) (n : Str) (m : Map) (k : Data)
      → laws.InTx c base t
      → IsName n
      → t n ≡ some m
      → (stmt : d.Statement) × (d.prepare_cached (from_name n).delete_query c ≡ done stmt)
        × ((d.execute_statement stmt (k ∷ []) c).0 ≡ done tt)
        × laws.InTx
            (d.execute_statement stmt (k ∷ []) c).1
            base
            (set_table n (BTreeMap.remove k m) t)

-- ===== src/Sqlite/Driver.antt =====
-- The crate rusqlite, as storage/sqlite/src/lib.rs uses it: a parameter, with the texts that the code passes to it.
-- Reads leave the connection as it is; the cache of prepared statements is not visible.
use rpi4_usb_io_breaker.Base.{ℕ, Bool, Option, List, [], ◌∷◌}
use rpi4_usb_io_breaker.Core.Data.{Data}
use rpi4_usb_io_breaker.Core.Error.{Str}

-- `rusqlite::Error`: a failure of SQLite with its message, if it has one, or another error
pub data SqlError (F O : Type 0) : Type 0 where
  sqlite_failure : F → Option Str → SqlError F O
  other_error : O → SqlError F O

-- `rusqlite::Result`
pub data SqlResult (E A : Type 0) : Type 0 where
  done : A → SqlResult E A
  failed : E → SqlResult E A

-- a row of two columns, each of which may fail to convert
pub record Row (E : Type 0) : Type 0 where
  pub key : SqlResult E Data
  pub value : SqlResult E Data

pub record Driver : Type 1 where
  pub Failure : Type 0
  pub Other : Type 0
  pub failure_text : Failure → Str
  pub other_text : Other → Str
  pub Connection : Type 0
  pub Statement : Type 0
  pub execute : Str → Connection → SqlResult (SqlError Failure Other) (Unit {0}) × Connection
  pub prepare_cached : Str → Connection → SqlResult (SqlError Failure Other) Statement
  pub query_row : Statement → Data → Connection → SqlResult (SqlError Failure Other) (Option Data)
  pub query :
      Statement
      → Connection
      → SqlResult
          (SqlError Failure Other)
          (List (SqlResult (SqlError Failure Other) (Row (SqlError Failure Other))))
  pub execute_statement :
      Statement
      → List Data
      → Connection
      → SqlResult (SqlError Failure Other) (Unit {0}) × Connection
  pub is_autocommit : Connection → Bool
  pub pragma_update :
      Str → Str → Connection → SqlResult (SqlError Failure Other) (Unit {0}) × Connection
  pub set_capacity : ℕ → Connection → Connection
  pub open_in_memory : SqlResult (SqlError Failure Other) Connection
  pub open_file : Str → SqlResult (SqlError Failure Other) Connection

-- "BEGIN TRANSACTION"
abbrev pub begin_transaction : Str
begin_transaction =
    66 ∷ 69 ∷ 71 ∷ 73 ∷ 78 ∷ 32 ∷ 84 ∷ 82 ∷ 65 ∷ 78 ∷ 83 ∷ 65 ∷ 67 ∷ 84 ∷ 73 ∷ 79 ∷ 78 ∷ []

-- "COMMIT TRANSACTION"
abbrev pub commit_transaction : Str
commit_transaction =
    67 ∷ 79 ∷ 77 ∷ 77 ∷ 73 ∷ 84 ∷ 32 ∷ 84 ∷ 82 ∷ 65 ∷ 78 ∷ 83 ∷ 65 ∷ 67 ∷ 84 ∷ 73 ∷ 79 ∷ 78 ∷ []

-- "ROLLBACK TRANSACTION"
abbrev pub rollback_transaction : Str
rollback_transaction =
    82 ∷ 79 ∷ 76 ∷ 76 ∷ 66 ∷ 65 ∷ 67 ∷ 75 ∷ 32 ∷ 84 ∷ 82 ∷ 65 ∷ 78 ∷ 83 ∷ 65 ∷ 67 ∷ 84 ∷ 73 ∷ 79
    ∷ 78 ∷ []

-- "BEGIN EXCLUSIVE TRANSACTION"
abbrev pub begin_exclusive : Str
begin_exclusive =
    66 ∷ 69 ∷ 71 ∷ 73 ∷ 78 ∷ 32 ∷ 69 ∷ 88 ∷ 67 ∷ 76 ∷ 85 ∷ 83 ∷ 73 ∷ 86 ∷ 69 ∷ 32 ∷ 84 ∷ 82 ∷ 65
    ∷ 78 ∷ 83 ∷ 65 ∷ 67 ∷ 84 ∷ 73 ∷ 79 ∷ 78 ∷ []

-- "COMMIT"
abbrev pub commit_text : Str
commit_text = 67 ∷ 79 ∷ 77 ∷ 77 ∷ 73 ∷ 84 ∷ []

-- "SELECT name FROM sqlite_master WHERE type='table' AND name=?"
abbrev pub table_exists : Str
table_exists =
    83 ∷ 69 ∷ 76 ∷ 69 ∷ 67 ∷ 84 ∷ 32 ∷ 110 ∷ 97 ∷ 109 ∷ 101 ∷ 32 ∷ 70 ∷ 82 ∷ 79 ∷ 77 ∷ 32 ∷ 115
    ∷ 113 ∷ 108 ∷ 105 ∷ 116 ∷ 101 ∷ 95 ∷ 109 ∷ 97 ∷ 115 ∷ 116 ∷ 101 ∷ 114 ∷ 32 ∷ 87 ∷ 72 ∷ 69 ∷ 82
    ∷ 69 ∷ 32 ∷ 116 ∷ 121 ∷ 112 ∷ 101 ∷ 61 ∷ 39 ∷ 116 ∷ 97 ∷ 98 ∷ 108 ∷ 101 ∷ 39 ∷ 32 ∷ 65 ∷ 78 ∷ 68
    ∷ 32 ∷ 110 ∷ 97 ∷ 109 ∷ 101 ∷ 61 ∷ 63 ∷ []

-- "locking_mode"
abbrev pub locking_mode : Str
locking_mode = 108 ∷ 111 ∷ 99 ∷ 107 ∷ 105 ∷ 110 ∷ 103 ∷ 95 ∷ 109 ∷ 111 ∷ 100 ∷ 101 ∷ []

-- "exclusive"
abbrev pub exclusive : Str
exclusive = 101 ∷ 120 ∷ 99 ∷ 108 ∷ 117 ∷ 115 ∷ 105 ∷ 118 ∷ 101 ∷ []

-- "synchronous"
abbrev pub synchronous : Str
synchronous = 115 ∷ 121 ∷ 110 ∷ 99 ∷ 104 ∷ 114 ∷ 111 ∷ 110 ∷ 111 ∷ 117 ∷ 115 ∷ []

-- "OFF"
abbrev pub off : Str
off = 79 ∷ 70 ∷ 70 ∷ []

-- "fullfsync"
abbrev pub fullfsync : Str
fullfsync = 102 ∷ 117 ∷ 108 ∷ 108 ∷ 102 ∷ 115 ∷ 121 ∷ 110 ∷ 99 ∷ []

-- "true"
abbrev pub true_text : Str
true_text = 116 ∷ 114 ∷ 117 ∷ 101 ∷ []

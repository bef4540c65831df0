-- ===== src/Sqlite/Queries.antt =====
-- storage/sqlite/src/queries.rs: the texts of the statements, as their bytes.
use rpi4_usb_io_breaker.Base.{[], ◌∷◌, ◌++◌}
use rpi4_usb_io_breaker.Core.Error.{Str}
use rpi4_usb_io_breaker.Core.Types.{DbMapDesc, DbMapsData}

-- "SELECT value FROM "
abbrev select_value : Str
select_value =
    83 ∷ 69 ∷ 76 ∷ 69 ∷ 67 ∷ 84 ∷ 32 ∷ 118 ∷ 97 ∷ 108 ∷ 117 ∷ 101 ∷ 32 ∷ 70 ∷ 82 ∷ 79 ∷ 77 ∷ 32 ∷ []

-- " WHERE key = ?"
abbrev where_key : Str
where_key = 32 ∷ 87 ∷ 72 ∷ 69 ∷ 82 ∷ 69 ∷ 32 ∷ 107 ∷ 101 ∷ 121 ∷ 32 ∷ 61 ∷ 32 ∷ 63 ∷ []

-- "SELECT key, value FROM "
abbrev select_all : Str
select_all =
    83 ∷ 69 ∷ 76 ∷ 69 ∷ 67 ∷ 84 ∷ 32 ∷ 107 ∷ 101 ∷ 121 ∷ 44 ∷ 32 ∷ 118 ∷ 97 ∷ 108 ∷ 117 ∷ 101 ∷ 32
    ∷ 70 ∷ 82 ∷ 79 ∷ 77 ∷ 32 ∷ []

-- " ORDER BY key"
abbrev order_by_key : Str
order_by_key = 32 ∷ 79 ∷ 82 ∷ 68 ∷ 69 ∷ 82 ∷ 32 ∷ 66 ∷ 89 ∷ 32 ∷ 107 ∷ 101 ∷ 121 ∷ []

-- "INSERT or REPLACE into "
abbrev insert_into : Str
insert_into =
    73 ∷ 78 ∷ 83 ∷ 69 ∷ 82 ∷ 84 ∷ 32 ∷ 111 ∷ 114 ∷ 32 ∷ 82 ∷ 69 ∷ 80 ∷ 76 ∷ 65 ∷ 67 ∷ 69 ∷ 32 ∷ 105
    ∷ 110 ∷ 116 ∷ 111 ∷ 32 ∷ []

-- " values(?, ?)"
abbrev values : Str
values = 32 ∷ 118 ∷ 97 ∷ 108 ∷ 117 ∷ 101 ∷ 115 ∷ 40 ∷ 63 ∷ 44 ∷ 32 ∷ 63 ∷ 41 ∷ []

-- "DELETE FROM "
abbrev delete_from : Str
delete_from = 68 ∷ 69 ∷ 76 ∷ 69 ∷ 84 ∷ 69 ∷ 32 ∷ 70 ∷ 82 ∷ 79 ∷ 77 ∷ 32 ∷ []

-- "CREATE TABLE "
abbrev create_table : Str
create_table = 67 ∷ 82 ∷ 69 ∷ 65 ∷ 84 ∷ 69 ∷ 32 ∷ 84 ∷ 65 ∷ 66 ∷ 76 ∷ 69 ∷ 32 ∷ []

-- "(key BLOB PRIMARY KEY NOT NULL, value BLOB NOT NULL)"
abbrev columns : Str
columns =
    40 ∷ 107 ∷ 101 ∷ 121 ∷ 32 ∷ 66 ∷ 76 ∷ 79 ∷ 66 ∷ 32 ∷ 80 ∷ 82 ∷ 73 ∷ 77 ∷ 65 ∷ 82 ∷ 89 ∷ 32 ∷ 75
    ∷ 69 ∷ 89 ∷ 32 ∷ 78 ∷ 79 ∷ 84 ∷ 32 ∷ 78 ∷ 85 ∷ 76 ∷ 76 ∷ 44 ∷ 32 ∷ 118 ∷ 97 ∷ 108 ∷ 117 ∷ 101
    ∷ 32 ∷ 66 ∷ 76 ∷ 79 ∷ 66 ∷ 32 ∷ 78 ∷ 79 ∷ 84 ∷ 32 ∷ 78 ∷ 85 ∷ 76 ∷ 76 ∷ 41 ∷ []

unfoldable pub create_table_query : Str → Str
create_table_query table_name = create_table ++ (table_name ++ columns)

pub record SqliteQuery : Type 0 where
  pub get_query : Str
  pub prefix_iter_query : Str
  pub put_query : Str
  pub delete_query : Str

-- `SqliteQuery::from_desc`, on the name of the map
unfoldable pub from_name : Str → SqliteQuery
from_name name = record {
  get_query = select_value ++ (name ++ where_key);
  prefix_iter_query = select_all ++ (name ++ order_by_key);
  put_query = insert_into ++ (name ++ values);
  delete_query = delete_from ++ (name ++ where_key);
}

unfoldable pub from_desc : DbMapDesc → SqliteQuery
unfolding from_name
from_desc desc = from_name desc.name

abbrev pub SqliteQueries : Type 0
SqliteQueries = DbMapsData SqliteQuery

-- ===== src/Connections/Store.antt =====
-- datarecon/infrastructure/persistence/sqlite_connection_repository.py: the table of connections.
-- A row has the columns that the repository writes; the others of the table stay NULL. An instant
-- is written in one format that is read back as that instant.
pub mod Laws
pub mod Refinement
use datarecon_ai_community_e.Prelude.{
  ℕ, ◌+◌, Bool, true, false, not, ◌&&◌, ◌||◌, Option, none, some, List, [], ◌∷◌, ◌++◌, map, ltb,
  ◌==◌, if◌then◌else◌, select, exists, Result, ok, err, ◌>>=◌,
}
use datarecon_ai_community_e.PyText.{Text, text_eq}
use datarecon_ai_community_e.Domain.Databases.{
  DatabaseType, ConnectionRole, Environment, database_value, role_value, environment_value,
  database_types, roles, environments, member_of,
}
use datarecon_ai_community_e.Suites.Store.{text_le}
use datarecon_ai_community_e.Connections.{Connection, ConnectionError, integrity_error, bad_value}

pub record ConnectionRow : Type 0 where
  pub connection_id : Text
  pub connection_name : Text
  pub connection_role : Text
  pub database_type : Text
  pub project : Text
  pub environment : Text
  pub host : Option Text
  pub port : Option ℕ
  pub database_name : Option Text
  pub schema_name : Option Text
  pub username : Option Text
  pub password_encrypted : Option Text
  pub account : Option Text
  pub warehouse : Option Text
  pub role : Option Text
  pub driver : Option Text
  pub file_path : Option Text
  pub created_at : ℕ
  pub updated_at : ℕ
  pub last_tested_at : Option ℕ
  pub last_test_status : Option Text
  pub usage_count : ℕ

-- _entity_to_params
unfoldable pub entity_to_params : Connection → ConnectionRow
entity_to_params c = record {
  connection_id = c.connection_id;
  connection_name = c.connection_name;
  connection_role = role_value c.connection_role;
  database_type = database_value c.database_type;
  project = c.project;
  environment = environment_value c.environment;
  host = c.host;
  port = c.port;
  database_name = c.database_name;
  schema_name = c.schema_name;
  username = c.username;
  password_encrypted = c.password_encrypted;
  account = c.account;
  warehouse = c.warehouse;
  role = c.role;
  driver = c.driver;
  file_path = c.file_path;
  created_at = c.created_at;
  updated_at = c.updated_at;
  last_tested_at = c.last_tested_at;
  last_test_status = c.last_test_status;
  usage_count = c.usage_count;
}

-- The entity of a row whose enumerations are read: what is not stored is None.
unfoldable pub entity_of : ConnectionRow → ConnectionRole → DatabaseType → Environment → Connection
entity_of row r t e = record {
  connection_name = row.connection_name;
  connection_role = r;
  database_type = t;
  project = row.project;
  environment = e;
  host = row.host;
  port = row.port;
  database_name = row.database_name;
  schema_name = row.schema_name;
  username = row.username;
  password_encrypted = row.password_encrypted;
  account = row.account;
  warehouse = row.warehouse;
  role = row.role;
  driver = row.driver;
  driver_class = none;
  driver_location = none;
  jdbc_url = none;
  http_path = none;
  catalog = none;
  bucket = none;
  region = none;
  storage_account = none;
  cloud_project = none;
  file_path = row.file_path;
  file_format = none;
  extra_options = none;
  connection_id = row.connection_id;
  created_at = row.created_at;
  updated_at = row.updated_at;
  last_tested_at = row.last_tested_at;
  last_test_status = row.last_test_status;
  usage_count = row.usage_count;
}

-- A call of an enumeration: the member with a value, or the ValueError.
abbrev pub or_bad_value : {M : Type 0} → Option M → Result ConnectionError M
or_bad_value none = err bad_value
or_bad_value (some m) = ok m

-- _row_to_entity
unfoldable pub row_to_entity : ConnectionRow → Result ConnectionError Connection
unfolding entity_of
row_to_entity row = do
  r ← or_bad_value (member_of role_value roles row.connection_role)
  t ← or_bad_value (member_of database_value database_types row.database_type)
  e ← or_bad_value (member_of environment_value environments row.environment)
  ok (entity_of row r t e)

abbrev pub is_connection : Text → ConnectionRow → Bool
is_connection connection_id row = text_eq row.connection_id connection_id

abbrev pub is_named : Text → ConnectionRow → Bool
is_named name row = text_eq row.connection_name name

-- The first row that passes a test.
unfoldable pub first_row : (ConnectionRow → Bool) → List ConnectionRow → Option ConnectionRow
first_row p [] = none
first_row p (row ∷ table) = if p row then some row else first_row p table

-- self._row_to_entity(row) if row else None
abbrev pub read : Option ConnectionRow → Result ConnectionError (Option Connection)
read none = ok none
read (some row) = do c ← row_to_entity row; ok (some c)

unfoldable pub get_by_id : Text → List ConnectionRow → Result ConnectionError (Option Connection)
get_by_id connection_id table = read (first_row (is_connection connection_id) table)

unfoldable pub get_by_name : Text → List ConnectionRow → Result ConnectionError (Option Connection)
get_by_name name table = read (first_row (is_named name) table)

-- INSERT; PRIMARY KEY connection_id, and connection_name UNIQUE
unfoldable pub add : Connection → List ConnectionRow → Option (List ConnectionRow)
add c table =
    if exists (λ row. is_connection c.connection_id row || is_named c.connection_name row) table
    then none
    else some (table ++ entity_to_params c ∷ [])

-- connection.touch()
abbrev pub touch : ℕ → Connection → Connection
touch now c = record c { updated_at = now }

-- The row that the UPDATE of `update` leaves.
unfoldable pub updated_row : Connection → ConnectionRow → ConnectionRow
unfolding entity_to_params
updated_row c row = record (entity_to_params c) {
  connection_id = row.connection_id;
  created_at = row.created_at;
  last_tested_at = row.last_tested_at;
  last_test_status = row.last_test_status;
  usage_count = row.usage_count;
}

-- UPDATE ... WHERE connection_id=?
abbrev pub on_connection :
    (ConnectionRow → ConnectionRow) → Text → List ConnectionRow → List ConnectionRow
on_connection f connection_id table =
    map (λ row. if is_connection connection_id row then f row else row) table

-- Another row bears the name that is to be written.
abbrev pub named_elsewhere : Connection → List ConnectionRow → Bool
named_elsewhere c table =
    exists (is_connection c.connection_id) table
    && exists (λ row. not (is_connection c.connection_id row) && is_named c.connection_name row)
        table

-- The UPDATE of `update`, of a connection that was touched.
unfoldable pub write : Connection → List ConnectionRow → Option (List ConnectionRow)
unfolding updated_row
write c table =
    if named_elsewhere c table
    then none
    else some (on_connection (updated_row c) c.connection_id table)

unfoldable pub delete : Text → List ConnectionRow → Bool × List ConnectionRow
delete connection_id table = (
  exists (is_connection connection_id) table,
  select (λ row. not (is_connection connection_id row)) table,
)

abbrev pub used_once_more : ConnectionRow → ConnectionRow
used_once_more row = record row { usage_count = row.usage_count + 1 }

unfoldable pub increment_usage : Text → List ConnectionRow → List ConnectionRow
increment_usage connection_id table = on_connection used_once_more connection_id table

abbrev pub tested_row : ℕ → Text → ConnectionRow → ConnectionRow
tested_row now status row = record row { last_tested_at = some now; last_test_status = some status }

-- record_test_result, at the time `now`
unfoldable pub record_test_result : ℕ → Text → Text → List ConnectionRow → List ConnectionRow
record_test_result now connection_id status table =
    on_connection (tested_row now status) connection_id table

-- ORDER BY connection_name
unfoldable pub insert_named : ConnectionRow → List ConnectionRow → List ConnectionRow
insert_named r [] = r ∷ []
insert_named r (s ∷ rows) =
    let rest = insert_named r rows in
    if text_le r.connection_name s.connection_name then r ∷ s ∷ rows else s ∷ rest

unfoldable pub by_connection_name : List ConnectionRow → List ConnectionRow
by_connection_name [] = []
by_connection_name (r ∷ table) = insert_named r (by_connection_name table)

unfoldable pub read_all : List ConnectionRow → Result ConnectionError (List Connection)
read_all [] = ok []
read_all (row ∷ rows) = do c ← row_to_entity row; cs ← read_all rows; ok (c ∷ cs)

unfoldable pub list_all : List ConnectionRow → Result ConnectionError (List Connection)
list_all table = read_all (by_connection_name table)

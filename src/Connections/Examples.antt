-- ===== src/Connections/Examples.antt =====
-- A connection of which nothing is given but its identifier, its name and its type.
use datarecon_ai_community_e.Prelude.{none}
use datarecon_ai_community_e.PyText.{Text, text}
use datarecon_ai_community_e.Domain.Databases.{DatabaseType, ConnectionRole, Environment}
use datarecon_ai_community_e.Connections.{Connection}

abbrev pub blank : Text → Text → DatabaseType → Connection
blank id name t = record {
  connection_name = name;
  connection_role = ConnectionRole.source;
  database_type = t;
  project = text "Default";
  environment = Environment.dev;
  host = none;
  port = none;
  database_name = none;
  schema_name = none;
  username = none;
  password_encrypted = none;
  account = none;
  warehouse = none;
  role = none;
  driver = none;
  driver_class = none;
  driver_location = none;
  jdbc_url = none;
  http_path = none;
  catalog = none;
  bucket = none;
  region = none;
  storage_account = none;
  cloud_project = none;
  file_path = none;
  file_format = none;
  extra_options = none;
  connection_id = id;
  created_at = 5;
  updated_at = 5;
  last_tested_at = none;
  last_test_status = none;
  usage_count = 0;
}

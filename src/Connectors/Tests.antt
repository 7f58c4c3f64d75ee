-- ===== src/Connectors/Tests.antt =====
-- An engine for a connection to PostgreSQL without a port.
use datarecon_ai_community_e.Prelude.{some, []}
use datarecon_ai_community_e.PyText.{Text, text}
use datarecon_ai_community_e.PyText.Dict.{Dict}
use datarecon_ai_community_e.Domain.Databases.{DatabaseType}
use datarecon_ai_community_e.Connections.{Connection}
use datarecon_ai_community_e.Connections.Examples.{blank}

abbrev orders : Connection
orders = record (blank (text "o") (text "Orders") DatabaseType.postgresql) {
  host = some (text "db");
  database_name = some (text "shop");
  username = some (text "etl");
}

abbrev no_json : Text → Dict Text
no_json t = []

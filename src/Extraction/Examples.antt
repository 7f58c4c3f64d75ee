-- ===== src/Extraction/Examples.antt =====
-- One connection, a cipher that marks its tokens, and a driver that knows a table of two columns.
use datarecon_ai_community_e.Prelude.{
  Bool, true, false, none, some, List, [], ◌∷◌, if◌then◌else◌, err, ok,
}
use datarecon_ai_community_e.PyText.{Text, text, text_eq}
use datarecon_ai_community_e.Domain.Databases.{DatabaseType}
use datarecon_ai_community_e.Connections.{Connection, ConnectionError}
use datarecon_ai_community_e.Connections.Examples.{blank}
use datarecon_ai_community_e.Connections.Store.{ConnectionRow, entity_to_params}
use datarecon_ai_community_e.Connections.Service.{Outside}
use datarecon_ai_community_e.Extraction.{Extractor}
use datarecon_ai_community_e.Schema.{ColumnCatalogMetadata}

abbrev pub outside_world : Outside
outside_world = record {
  encrypt_token = λ t. b'#' ∷ t;
  decrypt_token = λ t. elim t [ [] ↦ none | c ∷ s ↦ some s ];
  loads = λ t. [];
  is_word = λ c. false;
  is_file = λ path. false;
  timeout = 10;
  test_storage = λ c secret. err (text "no bucket");
  test_mongodb = λ c secret. err (text "no host");
  test_dbapi = λ c secret. err (text "no driver");
  test_engine = λ e query. err (text "no engine");
  describe = λ e. text "no engine";
}

abbrev pub column_of : Text → Bool → ColumnCatalogMetadata
column_of name key = record {
  name = name;
  native_type = text "INTEGER";
  max_length = none;
  nullable = false;
  default = none;
  is_primary_key = key;
}

abbrev pub shop_columns : List ColumnCatalogMetadata
shop_columns = column_of (text "id") true ∷ column_of (text "unit price") false ∷ []

-- An extraction gives the secret that it was called with.
abbrev pub shop_driver : Extractor
shop_driver = record {
  Request = Text;
  DataFrame = Text;
  ForeignKey = Text;
  extract = λ c request secret. if text_eq request (text "orders") then ok secret else err request;
  catalog_columns = λ c table secret.
      if text_eq table (text "orders") then ok (some shop_columns) else err (text "no such table");
  foreign_keys = λ c table secret. ok none;
}

abbrev pub shop : Connection
shop = record (blank (text "s") (text "Shop") DatabaseType.mysql) {
  password_encrypted = some (text "#geheim");
}

abbrev pub shop_table : List ConnectionRow
unfolding entity_to_params
shop_table = entity_to_params shop ∷ []

abbrev pub describe_error : ConnectionError → Text
describe_error e = text "connection error"

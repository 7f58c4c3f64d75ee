-- ===== src/Extraction.antt =====
-- datarecon/application/services/data_extraction_service.py: a connection is resolved, its
-- credential decrypted, and the extractor called. The extractor with its drivers is a parameter,
-- and so are its requests, which the service passes on, and the text of what the store raises.
pub mod Laws
pub mod Examples
mod Tests
use datarecon_ai_community_e.Prelude.{
  ℕ, Bool, Option, none, some, List, [], Result, ok, err, ◌>>=◌, ◌>>◌,
}
use datarecon_ai_community_e.PyText.{Text, text}
use datarecon_ai_community_e.Schema.{ColumnCatalogMetadata}
use datarecon_ai_community_e.Domain.Databases.{DatabaseType}
use datarecon_ai_community_e.Connections.{Connection, ConnectionError}
use datarecon_ai_community_e.Connections.Store.{ConnectionRow, get_by_id, increment_usage}
use datarecon_ai_community_e.Connections.Service.{Outside, decrypt}
use datarecon_ai_community_e.Connectors.Engines.{text_or}

-- DataExtractor, with what it raises
pub record Extractor : Type 1 where
  pub Request : Type 0
  pub DataFrame : Type 0
  pub ForeignKey : Type 0
  pub extract : Connection → Request → Text → Result Text DataFrame
  pub catalog_columns : Connection → Text → Text → Result Text (Option (List ColumnCatalogMetadata))
  pub foreign_keys : Connection → Text → Text → Result Text (Option (List ForeignKey))

module _ (o : Outside) (x : Extractor) (describe : ConnectionError → Text) where
  -- An error of the store, as its text.
  abbrev pub raised : {A : Type 0} → Result ConnectionError A → Result Text A
  raised (ok a) = ok a
  raised (err e) = err (describe e)

  -- self._cipher.decrypt(conn.password_encrypted) or ""
  abbrev pub secret_of : Connection → Result Text Text
  secret_of c = do secret ← raised (decrypt o c.password_encrypted); ok (text_or secret [])

  abbrev pub or_missing : Option Connection → Result Text Connection
  or_missing none = err (text "Connection not found.")
  or_missing (some c) = ok c

  -- What is extracted, before the usage is counted.
  abbrev pub extracted : Text → x.Request → List ConnectionRow → Result Text x.DataFrame
  extracted connection_id request table = do
    found ← raised (get_by_id connection_id table)
    c ← or_missing found
    secret ← secret_of c
    x.extract c request secret

  abbrev pub counted :
      Text
      → List ConnectionRow
      → Result Text x.DataFrame
      → Result Text x.DataFrame × List ConnectionRow
  counted connection_id table (err message) = (err message, table)
  counted connection_id table (ok df) = (ok df, increment_usage connection_id table)

  unfoldable pub extract_dataframe :
      Text → x.Request → List ConnectionRow → Result Text x.DataFrame × List ConnectionRow
  extract_dataframe connection_id request table =
      counted connection_id table (extracted connection_id request table)

  -- `if conn is None: return None`, and else what a connection and its secret give
  abbrev pub of_connection :
      {A : Type 0}
      → (Connection → Text → Result Text (Option A))
      → Option Connection
      → Result Text (Option A)
  of_connection f none = ok none
  of_connection f (some c) = do secret ← secret_of c; f c secret

  unfoldable pub get_table_catalog_metadata :
      Text → Text → List ConnectionRow → Result Text (Option (List ColumnCatalogMetadata))
  get_table_catalog_metadata connection_id name table = do
    found ← raised (get_by_id connection_id table)
    of_connection (λ c. x.catalog_columns c name) found

  unfoldable pub get_foreign_keys :
      Text → Text → List ConnectionRow → Result Text (Option (List x.ForeignKey))
  get_foreign_keys connection_id name table = do
    found ← raised (get_by_id connection_id table)
    of_connection (λ c. x.foreign_keys c name) found

  abbrev pub type_of : Option Connection → Option DatabaseType
  type_of none = none
  type_of (some c) = some c.database_type

  unfoldable pub get_database_type : Text → List ConnectionRow → Result Text (Option DatabaseType)
  get_database_type connection_id table = do
    found ← raised (get_by_id connection_id table)
    ok (type_of found)

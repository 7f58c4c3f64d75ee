-- ===== src/Connections.antt =====
-- datarecon/domain/entities/connection.py, and the checks that connection_service.py of
-- datarecon/application/services makes before a connection is saved.
pub mod Store
pub mod Service
pub mod Secrets
mod Tests
pub mod Examples
use datarecon_ai_community_e.Prelude.{
  ℕ, Bool, true, false, not, ◌||◌, Option, none, some, [], if◌then◌else◌, Result, ok, err, ◌>>=◌,
  ◌>>◌, raise_if,
}
use datarecon_ai_community_e.PyText.{Text, text, strip, is_empty}
use datarecon_ai_community_e.PyText.Dict.{Dict, get}
use datarecon_ai_community_e.Domain.Databases.{
  DatabaseType, ConnectionCategory, ConnectionRole, Environment, category_of,
}

pub record Connection : Type 0 where
  pub connection_name : Text
  pub connection_role : ConnectionRole
  pub database_type : DatabaseType
  pub project : Text
  pub environment : Environment
  pub host : Option Text
  pub port : Option ℕ
  pub database_name : Option Text
  pub schema_name : Option Text
  pub username : Option Text
  pub password_encrypted : Option Text
  pub account : Option Text
  pub warehouse : Option Text
  pub role : Option Text
  pub driver : Option Text
  pub driver_class : Option Text
  pub driver_location : Option Text
  pub jdbc_url : Option Text
  pub http_path : Option Text
  pub catalog : Option Text
  pub bucket : Option Text
  pub region : Option Text
  pub storage_account : Option Text
  pub cloud_project : Option Text
  pub file_path : Option Text
  pub file_format : Option Text
  pub extra_options : Option Text
  pub connection_id : Text
  pub created_at : ℕ
  pub updated_at : ℕ
  pub last_tested_at : Option ℕ
  pub last_test_status : Option Text
  pub usage_count : ℕ

pub data ConnectionError : Type 0 where
  name_required sqlite_needs_path snowflake_needs_login databricks_needs_path : ConnectionError
  needs_jdbc needs_driver file_needs_path needs_bucket : DatabaseType → ConnectionError
  needs_storage_account needs_login : DatabaseType → ConnectionError
  mongodb_needs_host : ConnectionError
  name_taken not_found : Text → ConnectionError
  -- sqlite3.IntegrityError, the ValueError of a stored value that is no member, and a failed
  -- decryption
  integrity_error bad_value decryption_failed : ConnectionError

-- The truth of an optional text.
abbrev pub filled : Option Text → Bool
filled none = false
filled (some t) = not (is_empty t)

-- `loads` gives the entries of a JSON object, and none of what is not one.
module _ (loads : Text → Dict Text) where
  unfoldable pub options : Connection → Dict Text
  options conn = elim conn.extra_options [ none ↦ [] | some t ↦ if is_empty t then [] else loads t ]

  -- conn.options().get("uri")
  abbrev pub has_uri : Connection → Bool
  has_uri conn = filled (get (text "uri") (options conn))

  abbrev jdbc_check : Connection → DatabaseType → Result ConnectionError (Unit {0})
  jdbc_check conn t =
      raise_if (not (filled conn.jdbc_url) || not (filled conn.driver_class)) (needs_jdbc t)

  abbrev driver_check : Connection → DatabaseType → Result ConnectionError (Unit {0})
  driver_check conn t = raise_if (not (filled conn.driver)) (needs_driver t)

  abbrev login_check : Connection → DatabaseType → Result ConnectionError (Unit {0})
  login_check conn t =
      raise_if (not (filled conn.host) || not (filled conn.username)) (needs_login t)

  -- t in (AZURE_BLOB, AZURE_DATA_LAKE)
  abbrev pub is_azure_storage : DatabaseType → Bool
  is_azure_storage DatabaseType.azure_blob = true
  is_azure_storage DatabaseType.azure_data_lake = true
  is_azure_storage _ = false

  abbrev azure_check : Connection → DatabaseType → Result ConnectionError (Unit {0})
  azure_check conn t =
      if is_azure_storage t
      then raise_if (not (filled conn.storage_account)) (needs_storage_account t)
      else ok tt

  -- The branches that test the category.
  unfoldable pub validate_category :
      Connection → DatabaseType → ConnectionCategory → Result ConnectionError (Unit {0})
  validate_category conn t ConnectionCategory.file =
      raise_if (not (filled conn.file_path)) (file_needs_path t)
  validate_category conn t ConnectionCategory.storage =
      raise_if (not (filled conn.bucket)) (needs_bucket t) >> azure_check conn t
  validate_category conn t ConnectionCategory.nosql =
      if filled conn.host then ok tt else raise_if (not (has_uri conn)) mongodb_needs_host
  validate_category conn t _ = login_check conn t

  -- The branches that test the type, and behind them those of the category.
  unfoldable pub validate_type : Connection → DatabaseType → Result ConnectionError (Unit {0})
  unfolding validate_category category_of
  validate_type conn DatabaseType.sqlite = raise_if (not (filled conn.file_path)) sqlite_needs_path
  validate_type conn DatabaseType.snowflake =
      raise_if (not (filled conn.account) || not (filled conn.username)) snowflake_needs_login
  validate_type conn DatabaseType.databricks =
      raise_if (not (filled conn.host) || not (filled conn.http_path)) databricks_needs_path
  validate_type conn DatabaseType.jdbc = jdbc_check conn DatabaseType.jdbc
  validate_type conn DatabaseType.idms =
      if filled conn.jdbc_url
      then jdbc_check conn DatabaseType.idms
      else driver_check conn DatabaseType.idms
  validate_type conn DatabaseType.odbc = driver_check conn DatabaseType.odbc
  validate_type conn DatabaseType.informix = driver_check conn DatabaseType.informix
  validate_type conn t = validate_category conn t (category_of t)

  -- _validate
  unfoldable pub validate : Connection → Result ConnectionError (Unit {0})
  unfolding validate_type
  validate conn =
      raise_if (is_empty conn.connection_name || is_empty (strip conn.connection_name))
        name_required
      >> validate_type conn conn.database_type

-- ===== src/Domain/Databases.antt =====
-- datarecon/domain/enums.py: the types of databases and their categories, the formats of files,
-- and the values under which they are stored.
pub mod Laws
use datarecon_ai_community_e.Prelude.{
  ℕ, ◌+◌, ◌≡◌, Bool, ◌&&◌, Option, none, some, List, [], ◌∷◌, if◌then◌else◌, leb, map,
}
use datarecon_ai_community_e.PyText.{Text, text, text_eq}
use datarecon_ai_community_e.PyText.Dict.{Dict, get}

pub data ConnectionCategory : Type 0 where
  relational nosql storage file generic : ConnectionCategory

pub data DatabaseType : Type 0 where
  oracle sqlserver db2 informix postgresql mysql mariadb snowflake synapse azure_sql : DatabaseType
  teradata idms redshift databricks hive spark greenplum sap_hana sqlite mongodb : DatabaseType
  aws_s3 azure_blob azure_data_lake gcs excel csv xml json parquet avro jdbc odbc : DatabaseType

unfoldable pub database_value : DatabaseType → Text
database_value oracle = text "Oracle"
database_value sqlserver = text "SQL Server"
database_value db2 = text "DB2"
database_value informix = text "Informix"
database_value postgresql = text "PostgreSQL"
database_value mysql = text "MySQL"
database_value mariadb = text "MariaDB"
database_value snowflake = text "Snowflake"
database_value synapse = text "Synapse"
database_value azure_sql = text "Azure SQL"
database_value teradata = text "Teradata"
database_value idms = text "IDMS"
database_value redshift = text "Redshift"
database_value databricks = text "Databricks"
database_value hive = text "Hive"
database_value spark = text "Spark"
database_value greenplum = text "Greenplum"
database_value sap_hana = text "SAP HANA"
database_value sqlite = text "SQLite"
database_value mongodb = text "MongoDB"
database_value aws_s3 = text "AWS S3"
database_value azure_blob = text "Azure Blob Storage"
database_value azure_data_lake = text "Azure Data Lake"
database_value gcs = text "Google Cloud Storage"
database_value excel = text "Excel"
database_value csv = text "CSV"
database_value xml = text "XML"
database_value json = text "JSON"
database_value parquet = text "Parquet"
database_value avro = text "Avro"
database_value jdbc = text "JDBC"
database_value odbc = text "ODBC"

-- list(DatabaseType)
abbrev pub database_types : List DatabaseType
database_types =
    oracle ∷ sqlserver ∷ db2 ∷ informix ∷ postgresql ∷ mysql ∷ mariadb ∷ snowflake ∷ synapse
    ∷ azure_sql ∷ teradata ∷ idms ∷ redshift ∷ databricks ∷ hive ∷ spark ∷ greenplum ∷ sap_hana
    ∷ sqlite ∷ mongodb ∷ aws_s3 ∷ azure_blob ∷ azure_data_lake ∷ gcs ∷ excel ∷ csv ∷ xml ∷ json
    ∷ parquet ∷ avro ∷ jdbc ∷ odbc ∷ []

-- The member of an enumeration with a value; `none` is the ValueError.
unfoldable pub member_of : {M : Type 0} → (M → Text) → List M → Text → Option M
member_of value [] t = none
member_of value (m ∷ ms) t = if text_eq (value m) t then some m else member_of value ms t

unfoldable pub category_of : DatabaseType → ConnectionCategory
category_of mongodb = nosql
category_of aws_s3 = storage
category_of azure_blob = storage
category_of azure_data_lake = storage
category_of gcs = storage
category_of excel = file
category_of csv = file
category_of xml = file
category_of json = file
category_of parquet = file
category_of avro = file
category_of jdbc = generic
category_of odbc = generic
category_of _ = relational

pub data ConnectionRole : Type 0 where
  source target : ConnectionRole

pub data Environment : Type 0 where
  dev qa uat prod : Environment

unfoldable pub role_value : ConnectionRole → Text
role_value source = text "Source"
role_value target = text "Target"

unfoldable pub environment_value : Environment → Text
environment_value dev = text "DEV"
environment_value qa = text "QA"
environment_value uat = text "UAT"
environment_value prod = text "PROD"

abbrev pub roles : List ConnectionRole
roles = source ∷ target ∷ []

abbrev pub environments : List Environment
environments = dev ∷ qa ∷ uat ∷ prod ∷ []

pub data FileFormat : Type 0 where
  csv excel xml json parquet avro : FileFormat

unfoldable pub file_format_for : DatabaseType → Option FileFormat
file_format_for DatabaseType.csv = some FileFormat.csv
file_format_for DatabaseType.excel = some FileFormat.excel
file_format_for DatabaseType.xml = some FileFormat.xml
file_format_for DatabaseType.json = some FileFormat.json
file_format_for DatabaseType.parquet = some FileFormat.parquet
file_format_for DatabaseType.avro = some FileFormat.avro
file_format_for _ = none

abbrev pub extension_format : Dict FileFormat
extension_format =
    (text ".csv", FileFormat.csv)
    ∷ (text ".txt", FileFormat.csv)
    ∷ (text ".xlsx", FileFormat.excel)
    ∷ (text ".xls", FileFormat.excel)
    ∷ (text ".xlsm", FileFormat.excel)
    ∷ (text ".xml", FileFormat.xml)
    ∷ (text ".json", FileFormat.json)
    ∷ (text ".jsonl", FileFormat.json)
    ∷ (text ".ndjson", FileFormat.json)
    ∷ (text ".parquet", FileFormat.parquet)
    ∷ (text ".pq", FileFormat.parquet)
    ∷ (text ".avro", FileFormat.avro)
    ∷ []

-- file_format_from_path, given the lower-cased suffix of the path
unfoldable pub format_of_suffix : Text → Option FileFormat
format_of_suffix suffix = get suffix extension_format

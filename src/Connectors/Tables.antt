-- ===== src/Connectors/Tables.antt =====
-- datarecon/infrastructure/connectors/engine_factory.py: what SQLAlchemy is asked for, and the tables
-- of ports, test queries and builders.
use datarecon_ai_community_e.Prelude.{ℕ, Bool, true, false, Option, none, some}
use datarecon_ai_community_e.PyText.{Text, text}
use datarecon_ai_community_e.PyText.Dict.{Dict}
use datarecon_ai_community_e.Domain.Databases.{DatabaseType}

pub record Url : Type 0 where
  pub drivername : Text
  pub username : Option Text
  pub password : Option Text
  pub host : Option Text
  pub port : Option ℕ
  pub database : Option Text
  pub query : Dict Text

-- A text, or the parts of a URL.
pub data Address : Type 0 where
  plain_url : Text → Address
  created_url : Url → Address

-- The arguments of create_engine; every engine is made with pool_pre_ping=True.
pub record Engine : Type 0 where
  pub address : Address
  pub connect_args : Dict Text

pub data FactoryError : Type 0 where
  unsupported_engine : Text → FactoryError
  needs_file_path needs_account needs_http_path : FactoryError
  -- the KeyError of `_DEFAULT_PORTS`
  no_default_port : FactoryError

unfoldable pub default_port : DatabaseType → Option ℕ
default_port DatabaseType.postgresql = some 5432
default_port DatabaseType.greenplum = some 5432
default_port DatabaseType.mysql = some 3306
default_port DatabaseType.mariadb = some 3306
default_port DatabaseType.sqlserver = some 1433
default_port DatabaseType.synapse = some 1433
default_port DatabaseType.azure_sql = some 1433
default_port DatabaseType.oracle = some 1521
default_port DatabaseType.db2 = some 50000
default_port DatabaseType.teradata = some 1025
default_port DatabaseType.redshift = some 5439
default_port DatabaseType.databricks = some 443
default_port DatabaseType.hive = some 10000
default_port DatabaseType.spark = some 10000
default_port DatabaseType.sap_hana = some 30015
default_port _ = none

-- The query of `test`.
unfoldable pub engine_test_query : DatabaseType → Text
engine_test_query DatabaseType.oracle = text "SELECT 1 FROM DUAL"
engine_test_query DatabaseType.db2 = text "SELECT 1 FROM SYSIBM.SYSDUMMY1"
engine_test_query DatabaseType.sap_hana = text "SELECT 1 FROM DUMMY"
engine_test_query _ = text "SELECT 1"

-- The methods of `_builders`.
pub data Builder : Type 0 where
  build_sqlite build_postgresql build_mysql build_mariadb build_sqlserver : Builder
  build_oracle build_snowflake build_db2 build_teradata build_redshift : Builder
  build_databricks build_hive build_sap_hana : Builder

-- self._builders.get(db_type)
unfoldable pub builder_of : DatabaseType → Option Builder
builder_of DatabaseType.sqlite = some build_sqlite
builder_of DatabaseType.postgresql = some build_postgresql
builder_of DatabaseType.greenplum = some build_postgresql
builder_of DatabaseType.mysql = some build_mysql
builder_of DatabaseType.mariadb = some build_mariadb
builder_of DatabaseType.sqlserver = some build_sqlserver
builder_of DatabaseType.synapse = some build_sqlserver
builder_of DatabaseType.azure_sql = some build_sqlserver
builder_of DatabaseType.oracle = some build_oracle
builder_of DatabaseType.snowflake = some build_snowflake
builder_of DatabaseType.db2 = some build_db2
builder_of DatabaseType.teradata = some build_teradata
builder_of DatabaseType.redshift = some build_redshift
builder_of DatabaseType.databricks = some build_databricks
builder_of DatabaseType.hive = some build_hive
builder_of DatabaseType.spark = some build_hive
builder_of DatabaseType.sap_hana = some build_sap_hana
builder_of _ = none

unfoldable pub supports : DatabaseType → Bool
unfolding builder_of
supports t = elim (builder_of t) [ none ↦ false | some _ ↦ true ]

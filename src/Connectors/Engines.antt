-- ===== src/Connectors/Engines.antt =====
-- datarecon/infrastructure/connectors/engine_factory.py: the engine of each type of database.
-- SQLAlchemy's `URL.create` and `create_engine` are records of their arguments, so what is modelled
-- is what SQLAlchemy is asked for. A port is not negative.
pub mod Laws
use datarecon_ai_community_e.Prelude.{
  ℕ, zero, suc, ◌+◌, Bool, true, false, not, Option, none, some, List, [], ◌∷◌, ◌++◌, if◌then◌else◌,
  Result, ok, err, ◌>>=◌, ◌>>◌, raise_if,
}
use datarecon_ai_community_e.PyText.{Text, text, is_empty}
use datarecon_ai_community_e.PyText.Dict.{Dict, get}
use datarecon_ai_community_e.Domain.Databases.{DatabaseType, database_value}
use datarecon_ai_community_e.Connections.{Connection, filled, options}
use datarecon_ai_community_e.Runs.Batches.{digits}
use datarecon_ai_community_e.Connectors.Tables.{
  Url, Address, plain_url, created_url, Engine, FactoryError, unsupported_engine, needs_file_path,
  needs_account, needs_http_path, no_default_port, default_port, Builder, build_sqlite,
  build_postgresql, build_mysql, build_mariadb, build_sqlserver, build_oracle, build_snowflake,
  build_db2, build_teradata, build_redshift, build_databricks, build_hive, build_sap_hana,
  builder_of,
}

-- value or default
abbrev pub text_or : Option Text → Text → Text
text_or none d = d
text_or (some t) d = if is_empty t then d else t

-- c.port or ..., where 0 counts as none
abbrev pub given_port : Option ℕ → Option ℕ
given_port none = none
given_port (some zero) = none
given_port (some (suc n)) = some (suc n)

abbrev pub port_or_raise : Option ℕ → Option ℕ → Result FactoryError ℕ
port_or_raise (some n) d = ok n
port_or_raise none (some n) = ok n
port_or_raise none none = err no_default_port

-- _port
unfoldable pub port_of : Connection → Result FactoryError ℕ
unfolding default_port
port_of c = port_or_raise (given_port c.port) (default_port c.database_type)

-- {k: v for k, v in ... if v}
unfoldable pub given_items : List (Text × Option Text) → Dict Text
given_items [] = []
given_items ((k, none) ∷ items) = given_items items
given_items ((k, some v) ∷ items) =
    let rest = given_items items in if is_empty v then rest else (k, v) ∷ rest

abbrev shown : ℕ → Text
shown n = digits (n + 1) n

-- t in (SYNAPSE, AZURE_SQL)
abbrev pub is_encrypted : DatabaseType → Bool
is_encrypted DatabaseType.synapse = true
is_encrypted DatabaseType.azure_sql = true
is_encrypted _ = false

-- `timeout` is the setting connect_timeout_seconds, `loads` reads a JSON object.
module _ (timeout : ℕ) (loads : Text → Dict Text) (c : Connection) (pwd : Text) where
  -- An engine at the host, port and database of the connection.
  abbrev network_engine : Text → Option Text → Dict Text → Dict Text → Result FactoryError Engine
  network_engine drivername database query connect_args = do
    port ← port_of c
    ok (record {
      address = created_url (record {
        drivername = drivername;
        username = c.username;
        password = some pwd;
        host = c.host;
        port = some port;
        database = database;
        query = query;
      });
      connect_args = connect_args;
    })

  abbrev timeout_arg : Dict Text
  timeout_arg = (text "connect_timeout", shown timeout) ∷ []

  abbrev sqlserver_query : Dict Text
  sqlserver_query =
      (text "driver", text_or c.driver (text "ODBC Driver 18 for SQL Server"))
      ∷ (text "TrustServerCertificate", text "yes")
      ∷ (text "timeout", shown timeout)
      ∷ (if is_encrypted c.database_type then (text "Encrypt", text "yes") ∷ [] else [])

  -- An engine without a port of its own in the URL.
  abbrev portless : Text → Option Text → Option Text → Option Text → Dict Text → Engine
  portless drivername username host database query = record {
    address = created_url (record {
      drivername = drivername;
      username = username;
      password = some pwd;
      host = host;
      port = none;
      database = database;
      query = query;
    });
    connect_args = [];
  }

  abbrev dbs_port : Option Text
  dbs_port = elim (given_port c.port) [ none ↦ none | some n ↦ some (shown n) ]

  -- options().get("auth") or ("LDAP" if pwd else None), if it is true
  abbrev auth_arg : Dict Text
  auth_arg = given_items (
      (
        text "auth",
        (if filled (get (text "auth") (options loads c))
            then get (text "auth") (options loads c)
            else if is_empty pwd
            then none
            else some (text "LDAP")),
      )
      ∷ [])

  unfoldable pub run_builder : Builder → Result FactoryError Engine
  unfolding port_of given_items
  run_builder build_sqlite = do
    raise_if (not (filled c.file_path)) needs_file_path
    ok (record {
      address = plain_url (text "sqlite:///" ++ text_or c.file_path []);
      connect_args = [];
    })
  run_builder build_postgresql =
      network_engine (text "postgresql+psycopg2") c.database_name [] timeout_arg
  run_builder build_mysql = network_engine (text "mysql+pymysql") c.database_name [] timeout_arg
  run_builder build_mariadb =
      network_engine (text "mariadb+pymysql") c.database_name
        ((text "charset", text "utf8mb4") ∷ []) timeout_arg
  run_builder build_sqlserver =
      network_engine (text "mssql+pyodbc") c.database_name sqlserver_query []
  run_builder build_oracle =
      network_engine (text "oracle+oracledb") none
        ((text "service_name", text_or c.database_name []) ∷ []) []
  run_builder build_snowflake = do
    raise_if (not (filled c.account)) needs_account
    ok (
        portless (text "snowflake") c.username c.account c.database_name (
          given_items (
            (text "schema", c.schema_name)
            ∷ (text "warehouse", c.warehouse)
            ∷ (text "role", c.role)
            ∷ [])))
  run_builder build_db2 = network_engine (text "db2+ibm_db") c.database_name [] []
  run_builder build_teradata = ok (
      portless (text "teradatasql") c.username c.host none
        (given_items ((text "database", c.database_name) ∷ (text "dbs_port", dbs_port) ∷ [])))
  run_builder build_redshift =
      network_engine (text "redshift+redshift_connector") c.database_name [] []
  run_builder build_databricks = do
    raise_if (not (filled c.http_path)) needs_http_path
    port ← port_of c
    ok (record {
      address = created_url (record {
        drivername = text "databricks";
        username = some (text "token");
        password = some pwd;
        host = c.host;
        port = some port;
        database = none;
        query = given_items (
            (text "http_path", c.http_path)
            ∷ (text "catalog", c.catalog)
            ∷ (text "schema", c.schema_name)
            ∷ []);
      });
      connect_args = [];
    })
  run_builder build_hive = do
    port ← port_of c
    ok (record {
      address = created_url (record {
        drivername = text "hive";
        username = c.username;
        password = if is_empty pwd then none else some pwd;
        host = c.host;
        port = some port;
        database = some (text_or c.database_name (text "default"));
        query = [];
      });
      connect_args = auth_arg;
    })
  run_builder build_sap_hana = network_engine (text "hana+hdbcli") c.database_name [] []

  -- create
  unfoldable pub create_engine : Result FactoryError Engine
  unfolding builder_of run_builder
  create_engine = elim (builder_of c.database_type) [
    | none ↦ err (unsupported_engine (database_value c.database_type))
    | some builder ↦ run_builder builder
  ]

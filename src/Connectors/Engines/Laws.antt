-- ===== src/Connectors/Engines/Laws.antt =====
-- About `EngineFactory.create`, and the checks of connection_service.py.
use datarecon_ai_community_e.Prelude.{
  ℕ, ◌<◌, ◌≡◌, true, Option, none, some, ok, err, [], ◌++◌, Result, some_or,
}
use datarecon_ai_community_e.PyText.{Text, text}
use datarecon_ai_community_e.PyText.Dict.{Dict}
use datarecon_ai_community_e.Domain.Databases.{DatabaseType}
use datarecon_ai_community_e.Connections.{Connection, filled}
use datarecon_ai_community_e.Connectors.Tables.{
  Engine, Address, plain_url, created_url, FactoryError, default_port, Builder, build_sqlite,
  build_snowflake, build_databricks, build_teradata,
}
use datarecon_ai_community_e.Connectors.Engines.{given_port, text_or}

-- What a builder asks of a connection.
abbrev Needs : Connection → DatabaseType → Option Builder → Type 0
Needs c t none = Unit
Needs c t (some build_sqlite) = filled c.file_path ≡ true
Needs c t (some build_snowflake) = filled c.account ≡ true
Needs c t (some build_teradata) = Unit
Needs c t (some build_databricks) =
    (filled c.http_path ≡ true)
    × (default_port t ≡ some (some_or 0 (default_port t)))
    × (0 < some_or 0 (default_port t))
Needs c t (some _) =
    (default_port t ≡ some (some_or 0 (default_port t))) × (0 < some_or 0 (default_port t))

module _ (timeout : ℕ) (loads : Text → Dict Text) (c : Connection) (pwd : Text) where
  effective_port : ℕ → ℕ
  effective_port n = some_or n (given_port c.port)

  -- The password's part of the URL gives the password; only an empty one may be left out.
  abbrev IsPart : Option Text → Type 0
  IsPart password = some_or [] password ≡ pwd

  -- A port is not 0, and is that of the connection where it has one.
  abbrev IsPort : Option ℕ → Type 0
  IsPort none = Unit
  IsPort (some n) = (0 < n) × ((m : ℕ) → given_port c.port ≡ some m → n ≡ m)

  abbrev pub IsAddress : Address → Type 0
  IsAddress (plain_url t) = t ≡ text "sqlite:///" ++ text_or c.file_path []
  IsAddress (created_url url) = IsPart url.password × IsPort url.port

  abbrev Builds : Result FactoryError Engine → Type 0
  Builds (err e) = ⊥
  Builds (ok engine) = IsAddress engine.address

-- ===== src/SqlGeneration/Quoting.antt =====
-- `_Quoter` and `_QUOTE_CHARS` of sql_generation_service.py.
pub mod Reader
pub mod Laws
use datarecon_ai_community_e.Prelude.{
  ℕ, Bool, true, false, ◌||◌, ◌&&◌, Option, none, some, [], ◌∷◌, ◌++◌, if◌then◌else◌, leb, ◌==◌,
}
use datarecon_ai_community_e.PyText.{Text, is_empty}
use datarecon_ai_community_e.Domain.Databases.{
  DatabaseType, mysql, mariadb, sqlserver, azure_sql, synapse, hive, spark, databricks,
}

pub record Quoter : Type 0 where
  pub open_char : ℕ
  pub close_char : ℕ

abbrev pub backtick : Quoter
backtick = record { open_char = b'`'; close_char = b'`' }

abbrev pub bracket : Quoter
bracket = record { open_char = b'['; close_char = b']' }

abbrev pub double_quote : Quoter
double_quote = record { open_char = b'"'; close_char = b'"' }

-- _QUOTE_CHARS.get(database_type, ('"', '"'))
unfoldable pub quoter_of : Option DatabaseType → Quoter
quoter_of (some mysql) = backtick
quoter_of (some mariadb) = backtick
quoter_of (some sqlserver) = bracket
quoter_of (some azure_sql) = bracket
quoter_of (some synapse) = bracket
quoter_of (some hive) = backtick
quoter_of (some spark) = backtick
quoter_of (some databricks) = backtick
quoter_of _ = double_quote

-- [A-Za-z_] and [A-Za-z0-9_]
unfoldable pub is_first : ℕ → Bool
is_first c = (leb b'A' c && leb c b'Z') || (leb b'a' c && leb c b'z') || (c == b'_')

unfoldable pub is_later : ℕ → Bool
unfolding is_first
is_later c = is_first c || (leb b'0' c && leb c b'9')

-- [A-Za-z0-9_]*$, where the sign of the end matches before a newline at the end too
unfoldable pub is_bare_rest : Text → Bool
is_bare_rest [] = true
is_bare_rest (c ∷ s) = (is_later c && is_bare_rest s) || (c == 10 && is_empty s)

-- _BARE_IDENTIFIER.match(identifier)
unfoldable pub is_bare : Text → Bool
unfolding is_bare_rest
is_bare [] = false
is_bare (c ∷ s) = is_first c && is_bare_rest s

-- identifier.replace(close_char, close_char * 2)
unfoldable pub escape : ℕ → Text → Text
escape close [] = []
escape close (c ∷ s) =
    let rest = escape close s in if c == close then close ∷ close ∷ rest else c ∷ rest

-- _Quoter.__call__
unfoldable pub quote : Quoter → Text → Text
unfolding escape is_bare
quote q identifier =
    if is_bare identifier
    then identifier
    else (q.open_char ∷ escape q.close_char identifier) ++ q.close_char ∷ []

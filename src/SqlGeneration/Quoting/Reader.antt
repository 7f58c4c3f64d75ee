-- ===== src/SqlGeneration/Quoting/Reader.antt =====
-- How databases read an identifier: delimited, up to a closing delimiter that is not doubled; else a
-- word, whose case the database folds, and which must not be reserved. The folding and the reserved
-- words are parameters.
use datarecon_ai_community_e.Prelude.{
  ℕ, Bool, true, false, ◌||◌, ◌&&◌, Option, none, some, [], ◌∷◌, map, if◌then◌else◌, leb, ◌==◌,
}
use datarecon_ai_community_e.PyText.{Text}
use datarecon_ai_community_e.Domain.Databases.{
  DatabaseType, mysql, mariadb, sqlserver, azure_sql, synapse, hive, spark, databricks,
}

pub record Delimiters : Type 0 where
  pub opening : ℕ
  pub closing : ℕ

-- MySQL, MariaDB and the dialects of Spark and Hive have backticks, Transact-SQL has brackets, and
-- the other databases have the double quotes of the SQL standard.
unfoldable pub delimiters : DatabaseType → Delimiters
delimiters sqlserver = record { opening = 91; closing = 93 }
delimiters azure_sql = record { opening = 91; closing = 93 }
delimiters synapse = record { opening = 91; closing = 93 }
delimiters mysql = record { opening = 96; closing = 96 }
delimiters mariadb = record { opening = 96; closing = 96 }
delimiters hive = record { opening = 96; closing = 96 }
delimiters spark = record { opening = 96; closing = 96 }
delimiters databricks = record { opening = 96; closing = 96 }
delimiters _ = record { opening = 34; closing = 34 }

-- A letter or an underscore, and what may stand behind it in a word.
abbrev pub starts_word : ℕ → Bool
starts_word c = (leb 65 c && leb c 90) || (leb 97 c && leb c 122) || (c == 95)

abbrev pub continues_word : ℕ → Bool
continues_word c = starts_word c || (leb 48 c && leb c 57)

abbrev pub all_continue : Text → Bool
all_continue [] = true
all_continue (c ∷ s) = continues_word c && all_continue s

abbrev pub is_word : Text → Bool
is_word [] = false
is_word (c ∷ s) = starts_word c && all_continue s

-- The characters of a word, and the text behind it.
abbrev pub before : ℕ → Text × Text → Text × Text
before c (name, rest) = (c ∷ name, rest)

unfoldable pub read_bare : Text → Text × Text
read_bare [] = ([], [])
read_bare (c ∷ s) =
    let later = read_bare s in if continues_word c then before c later else ([], c ∷ s)

abbrev pub before_found : ℕ → Option (Text × Text) → Option (Text × Text)
before_found c none = none
before_found c (some found) = some (before c found)

unfoldable pub read_quoted : ℕ → Text → Option (Text × Text)
read_quoted closing [] = none
read_quoted closing (c ∷ []) = if c == closing then some ([], []) else none
read_quoted closing (c ∷ d ∷ s) =
    let doubled = read_quoted closing s in
    let plain = read_quoted closing (d ∷ s) in
    if c == closing
    then if d == closing then before_found c doubled else some ([], d ∷ s)
    else before_found c plain

module _ (t : DatabaseType) (fold : ℕ → ℕ) (is_reserved : Text → Bool) where
  -- A word names what its folded spelling names, unless it is reserved.
  abbrev pub as_name : Text × Text → Option (Text × Text)
  as_name (word, rest) = if is_reserved word then none else some (map fold word, rest)

  -- The identifier at the beginning of a text, and the text behind it.
  unfoldable pub read_identifier : Text → Option (Text × Text)
  unfolding read_bare read_quoted
  read_identifier [] = none
  read_identifier (c ∷ s) =
      if c == (delimiters t).opening
      then read_quoted (delimiters t).closing s
      else if starts_word c
      then as_name (read_bare (c ∷ s))
      else none

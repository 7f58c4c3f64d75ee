-- ===== src/SqlGeneration/Tests.antt =====
-- SQL for the orders of the shop.
use datarecon_ai_community_e.Prelude.{
  ◌≡◌, refl, true, false, ◌||◌, ◌&&◌, ◌+◌, leb, ℕ, Bool, if◌then◌else◌, some, List, [], ◌∷◌, ◌++◌,
  map, All,
}
use datarecon_ai_community_e.PyText.{Text, text_eq, ascii, text, strip, is_space, is_empty}
use datarecon_ai_community_e.Domain.{ValidationModule, schema, duplicate, profiling}
use datarecon_ai_community_e.Domain.Databases.{sqlserver, mysql}
use datarecon_ai_community_e.Extraction.Examples.{
  outside_world, shop_driver, shop_table, describe_error,
}
use datarecon_ai_community_e.SqlGeneration.{generate_bulk, base, select_list}
use datarecon_ai_community_e.SqlGeneration.Laws.{ReturnedAll, generate_bulk-Returned}
use datarecon_ai_community_e.SqlGeneration.Quoting.{
  quoter_of, quote, escape, is_bare, is_bare_rest, is_first, is_later,
}
use datarecon_ai_community_e.SqlGeneration.Quoting.Reader.{read_identifier, delimiters}
use datarecon_ai_community_e.SqlGeneration.Quoting.Laws.{read_identifier-quote}
use datarecon_ai_community_e.SqlGeneration.Bulk.{parse_table_list}
use datarecon_ai_community_e.SqlGeneration.Bulk.Laws.{
  IsPartOf, AreDistinct, is_taken, IsTableName, listed_with, parse_table_list-listed_with,
}

abbrev lower : ℕ → ℕ
lower c = if leb 65 c && leb c 90 then c + 32 else c

abbrev reserved : Text → Bool
reserved word = text_eq word (text "order")

-- The name a]b of SQL Server, in front of a comma.
read_identifier-quote_example :
    read_identifier sqlserver lower reserved
      (quote (quoter_of (some sqlserver)) (text "a]b") ++ text ", c")
    ≡ some (text "a]b", text ", c")
unfolding delimiters
read_identifier-quote_example =
    read_identifier-quote sqlserver lower reserved (text "a]b") (text ", c") refl (refl, refl)

orders_sql :
    base (quoter_of (some mysql)) (text "orders") (text "id" ∷ text "unit price" ∷ [])
    ≡ text "SELECT id,\n       `unit price`\n  FROM orders"
unfolding base select_list quote escape is_bare is_bare_rest is_first is_later quoter_of
orders_sql = refl

-- A reserved word is left bare.
reserved_bare : quote (quoter_of (some mysql)) (text "order") ≡ text "order"
unfolding quote is_bare is_bare_rest is_first is_later
reserved_bare = refl

abbrev two_tables : List Text
two_tables = text "orders" ∷ text "order lines" ∷ []

abbrev two_tables_named : All IsTableName two_tables
unfolding strip is_space
two_tables_named = (
  record { no_separator = refl; trimmed = refl; not_empty = refl },
  (record { no_separator = refl; trimmed = refl; not_empty = refl }, tt),
)

parse_table_list-listed_with_example : parse_table_list (listed_with b';' two_tables) ≡ two_tables
parse_table_list-listed_with_example =
    parse_table_list-listed_with b';' two_tables refl two_tables_named

abbrev asked : List Text
asked = text "orders" ∷ text " ORDERS" ∷ text "" ∷ text "returns" ∷ []

abbrev asked_modules : List ValidationModule
asked_modules = schema ∷ profiling ∷ duplicate ∷ []

abbrev show_names : List Text → Text
show_names names = text "[...]"

generate_bulk-Returned_example :
    (names : List Text) × ReturnedAll outside_world shop_driver describe_error ascii show_names
      shop_table
      (text "s")
      asked_modules
      names
      (generate_bulk outside_world shop_driver describe_error ascii show_names shop_table
        (text "s")
        asked
        asked_modules)
    × IsPartOf names (map strip asked)
    × All (λ n. is_empty n ≡ false) names
    × AreDistinct ascii names
    × All (λ raw. (is_empty (strip raw) || is_taken ascii names raw) ≡ true) asked
generate_bulk-Returned_example =
    generate_bulk-Returned outside_world shop_driver describe_error ascii show_names shop_table
      (text "s") asked_modules asked

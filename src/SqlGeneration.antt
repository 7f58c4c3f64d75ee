-- ===== src/SqlGeneration.antt =====
-- datarecon/application/services/sql_generation_service.py: the SQL of four validation modules,
-- from the catalog of a table.
pub mod Quoting
pub mod Bulk
pub mod Laws
mod Tests
use datarecon_ai_community_e.Prelude.{
  Bool, ◌+◌, true, false, not, Option, none, some, List, [], ◌∷◌, ◌++◌, map, if◌then◌else◌, select,
  exists, length, Result, ok, err, ◌>>=◌, ◌>>◌,
}
use datarecon_ai_community_e.PyText.{Text, text, strip, is_empty}
use datarecon_ai_community_e.Domain.{ValidationModule, schema, record_count, duplicate, nullability}
use datarecon_ai_community_e.Domain.Databases.{DatabaseType}
use datarecon_ai_community_e.Connections.{ConnectionError}
use datarecon_ai_community_e.Connections.Store.{ConnectionRow}
use datarecon_ai_community_e.Connections.Service.{Outside}
use datarecon_ai_community_e.Extraction.{Extractor, get_table_catalog_metadata, get_database_type}
use datarecon_ai_community_e.Schema.{ColumnCatalogMetadata}
use datarecon_ai_community_e.Runs.Batches.{digits}
use datarecon_ai_community_e.SqlGeneration.Quoting.{Quoter, quote, quoter_of}
use datarecon_ai_community_e.SqlGeneration.Bulk.{ordered}
use datarecon_ai_community_e.PyText.{Unicode}

pub record GeneratedSql : Type 0 where
  pub module_kind : ValidationModule
  pub table : Text
  pub sql : Text
  pub note : Text
  pub suggested_keys : List Text
  pub suggested_columns : List Text

pub record TableGeneration : Type 0 where
  pub table : Text
  pub statements : List GeneratedSql
  pub error : Option Text

-- f"{n}" of a length
abbrev number : {A : Type 0} → List A → Text
number xs = digits (length xs + 1) (length xs)

-- SUPPORTED_MODULES
abbrev pub is_supported : ValidationModule → Bool
is_supported schema = true
is_supported record_count = true
is_supported duplicate = true
is_supported nullability = true
is_supported _ = false

abbrev pub names_of : (ColumnCatalogMetadata → Bool) → List ColumnCatalogMetadata → List Text
names_of p columns = map (λ c. c.name) (select p columns)

-- ",\n       ".join(quote(n) for n in names)
unfoldable pub select_list : Quoter → List Text → Text
select_list q [] = []
select_list q (n ∷ []) = quote q n
select_list q (n ∷ m ∷ names) = quote q n ++ text ",\n       " ++ select_list q (m ∷ names)

unfoldable pub base : Quoter → Text → List Text → Text
unfolding select_list
base q table names = text "SELECT " ++ select_list q names ++ text "\n  FROM " ++ quote q table

-- The notes of `_for_module`; `show_list` is the text that f"{keys}" gives a list.
abbrev pub schema_note : List Text → Text
schema_note names =
    number names
    ++ text
        " column(s). Schema Validation samples rows to infer types, so the query returns rows rather than metadata."

abbrev pub duplicate_note : (List Text → Text) → List Text → Text
duplicate_note show_list [] =
    text "No primary key in the catalog — choose the key column(s) manually."
duplicate_note show_list (k ∷ keys) =
    text "Primary key " ++ show_list (k ∷ keys) ++ text " pre-filled as the duplicate key."

abbrev pub nullability_note : List Text → Text
nullability_note [] = text "No NOT NULL columns declared; every column is checked by default."
nullability_note (c ∷ columns) =
    number (c ∷ columns) ++ text " NOT NULL column(s) pre-filled — a null there is a defect."

-- _for_module
unfoldable pub for_module :
    (List Text → Text)
    → ValidationModule
    → Text
    → List ColumnCatalogMetadata
    → Quoter
    → GeneratedSql
unfolding base
for_module show_list m table columns q =
    let names = map (λ c. c.name) columns in
    let keys = names_of (λ c. c.is_primary_key) columns in
    let not_null = names_of (λ c. not c.nullable) columns in
    let statement : Text → List Text → List Text → GeneratedSql =
      λ note suggested_keys suggested_columns. record {
        module_kind = m;
        table = table;
        sql = base q table names;
        note = note;
        suggested_keys = suggested_keys;
        suggested_columns = suggested_columns;
      } in
    elim m [
      | schema ↦ statement (schema_note names) [] []
      | record_count ↦
          statement
            (text
              "Returns rows, not COUNT(*) — Record Count counts the rows it extracts, so a pre-aggregated query would report a count of 1.")
            [] []
      | duplicate ↦ statement (duplicate_note show_list keys) keys []
      | _ ↦ statement (nullability_note not_null) [] not_null
    ]

abbrev pub failed : Text → Text → TableGeneration
failed table message = record { table = table; statements = []; error = some message }

abbrev pub no_metadata : Text → Text
no_metadata table =
    text "No catalog metadata for '"
    ++ table
    ++ text "'. Check the table exists and that this connection type supports introspection."

module _ (o : Outside) (x : Extractor) (describe : ConnectionError → Text) (u : Unicode)
    (show_list : List Text → Text) (connections : List ConnectionRow) where
  abbrev pub generated :
      Text
      → List ColumnCatalogMetadata
      → List ValidationModule
      → Option DatabaseType
      → TableGeneration
  generated table columns modules database_type = record {
    table = table;
    statements =
        map (λ m. for_module show_list m table columns (quoter_of database_type))
          (select is_supported modules);
    error = none;
  }

  -- What `generate` makes of the catalog's answer; an error of `_quoter` is not caught.
  abbrev pub of_catalog :
      Text
      → Text
      → List ValidationModule
      → Result Text (Option (List ColumnCatalogMetadata))
      → Result Text TableGeneration
  of_catalog connection_id table modules (err message) = ok (failed table message)
  of_catalog connection_id table modules (ok none) = ok (failed table (no_metadata table))
  of_catalog connection_id table modules (ok (some [])) = ok (failed table (no_metadata table))
  of_catalog connection_id table modules (ok (some (c ∷ columns))) = do
    database_type ← get_database_type o x describe connection_id connections
    ok (generated table (c ∷ columns) modules database_type)

  unfoldable pub generate : Text → Text → List ValidationModule → Result Text TableGeneration
  generate connection_id raw modules =
      let table = strip raw in
      if is_empty table
      then ok (failed table (text "Table name is required."))
      else of_catalog connection_id table modules
          (get_table_catalog_metadata o x describe connection_id table connections)

  -- The list of the results, or the first that is raised.
  unfoldable pub generate_all :
      Text → List Text → List ValidationModule → Result Text (List TableGeneration)
  unfolding generate
  generate_all connection_id [] modules = ok []
  generate_all connection_id (table ∷ tables) modules = do
    first ← generate connection_id table modules
    rest ← generate_all connection_id tables modules
    ok (first ∷ rest)

  unfoldable pub generate_bulk :
      Text → List Text → List ValidationModule → Result Text (List TableGeneration)
  unfolding generate_all
  generate_bulk connection_id tables modules = generate_all connection_id (ordered u tables) modules

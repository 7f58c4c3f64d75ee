-- ===== src/Schema/Execute.antt =====
-- `SchemaValidationService.execute`: what was extracted is compared, and the run is recorded.
-- Extraction and the detail store are parameters: what the one answers, and what the other raises.
use datarecon_ai_community_e.Prelude.{
  ℕ, ◌+◌, ◌≡◌, false, refl, Option, none, some, List, [], ◌∷◌, select, length, exists, Result, ok,
  err, ◌>>=◌,
}
use datarecon_ai_community_e.PyText.{Text, Unicode, text}
use datarecon_ai_community_e.Domain.{ValidationRun, error}
use datarecon_ai_community_e.Schema.{
  Dtypes, SchemaFrame, ColumnCatalogMetadata, ColumnRow, compare_schemas, schema_status,
  is_critical, has_attribute_mismatch,
}
use datarecon_ai_community_e.Runs.Service.{record_run, recorded}
use datarecon_ai_community_e.Runs.Store.{find_run, has_run_id, add_run}
use datarecon_ai_community_e.Runs.Service.Laws.{found_added}
use datarecon_ai_community_e.Runs.Batches.{digits}
use datarecon_ai_community_e.Runs.Execution.{Call, Computed, perform, fail_with}

pub record Extracted (u : Unicode) (T : Dtypes) : Type 0 where
  pub source_df : SchemaFrame u T
  pub target_df : SchemaFrame u T
  pub source_catalog : Option (List ColumnCatalogMetadata)
  pub target_catalog : Option (List ColumnCatalogMetadata)

abbrev pub summary_of : List ColumnRow → List (Text × Text)
summary_of rows =
    let shown = λ (n : ℕ). digits (n + 1) n in
    (text "columns_compared", shown (length rows))
    ∷ (text "mismatches", shown (length (select (λ r. is_critical r.status) rows)))
    ∷ (text "attribute_mismatches", shown (length (select has_attribute_mismatch rows)))
    ∷ []

abbrev pub computed_rows : List ColumnRow → Computed (List ColumnRow)
computed_rows rows = record { status = schema_status rows; summary = summary_of rows; value = rows }

module _ (u : Unicode) (T : Dtypes) (call : Call) (key_error : Text)
    (save : ValidationRun → List ColumnRow → Result Text (Unit {0})) where
  -- A frame without rows has no column `status`, whose reading raises.
  abbrev no_status : Text
  no_status = text "'status'"

  abbrev pub rows_or_error : Option (List ColumnRow) → Result Text (Computed (List ColumnRow))
  rows_or_error none = err key_error
  rows_or_error (some []) = err no_status
  rows_or_error (some (row ∷ rows)) = ok (computed_rows (row ∷ rows))

  -- The body of the `try` up to the recording of the run.
  abbrev pub compared_rows : Extracted u T → Result Text (Computed (List ColumnRow))
  compared_rows x =
      rows_or_error (compare_schemas u T x.source_df x.target_df x.source_catalog x.target_catalog)

  unfoldable pub execute :
      Result Text (Extracted u T)
      → List ValidationRun
      → Result Text (Computed (List ColumnRow) × ValidationRun) × List ValidationRun
  execute extracted table = perform call save (extracted >>= compared_rows) table

  -- Where extraction raises and the id is free, the same error is raised again, and a run with status
  -- ERROR and that message is in the history.
  pub execute_failure :
      (message : Text) (table : List ValidationRun)
      → exists (has_run_id call.error_id) table ≡ false
      → (run : ValidationRun) × ((execute (err message) table).0 ≡ err message)
        × (find_run call.error_id (execute (err message) table).1 ≡ some run)
        × (run.status ≡ error)
        × (run.error_message ≡ some message)
  unfolding execute perform fail_with record_run add_run
  execute_failure message table free =
      rw (free, execute, perform, fail_with, record_run, add_run, recorded)
        (_, refl, found_added _ table free, refl, refl)

  -- Where the schemas are compared and have a column, the id is free and the details are saved, the result carries the
  -- status of the rows, and so does its run, which is in the history.
  pub execute_success :
      (x : Extracted u T) (row : ColumnRow) (rows : List ColumnRow) (table : List ValidationRun)
      → compare_schemas u T x.source_df x.target_df x.source_catalog x.target_catalog
        ≡ some (row ∷ rows)
      → exists (has_run_id call.new_id) table ≡ false
      → ((run : ValidationRun) → save run (row ∷ rows) ≡ ok tt)
      → (run : ValidationRun) × ((execute (ok x) table).0 ≡ ok (computed_rows (row ∷ rows), run))
        × (find_run call.new_id (execute (ok x) table).1 ≡ some run)
        × (run.status ≡ schema_status (row ∷ rows))
  unfolding execute perform record_run add_run
  execute_success x row rows table compared free saved =
      rw (compared, execute, perform, free, record_run, add_run, recorded, saved)
        (_, refl, found_added _ table free, refl)

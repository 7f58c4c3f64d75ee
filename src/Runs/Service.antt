-- ===== src/Runs/Service.antt =====
-- datarecon/application/services/run_recording.py and run_management_service.py: recording a run,
-- and archiving and deleting many. The detail store is the list of the runs that have a directory.
pub mod Laws
use datarecon_ai_community_e.Prelude.{
  ℕ, ◌+◌, ◌-◌, Bool, true, false, not, Option, none, some, List, [], ◌∷◌, ◌++◌, if◌then◌else◌,
  select, exists, length, take, round_ratio,
}
use datarecon_ai_community_e.PyText.{Text, Unicode, text, text_eq}
use datarecon_ai_community_e.Domain.{ValidationRun, ValidationModule, RunStatus}
use datarecon_ai_community_e.Runs.Store.{add_run, set_archived, delete_run}
use datarecon_ai_community_e.Runs.Batches.{sanitize_export_name}
use datarecon_ai_community_e.Suites.Names.{prefixed_name}

abbrev pub recorded :
    ValidationRun → Option (List ValidationRun) → Option (ValidationRun × List ValidationRun)
recorded run none = none
recorded run (some table) = some (run, table)

-- The ValidationRun that record_run makes, for a clock that is not behind `started`.
abbrev pub new_run :
    (m : ValidationModule) (name : Text) (started : ℕ) (status : RunStatus)
    (source_id target_id : Option Text) (summary : List (Text × Text)) (message : Option Text)
    (project_id : Text) (suite_id : Option Text) (new_id : Text) (finished : ℕ)
    → ValidationRun
new_run m name started status source_id target_id summary message project_id suite_id new_id
      finished =
    record {
      run_id = new_id;
      module_kind = m;
      name = name;
      status = status;
      summary = summary;
      source_connection_id = source_id;
      target_connection_id = target_id;
      error_message = message;
      runtime_seconds = round_ratio (finished - started) 1000;
      project_id = project_id;
      suite_id = suite_id;
      archived = false;
      started_at = started;
      finished_at = finished;
    }

-- record_run; `none` is the IntegrityError of an id that is in use.
unfoldable pub record_run :
    (m : ValidationModule) (name : Text) (started : ℕ) (status : RunStatus)
    (source_id target_id : Option Text) (summary : List (Text × Text)) (message : Option Text)
    (project_id : Text) (suite_id : Option Text) (new_id : Text) (finished : ℕ)
    → List ValidationRun
    → Option (ValidationRun × List ValidationRun)
record_run m name started status source_id target_id summary message project_id suite_id new_id
      finished table =
    let run =
      new_run m name started status source_id target_id summary message project_id suite_id new_id
        finished in
    recorded run (add_run run table)

pub record BulkRunResult : Type 0 where
  pub requested : ℕ
  pub succeeded : ℕ
  pub missing : List Text

abbrev pub counted : Bool → Text → BulkRunResult → BulkRunResult
counted true run_id result = record result { succeeded = result.succeeded + 1 }
counted false run_id result = record result { missing = result.missing ++ run_id ∷ [] }

abbrev pub no_result : List Text → BulkRunResult
no_result run_ids = record { requested = length run_ids; succeeded = 0; missing = [] }

-- The loop of archive_runs.
unfoldable pub archive_each :
    Bool → BulkRunResult → List Text → List ValidationRun → BulkRunResult × List ValidationRun
archive_each archived result [] table = (result, table)
archive_each archived result (run_id ∷ run_ids) table =
    let (found, table') = set_archived run_id archived table in
    archive_each archived (counted found run_id result) run_ids table'

unfoldable pub archive_runs :
    List Text → Bool → List ValidationRun → BulkRunResult × List ValidationRun
archive_runs run_ids archived table = archive_each archived (no_result run_ids) run_ids table

pub record History : Type 0 where
  pub table : List ValidationRun
  pub details : List Text

-- RunDetailStore.delete
abbrev pub delete_details : Text → List Text → List Text
delete_details run_id details = select (λ i. not (text_eq i run_id)) details

-- The loop of delete_runs.
unfoldable pub delete_each : BulkRunResult → List Text → History → BulkRunResult × History
delete_each result [] st = (result, st)
delete_each result (run_id ∷ run_ids) st =
    let (found, table') = delete_run run_id st.table in
    delete_each (counted found run_id result) run_ids
      (record { table = table'; details = delete_details run_id st.details })

unfoldable pub delete_runs : List Text → History → BulkRunResult × History
delete_runs run_ids st = delete_each (no_result run_ids) run_ids st

-- _unique_folder: the folder, and the folders in use with it
unfoldable pub unique_folder : Unicode → ValidationRun → List Text → Text × List Text
unique_folder u run used =
    let base = sanitize_export_name (prefixed_name u run.module_kind run.name) in
    let folder =
      if exists (λ f. text_eq f base) used then base ++ text "_" ++ take 8 run.run_id else base in
    (folder, folder ∷ used)

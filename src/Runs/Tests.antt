-- ===== src/Runs/Tests.antt =====
-- A history of three runs, and the theorems on the history at it.
use datarecon_ai_community_e.Prelude.{
  ℕ, ◌+◌, ◌≤◌, ◌≡◌, refl, Bool, true, false, none, some, List, [], ◌∷◌, if◌then◌else◌, exists,
  length, All, ok, arith, round_ratio,
}
use datarecon_ai_community_e.PyText.{Text, text, text_eq, is_empty, strip_left, strip_right}
use datarecon_ai_community_e.Domain.{ValidationRun, RunStatus, pass, fail, error, record_count}
use datarecon_ai_community_e.Runs.Store.{
  find_run, add_run, list_filtered, newest_first, insert_newest,
}
use datarecon_ai_community_e.Runs.Service.{History, record_run, delete_runs}
use datarecon_ai_community_e.Runs.Service.Laws.{delete_runs_lem, has_details}
use datarecon_ai_community_e.Runs.Batches.{
  ReportBatch, batch_frame, batches_from, digits, sanitize_export_name, replace_unsafe,
}
use datarecon_ai_community_e.Runs.Batches.Laws.{
  all_rows, batch_frame_lem, IsSafe, sanitize_export_name-IsSafe,
}

abbrev sample : Text → RunStatus → Bool → ℕ → ValidationRun
sample run_id status archived started = record {
  run_id = run_id;
  module_kind = record_count;
  name = text "RC_orders";
  status = status;
  summary = [];
  source_connection_id = none;
  target_connection_id = none;
  error_message = none;
  runtime_seconds = 2;
  project_id = text "p";
  suite_id = none;
  archived = archived;
  started_at = started;
  finished_at = started + 2000;
}

abbrev table : List ValidationRun
table =
    sample (text "a") pass false 10
    ∷ sample (text "b") fail true 20
    ∷ sample (text "c") error false 30
    ∷ []

listed :
    list_filtered (some (text "p")) none none 5 false table
    ≡ sample (text "c") error false 30 ∷ sample (text "a") pass false 10 ∷ []
unfolding list_filtered newest_first insert_newest text_eq
listed = refl

abbrev history : History
history = record { table = table; details = text "b" ∷ text "c" ∷ [] }

delete_runs_lem_example :
    (find_run (text "b") (delete_runs (text "b" ∷ text "z" ∷ []) history).1.table ≡ (
      if exists (λ i. text_eq i (text "b")) (text "b" ∷ text "z" ∷ [])
      then none
      else find_run (text "b") history.table))
    × (has_details (text "b") (delete_runs (text "b" ∷ text "z" ∷ []) history).1.details ≡ (
        if exists (λ i. text_eq i (text "b")) (text "b" ∷ text "z" ∷ [])
        then false
        else has_details (text "b") history.details))
    × ((delete_runs (text "b" ∷ text "z" ∷ []) history).0.succeeded
          + length ((delete_runs (text "b" ∷ text "z" ∷ []) history).0.missing)
        ≡ length (text "b" ∷ text "z" ∷ []))
delete_runs_lem_example = delete_runs_lem (text "b" ∷ text "z" ∷ []) history (text "b")

abbrev fourth : ValidationRun
fourth = sample (text "d") pass false 40

recorded_fourth :
    record_run record_count
      (text "RC_orders")
      40
      pass
      none
      none
      []
      none
      (text "p")
      none
      (text "d")
      2040
      table
    ≡ some (
      fourth,
      sample (text "a") pass false 10
          ∷ sample (text "b") fail true 20
          ∷ sample (text "c") error false 30
          ∷ fourth
          ∷ [],
    )
unfolding record_run add_run text_eq round_ratio
recorded_fourth = refl

-- Five rows by two are three batches.
two_each :
    batch_frame {Row = ℕ} (text "rows") (1 ∷ 2 ∷ 3 ∷ 4 ∷ 5 ∷ []) 2
    ≡ ok (
        record {
          name = text "rows_1";
          number = 1;
          total = 3;
          first_row = 1;
          last_row = 2;
          dataframe = 1 ∷ 2 ∷ [];
        }
        ∷ record {
          name = text "rows_2";
          number = 2;
          total = 3;
          first_row = 3;
          last_row = 4;
          dataframe = 3 ∷ 4 ∷ [];
        }
        ∷ record {
          name = text "rows_3";
          number = 3;
          total = 3;
          first_row = 5;
          last_row = 5;
          dataframe = 5 ∷ [];
        }
        ∷ [])
unfolding batch_frame batches_from digits
two_each = refl

batch_frame_lem_example :
    (batches : List (ReportBatch ℕ)) × (batch_frame (text "rows") (1 ∷ 2 ∷ 3 ∷ 4 ∷ 5 ∷ []) 2
      ≡ ok batches)
    × (all_rows batches ≡ 1 ∷ 2 ∷ 3 ∷ 4 ∷ 5 ∷ [])
    × All (λ b. length (b.dataframe) ≤ 2) batches
batch_frame_lem_example = batch_frame_lem (text "rows") (1 ∷ 2 ∷ 3 ∷ 4 ∷ 5 ∷ []) 2 (omega arith)

safe_name : sanitize_export_name (text "/Q1 report: orders?") ≡ text "Q1_report_orders"
unfolding sanitize_export_name replace_unsafe strip_left strip_right
safe_name = refl

sanitize_export_name-IsSafe_example :
    (is_empty (sanitize_export_name (text "/?/")) ≡ false)
    × IsSafe (sanitize_export_name (text "/?/"))
sanitize_export_name-IsSafe_example = sanitize_export_name-IsSafe (text "/?/")

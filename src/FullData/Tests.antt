-- ===== src/FullData/Tests.antt =====
-- The frames of the engine's tests, validated.
use datarecon_ai_community_e.Prelude.{
  ◌+◌, ◌≡◌, refl, none, some, [], ◌∷◌, ◌++◌, Result, ok, round_ratio,
}
use datarecon_ai_community_e.PyText.{Text, text, ascii, text_eq}
use datarecon_ai_community_e.Domain.{ValidationRun, full_data, fail}
use datarecon_ai_community_e.Engine.Summary.{is_passed, build_summary, success_pct}
use datarecon_ai_community_e.Engine.Compare.{ComparisonResult}
use datarecon_ai_community_e.Engine.Tests.{
  Cell, numbers, numbers-Laws, config, source_frame, target_frame, expected, compared,
}
use datarecon_ai_community_e.Runs.Batches.{digits}
use datarecon_ai_community_e.Runs.Store.{add_run}
use datarecon_ai_community_e.Runs.Service.{record_run, new_run}
use datarecon_ai_community_e.Runs.Execution.{Call, Computed, perform, IsFresh}
use datarecon_ai_community_e.FullData.{
  Shown, FullValidationRequest, computed_of, compare_frames, validate_full,
}
use datarecon_ai_community_e.FullData.Laws.{IsSoundResult, validate_full-IsSoundResult}

abbrev shown : Shown
shown = record {
  exception = λ e. text "engine";
  percent = λ n. digits (n + 1) n;
  instant = λ n. digits (n + 1) n;
  seconds = λ n. digits (n + 1) n;
}

abbrev call : Call
call = record {
  module_kind = full_data;
  name = text "FD_orders";
  source_connection_id = some (text "s");
  target_connection_id = some (text "t");
  project_id = text "p";
  suite_id = none;
  new_id = text "a";
  error_id = text "b";
  started = 1000;
  finished = 3000;
  failed_at = 4000;
  integrity_error = text "taken";
}

abbrev request : FullValidationRequest ascii numbers shown
request = record { business_keys = text "id" ∷ []; config = some config; no_tolerance = 0 }

abbrev save : ValidationRun → ComparisonResult Cell → Result Text (Unit {0})
save run result = ok tt

abbrev outcome : Computed (ComparisonResult Cell)
outcome = computed_of ascii numbers shown 1000 2000 expected

abbrev saved_run : ValidationRun
saved_run =
    new_run full_data (text "FD_orders") 1000 outcome.status (some (text "s")) (some (text "t"))
      outcome.summary none (text "p") none (text "a") 3000

validated :
    (validate_full ascii numbers shown call save request 2000
      (ok (source_frame, target_frame))
      []).0
    ≡ ok (outcome, saved_run)
unfolding validate_full compare_frames perform record_run add_run
validated = rw compared refl

call-IsFresh : IsFresh {A = ComparisonResult Cell} call save []
unfolding text_eq
call-IsFresh = record { new_free = refl; error_free = refl; ids_differ = refl }

validate_full-IsSoundResult_example :
    IsSoundResult numbers outcome
    × ((validate_full ascii numbers shown call save request 2000
          (ok (source_frame, target_frame))
          []).1
        ≡ [] ++ saved_run ∷ [])
    × (saved_run.status ≡ outcome.status)
validate_full-IsSoundResult_example =
    validate_full-IsSoundResult ascii numbers numbers-Laws shown call save request 2000
      (ok (source_frame, target_frame)) [] outcome saved_run call-IsFresh validated

-- Two of the compared rows differ.
failed : outcome.status ≡ fail
unfolding is_passed build_summary success_pct round_ratio
failed = refl

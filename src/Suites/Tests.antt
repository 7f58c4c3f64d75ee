-- ===== src/Suites/Tests.antt =====
-- A table of two suites, services that fail or raise, and the theorems of the suites at them.
use datarecon_ai_community_e.Prelude.{
  ℕ, ◌≡◌, refl, true, false, none, some, [], ◌∷◌, Result, ok, err, ◌+◌,
}
use datarecon_ai_community_e.PyText.{Text, text, ascii, text_eq, strip, starts_with, casefold}
use datarecon_ai_community_e.Domain.{
  TestSuite, ValidationRun, RunStatus, fail, error, ValidationModule, record_count, duplicate, code,
}
use datarecon_ai_community_e.Suites.Names.{prefixed_name}
use datarecon_ai_community_e.Suites.Store.{
  get_by_id, list_all, insert_by_name, text_le, record_run_result, with_result,
}
use datarecon_ai_community_e.Suites.Service.{
  Services, State, Outcome, run_suite, run_suites, attempt, deserialize_request, execute,
}
use datarecon_ai_community_e.Suites.Service.Outcomes.{
  Answers, IsRecorded, run_suite-IsRecorded, run_suites-Answers,
}

-- A run that ends at the given time with the given status.
abbrev pub ended : Text → RunStatus → ℕ → ValidationRun
ended name status when = record {
  run_id = text "run";
  module_kind = record_count;
  name = name;
  status = status;
  summary = [];
  source_connection_id = none;
  target_connection_id = none;
  error_message = none;
  runtime_seconds = 0;
  project_id = text "p";
  suite_id = none;
  archived = false;
  started_at = when;
  finished_at = when;
}

abbrev always_fails : ℕ → Text → Text → Result Text (RunStatus × ValidationRun)
always_fails r p s = ok (fail, ended (text "counts") fail 90000000)

abbrev raises : ℕ → Text → Text → Result Text (RunStatus × ValidationRun)
raises r p s = err (text "no connection")

-- Counting rows always fails, and everything else raises.
abbrev pub services : Services ℕ ℕ
services = record {
  make_request = λ m config. ok config;
  rename_request = λ name r. r;
  run_schema = raises;
  run_record_count = always_fails;
  run_duplicate = raises;
  run_nullability = raises;
  run_aggregation = raises;
  run_full_data = raises;
  run_referential_integrity = raises;
  cannot_run = code;
  cannot_reconstruct = code;
  missing_suite = λ i. i;
}

abbrev pub suite : Text → Text → ValidationModule → TestSuite ℕ
suite i name m = record {
  suite_id = i;
  project_id = text "p";
  name = name;
  module_kind = m;
  config = 0;
  description = [];
  source_connection_id = none;
  target_connection_id = none;
  schedule_cron = some (text "* * * * *");
  schedule_enabled = true;
  created_at = 0;
  updated_at = 0;
  last_run_id = none;
  last_run_status = none;
  last_run_at = none;
}

abbrev pub counts : TestSuite ℕ
counts = suite (text "a") (text "RC_orders") record_count

abbrev pub keys : TestSuite ℕ
keys = suite (text "b") (text "DV_orders") duplicate

abbrev pub two_suites : State ℕ
two_suites = record { table = counts ∷ keys ∷ []; projects = text "p" ∷ []; readings = 0 }

abbrev pub clock : ℕ → ℕ
clock n = 90000000 + n

list_two : list_all two_suites.table ≡ keys ∷ counts ∷ []
unfolding list_all insert_by_name text_le
list_two = refl

name_once : prefixed_name ascii record_count (text " rc_orders ") ≡ text "RC_orders"
unfolding prefixed_name strip starts_with casefold code
name_once = refl

-- The second suite raises: its outcome is an error, and the first row stays.
raised :
    (run_suite services clock (text "b") two_suites).1.table
    ≡ counts ∷ with_result none error 90000000 keys ∷ []
unfolding run_suite attempt deserialize_request execute get_by_id record_run_result text_eq
raised = refl

found_keys : get_by_id (text "b") two_suites.table ≡ some keys
unfolding get_by_id text_eq
found_keys = refl

run_suite-IsRecorded_example :
    (result : Outcome ℕ × State ℕ) × (run_suite services clock (text "b") two_suites
      ≡ (ok (result.0), result.1))
    × IsRecorded services clock (text "b") two_suites result
run_suite-IsRecorded_example =
    run_suite-IsRecorded services clock (text "b") keys two_suites found_keys

run_suites-Answers_example :
    Answers services clock keys two_suites.table
      (text "b" ∷ text "none" ∷ text "a" ∷ [])
      (run_suites services clock keys (text "b" ∷ text "none" ∷ text "a" ∷ []) two_suites).0
run_suites-Answers_example =
    run_suites-Answers services clock keys (text "b" ∷ text "none" ∷ text "a" ∷ []) two_suites

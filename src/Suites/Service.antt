-- ===== src/Suites/Service.antt =====
-- `TestSuiteService` of test_suite_service.py, and the rows that it writes.
-- The validation services are a record of functions: what each `execute` answers for a request,
-- the run that it recorded or the message of what it raised. A request is made from a suite's
-- configuration by the constructor of its module, which may raise too.
-- The n-th reading of the clock is `clock n`; the state counts the readings.
pub mod Outcomes
use datarecon_ai_community_e.Prelude.{
  ℕ, zero, suc, ◌+◌, Bool, true, false, not, Option, none, some, List, [], ◌∷◌, ◌++◌, if◌then◌else◌,
  exists, Result, ok, err, ◌>>=◌, ◌>>◌, raise_if,
}
use datarecon_ai_community_e.PyText.{Text, Unicode, text, text_eq, strip, is_empty}
use datarecon_ai_community_e.Domain.{
  TestSuite, ValidationRun, RunStatus, pass, fail, error, ValidationModule, schema, record_count,
  duplicate, nullability, aggregation, full_data, referential_integrity, profiling, file_comparison,
}
use datarecon_ai_community_e.Suites.Names.{prefixed_name}
use datarecon_ai_community_e.Suites.Store.{
  list_all, list_by_project, get_by_id, add, delete, record_run_result, with_result,
}

pub data TestSuiteError : Type 0 where
  name_required : TestSuiteError
  not_supported : ValidationModule → TestSuiteError
  project_not_found : Text → TestSuiteError
  suite_not_found : Text → TestSuiteError
  -- sqlite3.IntegrityError, which `save_suite` lets through
  integrity_error : TestSuiteError

-- What an exception says.
abbrev pub Message : Type 0
Message = Text

pub record Services (Json Request : Type 0) : Type 0 where
  -- the Request constructors of `_deserialize_request`, and `dataclasses.replace(request, name=...)`
  pub make_request : ValidationModule → Json → Result Message Request
  pub rename_request : Text → Request → Request
  -- `execute(request, project_id, suite_id)` of each validation service
  pub run_schema : Request → Text → Text → Result Message (RunStatus × ValidationRun)
  pub run_record_count : Request → Text → Text → Result Message (RunStatus × ValidationRun)
  pub run_duplicate : Request → Text → Text → Result Message (RunStatus × ValidationRun)
  pub run_nullability : Request → Text → Text → Result Message (RunStatus × ValidationRun)
  pub run_aggregation : Request → Text → Text → Result Message (RunStatus × ValidationRun)
  pub run_full_data : Request → Text → Text → Result Message (RunStatus × ValidationRun)
  pub run_referential_integrity : Request → Text → Text → Result Message (RunStatus × ValidationRun)
  -- the texts of the two errors that the service raises itself
  pub cannot_run : ValidationModule → Message
  pub cannot_reconstruct : ValidationModule → Message
  pub missing_suite : Text → Message

-- module in RUNNABLE_MODULES
unfoldable pub is_runnable : ValidationModule → Bool
is_runnable profiling = false
is_runnable file_comparison = false
is_runnable _ = true

pub record State (Json : Type 0) : Type 0 where
  pub table : List (TestSuite Json)
  pub projects : List Text
  pub readings : ℕ

pub record Outcome (Json : Type 0) : Type 0 where
  pub suite : TestSuite Json
  pub status : RunStatus
  pub run : Option ValidationRun
  pub error_message : Option Message

module _ {Json Request : Type 0} (services : Services Json Request) where
  unfoldable pub deserialize_request : ValidationModule → Json → Result Message Request
  deserialize_request profiling config = err (services.cannot_reconstruct profiling)
  deserialize_request file_comparison config = err (services.cannot_reconstruct file_comparison)
  deserialize_request m config = services.make_request m config

  -- `_execute`; a full-data run's status is that of the run itself
  unfoldable pub execute :
      ValidationModule → Request → Text → Text → Result Message (RunStatus × ValidationRun)
  execute schema r p s = services.run_schema r p s
  execute record_count r p s = services.run_record_count r p s
  execute duplicate r p s = services.run_duplicate r p s
  execute nullability r p s = services.run_nullability r p s
  execute aggregation r p s = services.run_aggregation r p s
  execute full_data r p s = do (_, run) ← services.run_full_data r p s; ok (run.status, run)
  execute referential_integrity r p s = services.run_referential_integrity r p s
  execute profiling r p s = err (services.cannot_run profiling)
  execute file_comparison r p s = err (services.cannot_run file_comparison)

  -- The body of the `try` in `run_suite`.
  unfoldable pub attempt : TestSuite Json → Result Message (RunStatus × ValidationRun)
  attempt s = do
    request ← deserialize_request s.module_kind s.config
    execute s.module_kind (services.rename_request s.name request) s.project_id s.suite_id

  module _ (clock : ℕ → ℕ) where
    abbrev pub settle :
        TestSuite Json
        → State Json
        → Result Message (RunStatus × ValidationRun)
        → Outcome Json × State Json
    settle s st (ok (status, run)) = (
      record {
        suite = with_result (some run.run_id) status run.finished_at s;
        status = status;
        run = some run;
        error_message = none;
      },
      record st {
        table = record_run_result s.suite_id (some run.run_id) status run.finished_at st.table;
      },
    )
    settle s st (err message) =
        let when = clock st.readings in
        (
          record {
            suite = with_result none error when s;
            status = error;
            run = none;
            error_message = some message;
          },
          record st {
            table = record_run_result s.suite_id none error when st.table;
            readings = st.readings + 1;
          },
        )

    -- run_suite; the state is unchanged where it raises
    unfoldable pub run_suite : Text → State Json → Result TestSuiteError (Outcome Json) × State Json
    run_suite suite_id st = elim (get_by_id suite_id st.table) [
      | none ↦ (err (suite_not_found suite_id), st)
      | some s ↦ let (outcome, st') = settle s st (attempt s) in (ok outcome, st')
    ]

  -- The suite that stands for a missing one; its id is fresh, and its times are of no interest.
  abbrev pub missing_outcome : TestSuite Json → Text → Outcome Json
  missing_outcome blank suite_id = record {
    suite = record blank { name = suite_id; project_id = []; module_kind = schema };
    status = error;
    run = none;
    error_message = some (services.missing_suite suite_id);
  }

  -- `except TestSuiteError` of run_suites
  abbrev pub caught : TestSuite Json → Text → Result TestSuiteError (Outcome Json) → Outcome Json
  caught blank suite_id (ok outcome) = outcome
  caught blank suite_id (err _) = missing_outcome blank suite_id

  unfoldable pub run_suites :
      (ℕ → ℕ) → TestSuite Json → List Text → State Json → List (Outcome Json) × State Json
  run_suites clock blank [] st = ([], st)
  run_suites clock blank (suite_id ∷ ids) st =
      let (result, st') = run_suite clock suite_id st in
      let (outcomes, st'') = run_suites clock blank ids st' in
      (caught blank suite_id result ∷ outcomes, st'')

module _ {Json : Type 0} where
  unfoldable pub list_suites : Option Text → State Json → List (TestSuite Json)
  list_suites none st = list_all st.table
  list_suites (some []) st = list_all st.table
  list_suites (some (c ∷ project_id)) st = list_by_project (c ∷ project_id) st.table

  -- `return self._repo.add(suite)`
  abbrev pub saved :
      TestSuite Json
      → State Json
      → Option (List (TestSuite Json))
      → Result TestSuiteError (TestSuite Json × State Json)
  saved suite st none = err integrity_error
  saved suite st (some table) = ok (suite, record st { table = table })

  -- save_suite, with the new suite's id and times of creation
  unfoldable pub save_suite :
      (u : Unicode) (project_id name : Text) (m : ValidationModule) (config : Json)
      (description : Text) (source_id target_id : Option Text) (new_id : Text) (created updated : ℕ)
      → State Json
      → Result TestSuiteError (TestSuite Json × State Json)
  save_suite u project_id name m config description source_id target_id new_id created updated st =
      do
        raise_if (is_empty (strip name)) name_required
        raise_if (not (is_runnable m)) (not_supported m)
        raise_if (not (exists (λ p. text_eq p project_id) st.projects))
            (project_not_found project_id)
        let suite : TestSuite Json = record {
          suite_id = new_id;
          project_id = project_id;
          name = prefixed_name u m (strip name);
          module_kind = m;
          config = config;
          description = description;
          source_connection_id = source_id;
          target_connection_id = target_id;
          schedule_cron = none;
          schedule_enabled = false;
          created_at = created;
          updated_at = updated;
          last_run_id = none;
          last_run_status = none;
          last_run_at = none;
        }
        saved suite st (add suite st.table)

  -- delete_suite
  unfoldable pub delete_suite : Text → State Json → Bool × State Json
  delete_suite suite_id st =
      let (found, table) = delete suite_id st.table in (found, record st { table = table })

  -- delete_suites: how many there were
  unfoldable pub delete_suites : List Text → State Json → ℕ × State Json
  delete_suites [] st = (0, st)
  delete_suites (suite_id ∷ ids) st =
      let (found, st') = delete_suite suite_id st in
      let (n, st'') = delete_suites ids st' in ((if found then 1 else 0) + n, st'')

-- ===== src/FullData.antt =====
-- datarecon/application/services/full_data_validation_service.py: extraction, the comparison engine
-- and the recording of the run.
-- Extraction is a parameter, and so are the texts of the engine's exceptions, of a percentage, of an
-- instant and of a duration in thousandths of a second.
pub mod Laws
mod Tests
use datarecon_ai_community_e.Prelude.{
  ℕ, ◌+◌, ◌-◌, Bool, true, false, Option, none, some, List, [], ◌∷◌, if◌then◌else◌, Result, ok, err,
  ◌>>=◌, round_ratio,
}
use datarecon_ai_community_e.PyText.{Text, Unicode, text, pos}
use datarecon_ai_community_e.Domain.{ValidationRun, RunStatus}
use datarecon_ai_community_e.Domain
use datarecon_ai_community_e.Engine.Pandas.{Pandas, Frame}
use datarecon_ai_community_e.Engine.Config.{Config, EngineError}
use datarecon_ai_community_e.Engine.Compare.{compare, ComparisonResult}
use datarecon_ai_community_e.Engine.Summary.{Summary, Verdict, pass, fail, is_passed}
use datarecon_ai_community_e.Runs.Batches.{digits}
use datarecon_ai_community_e.Runs.Execution.{Call, Computed, perform}

-- ComparisonConfig(), where `nothing` is the tolerance 0.0
abbrev pub default_config : (P : Pandas) → P.Tolerance → Config P
default_config P nothing = record {
  compare_columns = none;
  nulls_equal = true;
  trim_strings = false;
  ignore_case = false;
  float_tolerance = nothing;
  drop_duplicate_keys = false;
  case_insensitive_columns = true;
  diff_chunk_size = pos 500000;
}

pub record Shown : Type 0 where
  pub exception : EngineError → Text
  pub percent : ℕ → Text
  pub instant : ℕ → Text
  pub seconds : ℕ → Text

abbrev pub verdict_text : Verdict → Text
verdict_text pass = text "PASS"
verdict_text fail = text "FAIL"

-- result.summary, updated by the times
abbrev pub summary_items : Shown → Summary → ℕ → ℕ → List (Text × Text)
summary_items shown s started finished =
    let number = λ (n : ℕ). digits (n + 1) n in
    (text "rows_source", number s.rows_source)
    ∷ (text "rows_target", number s.rows_target)
    ∷ (text "rows_compared", number s.rows_compared)
    ∷ (text "rows_matched", number s.rows_matched)
    ∷ (text "rows_mismatched", number s.rows_mismatched)
    ∷ (text "rows_missing_in_target", number s.rows_missing_in_target)
    ∷ (text "rows_extra_in_target", number s.rows_extra_in_target)
    ∷ (text "rows_failed", number s.rows_failed)
    ∷ (text "success_percentage", shown.percent s.success_percentage)
    ∷ (text "status", verdict_text s.status)
    ∷ (text "execution_start", shown.instant started)
    ∷ (text "execution_end", shown.instant finished)
    ∷ (text "runtime_seconds", shown.seconds (round_ratio (finished - started) 1000))
    ∷ []

module _ (u : Unicode) (P : Pandas) (shown : Shown) where
  pub record FullValidationRequest : Type 0 where
    pub business_keys : List Text
    pub config : Option (Config P)
    -- the tolerance 0.0
    pub no_tolerance : P.Tolerance

  abbrev pub config_of : FullValidationRequest → Config P
  config_of request = elim request.config [
    | none ↦ default_config P request.no_tolerance
    | some config ↦ config
  ]

  abbrev pub or_raised : {A : Type 0} → Result EngineError A → Result Text A
  or_raised (ok a) = ok a
  or_raised (err e) = err (shown.exception e)

  -- What is recorded of a comparison that ended at `finished`.
  abbrev pub computed_of : ℕ → ℕ → ComparisonResult P.Cell → Computed (ComparisonResult P.Cell)
  computed_of started finished result = record {
    status = if is_passed result.summary then RunStatus.pass else RunStatus.fail;
    summary = summary_items shown result.summary started finished;
    value = result;
  }

  -- The body of the `try` up to the recording of the run.
  unfoldable pub compare_frames :
      FullValidationRequest
      → ℕ
      → ℕ
      → Result Text (Frame P.Cell P.DType × Frame P.Cell P.DType)
      → Result Text (Computed (ComparisonResult P.Cell))
  compare_frames request started finished extracted = do
    frames ← extracted
    result ← or_raised (compare u P request.business_keys (config_of request) (frames.0) (frames.1))
    ok (computed_of started finished result)

  -- execute, with `compared_at` the reading of the clock behind the comparison
  unfoldable pub validate_full :
      Call
      → (ValidationRun → ComparisonResult P.Cell → Result Text (Unit {0}))
      → FullValidationRequest
      → ℕ
      → Result Text (Frame P.Cell P.DType × Frame P.Cell P.DType)
      → List ValidationRun
      → Result Text (Computed (ComparisonResult P.Cell) × ValidationRun) × List ValidationRun
  validate_full call save request compared_at extracted table =
      perform call save (compare_frames request call.started compared_at extracted) table

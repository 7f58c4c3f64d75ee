-- ===== src/Engine/Config.antt =====
-- `ComparisonConfig` and the exceptions of comparison_engine.py.
use datarecon_ai_community_e.Prelude.{ℕ, Bool, Option, List}
use datarecon_ai_community_e.PyText.{Text, ℤ}
use datarecon_ai_community_e.Engine.Pandas.{Pandas, Side}

-- Frames are never None here, so that check has no case of its own.
pub data EngineError : Type 0 where
  no_business_key : EngineError
  keys_not_found : Side → List Text → EngineError
  columns_missing : List Text → List Text → EngineError
  duplicate_business_key : Side → ℕ → EngineError

pub record Config (P : Pandas) : Type 0 where
  pub compare_columns : Option (List Text)
  pub nulls_equal : Bool
  pub trim_strings : Bool
  pub ignore_case : Bool
  pub float_tolerance : P.Tolerance
  pub drop_duplicate_keys : Bool
  pub case_insensitive_columns : Bool
  pub diff_chunk_size : ℤ

-- ===== src/Domain.antt =====
-- datarecon/domain: the enumerations and entities that the services share.
-- An instant is the number of microseconds since the epoch, in UTC. A configuration is whatever
-- JSON object was saved; `Json` stands for it.
pub mod Databases
use datarecon_ai_community_e.Prelude.{ℕ, Bool, Option, List}
use datarecon_ai_community_e.PyText.{Text, text}

pub data RunStatus : Type 0 where
  pass fail error : RunStatus

pub data ValidationModule : Type 0 where
  schema record_count duplicate nullability aggregation full_data : ValidationModule
  referential_integrity profiling file_comparison : ValidationModule

-- ValidationModule.code
unfoldable pub code : ValidationModule → Text
code schema = text "SC"
code record_count = text "RC"
code duplicate = text "DV"
code nullability = text "NV"
code aggregation = text "AG"
code full_data = text "FD"
code referential_integrity = text "RI"
code profiling = text "DP"
code file_comparison = text "FC"

pub record ValidationRun : Type 0 where
  pub run_id : Text
  pub module_kind : ValidationModule
  pub name : Text
  pub status : RunStatus
  pub summary : List (Text × Text)
  pub source_connection_id : Option Text
  pub target_connection_id : Option Text
  pub error_message : Option Text
  -- in thousandths, to which it is rounded
  pub runtime_seconds : ℕ
  pub project_id : Text
  pub suite_id : Option Text
  pub archived : Bool
  pub started_at : ℕ
  pub finished_at : ℕ

pub record TestSuite (Json : Type 0) : Type 0 where
  pub suite_id : Text
  pub project_id : Text
  pub name : Text
  pub module_kind : ValidationModule
  pub config : Json
  pub description : Text
  pub source_connection_id : Option Text
  pub target_connection_id : Option Text
  pub schedule_cron : Option Text
  pub schedule_enabled : Bool
  pub created_at : ℕ
  pub updated_at : ℕ
  pub last_run_id : Option Text
  pub last_run_status : Option RunStatus
  pub last_run_at : Option ℕ

-- ===== src/Schema/Tests.antt =====
-- Schemas compared at concrete frames: types are numbers, of which 1 is an integer type.
use datarecon_ai_community_e.Prelude.{
  Result, map, ok, err, ℕ, ◌≡◌, refl, true, false, none, some, List, [], ◌∷◌, All, ◌==◌,
}
use datarecon_ai_community_e.PyText.{Text, text, ascii, text_eq, casefold}
use datarecon_ai_community_e.PyText.Dict.{get, set, set_default}
use datarecon_ai_community_e.ColumnMatching.{canonical_map, add_columns}
use datarecon_ai_community_e.Domain.{schema, fail, ValidationRun, error}
use datarecon_ai_community_e.Schema.{
  Dtypes, SchemaFrame, ColumnRow, compare_schemas, rows_of, column_row, from_keys, positions_from,
  by_name_from, dtype_category, integer, matching, missing_in_target, extra_in_target,
  position_mismatch, schema_status,
}
use datarecon_ai_community_e.Schema.Execute.{
  Extracted, computed_rows, execute, execute_failure, execute_success,
}
use datarecon_ai_community_e.Runs.Store.{find_run, add_run}
use datarecon_ai_community_e.Runs.Service.{record_run}
use datarecon_ai_community_e.Runs.Execution.{
  Call, perform, fail_with, IsFresh, IsRecorded, perform-IsRecorded,
}
use datarecon_ai_community_e.Schema.Laws.{status_from, compare_schemas-statuses}

abbrev types : Dtypes
types = record {
  DType = ℕ;
  is_bool = λ t. false;
  is_integer = λ t. t == 1;
  is_float = λ t. false;
  is_datetime = λ t. false;
  is_object = λ t. true;
  is_string = λ t. false;
}

abbrev source_frame : SchemaFrame ascii types
source_frame = record { columns = text "ID" ∷ text "NAME" ∷ text "OLD" ∷ []; dtype = λ c. 1 }

abbrev target_frame : SchemaFrame ascii types
target_frame = record { columns = text "id" ∷ text "new" ∷ text "name" ∷ []; dtype = λ c. 1 }

abbrev plain : ColumnRow
plain = record {
  column = [];
  source_position = none;
  target_position = none;
  source_type = some integer;
  target_type = some integer;
  status = matching;
  source_length = none;
  target_length = none;
  length_match = none;
  source_key = none;
  target_key = none;
  key_match = none;
  source_default = none;
  target_default = none;
  default_match = none;
}

abbrev first_row : ColumnRow
first_row = record plain { column = text "ID"; source_position = some 0; target_position = some 0 }

abbrev other_rows : List ColumnRow
other_rows =
    record plain {
      column = text "NAME";
      source_position = some 1;
      target_position = some 2;
      status = position_mismatch;
    }
    ∷ record plain {
      column = text "OLD";
      source_position = some 2;
      target_type = none;
      status = missing_in_target;
    }
    ∷ record plain {
      column = text "new";
      target_position = some 1;
      source_type = none;
      status = extra_in_target;
    }
    ∷ []

abbrev found_rows : List ColumnRow
found_rows = first_row ∷ other_rows

compared_schemas : compare_schemas ascii types source_frame target_frame none none ≡ some found_rows
unfolding compare_schemas rows_of column_row from_keys positions_from by_name_from dtype_category
    canonical_map add_columns get set set_default text_eq casefold
compared_schemas = refl

compare_schemas-statuses_example : All (λ r. r.status ≡ status_from r) found_rows
compare_schemas-statuses_example =
    compare_schemas-statuses ascii types source_frame target_frame none none found_rows
      compared_schemas

abbrev call : Call
call = record {
  module_kind = schema;
  name = text "SC_orders";
  source_connection_id = some (text "s");
  target_connection_id = some (text "t");
  project_id = text "p";
  suite_id = none;
  new_id = text "a";
  error_id = text "b";
  started = 1000;
  finished = 3000;
  failed_at = 4000;
  integrity_error = text "taken";
}

abbrev save : ValidationRun → List ColumnRow → Result Text (Unit {0})
save run rows = ok tt

execute_failure_example :
    (run : ValidationRun) × ((execute ascii types call (text "key") save (err (text "down")) []).0
      ≡ err (text "down"))
    × (find_run (text "b") (execute ascii types call (text "key") save (err (text "down")) []).1
        ≡ some run)
    × (run.status ≡ error)
    × (run.error_message ≡ some (text "down"))
execute_failure_example = execute_failure ascii types call (text "key") save (text "down") [] refl

abbrev extracted : Extracted ascii types
extracted = record {
  source_df = source_frame;
  target_df = target_frame;
  source_catalog = none;
  target_catalog = none;
}

execute_success_example :
    (run : ValidationRun) × ((execute ascii types call (text "key") save (ok extracted) []).0
      ≡ ok (computed_rows found_rows, run))
    × (find_run (text "a") (execute ascii types call (text "key") save (ok extracted) []).1
        ≡ some run)
    × (run.status ≡ schema_status found_rows)
execute_success_example =
    execute_success ascii types call (text "key") save extracted first_row other_rows []
      compared_schemas refl (λ run. refl)

call-IsFresh : IsFresh {A = List ColumnRow} call save []
unfolding text_eq
call-IsFresh = record { new_free = refl; error_free = refl; ids_differ = refl }

-- The rows are computed, and saving them fails: the run is there, and an error's run behind it.
abbrev no_space : ValidationRun → List ColumnRow → Result Text (Unit {0})
no_space run rows = err (text "no space")

unsaved :
    map (λ r. r.status) (execute ascii types call (text "key") no_space (ok extracted) []).1
    ≡ fail ∷ error ∷ []
unfolding execute perform fail_with record_run add_run schema_status text_eq compare_schemas rows_of
    column_row from_keys positions_from by_name_from dtype_category canonical_map add_columns get
    set set_default casefold
unsaved = refl

perform-IsRecorded_example :
    IsRecorded {A = List ColumnRow} call save []
      (perform call save (ok (computed_rows found_rows)) [])
perform-IsRecorded_example =
    perform-IsRecorded call save (ok (computed_rows found_rows)) [] call-IsFresh

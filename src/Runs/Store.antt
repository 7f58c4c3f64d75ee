-- ===== src/Runs/Store.antt =====
-- datarecon/infrastructure/persistence/sqlite_validation_run_repository.py: the table of runs.
-- All times are written in one zone, so the order of their texts is that of the instants; rows of
-- one instant keep the table's order. A limit is not negative.
pub mod Laws
use datarecon_ai_community_e.Prelude.{
  ℕ, Bool, true, false, not, ◌&&◌, ◌||◌, Option, none, some, List, [], ◌∷◌, ◌++◌, map,
  if◌then◌else◌, select, exists, take, leb,
}
use datarecon_ai_community_e.PyText.{Text, text_eq}
use datarecon_ai_community_e.Domain.{
  ValidationRun, ValidationModule, schema, record_count, duplicate, nullability, aggregation,
  full_data, referential_integrity, profiling, file_comparison, code,
}

abbrev pub has_run_id : Text → ValidationRun → Bool
has_run_id run_id r = text_eq r.run_id run_id

-- add; `none` is the IntegrityError of a key that is there.
unfoldable pub add_run : ValidationRun → List ValidationRun → Option (List ValidationRun)
add_run run table = if exists (has_run_id run.run_id) table then none else some (table ++ run ∷ [])

unfoldable pub find_run : Text → List ValidationRun → Option ValidationRun
find_run run_id [] = none
find_run run_id (r ∷ table) = if has_run_id run_id r then some r else find_run run_id table

-- ORDER BY started_at DESC
unfoldable pub insert_newest : ValidationRun → List ValidationRun → List ValidationRun
insert_newest r [] = r ∷ []
insert_newest r (s ∷ rows) =
    let rest = insert_newest r rows in
    if leb s.started_at r.started_at then r ∷ s ∷ rows else s ∷ rest

unfoldable pub newest_first : List ValidationRun → List ValidationRun
newest_first [] = []
newest_first (r ∷ table) = insert_newest r (newest_first table)

unfoldable pub list_recent : ℕ → List ValidationRun → List ValidationRun
list_recent limit table = take limit (newest_first table)

-- The module column holds the module's name; no two modules have one code.
abbrev pub same_module : ValidationModule → ValidationModule → Bool
same_module m n = text_eq (code m) (code n)

unfoldable pub list_by_module : ValidationModule → ℕ → List ValidationRun → List ValidationRun
list_by_module m limit table =
    take limit (newest_first (select (λ r. same_module r.module_kind m) table))

unfoldable pub list_runs_by_project : Text → ℕ → List ValidationRun → List ValidationRun
list_runs_by_project project_id limit table =
    take limit (newest_first (select (λ r. text_eq r.project_id project_id) table))

-- set_archived: whether there is such a run
unfoldable pub set_archived : Text → Bool → List ValidationRun → Bool × List ValidationRun
set_archived run_id archived table = (
  exists (has_run_id run_id) table,
  map (λ r. if has_run_id run_id r then record r { archived = archived } else r) table,
)

-- delete
unfoldable pub delete_run : Text → List ValidationRun → Bool × List ValidationRun
delete_run run_id table =
    (exists (has_run_id run_id) table, select (λ r. not (has_run_id run_id r)) table)

abbrev pub in_suite : Text → Option Text → Bool
in_suite suite_id none = false
in_suite suite_id (some i) = text_eq i suite_id

-- The WHERE clause of list_filtered.
abbrev pub is_listed :
    Option Text → Option ValidationModule → Option Text → Bool → ValidationRun → Bool
is_listed project_id m suite_id include_archived r =
    elim project_id [ none ↦ true | some p ↦ text_eq r.project_id p ]
    && elim m [ none ↦ true | some k ↦ same_module r.module_kind k ]
    && elim suite_id [ none ↦ true | some i ↦ in_suite i r.suite_id ]
    && (include_archived || not r.archived)

unfoldable pub list_filtered :
    Option Text
    → Option ValidationModule
    → Option Text
    → ℕ
    → Bool
    → List ValidationRun
    → List ValidationRun
list_filtered project_id m suite_id limit include_archived table =
    take limit (newest_first (select (is_listed project_id m suite_id include_archived) table))

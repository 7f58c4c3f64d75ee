-- ===== src/Suites/Store.antt =====
-- datarecon/infrastructure/persistence/sqlite_test_suite_repository.py: the table of suites.
-- The table is the list of its rows. `ORDER BY name` compares names by code points, as SQLite
-- compares the bytes of UTF-8, and keeps rows of one name in the table's order.
pub mod Laws
use datarecon_ai_community_e.Prelude.{
  ℕ, Bool, true, false, not, ◌&&◌, ◌||◌, Option, none, some, List, [], ◌∷◌, ◌++◌, map,
  if◌then◌else◌, select, exists, ltb, ◌==◌,
}
use datarecon_ai_community_e.PyText.{Text, text_eq}
use datarecon_ai_community_e.Domain.{TestSuite, RunStatus}

-- a <= b
unfoldable pub text_le : Text → Text → Bool
text_le [] t = true
text_le (c ∷ s) [] = false
text_le (c ∷ s) (d ∷ t) = ltb c d || (c == d && text_le s t)

module _ {Json : Type 0} where
  abbrev pub has_id : Text → TestSuite Json → Bool
  has_id suite_id s = text_eq s.suite_id suite_id

  unfoldable pub insert_by_name : TestSuite Json → List (TestSuite Json) → List (TestSuite Json)
  insert_by_name s [] = s ∷ []
  insert_by_name s (t ∷ ts) =
      let rest = insert_by_name s ts in if text_le s.name t.name then s ∷ t ∷ ts else t ∷ rest

  -- list_all
  unfoldable pub list_all : List (TestSuite Json) → List (TestSuite Json)
  list_all [] = []
  list_all (s ∷ table) = insert_by_name s (list_all table)

  unfoldable pub list_by_project : Text → List (TestSuite Json) → List (TestSuite Json)
  list_by_project project_id table = list_all (select (λ s. text_eq s.project_id project_id) table)

  unfoldable pub get_by_id : Text → List (TestSuite Json) → Option (TestSuite Json)
  get_by_id suite_id [] = none
  get_by_id suite_id (s ∷ table) = if has_id suite_id s then some s else get_by_id suite_id table

  -- PRIMARY KEY suite_id, and UNIQUE(project_id, name)
  abbrev pub clash : TestSuite Json → TestSuite Json → Bool
  clash s t =
      text_eq s.suite_id t.suite_id || (text_eq s.project_id t.project_id && text_eq s.name t.name)

  -- add; `none` is the IntegrityError of a row that breaks a constraint of the table.
  unfoldable pub add : TestSuite Json → List (TestSuite Json) → Option (List (TestSuite Json))
  add s table = if exists (clash s) table then none else some (table ++ s ∷ [])

  -- The row that an UPDATE by id leaves: all but the id and the creation time are written.
  abbrev pub written : TestSuite Json → TestSuite Json → TestSuite Json
  written s row = record s { suite_id = row.suite_id; created_at = row.created_at }

  -- update, with the suite touched at `now`; the suite is returned too.
  unfoldable pub update :
      ℕ → TestSuite Json → List (TestSuite Json) → TestSuite Json × List (TestSuite Json)
  update now s table =
      let touched = record s { updated_at = now } in
      (touched, map (λ row. if has_id s.suite_id row then written touched row else row) table)

  -- delete: whether a row was removed
  unfoldable pub delete : Text → List (TestSuite Json) → Bool × List (TestSuite Json)
  delete suite_id table =
      (exists (has_id suite_id) table, select (λ s. not (has_id suite_id s)) table)

  abbrev pub with_result : Option Text → RunStatus → ℕ → TestSuite Json → TestSuite Json
  with_result run_id status when s = record s {
    last_run_id = run_id;
    last_run_status = some status;
    last_run_at = some when;
  }

  unfoldable pub record_run_result :
      Text → Option Text → RunStatus → ℕ → List (TestSuite Json) → List (TestSuite Json)
  record_run_result suite_id run_id status when table =
      map (λ s. if has_id suite_id s then with_result run_id status when s else s) table

-- ===== src/Suites/Store/Laws.antt =====
-- What the operations on the table keep of its rows.
use mathlib.Core.Option
use datarecon_ai_community_e.Prelude.{
  ℕ, ◌≡◌, refl, Bool, ◌||◌, Option, some, List, [], ◌∷◌, if◌then◌else◌, exists, arith,
}
use datarecon_ai_community_e.PyText.{Text, text_eq}
use datarecon_ai_community_e.PyText.Laws.{text_eq_iff}
use datarecon_ai_community_e.Domain.{TestSuite, RunStatus}
use datarecon_ai_community_e.Suites.Store.{
  insert_by_name, list_all, get_by_id, record_run_result, with_result,
}

module _ {Json : Type 0} where
  exists-insert_by_name :
      (p : TestSuite Json → Bool) (s : TestSuite Json) (table : List (TestSuite Json))
      → exists p (insert_by_name s table) ≡ (p s || exists p table)
  unfolding insert_by_name
  exists-insert_by_name p s [] = ground arith
  exists-insert_by_name p s (t ∷ table) = ground (arith, exists-insert_by_name p s table)

  -- The list has the rows of the table.
  pub exists-list_all :
      (p : TestSuite Json → Bool) (table : List (TestSuite Json))
      → exists p (list_all table) ≡ exists p table
  unfolding list_all
  exists-list_all p [] = refl
  exists-list_all p (s ∷ table) =
      ground (arith, exists-insert_by_name p s (list_all table), exists-list_all p table)

  pub get_by_id-id :
      (suite_id : Text) (table : List (TestSuite Json)) (s : TestSuite Json)
      → get_by_id suite_id table ≡ some s
      → s.suite_id ≡ suite_id
  unfolding get_by_id
  get_by_id-id suite_id [] s h = cc
  get_by_id-id suite_id (t ∷ table) s h =
      ground (arith, text_eq_iff t.suite_id suite_id, get_by_id-id suite_id table s)

  -- What a row with an id reads after a result is recorded: the result at that id, and every other
  -- id as before.
  pub get_by_id-record_run_result :
      (suite_id other : Text) (run_id : Option Text) (status : RunStatus) (when : ℕ)
      (table : List (TestSuite Json))
      → get_by_id other (record_run_result suite_id run_id status when table) ≡ (
          if text_eq suite_id other
          then Option.map (with_result run_id status when) (get_by_id other table)
          else get_by_id other table)
  unfolding get_by_id record_run_result
  get_by_id-record_run_result suite_id other run_id status when [] = ground arith
  get_by_id-record_run_result suite_id other run_id status when (s ∷ table) = ground (
    arith,
    text_eq_iff s.suite_id suite_id,
    text_eq_iff s.suite_id other,
    text_eq_iff suite_id other,
    get_by_id-record_run_result suite_id other run_id status when table,
  )

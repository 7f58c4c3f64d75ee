-- ===== src/Projects.antt =====
-- datarecon/application/services/project_service.py and sqlite_project_repository.py of
-- datarecon/infrastructure/persistence: projects, and the suites that belong to them.
-- The table of suites refers to that of projects with ON DELETE CASCADE.
pub mod Laws
mod Tests
use datarecon_ai_community_e.Prelude.{
  ℕ, Bool, true, false, not, ◌&&◌, ◌||◌, Option, none, some, List, [], ◌∷◌, ◌++◌, map,
  if◌then◌else◌, select, exists, Result, ok, err, ◌>>=◌, ◌>>◌, raise_if,
}
use datarecon_ai_community_e.PyText.{Text, text, text_eq, strip, is_empty}
use datarecon_ai_community_e.Domain.{TestSuite}

pub record Project : Type 0 where
  pub name : Text
  pub description : Text
  pub project_id : Text
  pub created_at : ℕ
  pub updated_at : ℕ

pub data ProjectError : Type 0 where
  name_required : ProjectError
  name_taken : Text → ProjectError
  default_kept : ProjectError
  -- sqlite3.IntegrityError
  integrity_error : ProjectError

-- DEFAULT_PROJECT_ID
abbrev pub default_project_id : Text
default_project_id = text "default"

pub record Tables (Json : Type 0) : Type 0 where
  pub projects : List Project
  pub suites : List (TestSuite Json)

abbrev pub is_project : Text → Project → Bool
is_project project_id p = text_eq p.project_id project_id

abbrev pub has_name : Text → Project → Bool
has_name name p = text_eq p.name name

unfoldable pub find_by_id : Text → List Project → Option Project
find_by_id project_id [] = none
find_by_id project_id (p ∷ ps) =
    if is_project project_id p then some p else find_by_id project_id ps

unfoldable pub get_by_name : Text → List Project → Option Project
get_by_name name [] = none
get_by_name name (p ∷ ps) = if has_name name p then some p else get_by_name name ps

-- add; PRIMARY KEY project_id, and name UNIQUE
unfoldable pub add_project : Project → List Project → Option (List Project)
add_project p ps =
    if exists (λ q. is_project p.project_id q || has_name p.name q) ps
    then none
    else some (ps ++ p ∷ [])

-- The row that an UPDATE by id leaves.
abbrev pub rewritten : Project → Project → Project
rewritten p row = record row {
  name = p.name;
  description = p.description;
  updated_at = p.updated_at;
}

-- Another row bears the name that is to be written.
abbrev pub name_elsewhere : Project → List Project → Bool
name_elsewhere p ps =
    exists (is_project p.project_id) ps
    && exists (λ q. not (is_project p.project_id q) && has_name p.name q) ps

-- The UPDATE statement of `update`.
unfoldable pub write_project : Project → List Project → Option (List Project)
write_project p ps =
    if name_elsewhere p ps
    then none
    else some (map (λ row. if is_project p.project_id row then rewritten p row else row) ps)

abbrev pub is_taken : Option Project → Bool
is_taken none = false
is_taken (some _) = true

module _ {Json : Type 0} where
  abbrev pub stored :
      Project → Tables Json → Option (List Project) → Result ProjectError (Project × Tables Json)
  stored p st none = err integrity_error
  stored p st (some ps) = ok (p, record st { projects = ps })

  -- create_project, with the id of the new project and the time
  unfoldable pub create_project :
      (new_id : Text) (now : ℕ) (name description : Text)
      → Tables Json
      → Result ProjectError (Project × Tables Json)
  create_project new_id now name description st = do
    raise_if (is_empty (strip name)) name_required
    raise_if (is_taken (get_by_name (strip name) st.projects)) (name_taken (strip name))
    let p : Project = record {
      name = strip name;
      description = description;
      project_id = new_id;
      created_at = now;
      updated_at = now;
    }
    stored p st (add_project p st.projects)

  -- update_project, at the time `now`
  unfoldable pub update_project :
      ℕ → Project → Tables Json → Result ProjectError (Project × Tables Json)
  update_project now p st = do
    raise_if (is_empty (strip p.name)) name_required
    let touched = record p { updated_at = now }
    stored touched st (write_project touched st.projects)

  -- delete_project
  unfoldable pub delete_project : Text → Tables Json → Result ProjectError (Bool × Tables Json)
  delete_project project_id st = do
    raise_if (text_eq project_id default_project_id) default_kept
    ok (
      exists (is_project project_id) st.projects,
      record {
        projects = select (λ p. not (is_project project_id p)) st.projects;
        suites =
            if exists (is_project project_id) st.projects
            then select (λ s. not (text_eq s.project_id project_id)) st.suites
            else st.suites;
      },
    )

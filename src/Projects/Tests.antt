-- ===== src/Projects/Tests.antt =====
-- The theorems on projects at the default project and one more.
use datarecon_ai_community_e.Prelude.{◌≡◌, refl, true, false, none, [], ◌∷◌, ok, err}
use datarecon_ai_community_e.PyText.{text, text_eq, strip}
use datarecon_ai_community_e.Projects.{
  Project, Tables, create_project, delete_project, get_by_name, add_project, default_kept,
}
use datarecon_ai_community_e.Projects.Laws.{IsSound, remove, Change-IsSound}
use datarecon_ai_community_e.Domain.{TestSuite, record_count}

abbrev default_project : Project
default_project = record {
  name = text "Default";
  description = [];
  project_id = text "default";
  created_at = 0;
  updated_at = 0;
}

abbrev billing : Project
billing = record {
  name = text "Billing";
  description = [];
  project_id = text "p";
  created_at = 5;
  updated_at = 5;
}

abbrev counts : TestSuite Unit
counts = record {
  suite_id = text "a";
  project_id = text "p";
  name = text "RC_orders";
  module_kind = record_count;
  config = tt;
  description = [];
  source_connection_id = none;
  target_connection_id = none;
  schedule_cron = none;
  schedule_enabled = false;
  created_at = 0;
  updated_at = 0;
  last_run_id = none;
  last_run_status = none;
  last_run_at = none;
}

abbrev fresh : Tables Unit
fresh = record { projects = default_project ∷ []; suites = [] }

abbrev both_projects : Tables Unit
both_projects = record { projects = default_project ∷ billing ∷ []; suites = counts ∷ [] }

created :
    create_project (text "p") 5 (text " Billing ") [] fresh
    ≡ ok (billing, record both_projects { suites = [] })
unfolding create_project get_by_name add_project strip text_eq
created = refl

removed : delete_project (text "p") both_projects ≡ ok (true, fresh)
unfolding delete_project text_eq
removed = refl

refused : delete_project (text "default") both_projects ≡ err default_kept
unfolding delete_project text_eq
refused = refl

both-IsSound : IsSound both_projects
unfolding text_eq
both-IsSound = record { default_known = refl; suites_known = (refl, tt) }

Change-IsSound_example : IsSound fresh
Change-IsSound_example = Change-IsSound both-IsSound (remove (text "p") true removed)

-- ===== src/Runs/Service/Laws.antt =====
-- What recording, archiving and deleting runs does to the history.
use mathlib.Core.Option
use datarecon_ai_community_e.Prelude.{
  ℕ, suc, ◌+◌, ◌≡◌, refl, Bool, true, false, Option, none, some, List, [], ◌∷◌, ◌++◌, if◌then◌else◌,
  exists, length, length-append, arith, Bool-cases, inl, inr, ◌∙◌,
}
use datarecon_ai_community_e.PyText.{Text, text_eq}
use datarecon_ai_community_e.PyText.Laws.{text_eq_iff, text_eq_refl}
use datarecon_ai_community_e.Domain.{ValidationRun, ValidationModule, RunStatus}
use datarecon_ai_community_e.Runs.Store.{has_run_id, find_run, add_run, set_archived, delete_run}
use datarecon_ai_community_e.Runs.Service.{
  record_run, recorded, BulkRunResult, counted, no_result, archive_each, archive_runs, History,
  delete_details, delete_each, delete_runs,
}

-- The run with its flag written.
abbrev pub marked : Bool → ValidationRun → ValidationRun
marked archived r = record r { archived = archived }

pub found_added :
    (run : ValidationRun) (table : List ValidationRun)
    → exists (has_run_id run.run_id) table ≡ false
    → find_run run.run_id (table ++ run ∷ []) ≡ some run
unfolding find_run
found_added run [] h = rw (text_eq_refl run.run_id) refl
found_added run (r ∷ table) h = ground (arith, found_added run table)

recorded_found :
    (run : ValidationRun) (table table' : List ValidationRun) (r : ValidationRun)
    → recorded run (add_run run table) ≡ some (r, table')
    → find_run run.run_id table' ≡ some r
unfolding add_run
recorded_found run table table' r h = elim (Bool-cases (exists (has_run_id run.run_id) table)) [
  | inl clash ↦ absurd (let e = rw clash at h in cc)
  | inr free ↦ let e = rw free at h in let f = found_added run table free in cc
]

counted-total :
    (found : Bool) (i : Text) (r : BulkRunResult)
    → (counted found i r).succeeded + length ((counted found i r).missing)
      ≡ suc (r.succeeded + length r.missing)
counted-total true i r = omega arith
counted-total false i r = omega (arith, length-append r.missing (i ∷ []))

find_run-set_archived :
    (i j : Text) (archived : Bool) (table : List ValidationRun)
    → find_run j (set_archived i archived table).1
      ≡ (if text_eq i j then Option.map (marked archived) (find_run j table) else find_run j table)
unfolding find_run set_archived
find_run-set_archived i j archived [] = ground arith
find_run-set_archived i j archived (r ∷ table) = ground (
  arith,
  text_eq_iff r.run_id i,
  text_eq_iff r.run_id j,
  text_eq_iff i j,
  find_run-set_archived i j archived table,
)

marked_twice :
    (archived : Bool) (o : Option ValidationRun)
    → Option.map (marked archived) (Option.map (marked archived) o) ≡ Option.map (marked archived) o
marked_twice archived none = refl
marked_twice archived (some r) = refl

find_run-archive_each :
    (archived : Bool) (result : BulkRunResult) (ids : List Text) (table : List ValidationRun)
    (j : Text)
    → find_run j (archive_each archived result ids table).1 ≡ (
        if exists (λ i. text_eq i j) ids
        then Option.map (marked archived) (find_run j table)
        else find_run j table)
unfolding archive_each
find_run-archive_each archived result [] table j = refl
find_run-archive_each archived result (i ∷ ids) table j =
    find_run-archive_each archived (counted (set_archived i archived table).0 i result) ids
      (set_archived i archived table).1 j
    ∙ rw (find_run-set_archived i j archived table)
        (ground (arith, marked_twice archived (find_run j table)))

-- Archiving or restoring runs marks each run whose id was given, and every other one reads as
-- before.
pub find_run-archive_runs :
    (archived : Bool) (ids : List Text) (table : List ValidationRun) (j : Text)
    → find_run j (archive_runs ids archived table).1 ≡ (
        if exists (λ i. text_eq i j) ids
        then Option.map (marked archived) (find_run j table)
        else find_run j table)
unfolding archive_runs
find_run-archive_runs archived ids table j =
    find_run-archive_each archived (no_result ids) ids table j

find_run-delete_run :
    (i j : Text) (table : List ValidationRun)
    → find_run j (delete_run i table).1 ≡ (if text_eq i j then none else find_run j table)
unfolding find_run delete_run
find_run-delete_run i j [] = ground arith
find_run-delete_run i j (r ∷ table) = ground (
  arith,
  text_eq_iff r.run_id i,
  text_eq_iff r.run_id j,
  text_eq_iff i j,
  find_run-delete_run i j table,
)

-- There is a directory for the run.
abbrev pub has_details : Text → List Text → Bool
has_details j details = exists (λ i. text_eq i j) details

has_details-delete :
    (i j : Text) (details : List Text)
    → has_details j (delete_details i details)
      ≡ (if text_eq i j then false else has_details j details)
has_details-delete i j [] = ground arith
has_details-delete i j (d ∷ details) = ground (
  arith,
  text_eq_iff d i,
  text_eq_iff d j,
  text_eq_iff i j,
  text_eq_refl d,
  has_details-delete i j details,
)

delete_each_lem :
    (result : BulkRunResult) (ids : List Text) (st : History) (j : Text)
    → (find_run j (delete_each result ids st).1.table
        ≡ (if exists (λ i. text_eq i j) ids then none else find_run j st.table))
      × (has_details j (delete_each result ids st).1.details
          ≡ (if exists (λ i. text_eq i j) ids then false else has_details j st.details))
unfolding delete_each
delete_each_lem result [] st j = (refl, refl)
delete_each_lem result (i ∷ ids) st j =
    let ih =
      delete_each_lem (counted (delete_run i st.table).0 i result) ids
        (record { table = (delete_run i st.table).1; details = delete_details i st.details }) j in
    (
      ih.0 ∙ rw (find_run-delete_run i j st.table) (ground arith),
      ih.1 ∙ rw (has_details-delete i j st.details) (ground arith),
    )

delete_each-total :
    (result : BulkRunResult) (ids : List Text) (st : History)
    → (delete_each result ids st).0.succeeded + length ((delete_each result ids st).0.missing)
      ≡ result.succeeded + length result.missing + length ids
unfolding delete_each
delete_each-total result [] st = omega arith
delete_each-total result (i ∷ ids) st = omega (
  arith,
  delete_each-total (counted (delete_run i st.table).0 i result) ids
      (record { table = (delete_run i st.table).1; details = delete_details i st.details }),
  counted-total (delete_run i st.table).0 i result,
)

-- Deleting runs removes the row and the details of every id that was given and of no other, and
-- counts each given id once, as removed or as missing.
pub delete_runs_lem :
    (ids : List Text) (st : History) (j : Text)
    → (find_run j (delete_runs ids st).1.table
        ≡ (if exists (λ i. text_eq i j) ids then none else find_run j st.table))
      × (has_details j (delete_runs ids st).1.details
          ≡ (if exists (λ i. text_eq i j) ids then false else has_details j st.details))
      × ((delete_runs ids st).0.succeeded + length ((delete_runs ids st).0.missing) ≡ length ids)
unfolding delete_runs
delete_runs_lem ids st j =
    let both = delete_each_lem (no_result ids) ids st j in
    (both.0, both.1, omega (arith, delete_each-total (no_result ids) ids st))

-- A run that was recorded is found under its new id.
pub record_run_lem :
    (m : ValidationModule) (name : Text) (started : ℕ) (status : RunStatus)
    (source_id target_id : Option Text) (summary : List (Text × Text)) (message : Option Text)
    (project_id : Text) (suite_id : Option Text) (new_id : Text) (finished : ℕ)
    (table table' : List ValidationRun) (r : ValidationRun)
    → record_run m name started status source_id target_id summary message project_id suite_id
        new_id finished table
      ≡ some (r, table')
    → find_run new_id table' ≡ some r
unfolding record_run
record_run_lem m name started status source_id target_id summary message project_id suite_id new_id
      finished table table' r h =
    recorded_found _ table table' r h

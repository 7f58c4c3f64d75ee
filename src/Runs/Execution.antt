-- ===== src/Runs/Execution.antt =====
-- The `try` of the validation services' `execute`, around the computation of each, with its
-- `except` branch; checks that a service makes before its `try` belong to that service.
-- `computed` is what the service computed, or the message of what it raised; `save` is what the
-- detail store answers.
use mathlib.Core.Path.{subst}
use datarecon_ai_community_e.Prelude.{
  ℕ, ◌≡◌, refl, Bool, false, Option, none, some, List, [], ◌∷◌, ◌++◌, exists, Result, ok, err, OnOk,
  append-nil, arith,
}
use datarecon_ai_community_e.PyText.{Text, text_eq}
use datarecon_ai_community_e.Domain.{ValidationRun, ValidationModule, RunStatus, error}
use datarecon_ai_community_e.Runs.Store.{add_run, has_run_id}
use datarecon_ai_community_e.Runs.Service.{record_run, new_run}

-- The arguments of a call that go into its run, the ids of its run and of an error's run, the
-- readings of the clock, and the text of an IntegrityError.
pub record Call : Type 0 where
  pub module_kind : ValidationModule
  pub name : Text
  pub source_connection_id : Option Text
  pub target_connection_id : Option Text
  pub project_id : Text
  pub suite_id : Option Text
  pub new_id : Text
  pub error_id : Text
  pub started : ℕ
  pub finished : ℕ
  pub failed_at : ℕ
  pub integrity_error : Text

pub record Computed (A : Type 0) : Type 0 where
  pub status : RunStatus
  pub summary : List (Text × Text)
  pub value : A

module _ {A : Type 0} (call : Call) (save : ValidationRun → A → Result Text (Unit {0})) where
  abbrev pub record_error : List ValidationRun → Text → Option (ValidationRun × List ValidationRun)
  record_error table message =
      record_run call.module_kind call.name call.started error call.source_connection_id
        call.target_connection_id [] (some message) call.project_id call.suite_id call.error_id
        call.failed_at table

  -- The `except` branch; an error of its own takes the place of the first.
  abbrev pub raised :
      Text
      → List ValidationRun
      → Option (ValidationRun × List ValidationRun)
      → Result Text (Computed A × ValidationRun) × List ValidationRun
  raised message table none = (err call.integrity_error, table)
  raised message table (some (_, table')) = (err message, table')

  unfoldable pub fail_with :
      Text → List ValidationRun → Result Text (Computed A × ValidationRun) × List ValidationRun
  fail_with message table = raised message table (record_error table message)

  -- `self._details.save(...)` and the return
  abbrev pub return_saved :
      Computed A
      → ValidationRun
      → List ValidationRun
      → Result Text (Unit {0})
      → Result Text (Computed A × ValidationRun) × List ValidationRun
  return_saved c run table (ok _) = (ok (c, run), table)
  return_saved c run table (err message) = fail_with message table

  abbrev pub save_recorded :
      Computed A
      → List ValidationRun
      → Option (ValidationRun × List ValidationRun)
      → Result Text (Computed A × ValidationRun) × List ValidationRun
  save_recorded c table none = fail_with call.integrity_error table
  save_recorded c table (some (run, table')) = return_saved c run table' (save run c.value)

  unfoldable pub perform :
      Result Text (Computed A)
      → List ValidationRun
      → Result Text (Computed A × ValidationRun) × List ValidationRun
  perform (err message) table = fail_with message table
  perform (ok c) table = save_recorded c table (
      record_run call.module_kind call.name call.started c.status call.source_connection_id
        call.target_connection_id c.summary none call.project_id call.suite_id call.new_id
        call.finished table)

  -- The ids of the call are not in use, and differ.
  pub record IsFresh (table : List ValidationRun) : Type 0 where
    pub new_free : exists (has_run_id call.new_id) table ≡ false
    pub error_free : exists (has_run_id call.error_id) table ≡ false
    pub ids_differ : text_eq call.new_id call.error_id ≡ false

  -- What a call leaves: the last run of the history tells how it ended, and nothing older changed.
  -- Before the run of an error there is another one where saving the details raised.
  abbrev pub IsRecorded :
      List ValidationRun → Result Text (Computed A × ValidationRun) × List ValidationRun → Type 0
  IsRecorded table (ok (c, run), table') =
      (table' ≡ table ++ run ∷ [])
      × (run.run_id ≡ call.new_id)
      × (run.status ≡ c.status)
      × (run.summary ≡ c.summary)
      × (run.error_message ≡ none)
  IsRecorded table (err message, table') =
      (earlier : List ValidationRun) × (run : ValidationRun) × (table'
        ≡ table ++ earlier ++ run ∷ [])
      × (run.run_id ≡ call.error_id)
      × (run.status ≡ error)
      × (run.error_message ≡ some message)

  abbrev error_run : Text → ValidationRun
  error_run message =
      new_run call.module_kind call.name call.started error call.source_connection_id
        call.target_connection_id [] (some message) call.project_id call.suite_id call.error_id
        call.failed_at

  abbrev computed_run : Computed A → ValidationRun
  computed_run c =
      new_run call.module_kind call.name call.started c.status call.source_connection_id
        call.target_connection_id c.summary none call.project_id call.suite_id call.new_id
        call.finished

  add_run_free :
      (run : ValidationRun) (table : List ValidationRun)
      → exists (has_run_id run.run_id) table ≡ false
      → add_run run table ≡ some (table ++ run ∷ [])
  unfolding add_run
  add_run_free run table h = rw h refl

  exists-append :
      (p : ValidationRun → Bool) (xs : List ValidationRun) (y : ValidationRun)
      → exists p xs ≡ false
      → p y ≡ false
      → exists p (xs ++ y ∷ []) ≡ false
  exists-append p [] y h k = rw k refl
  exists-append p (x ∷ xs) y h k = ground (arith, exists-append p xs y)

  fail_with-IsRecorded :
      (table earlier : List ValidationRun) (message : Text)
      → exists (has_run_id call.error_id) (table ++ earlier) ≡ false
      → IsRecorded table (fail_with message (table ++ earlier))
  unfolding fail_with record_run
  fail_with-IsRecorded table earlier message free =
      rw (add_run_free (error_run message) (table ++ earlier) free)
        (earlier, error_run message, refl, refl, refl, refl)

  return_saved-IsRecorded :
      (c : Computed A) (run : ValidationRun) (table : List ValidationRun)
      (saved : Result Text (Unit {0}))
      → IsFresh table
      → run.run_id ≡ call.new_id
      → run.status ≡ c.status
      → run.summary ≡ c.summary
      → run.error_message ≡ none
      → IsRecorded table (return_saved c run (table ++ run ∷ []) saved)
  return_saved-IsRecorded c run table (ok _) fresh i s m e = (refl, i, s, m, e)
  return_saved-IsRecorded c run table (err message) fresh i s m e =
      fail_with-IsRecorded table (run ∷ []) message (
        exists-append (has_run_id call.error_id) table run fresh.error_free (rw i fresh.ids_differ))

  -- Once a validation is in the `try` of its `execute`, behind the checks that some services make
  -- before it, it is recorded however it ends: where it returns, its run is the last of the history,
  -- with the status and the summary that were computed; where it raises, a run with status ERROR and
  -- the message is. The earlier runs stay, where the call's ids are fresh.
  pub perform-IsRecorded :
      (computed : Result Text (Computed A)) (table : List ValidationRun)
      → IsFresh table
      → IsRecorded table (perform computed table)
  unfolding perform record_run
  perform-IsRecorded (err message) table fresh =
      let e = append-nil table in
      subst (λ t. IsRecorded table (fail_with message t)) e
        (fail_with-IsRecorded table [] message (rw e fresh.error_free))
  perform-IsRecorded (ok c) table fresh = rw (add_run_free (computed_run c) table fresh.new_free) (
      return_saved-IsRecorded c (computed_run c) table (save (computed_run c) c.value) fresh refl
        refl refl refl)

  module _ (Q : Computed A × ValidationRun → Type 0) where
    fail_with-OnOk :
        (message : Text) (table : List ValidationRun) → OnOk Q (fail_with message table).0
    unfolding fail_with
    fail_with-OnOk message table = none_returned (record_error table message)
      where
        none_returned :
            (o : Option (ValidationRun × List ValidationRun)) → OnOk Q (raised message table o).0
        none_returned none = tt
        none_returned (some r) = tt

    -- What a call returns is what was computed.
    pub perform-OnOk :
        (computed : Result Text (Computed A)) (table : List ValidationRun)
        → ((c : Computed A) (run : ValidationRun) → computed ≡ ok c → Q (c, run))
        → OnOk Q (perform computed table).0
    unfolding perform
    perform-OnOk (err message) table h = fail_with-OnOk message table
    perform-OnOk (ok c) table h = returned (
        record_run call.module_kind call.name call.started c.status call.source_connection_id
          call.target_connection_id c.summary none call.project_id call.suite_id call.new_id
          call.finished table)
      where
        saved :
            (run : ValidationRun) (t : List ValidationRun) (s : Result Text (Unit {0}))
            → OnOk Q (return_saved c run t s).0
        saved run t (ok _) = h c run refl
        saved run t (err message) = fail_with-OnOk message t

        returned :
            (o : Option (ValidationRun × List ValidationRun)) → OnOk Q (save_recorded c table o).0
        returned none = fail_with-OnOk call.integrity_error table
        returned (some (run, t)) = saved run t (save run c.value)

-- ===== src/Suites/Service/Outcomes.antt =====
-- What `run_suite` and `run_suites` report, and what they leave in the table.
use mathlib.Core.Path.{subst}
use mathlib.Core.Option
use datarecon_ai_community_e.Prelude.{
  ℕ, ◌≡◌, refl, false, none, some, List, [], ◌∷◌, Result, ok, err, ap, Option-cases, inl, inr, ◌∙◌,
  Option, Bool, true, if◌then◌else◌,
}
use datarecon_ai_community_e.PyText.{Text, text_eq}
use datarecon_ai_community_e.PyText.Laws.{text_eq_refl}
use datarecon_ai_community_e.Domain.{TestSuite, ValidationRun, RunStatus, error}
use datarecon_ai_community_e.Suites.Store.{get_by_id, with_result}
use datarecon_ai_community_e.Suites.Store.Laws.{get_by_id-id, get_by_id-record_run_result}
use datarecon_ai_community_e.Suites.Service.{
  Services, State, Outcome, attempt, run_suite, run_suites, Message, missing_outcome, caught,
  settle,
}

module _ {Json Request : Type 0} (services : Services Json Request) (clock : ℕ → ℕ) where
  -- The settled outcome of a suite that is stored: the table's row becomes the outcome's suite.
  abbrev pub IsRecorded : Text → State Json → Outcome Json × State Json → Type 0
  IsRecorded suite_id st (outcome, st') =
      (get_by_id suite_id st'.table ≡ some outcome.suite)
      × ((other : Text)
          → text_eq suite_id other ≡ false
          → get_by_id other st'.table ≡ get_by_id other st.table)
      × (outcome.suite.last_run_status ≡ some outcome.status)

  settle_at :
      (s : TestSuite Json) (st : State Json) (r : Result Message (RunStatus × ValidationRun))
      → get_by_id s.suite_id st.table ≡ some s
      → IsRecorded s.suite_id st (settle services clock s st r)
  settle_at s st (ok (status, run)) h =
      let law = λ (other : Text).
        get_by_id-record_run_result s.suite_id other (some run.run_id) status run.finished_at
          st.table in
      (rw (law s.suite_id, text_eq_refl s.suite_id, h), (λ other ne. rw (law other, ne)), refl)
  settle_at s st (err message) h =
      let law = λ (other : Text).
        get_by_id-record_run_result s.suite_id other none error (clock st.readings) st.table in
      (rw (law s.suite_id, text_eq_refl s.suite_id, h), (λ other ne. rw (law other, ne)), refl)

  settle-IsRecorded :
      (suite_id : Text) (s : TestSuite Json) (st : State Json)
      (r : Result Message (RunStatus × ValidationRun))
      → get_by_id suite_id st.table ≡ some s
      → IsRecorded suite_id st (settle services clock s st r)
  settle-IsRecorded suite_id s st r h =
      let same = get_by_id-id suite_id st.table s h in
      subst (λ i. IsRecorded i st (settle services clock s st r)) same
        (settle_at s st r (ap (λ i. get_by_id i st.table) same ∙ h))

  -- Running a stored suite returns, whether its validation passes, fails or raises: the outcome's
  -- suite carries the outcome's status and is what the table now holds under that id, and every
  -- other row reads as before.
  pub run_suite-IsRecorded :
      (suite_id : Text) (s : TestSuite Json) (st : State Json)
      → get_by_id suite_id st.table ≡ some s
      → (result : Outcome Json × State Json) × (run_suite services clock suite_id st
          ≡ (ok (result.0), result.1))
        × IsRecorded suite_id st result
  unfolding run_suite
  run_suite-IsRecorded suite_id s st h = (
    settle services clock s st (attempt services s),
    rw (h, run_suite),
    settle-IsRecorded suite_id s st _ h,
  )

  -- What the outcome says of the attempt to run a suite.
  abbrev pub IsVerdict : Result Message (RunStatus × ValidationRun) → Outcome Json → Type 0
  IsVerdict (ok (status, run)) o =
      (o.status ≡ status) × (o.run ≡ some run) × (o.error_message ≡ none)
  IsVerdict (err message) o = (o.status ≡ error) × (o.run ≡ none) × (o.error_message ≡ some message)

  -- The outcome for an id, by the suite that the table has under it.
  abbrev pub IsAnswer : TestSuite Json → Text → Option (TestSuite Json) → Outcome Json → Type 0
  IsAnswer blank i none o = o ≡ missing_outcome services blank i
  IsAnswer blank i (some s) o =
      (o.suite.suite_id ≡ i)
      × (o.suite.name ≡ s.name)
      × (o.suite.last_run_status ≡ some o.status)
      × IsVerdict (attempt services s) o

  -- The outcomes answer the ids, one by one, as the table has them.
  abbrev pub Answers :
      TestSuite Json → List (TestSuite Json) → List Text → List (Outcome Json) → Type 0
  Answers blank table [] [] = Unit
  Answers blank table [] (o ∷ outcomes) = ⊥
  Answers blank table (i ∷ ids) [] = ⊥
  Answers blank table (i ∷ ids) (o ∷ outcomes) =
      IsAnswer blank i (get_by_id i table) o × Answers blank table ids outcomes

  settled :
      (blank s : TestSuite Json) (st : State Json) (r : Result Message (RunStatus × ValidationRun))
      → attempt services s ≡ r
      → IsAnswer blank s.suite_id (some s) (settle services clock s st r).0
  settled blank s st (ok (status, run)) h = rw h (refl, refl, refl, (refl, refl, refl))
  settled blank s st (err message) h = rw h (refl, refl, refl, (refl, refl, refl))

  run_suite-IsAnswer :
      (blank : TestSuite Json) (i : Text) (st : State Json)
      → IsAnswer blank i
          (get_by_id i st.table)
          (caught services blank i (run_suite services clock i st).0)
  unfolding run_suite
  run_suite-IsAnswer blank i st = elim (Option-cases (get_by_id i st.table)) [
    | inl absent ↦ rw (absent, run_suite) refl
    | inr (s, found) ↦
        rw (found, run_suite)
          (subst
            (λ k. IsAnswer blank k (some s) (settle services clock s st (attempt services s)).0)
            (get_by_id-id i st.table s found) (settled blank s st (attempt services s) refl))
  ]

  -- The rows differ at most in the results of their last runs.
  abbrev OnlyResults : Option (TestSuite Json) → Option (TestSuite Json) → Type 0
  OnlyResults none o = o ≡ none
  OnlyResults (some s) none = ⊥
  OnlyResults (some s) (some s') = (s'.name ≡ s.name) × (attempt services s' ≡ attempt services s)

  OnlyResults-refl : (o : Option (TestSuite Json)) → OnlyResults o o
  OnlyResults-refl none = refl
  OnlyResults-refl (some s) = (refl, refl)

  OnlyResults-map :
      (b : Bool) (run_id : Option Text) (status : RunStatus) (when : ℕ)
      (o : Option (TestSuite Json))
      → OnlyResults o (if b then Option.map (with_result run_id status when) o else o)
  OnlyResults-map true run_id status when none = refl
  OnlyResults-map true run_id status when (some s) = (refl, unfold attempt in refl)
  OnlyResults-map false run_id status when o = OnlyResults-refl o

  run_suite-OnlyResults :
      (i k : Text) (st : State Json)
      → OnlyResults (get_by_id k st.table) (get_by_id k (run_suite services clock i st).1.table)
  unfolding run_suite
  run_suite-OnlyResults i k st = elim (Option-cases (get_by_id i st.table)) [
    | inl absent ↦ rw (absent, run_suite) (OnlyResults-refl (get_by_id k st.table))
    | inr (s, found) ↦ rw (found, run_suite) (after s (attempt services s))
  ]
    where
      after :
          (s : TestSuite Json) (r : Result Message (RunStatus × ValidationRun))
          → OnlyResults (get_by_id k st.table) (get_by_id k (settle services clock s st r).1.table)
      after s (ok (status, run)) =
          rw
            (get_by_id-record_run_result s.suite_id k (some run.run_id) status run.finished_at
              st.table)
            (OnlyResults-map (text_eq s.suite_id k) (some run.run_id) status run.finished_at
              (get_by_id k st.table))
      after s (err message) =
          rw (get_by_id-record_run_result s.suite_id k none error (clock st.readings) st.table) (
            OnlyResults-map (text_eq s.suite_id k) none error (clock st.readings)
              (get_by_id k st.table))

  IsAnswer-before :
      (blank : TestSuite Json) (i : Text) (before after : Option (TestSuite Json))
      (o : Outcome Json)
      → OnlyResults before after
      → IsAnswer blank i after o
      → IsAnswer blank i before o
  IsAnswer-before blank i none after o same h = rw same at h
  IsAnswer-before blank i (some s) none o same h = absurd same
  IsAnswer-before blank i (some s) (some s') o same h =
      (h.0, h.1 ∙ same.0, h.2, subst (λ r. IsVerdict r o) same.1 h.3)

  Answers-before :
      (blank : TestSuite Json) (before after : List (TestSuite Json))
      → ((k : Text) → OnlyResults (get_by_id k before) (get_by_id k after))
      → (ids : List Text) (outcomes : List (Outcome Json)) → Answers blank after ids outcomes
      → Answers blank before ids outcomes
  Answers-before blank before after same [] [] h = tt
  Answers-before blank before after same [] (o ∷ outcomes) h = h
  Answers-before blank before after same (i ∷ ids) [] h = h
  Answers-before blank before after same (i ∷ ids) (o ∷ outcomes) h = (
    IsAnswer-before blank i _ _ o (same i) h.0,
    Answers-before blank before after same ids outcomes h.1,
  )

  -- A bulk run gives one outcome for each requested id, in order, also past suites that fail, raise
  -- or do not exist. For an id under which the table has a suite before the run, it is that of this
  -- suite: it carries its id, its name, and the status, run and error that the attempt to run it
  -- gives, with status ERROR where it raises. For any other id it is the outcome of a missing suite.
  pub run_suites-Answers :
      (blank : TestSuite Json) (ids : List Text) (st : State Json)
      → Answers blank st.table ids (run_suites services clock blank ids st).0
  unfolding run_suites
  run_suites-Answers blank [] st = tt
  run_suites-Answers blank (i ∷ ids) st =
      let st' = (run_suite services clock i st).1 in
      (
        run_suite-IsAnswer blank i st,
        Answers-before blank st.table st'.table (λ k. run_suite-OnlyResults i k st) ids
            (run_suites services clock blank ids st').0 (run_suites-Answers blank ids st'),
      )

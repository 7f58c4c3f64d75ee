-- ===== src/Scheduler/Schedules.antt =====
-- An enabled schedule in the table always has an expression that parses.
use datarecon_ai_community_e.Prelude.{
  ℕ, ◌≡◌, refl, Bool, true, false, not, ◌&&◌, ◌||◌, Option, none, some, List, [], ◌∷◌, map,
  if◌then◌else◌, exists, All, All-append, All-select, arith, Bool-cases, Option-cases, inl, inr,
  Result, ok, err, OnOk, OnOk-bind, OnOk-eq, raise_if, ◌>>◌,
}
use datarecon_ai_community_e.PyText.{Text, Unicode, text_eq, strip, is_empty}
use datarecon_ai_community_e.Cron
use datarecon_ai_community_e.Cron.{CronError, CronSchedule}
use datarecon_ai_community_e.Cron.Calendar.{DateTime}
use datarecon_ai_community_e.Domain.{TestSuite, ValidationModule, ValidationRun, RunStatus}
use datarecon_ai_community_e.Suites.Store.{
  clash, has_id, get_by_id, record_run_result, update, add, delete, written,
}
use datarecon_ai_community_e.Suites.Service.{
  Services, State, Outcome, attempt, run_suite, run_suites, settle, is_runnable, save_suite, saved,
  delete_suite, Message,
}
use datarecon_ai_community_e.Scheduler.{
  SchedulerError, bad_expression, parse, parse_if_given, with_schedule, set_schedule, tick,
  run_if_due, due_suites, expression_required, NotifyOn,
}

module _ (u : Unicode) where
  abbrev pub cron_parses : Option Text → Bool
  cron_parses none = false
  cron_parses (some e) = elim (Cron.parse u e) [ ok _ ↦ true | err _ ↦ false ]

  parsed_holds :
      (enabled : Bool) (r : Result CronError CronSchedule)
      → OnOk
          (λ (x : Unit {0}).
            (not enabled || elim r as (λ _. Bool) [ ok _ ↦ true | err _ ↦ false ]) ≡ true)
          (elim r as (λ _. Result SchedulerError CronSchedule) [
            | ok s ↦ ok s
            | err e ↦ err (bad_expression e)
          ]
            >> ok tt)
  parsed_holds enabled (ok s) = ground arith
  parsed_holds enabled (err e) = tt

module _ (u : Unicode) {Json : Type 0} where
  -- The row's schedule is off, or it has an expression and that parses.
  abbrev pub IsRunnable : TestSuite Json → Type 0
  IsRunnable s = (not s.schedule_enabled || cron_parses u s.schedule_cron) ≡ true

  abbrev pub AllRunnable : State Json → Type 0
  AllRunnable st = All IsRunnable st.table

  -- An UPDATE writes a runnable row over the rows of its id.
  updated-IsRunnable :
      (i : Text) (new : TestSuite Json) (table : List (TestSuite Json))
      → IsRunnable new
      → All IsRunnable table
      → All IsRunnable (map (λ row. if has_id i row then written new row else row) table)
  updated-IsRunnable i new [] h a = tt
  updated-IsRunnable i new (row ∷ table) h a = (ground arith, updated-IsRunnable i new table h a.1)

  scheduled-IsRunnable :
      (e : Text) (enabled : Bool) (s : TestSuite Json)
      → OnOk (λ (x : Unit {0}). IsRunnable (with_schedule e enabled s)) (parse_if_given u e)
  unfolding parse
  scheduled-IsRunnable [] enabled s = refl
  scheduled-IsRunnable (c ∷ e) enabled s = parsed_holds u enabled (Cron.parse u (c ∷ e))

  -- Attaching, changing or clearing a schedule keeps every enabled schedule runnable.
  pub set_schedule-AllRunnable :
      (now : ℕ) (suite_id expression : Text) (enabled : Bool) (st : State Json)
      → AllRunnable st
      → OnOk
          (λ (r : TestSuite Json × State Json). AllRunnable (r.1))
          (set_schedule u now suite_id expression enabled st)
  unfolding set_schedule update
  set_schedule-AllRunnable now suite_id expression enabled st a =
      elim (Option-cases (get_by_id suite_id st.table)) [
        | inl absent ↦ rw (absent, set_schedule) tt
        | inr (s, found) ↦
            rw (found, set_schedule)
              (let new = with_schedule (strip expression) enabled s in
                let Q = λ (r : TestSuite Json × State Json). AllRunnable (r.1) in
                OnOk-bind Q (raise_if (enabled && is_empty (strip expression)) expression_required)
                  _
                  λ _ _. OnOk-bind Q (parse_if_given u (strip expression)) _ λ x parsed.
                    updated-IsRunnable new.suite_id (record new { updated_at = now }) st.table
                      (OnOk-eq (λ (y : Unit {0}). IsRunnable new)
                        (parse_if_given u (strip expression)) {a = x}
                        (scheduled-IsRunnable (strip expression) enabled s) parsed)
                      a)
      ]

  recorded-IsRunnable :
      (i : Text) (run_id : Option Text) (status : RunStatus) (when : ℕ)
      (table : List (TestSuite Json))
      → All IsRunnable table
      → All IsRunnable (record_run_result i run_id status when table)
  unfolding record_run_result
  recorded-IsRunnable i run_id status when [] a = tt
  recorded-IsRunnable i run_id status when (s ∷ table) a =
      (ground arith, recorded-IsRunnable i run_id status when table a.1)

  module _ {Request : Type 0} (services : Services Json Request) (clock : ℕ → ℕ)
      (blank : TestSuite Json) where
    settle-AllRunnable :
        (s : TestSuite Json) (st : State Json) (r : Result Message (RunStatus × ValidationRun))
        → AllRunnable st
        → AllRunnable (settle services clock s st r).1
    settle-AllRunnable s st (ok (status, run)) a =
        recorded-IsRunnable s.suite_id (some run.run_id) status run.finished_at st.table a
    settle-AllRunnable s st (err message) a =
        recorded-IsRunnable s.suite_id none _ (clock st.readings) st.table a

    run_suite-AllRunnable :
        (i : Text) (st : State Json)
        → AllRunnable st
        → AllRunnable (run_suite services clock i st).1
    unfolding run_suite
    run_suite-AllRunnable i st a = elim (Option-cases (get_by_id i st.table)) [
      | inl absent ↦ rw (absent, run_suite) a
      | inr (s, found) ↦ rw (found, run_suite) (settle-AllRunnable s st (attempt services s) a)
    ]

    pub run_suites-AllRunnable :
        (ids : List Text) (st : State Json)
        → AllRunnable st
        → AllRunnable (run_suites services clock blank ids st).1
    unfolding run_suites
    run_suites-AllRunnable [] st a = a
    run_suites-AllRunnable (i ∷ ids) st a =
        run_suites-AllRunnable ids (run_suite services clock i st).1 (run_suite-AllRunnable i st a)

    module _ (zone : ℕ → DateTime) (policy : NotifyOn)
        (notifier : List (Outcome Json) → Option Bool) (moment : ℕ) where
      run_if_due-AllRunnable :
          (due : List (TestSuite Json)) (st : State Json)
          → AllRunnable st
          → AllRunnable (run_if_due u services clock blank zone policy notifier moment due st).1
      run_if_due-AllRunnable [] st a = a
      run_if_due-AllRunnable (s ∷ due) st a =
          run_suites-AllRunnable (map (λ t. t.suite_id) (s ∷ due)) st a

      -- So does a tick, whatever the suites that it runs answer.
      pub tick-AllRunnable :
          (st : State Json)
          → AllRunnable st
          → AllRunnable (tick u services clock blank zone policy notifier moment st).1
      unfolding tick
      tick-AllRunnable st a = run_if_due-AllRunnable (due_suites u zone moment st) st a

  added-AllRunnable :
      (s : TestSuite Json) (st : State Json)
      → IsRunnable s
      → AllRunnable st
      → OnOk (λ (r : TestSuite Json × State Json). AllRunnable (r.1)) (saved s st (add s st.table))
  unfolding add
  added-AllRunnable s st h a = elim (Bool-cases (exists (clash s) st.table)) [
    | inl clashes ↦ rw clashes tt
    | inr free ↦ rw free (All-append IsRunnable st.table _ a (h, tt))
  ]

  pub saved-AllRunnable :
      (project_id name : Text) (m : ValidationModule) (config : Json) (description : Text)
      (source_id target_id : Option Text) (new_id : Text) (created updated : ℕ) (st : State Json)
      → AllRunnable st
      → OnOk
          (λ (r : TestSuite Json × State Json). AllRunnable (r.1))
          (save_suite u project_id name m config description source_id target_id new_id created
            updated st)
  unfolding save_suite
  saved-AllRunnable project_id name m config description source_id target_id new_id created updated
        st a =
      let Q = λ (r : TestSuite Json × State Json). AllRunnable (r.1) in
      OnOk-bind Q (raise_if (is_empty (strip name)) _) _ λ _ _.
        OnOk-bind Q (raise_if (not (is_runnable m)) _) _ λ _ _.
          OnOk-bind Q (raise_if (not (exists (λ p. text_eq p project_id) st.projects)) _) _
            λ _ _. added-AllRunnable _ st refl a

  pub deleted-AllRunnable :
      (i : Text) (st : State Json) → AllRunnable st → AllRunnable (delete_suite i st).1
  unfolding delete_suite delete
  deleted-AllRunnable i st a = All-select IsRunnable (λ s. not (has_id i s)) st.table a

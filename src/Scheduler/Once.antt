-- ===== src/Scheduler/Once.antt =====
-- A suite runs at most once in a minute: when a tick is over, nothing is due in its minute.
use mathlib.Core.Path.{subst, fun_ext}
use datarecon_ai_community_e.Prelude.{
  exists-select, exists-map, ℕ, ◌≤◌, ◌≡◌, refl, Bool, true, false, ◌&&◌, Option, none, some, List,
  [], ◌∷◌, map, select, exists, All, All-imp, arith, Bool-cases, Option-cases, inl, inr, ◌⊎◌, ◌∙◌,
  sym, ap, Result, ok, err,
}
use datarecon_ai_community_e.PyText.{Text, Unicode, text_eq}
use datarecon_ai_community_e.PyText.Laws.{text_eq_refl}
use datarecon_ai_community_e.Cron
use datarecon_ai_community_e.Cron.{CronSchedule, matches}
use datarecon_ai_community_e.Cron.Calendar.{DateTime, floor_minute, weekday}
use datarecon_ai_community_e.Domain.{TestSuite, ValidationRun, RunStatus}
use datarecon_ai_community_e.Suites.Store.{
  has_id, list_all, get_by_id, record_run_result, with_result,
}
use datarecon_ai_community_e.Suites.Store.Laws.{exists-list_all, get_by_id-id}
use datarecon_ai_community_e.Suites.Service.{
  Services, State, Outcome, attempt, run_suite, run_suites, settle, Message,
}
use datarecon_ai_community_e.Scheduler.{
  NotifyOn, minute_start, is_due, due_suites, not_run_since, fires_at, enabled_cron, tick,
  run_if_due,
}

-- Only the minute of a moment counts for a schedule.
matches-floor_minute : (s : CronSchedule) (t : DateTime) → matches s (floor_minute t) ≡ matches s t
unfolding matches floor_minute weekday
matches-floor_minute s t = refl

module _ {ℓ} {A : Type ℓ} where
  select-nil : (p : A → Bool) (xs : List A) → exists p xs ≡ false → select p xs ≡ []
  select-nil p [] h = refl
  select-nil p (x ∷ xs) h = ground (arith, select-nil p xs)

  -- A row that passes its own test is found by it.
  All-found :
      (p : A → Bool) (q : A → A → Bool) (table rows : List A)
      → ((x : A) → q x x ≡ true)
      → ((x : A) → exists (λ y. p y && q x y) rows ≡ true → exists (λ y. p y && q x y) table ≡ true)
      → All (λ x. (p x ≡ false) ⊎ (exists (λ y. p y && q x y) table ≡ true)) rows
  All-found p q table [] r sub = tt
  All-found p q table (x ∷ rows) r sub = (
    elim (Bool-cases (p x)) [
      | inl holds ↦ inr (sub x (ground (arith, r x)))
      | inr fails ↦ inl fails
    ],
    All-found p q table rows r (λ y h. sub y (ground arith)),
  )

module _ (u : Unicode) {Json Request : Type 0} (services : Services Json Request) (clock : ℕ → ℕ)
    (blank : TestSuite Json) (zone : ℕ → DateTime) (moment : ℕ) where
  -- Not due, or still to be run.
  abbrev Pending : List Text → TestSuite Json → Type 0
  Pending ids s = (is_due u zone moment s ≡ false) ⊎ (exists (λ i. text_eq s.suite_id i) ids ≡ true)

  -- The validations end no sooner than the tick began, by the clock.
  abbrev pub IsLater : Type 0
  IsLater =
      ((n : ℕ) → moment ≤ clock n)
      × ((s : TestSuite Json) (status : RunStatus) (run : ValidationRun)
          → attempt services s ≡ ok (status, run)
          → moment ≤ run.finished_at)

  minute_start-le : minute_start moment ≤ moment
  unfolding minute_start
  minute_start-le = omega arith

  run_now :
      (s : TestSuite Json) (run_id : Option Text) (status : RunStatus) (when : ℕ)
      → moment ≤ when
      → is_due u zone moment (with_result run_id status when s) ≡ false
  unfolding is_due
  run_now s run_id status when h = ground (arith, minute_start-le)

  recorded-Pending :
      (i : Text) (ids : List Text) (run_id : Option Text) (status : RunStatus) (when : ℕ)
      (table : List (TestSuite Json))
      → moment ≤ when
      → All (Pending (i ∷ ids)) table
      → All (Pending ids) (record_run_result i run_id status when table)
  unfolding record_run_result
  recorded-Pending i ids run_id status when [] h a = tt
  recorded-Pending i ids run_id status when (s ∷ table) h a = (
    elim (Bool-cases (has_id i s)) [
      | inl here ↦ rw here (inl (run_now s run_id status when h))
      | inr other ↦ rw other (rw other at (a.0))
    ],
    recorded-Pending i ids run_id status when table h a.1,
  )

  absent-Pending :
      (i : Text) (ids : List Text) (table : List (TestSuite Json))
      → get_by_id i table ≡ none
      → All (Pending (i ∷ ids)) table
      → All (Pending ids) table
  unfolding get_by_id
  absent-Pending i ids [] h a = tt
  absent-Pending i ids (s ∷ table) h a = elim (Bool-cases (has_id i s)) [
    | inl here ↦ absurd (let e = rw here at h in cc)
    | inr other ↦ (rw other at (a.0), absent-Pending i ids table (rw other at h) a.1)
  ]

  settle-Pending :
      (s : TestSuite Json) (ids : List Text) (st : State Json)
      (r : Result Message (RunStatus × ValidationRun))
      → IsLater
      → r ≡ attempt services s
      → All (Pending (s.suite_id ∷ ids)) st.table
      → All (Pending ids) (settle services clock s st r).1.table
  settle-Pending s ids st (ok (status, run)) later e a =
      recorded-Pending s.suite_id ids (some run.run_id) status run.finished_at st.table
        (later.1 s status run (sym e)) a
  settle-Pending s ids st (err message) later e a =
      recorded-Pending s.suite_id ids none _ (clock st.readings) st.table (later.0 st.readings) a

  run_suite-Pending :
      (i : Text) (ids : List Text) (st : State Json)
      → IsLater
      → All (Pending (i ∷ ids)) st.table
      → All (Pending ids) (run_suite services clock i st).1.table
  run_suite-Pending i ids st later a = elim (Option-cases (get_by_id i st.table)) [
    | inl absent ↦
        unfold run_suite in rw (absent, run_suite) (absent-Pending i ids st.table absent a)
    | inr (s, found) ↦
        unfold run_suite in
        rw (found, run_suite)
          (settle-Pending s ids st (attempt services s) later refl (
            subst (λ j. All (Pending (j ∷ ids)) st.table) (sym (get_by_id-id i st.table s found))
              a))
  ]

  run_suites-Pending :
      (ids : List Text) (st : State Json)
      → IsLater
      → All (Pending ids) st.table
      → All (Pending []) (run_suites services clock blank ids st).1.table
  unfolding run_suites
  run_suites-Pending [] st later a = a
  run_suites-Pending (i ∷ ids) st later a =
      run_suites-Pending ids (run_suite services clock i st).1 later
        (run_suite-Pending i ids st later a)

  -- Every row is quiet, or among those that the tick runs.
  due-Pending :
      (table : List (TestSuite Json))
      → All (Pending (map (λ s. s.suite_id) (select (is_due u zone moment) (list_all table)))) table
  due-Pending table =
      All-imp _ _
        (λ s. elim [
          | inl quiet ↦ inl quiet
          | inr found ↦ inr (
              exists-map (λ t. t.suite_id) (λ i. text_eq s.suite_id i)
                (select (is_due u zone moment) (list_all table))
              ∙ exists-select (is_due u zone moment) (λ t. text_eq s.suite_id t.suite_id)
                  (list_all table)
              ∙ exists-list_all (λ t. is_due u zone moment t && text_eq s.suite_id t.suite_id) table
              ∙ found)
        ])
        table
        (All-found (is_due u zone moment) (λ x y. text_eq x.suite_id y.suite_id) table table
          (λ x. text_eq_refl x.suite_id) (λ x h. h))

  All-quiet :
      (table : List (TestSuite Json))
      → All (Pending []) table
      → exists (is_due u zone moment) table ≡ false
  All-quiet [] a = refl
  All-quiet (s ∷ table) a = ground (arith, a.0, All-quiet table a.1)

  module _ (later_moment : ℕ) where
    -- The same minute, of UTC and of the schedule's zone.
    abbrev pub IsSameMinute : Type 0
    IsSameMinute =
        (minute_start later_moment ≡ minute_start moment)
        × (floor_minute (zone later_moment) ≡ floor_minute (zone moment))

    same_fires :
        (schedule : CronSchedule)
        → IsSameMinute
        → matches schedule (zone later_moment) ≡ matches schedule (zone moment)
    same_fires schedule same =
        sym (matches-floor_minute schedule (zone later_moment))
        ∙ ap (matches schedule) same.1
        ∙ matches-floor_minute schedule (zone moment)

    fires_both :
        IsSameMinute → (e : Text) → fires_at u (zone later_moment) e ≡ fires_at u (zone moment) e
    fires_both same e = by_parse (Cron.parse u e)
      where
        by_parse :
            (r : Result Cron.CronError CronSchedule)
            → elim r as (λ _. Bool) [
              | err _ ↦ false
              | ok schedule ↦ matches schedule (zone later_moment)
            ]
              ≡ elim r as (λ _. Bool) [
                | err _ ↦ false
                | ok schedule ↦ matches schedule (zone moment)
              ]
        by_parse (ok schedule) = same_fires schedule same
        by_parse (err _) = refl

    due_both :
        IsSameMinute → (s : TestSuite Json) → is_due u zone later_moment s ≡ is_due u zone moment s
    unfolding is_due
    due_both same s = by_cron (enabled_cron u s)
      where
        by_cron :
            (o : Option Text)
            → elim o as (λ _. Bool) [
              | none ↦ false
              | some e ↦
                  fires_at u (zone later_moment) e
                  && not_run_since (minute_start later_moment) s.last_run_at
            ]
              ≡ elim o as (λ _. Bool) [
                | none ↦ false
                | some e ↦
                    fires_at u (zone moment) e && not_run_since (minute_start moment) s.last_run_at
              ]
        by_cron none = refl
        by_cron (some e) = rw (fires_both same e, same.0)

    quiet_table :
        IsSameMinute
        → (table : List (TestSuite Json)) → exists (is_due u zone moment) table ≡ false
        → select (is_due u zone later_moment) (list_all table) ≡ []
    quiet_table same table h = rw (fun_ext (due_both same)) (
        select-nil (is_due u zone moment) (list_all table)
          (exists-list_all (is_due u zone moment) table ∙ h))

module _ (u : Unicode) {Json Request : Type 0} (services : Services Json Request) (clock : ℕ → ℕ)
    (blank : TestSuite Json) (zone : ℕ → DateTime) (policy : NotifyOn)
    (notifier : List (Outcome Json) → Option Bool) (moment later_moment : ℕ) where
  quiet_after :
      (due : List (TestSuite Json)) (st : State Json)
      → IsLater u services clock blank zone moment
      → due ≡ due_suites u zone moment st
      → exists
          (is_due u zone moment)
          (run_if_due u services clock blank zone policy notifier moment due st).1.table
        ≡ false
  unfolding due_suites
  quiet_after [] st later e =
      All-quiet u services clock blank zone moment st.table
        (rw (← e) at (due-Pending u services clock blank zone moment st.table))
  quiet_after (s ∷ due) st later e = All-quiet u services clock blank zone moment _ (
      run_suites-Pending u services clock blank zone moment (map (λ t. t.suite_id) (s ∷ due)) st
        later
        (subst
          (λ d. All (Pending u services clock blank zone moment (map (λ t. t.suite_id) d)) st.table)
          (sym e) (due-Pending u services clock blank zone moment st.table)))

  -- When a tick is over, no suite is due in the minute of the tick, where the clock and the
  -- recorded ends of the runs are not behind the tick's moment: whatever the suites did, none of
  -- them runs a second time in that minute.
  pub due_suites-tick :
      (st : State Json)
      → IsLater u services clock blank zone moment
      → IsSameMinute u services clock blank zone moment later_moment
      → due_suites u zone later_moment
          (tick u services clock blank zone policy notifier moment st).1
        ≡ []
  unfolding tick due_suites
  due_suites-tick st later same =
      quiet_table u services clock blank zone moment later_moment same _
        (quiet_after (due_suites u zone moment st) st later refl)

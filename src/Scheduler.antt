-- ===== src/Scheduler.antt =====
-- datarecon/application/services/scheduler_service.py: the unattended runs of scheduled suites.
-- `zone` is `astimezone(self.timezone)`: the wall-clock date and time of an instant in the
-- schedule's zone. The notifier is a function that answers whether the notification went out, or
-- `none` where it raises.
pub mod Schedules
pub mod Once
pub mod Reach
mod Tests
use datarecon_ai_community_e.Prelude.{
  ℕ, zero, suc, ◌+◌, ◌-◌, ◌*◌, ◌%◌, Bool, true, false, not, ◌&&◌, Option, none, some, List, [], ◌∷◌,
  ◌++◌, map, if◌then◌else◌, select, leb, length, Result, ok, err, ◌>>=◌, ◌>>◌, raise_if,
}
use datarecon_ai_community_e.PyText.{Text, Unicode, text, text_eq, strip, is_empty, casefold}
use datarecon_ai_community_e.Cron
use datarecon_ai_community_e.Cron.{CronError, CronSchedule, matches}
use datarecon_ai_community_e.Cron.Calendar.{DateTime}
use datarecon_ai_community_e.Domain.{TestSuite, RunStatus, pass, fail, error}
use datarecon_ai_community_e.Suites.Store.{list_all, get_by_id, update}
use datarecon_ai_community_e.Suites.Service.{Services, State, Outcome, run_suites}

pub data SchedulerError : Type 0 where
  suite_not_found : Text → SchedulerError
  expression_required : SchedulerError
  bad_expression : CronError → SchedulerError

pub data NotifyOn : Type 0 where
  notify_failure notify_always notify_never : NotifyOn

-- The setting, as the two comparisons of `_should_notify` read it: any other word means failures.
unfoldable pub notify_on : Unicode → Text → NotifyOn
notify_on u setting =
    let word = casefold u (strip setting) in
    if text_eq word (text "never")
    then notify_never
    else if text_eq word (text "always")
    then notify_always
    else notify_failure

-- status in _FAILING
unfoldable pub is_failing : RunStatus → Bool
is_failing pass = false
is_failing fail = true
is_failing error = true

-- moment.replace(second=0, microsecond=0)
unfoldable pub minute_start : ℕ → ℕ
minute_start moment = moment - moment % 60000000

-- Not yet run in the minute that starts at `start`.
abbrev pub not_run_since : ℕ → Option ℕ → Bool
not_run_since start none = true
not_run_since start (some last_run) = not (leb start last_run)

module _ (u : Unicode) where
  -- parse
  unfoldable pub parse : Text → Result SchedulerError CronSchedule
  parse expression = elim (Cron.parse u expression) [ ok s ↦ ok s | err e ↦ err (bad_expression e) ]

  abbrev pub parse_if_given : Text → Result SchedulerError (Unit {0})
  parse_if_given [] = ok tt
  parse_if_given (c ∷ expression) = parse (c ∷ expression) >> ok tt

  abbrev pub fires_at : DateTime → Text → Bool
  fires_at local expression = elim (Cron.parse u expression) [
    | err _ ↦ false
    | ok schedule ↦ matches schedule local
  ]

-- `expression or None`, and `bool(enabled and expression)`
abbrev pub with_schedule : {Json : Type 0} → Text → Bool → TestSuite Json → TestSuite Json
with_schedule [] enabled s = record s { schedule_cron = none; schedule_enabled = false }
with_schedule (c ∷ e) enabled s = record s {
  schedule_cron = some (c ∷ e);
  schedule_enabled = enabled;
}

module _ (u : Unicode) {Json : Type 0} where
  -- set_schedule, for a clock reading `now`; a missing expression is the empty text
  unfoldable pub set_schedule :
      ℕ → Text → Text → Bool → State Json → Result SchedulerError (TestSuite Json × State Json)
  unfolding update
  set_schedule now suite_id cron_expression enabled st = elim (get_by_id suite_id st.table) [
    | none ↦ err (suite_not_found suite_id)
    | some s ↦ do
      raise_if (enabled && is_empty (strip cron_expression)) expression_required
      parse_if_given u (strip cron_expression)
      let written = update now (with_schedule (strip cron_expression) enabled s) st.table
      ok (written.0, record st { table = written.1 })
  ]

  -- suite.schedule_enabled and suite.schedule_cron: the expression of an enabled schedule
  abbrev pub enabled_cron : TestSuite Json → Option Text
  enabled_cron s =
      if s.schedule_enabled
      then (elim s.schedule_cron [ none ↦ none | some e ↦ if is_empty e then none else some e ])
      else none

  -- The tests of the loop of `due_suites` on one suite.
  unfoldable pub is_due : (ℕ → DateTime) → ℕ → TestSuite Json → Bool
  is_due zone moment s = elim (enabled_cron s) [
    | none ↦ false
    | some e ↦ fires_at u (zone moment) e && not_run_since (minute_start moment) s.last_run_at
  ]

  unfoldable pub due_suites : (ℕ → DateTime) → ℕ → State Json → List (TestSuite Json)
  due_suites zone moment st = select (is_due zone moment) (list_all st.table)

pub record TickResult (Json : Type 0) : Type 0 where
  pub checked_at : ℕ
  pub due : List (TestSuite Json)
  pub outcomes : List (Outcome Json)
  pub notification_sent : Bool

abbrev some_of : {A : Type 0} → List A → Bool
some_of [] = false
some_of (_ ∷ _) = true

-- self._notifier.send(...) under `except Exception`
abbrev sent : Option Bool → Bool
sent none = false
sent (some answer) = answer

module _ {Json : Type 0} where
  unfoldable pub failures : List (Outcome Json) → List (Outcome Json)
  failures outcomes = select (λ o. is_failing o.status) outcomes

  unfoldable pub should_notify : NotifyOn → List (Outcome Json) → Bool
  unfolding failures
  should_notify notify_never outcomes = false
  should_notify notify_always outcomes = some_of outcomes
  should_notify notify_failure outcomes = some_of outcomes && some_of (failures outcomes)

module _ (u : Unicode) {Json Request : Type 0} (services : Services Json Request) (clock : ℕ → ℕ)
    (blank : TestSuite Json) (zone : ℕ → DateTime) (policy : NotifyOn)
    (notifier : List (Outcome Json) → Option Bool) where
  -- The part of `tick` behind `if not due: return`.
  abbrev pub run_due : ℕ → List (TestSuite Json) → State Json → TickResult Json × State Json
  run_due moment due st =
      let (outcomes, st') = run_suites services clock blank (map (λ s. s.suite_id) due) st in
      (
        record {
          checked_at = moment;
          due = due;
          outcomes = outcomes;
          notification_sent =
              if should_notify policy outcomes then sent (notifier outcomes) else false;
        },
        st',
      )

  abbrev pub run_if_due : ℕ → List (TestSuite Json) → State Json → TickResult Json × State Json
  run_if_due moment [] st =
      (record { checked_at = moment; due = []; outcomes = []; notification_sent = false }, st)
  run_if_due moment (s ∷ due) st = run_due moment (s ∷ due) st

  -- tick, at the given moment
  unfoldable pub tick : ℕ → State Json → TickResult Json × State Json
  tick moment st = run_if_due moment (due_suites u zone moment st) st

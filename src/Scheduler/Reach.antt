-- ===== src/Scheduler/Reach.antt =====
-- Every state that the services reach, by any sequence of saves, deletions, runs, ticks and
-- changes of schedules.
use datarecon_ai_community_e.Prelude.{ℕ, ◌≡◌, Bool, Option, List, ok, OnOk-eq}
use datarecon_ai_community_e.PyText.{Text, Unicode}
use datarecon_ai_community_e.Cron.Calendar.{DateTime}
use datarecon_ai_community_e.Domain.{TestSuite, ValidationModule}
use datarecon_ai_community_e.Suites.Service.{
  Services, State, Outcome, run_suites, save_suite, delete_suite,
}
use datarecon_ai_community_e.Scheduler.{set_schedule, tick, NotifyOn}
use datarecon_ai_community_e.Scheduler.Schedules.{
  AllRunnable, set_schedule-AllRunnable, run_suites-AllRunnable, tick-AllRunnable,
  saved-AllRunnable, deleted-AllRunnable,
}

module _ (u : Unicode) {Json Request : Type 0} (services : Services Json Request)
    (blank : TestSuite Json) (zone : ℕ → DateTime) (policy : NotifyOn)
    (notifier : List (Outcome Json) → Option Bool) where
  -- One call of a service. The clock may be another in each step.
  pub data Step (st : State Json) : State Json → Type 0 where
    save :
        {st' : State Json} (project_id name : Text) (m : ValidationModule) (config : Json)
        (description : Text) (source_id target_id : Option Text) (new_id : Text)
        (created updated : ℕ) (suite : TestSuite Json)
        → save_suite u project_id name m config description source_id target_id new_id created
            updated st
          ≡ ok (suite, st')
        → Step st st'
    remove : (suite_id : Text) → Step st (delete_suite suite_id st).1
    run : (clock : ℕ → ℕ) (ids : List Text) → Step st (run_suites services clock blank ids st).1
    schedule :
        {st' : State Json} (now : ℕ) (suite_id expression : Text) (enabled : Bool)
        (suite : TestSuite Json)
        → set_schedule u now suite_id expression enabled st ≡ ok (suite, st')
        → Step st st'
    tick_at :
        (clock : ℕ → ℕ) (moment : ℕ)
        → Step st (tick u services clock blank zone policy notifier moment st).1

  pub data Reach (st : State Json) : State Json → Type 0 where
    here : Reach st st
    next : {mid end : State Json} → Reach st mid → Step mid end → Reach st end

  Step-AllRunnable : {st st' : State Json} → Step st st' → AllRunnable u st → AllRunnable u st'
  Step-AllRunnable {st} (save p n m c d s t i a b suite done) h =
      OnOk-eq (λ (r : TestSuite Json × State Json). AllRunnable u (r.1)) _
        (saved-AllRunnable u p n m c d s t i a b st h) done
  Step-AllRunnable {st} (remove i) h = deleted-AllRunnable u i st h
  Step-AllRunnable {st} (run clock ids) h = run_suites-AllRunnable u services clock blank ids st h
  Step-AllRunnable {st} (schedule now i e enabled suite done) h =
      OnOk-eq (λ (r : TestSuite Json × State Json). AllRunnable u (r.1)) _
        (set_schedule-AllRunnable u now i e enabled st h) done
  Step-AllRunnable {st} (tick_at clock moment) h =
      tick-AllRunnable u services clock blank zone policy notifier moment st h

  -- From a state in which every enabled schedule parses, such as an empty table, the services reach
  -- only such states: no enabled schedule is left that would never fire because it cannot be read.
  pub Reach-AllRunnable :
      {st st' : State Json} → AllRunnable u st → Reach st st' → AllRunnable u st'
  Reach-AllRunnable h here = h
  Reach-AllRunnable h (next r s) = Step-AllRunnable s (Reach-AllRunnable h r)

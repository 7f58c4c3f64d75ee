-- ===== src/Scheduler/Tests.antt =====
-- A tick over two suites that are due each minute, and the theorems of the scheduler at it.
use datarecon_ai_community_e.Prelude.{
  ℕ, ◌≡◌, ◌≤◌, refl, Bool, true, Option, some, List, [], ◌∷◌, Result, ok, err, arith, ap, ◌>>=◌,
}
use datarecon_ai_community_e.PyText.{
  Text, ascii, text_eq, strip, split_words, split_on, partition, int, casefold,
}
use datarecon_ai_community_e.Cron
use datarecon_ai_community_e.Cron.{
  expand, parse_parts, parse_field, parse_pieces, parse_piece, step_and_rest, bounds_of, to_value,
  to_int, in_bounds, names_of, union, range, range_from, matches,
}
use datarecon_ai_community_e.Cron.Calendar.{DateTime, weekday}
use datarecon_ai_community_e.Domain.{
  ValidationRun, RunStatus, ValidationModule, schema, record_count, duplicate, nullability,
  aggregation, full_data, referential_integrity, profiling, file_comparison,
}
use datarecon_ai_community_e.Suites.Store.{list_all, insert_by_name, text_le}
use datarecon_ai_community_e.Suites.Service.{State, Outcome, attempt, deserialize_request, execute}
use datarecon_ai_community_e.Suites.Tests.{services, two_suites, counts, keys, clock}
use datarecon_ai_community_e.Scheduler.{tick, due_suites, is_due, minute_start, notify_failure}
use datarecon_ai_community_e.Scheduler.Schedules.{AllRunnable}
use datarecon_ai_community_e.Scheduler.Once.{IsLater, due_suites-tick}
use datarecon_ai_community_e.Scheduler.Reach.{here, next, tick_at, Reach-AllRunnable}

-- A zone whose wall clock shows the minutes of one hour.
abbrev zone : ℕ → DateTime
zone t = record {
  year = 2024;
  month = 2;
  day = 29;
  hour = 23;
  minute = 30;
  second = 0;
  microsecond = 0;
}

abbrev notifier : List (Outcome ℕ) → Option Bool
notifier outcomes = some true

due_two : due_suites ascii zone 90000000 two_suites ≡ keys ∷ counts ∷ []
unfolding due_suites is_due list_all insert_by_name text_le minute_start Cron.parse expand
    parse_parts parse_field parse_pieces parse_piece step_and_rest bounds_of to_value to_int
    in_bounds names_of union range range_from matches weekday text_eq strip split_words split_on
    partition int casefold
due_two = refl

finished_at_of : ℕ → Result Text (RunStatus × ValidationRun) → ℕ
finished_at_of d (ok (_, run)) = run.finished_at
finished_at_of d (err _) = d

on_time :
    (m : ValidationModule) (c : ℕ) (n p i : Text) (status : RunStatus) (run : ValidationRun)
    → (deserialize_request services m c
        >>= (λ r. execute services m (services.rename_request n r) p i))
      ≡ ok (status, run)
    → 90000000 ≤ run.finished_at
unfolding deserialize_request execute finished_at_of
on_time schema c n p i status run h = absurd (let e = h in cc)
on_time record_count c n p i status run h =
    let e : 90000000 ≡ run.finished_at = ap (finished_at_of 0) h in omega arith
on_time duplicate c n p i status run h = absurd (let e = h in cc)
on_time nullability c n p i status run h = absurd (let e = h in cc)
on_time aggregation c n p i status run h = absurd (let e = h in cc)
on_time full_data c n p i status run h = absurd (let e = h in cc)
on_time referential_integrity c n p i status run h = absurd (let e = h in cc)
on_time profiling c n p i status run h = absurd (let e = h in cc)
on_time file_comparison c n p i status run h = absurd (let e = h in cc)

two_suites-IsLater : IsLater ascii services clock keys zone 90000000
unfolding attempt
two_suites-IsLater = (
  λ n. omega arith,
  λ s status run h. on_time s.module_kind s.config s.name s.project_id s.suite_id status run h,
)

due_suites-tick_example :
    due_suites ascii zone 90000500
      (tick ascii services clock keys zone notify_failure notifier 90000000 two_suites).1
    ≡ []
due_suites-tick_example =
    due_suites-tick ascii services clock keys zone notify_failure notifier 90000000 90000500
      two_suites two_suites-IsLater (unfold minute_start in refl, refl)

two_suites-AllRunnable : AllRunnable ascii two_suites
unfolding Cron.parse expand parse_parts parse_field parse_pieces parse_piece step_and_rest bounds_of
    to_value to_int in_bounds names_of union range range_from text_eq strip split_words split_on
    partition int casefold
two_suites-AllRunnable = (refl, (refl, tt))

abbrev ticked : State ℕ
ticked = (tick ascii services clock keys zone notify_failure notifier 90000000 two_suites).1

Reach-AllRunnable_example : AllRunnable ascii ticked
Reach-AllRunnable_example =
    Reach-AllRunnable ascii services keys zone notify_failure notifier {st = two_suites}
      {st' = ticked} two_suites-AllRunnable (next here (tick_at clock 90000000))

-- ===== src/Cron/Tests.antt =====
-- Tests of the cron model, and its theorems at concrete inputs.
use datarecon_ai_community_e.Prelude.{
  ℕ, ◌≡◌, refl, true, false, some, List, [], ◌∷◌, ok, err, ◌≤◌, ◌+◌, arith, exists, length, ◌↔◌,
}
use datarecon_ai_community_e.PyText.{
  Text, text, ascii, split_on, split_words, casefold, text_eq, int, partition, strip,
}
use datarecon_ai_community_e.Cron.{
  CronSchedule, parse, parse_field, parse_piece, parse_pieces, to_value, to_int, expand,
  parse_parts, matches, minute, hour, day_of_week, contains, range, step_and_rest, bounds_of,
  names_of, in_bounds, union, range_from, runs_backwards,
}
use datarecon_ai_community_e.Cron.Calendar
use datarecon_ai_community_e.Cron.Calendar.{DateTime, floor_minute}
use datarecon_ai_community_e.Cron.Calendar.Laws.{IsDateTime, stamp}
use datarecon_ai_community_e.Cron.Bounds.{IsBounded, parse-IsBounded}
use datarecon_ai_community_e.Cron.Ranges.{InRange, parse_piece_lem, fires, contains-parse_field}
use datarecon_ai_community_e.Cron.NextRuns.{
  next_runs, next_runs_lem, outcome, in_calendar, max_lookahead_minutes, runs_within, search_from,
}
use datarecon_ai_community_e.Cron.NextRuns.Order.{AreRunsAfter, next_runs-AreRunsAfter}

-- Every twenty minutes of January's nights, Monday to Wednesday.
abbrev nightly : CronSchedule
nightly = record {
  expression = text "*/20 0,4-5 * jan Mon-3";
  minutes = 0 ∷ 20 ∷ 40 ∷ [];
  hours = 0 ∷ 4 ∷ 5 ∷ [];
  days_of_month = range 1 32 1;
  months = 1 ∷ [];
  days_of_week = 1 ∷ 2 ∷ 3 ∷ [];
  day_fields_are_or = false;
}

parse-nightly : parse ascii (text " */20 0,4-5 * jan Mon-3 ") ≡ ok nightly
unfolding parse expand parse_parts parse_field parse_pieces parse_piece step_and_rest bounds_of
    to_value to_int in_bounds int split_words split_on casefold text_eq names_of partition union
    range range_from
parse-nightly = refl

-- Seven is Sunday, and is zero before the ends of a range are compared.
to_sunday :
    parse_field ascii day_of_week (text "5-7") ≡ err (runs_backwards day_of_week (text "5-7"))
unfolding parse_field parse_pieces parse_piece step_and_rest bounds_of to_value to_int in_bounds int
    split_on casefold text_eq names_of partition
to_sunday = refl

parse-IsBounded_example : IsBounded nightly
parse-IsBounded_example =
    parse-IsBounded ascii (text " */20 0,4-5 * jan Mon-3 ") nightly parse-nightly

abbrev piece : Text
piece = text "10-50/20"

step_of_piece : step_and_rest ascii minute piece ≡ ok (20, text "10-50")
unfolding step_and_rest to_int int partition
step_of_piece = refl

bounds_of_piece : bounds_of ascii minute (text "10-50") ≡ ok (10, 50)
unfolding bounds_of to_value to_int in_bounds int casefold text_eq names_of partition
bounds_of_piece = refl

parse_piece_lem_example :
    (values : List ℕ) × (parse_piece ascii minute piece ≡ ok values)
    × ((v : ℕ) → (contains values v ≡ true) ↔ InRange 10 (50 + 1) 20 v)
unfolding strip
parse_piece_lem_example =
    parse_piece_lem ascii minute piece (text "10-50") 20 10 50 refl step_of_piece bounds_of_piece

contains-parse_field_example :
    contains (0 ∷ 4 ∷ 5 ∷ []) 5 ≡ exists (λ p. fires ascii hour p 5) (split_on b',' (text "0,4-5"))
unfolding parse_field parse_pieces parse_piece step_and_rest bounds_of to_value to_int in_bounds int
    split_on casefold text_eq names_of partition union range range_from
contains-parse_field_example =
    contains-parse_field ascii hour (text "0,4-5") (0 ∷ 4 ∷ 5 ∷ []) 5 refl

-- The last minutes of a leap year's February.
abbrev leap_evening : DateTime
leap_evening = record {
  year = 2024;
  month = 2;
  day = 29;
  hour = 23;
  minute = 58;
  second = 30;
  microsecond = 7;
}

abbrev each_minute : CronSchedule
each_minute = record nightly {
  minutes = 0 ∷ 59 ∷ [];
  hours = 0 ∷ 23 ∷ [];
  months = 2 ∷ 3 ∷ [];
  days_of_week = range 0 7 1;
}

abbrev first_runs : List DateTime
first_runs =
    record leap_evening { minute = 59; second = 0; microsecond = 0 }
    ∷ record leap_evening { month = 3; day = 1; hour = 0; minute = 0; second = 0; microsecond = 0 }
    ∷ []

next_runs_of_leap_evening : next_runs each_minute leap_evening 2 ≡ some first_runs
unfolding next_runs max_lookahead_minutes search_from matches floor_minute range range_from
    Calendar.add_minute Calendar.weekday
next_runs_of_leap_evening = refl

next_runs_lem_example :
    next_runs each_minute leap_evening 2
    ≡ outcome 2
        (in_calendar max_lookahead_minutes (floor_minute leap_evening))
        (runs_within each_minute max_lookahead_minutes (floor_minute leap_evening))
next_runs_lem_example = next_runs_lem each_minute leap_evening 2 (omega arith)

leap_evening-IsDateTime : IsDateTime leap_evening
unfolding Calendar.days_in_month
leap_evening-IsDateTime = record {
  year_pos = omega arith;
  month_pos = omega arith;
  month_le = omega arith;
  day_pos = omega arith;
  day_le = omega arith;
  hour_lt = omega arith;
  minute_lt = omega arith;
}

next_runs-AreRunsAfter_example :
    AreRunsAfter each_minute (stamp leap_evening) first_runs × (length first_runs ≤ 2)
next_runs-AreRunsAfter_example =
    next_runs-AreRunsAfter each_minute leap_evening 2 first_runs leap_evening-IsDateTime
      next_runs_of_leap_evening

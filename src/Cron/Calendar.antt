-- ===== src/Cron/Calendar.antt =====
-- The part of Python's `datetime` that cron.py steps with: the proleptic Gregorian calendar of the
-- years 1 to 9999, `weekday`, `replace(second=0, microsecond=0)` and `+ timedelta(minutes=1)`.
pub mod Laws
use datarecon_ai_community_e.Prelude.{
  ℕ, zero, suc, ◌+◌, ◌-◌, ◌*◌, ◌/◌, ◌%◌, Bool, true, false, not, ◌&&◌, ◌||◌, Option, none, some,
  ltb, leb, ◌==◌, if◌then◌else◌, ◌≤◌,
}

pub record DateTime : Type 0 where
  pub year : ℕ
  pub month : ℕ
  pub day : ℕ
  pub hour : ℕ
  pub minute : ℕ
  pub second : ℕ
  pub microsecond : ℕ

unfoldable pub is_leap : ℕ → Bool
is_leap y = y % 4 == 0 && (not (y % 100 == 0) || y % 400 == 0)

unfoldable pub days_in_month : ℕ → ℕ → ℕ
unfolding is_leap
days_in_month y m =
    if m == 2
    then (if is_leap y then 29 else 28)
    else if m == 4 || m == 6 || m == 9 || m == 11
    then 30
    else 31

-- The days of the years before `y`.
unfoldable pub days_before_year : ℕ → ℕ
days_before_year y = (y - 1) * 365 + (y - 1) / 4 - (y - 1) / 100 + (y - 1) / 400

-- The days of the months before `m` in year `y`.
unfoldable pub days_before_month : ℕ → ℕ → ℕ
days_before_month y zero = 0
days_before_month y (suc zero) = 0
days_before_month y (suc (suc m)) = days_before_month y (suc m) + days_in_month y (suc m)

-- toordinal()
unfoldable pub to_ordinal : DateTime → ℕ
to_ordinal t = days_before_year t.year + days_before_month t.year t.month + t.day

-- weekday(): Monday is 0.
unfoldable pub weekday : DateTime → ℕ
unfolding to_ordinal days_before_year days_before_month days_in_month
weekday t = (to_ordinal t + 6) % 7

unfoldable pub floor_minute : DateTime → DateTime
floor_minute t = record t { second = 0; microsecond = 0 }

-- The first minute of the next day; `none` is the OverflowError past the year 9999.
unfoldable pub next_day : DateTime → Option DateTime
next_day t =
    if ltb t.day (days_in_month t.year t.month)
    then some (record t { day = t.day + 1; hour = 0; minute = 0 })
    else if ltb t.month 12
    then some (record t { month = t.month + 1; day = 1; hour = 0; minute = 0 })
    else if ltb t.year 9999
    then some (record t { year = t.year + 1; month = 1; day = 1; hour = 0; minute = 0 })
    else none

-- t + timedelta(minutes=1)
unfoldable pub add_minute : DateTime → Option DateTime
unfolding next_day days_in_month
add_minute t =
    if ltb t.minute 59
    then some (record t { minute = t.minute + 1 })
    else if ltb t.hour 23
    then some (record t { hour = t.hour + 1; minute = 0 })
    else next_day t

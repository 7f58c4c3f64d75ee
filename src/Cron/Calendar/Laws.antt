-- ===== src/Cron/Calendar/Laws.antt =====
-- One minute more is the next minute of the calendar, across days, months and years.
use native.Mathlib.Numerals.{add-one}
use datarecon_ai_community_e.Prelude.{
  ℕ, zero, suc, ◌+◌, ◌*◌, ◌≤◌, ◌<◌, ◌≡◌, some, arith, refl, if◌then◌else◌,
}
use datarecon_ai_community_e.Cron.Calendar.{
  DateTime, is_leap, days_in_month, days_before_year, days_before_month, to_ordinal, next_day,
  add_minute, floor_minute,
}

-- The minutes from the calendar's beginning.
unfoldable pub stamp : DateTime → ℕ
stamp t = to_ordinal t * 1440 + t.hour * 60 + t.minute

pub record IsDateTime (t : DateTime) : Type 0 where
  pub year_pos : 1 ≤ t.year
  pub month_pos : 1 ≤ t.month
  pub month_le : t.month ≤ 12
  pub day_pos : 1 ≤ t.day
  pub day_le : t.day ≤ days_in_month t.year t.month
  pub hour_lt : t.hour < 24
  pub minute_lt : t.minute < 60

days_in_month_pos : (y m : ℕ) → 1 ≤ days_in_month y m
unfolding days_in_month
days_in_month_pos y m = ground arith

days_before_month-suc :
    (y m : ℕ) → 1 ≤ m → days_before_month y (suc m) ≡ days_before_month y m + days_in_month y m
unfolding days_before_month
days_before_month-suc y zero h = absurd (omega arith)
days_before_month-suc y (suc m) h = refl

leap_days :
    (y : ℕ)
    → 1 ≤ y
    → days_before_year (suc y) ≡ days_before_year y + (if is_leap y then 366 else 365)
unfolding days_before_year is_leap
leap_days y h = ground arith

-- The months of a year add up to the step to the next year.
year_length : (y : ℕ) → days_before_month y 12 + 31 ≡ (if is_leap y then 366 else 365)
unfolding days_before_month days_in_month
year_length y = ground arith

december : (y : ℕ) → days_in_month y 12 ≡ 31
unfolding days_in_month
december y = refl

module _ (t : DateTime) (valid : IsDateTime t) where
  new_month :
      t.month < 12
      → t.day ≡ days_in_month t.year t.month
      → days_before_month t.year (t.month + 1) + 1 ≡ days_before_month t.year t.month + t.day + 1
  new_month h e =
      rw (add-one t.month)
        (omega (arith, days_before_month-suc t.year t.month valid.month_pos, valid.month_pos))

  new_year :
      t.month ≡ 12
      → t.day ≡ days_in_month t.year t.month
      → days_before_year (t.year + 1) + 1
        ≡ days_before_year t.year + days_before_month t.year t.month + t.day + 1
  unfolding days_before_year
  new_year h e =
      rw (add-one t.year, e, h, december)
        (omega (arith, leap_days t.year valid.year_pos, year_length t.year))

  -- The day after has the next ordinal, at midnight.
  next_day-ordinal :
      (next : DateTime)
      → next_day t ≡ some next
      → (to_ordinal next ≡ to_ordinal t + 1) × (next.hour ≡ 0) × (next.minute ≡ 0)
  unfolding next_day to_ordinal days_before_month
  next_day-ordinal next h = ground (arith, new_month, new_year, valid.day_le, valid.month_le)

  next_day-IsDateTime : (next : DateTime) → next_day t ≡ some next → IsDateTime next
  unfolding next_day
  next_day-IsDateTime next h = ground (
    arith,
    days_in_month_pos t.year (t.month + 1),
    days_in_month_pos (t.year + 1) 1,
    valid.day_le,
    valid.month_le,
    valid.year_pos,
    valid.month_pos,
    valid.hour_lt,
  )

  -- A minute later the stamp is one more.
  pub stamp-add_minute : (next : DateTime) → add_minute t ≡ some next → stamp next ≡ stamp t + 1
  unfolding add_minute stamp to_ordinal
  stamp-add_minute next h = ground (arith, next_day-ordinal next, valid.hour_lt, valid.minute_lt)

  pub add_minute-IsDateTime : (next : DateTime) → add_minute t ≡ some next → IsDateTime next
  unfolding add_minute
  add_minute-IsDateTime next h = ground (
    arith,
    next_day-IsDateTime next,
    valid.day_le,
    valid.month_le,
    valid.year_pos,
    valid.month_pos,
    valid.hour_lt,
    valid.minute_lt,
    valid.day_pos,
  )

pub floor_minute-IsDateTime : (t : DateTime) → IsDateTime t → IsDateTime (floor_minute t)
unfolding floor_minute
floor_minute-IsDateTime t h = ground arith

pub stamp-floor_minute : (t : DateTime) → stamp (floor_minute t) ≡ stamp t
unfolding floor_minute stamp to_ordinal
stamp-floor_minute t = refl

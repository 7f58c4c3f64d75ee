-- ===== src/Cron.antt =====
-- datarecon/core/cron.py: five-field cron expressions. `parse` is `CronSchedule.parse`, with
-- `parse_field`, `parse_piece`, `to_value` and `to_int` for the functions of those names behind an
-- underscore; `matches` is the method. `Calendar` has the `datetime` arithmetic that `next_runs`
-- steps with, and `NextRuns` that method.
-- A field's name is the enumeration `Field`, and an error carries what its message shows.
pub mod Calendar
pub mod NextRuns
pub mod Bounds
pub mod Ranges
mod Tests
use datarecon_ai_community_e.Prelude.{
  ℕ, zero, suc, ◌+◌, ◌-◌, ◌*◌, ◌%◌, Bool, true, false, not, ◌&&◌, ◌||◌, Option, none, some, List,
  [], ◌∷◌, ◌++◌, ltb, leb, ◌==◌, if◌then◌else◌, length, exists, Result, ok, err, ◌>>=◌, ◌>>◌,
  raise_if,
}
use datarecon_ai_community_e.PyText.{
  Text, text, Unicode, ℤ, pos, negsuc, text_eq, is_empty, strip, strip_left, has_char, partition,
  split_on, split_words, casefold, int,
}
use datarecon_ai_community_e.Cron.Calendar.{DateTime, weekday}

pub data Field : Type 0 where
  minute hour day_of_month month day_of_week : Field

abbrev pub low : Field → ℕ
low minute = 0
low hour = 0
low day_of_month = 1
low month = 1
low day_of_week = 0

abbrev pub high : Field → ℕ
high minute = 59
high hour = 23
high day_of_month = 31
high month = 12
high day_of_week = 6

pub data CronError : Type 0 where
  expression_required : CronError
  field_count : ℕ → CronError
  matches_nothing : Field → Text → CronError
  empty_entry : Field → CronError
  step_too_small : Field → Text → CronError
  runs_backwards : Field → Text → CronError
  outside : Field → ℤ → CronError
  non_numeric : Field → Text → CronError

-- A `dict` from names, looked up from its first entry on.
abbrev find {ℓ} : {V : Type ℓ} → Text → List (Text × V) → Option V
find k [] = none
find k ((j, v) ∷ m) = if text_eq j k then some v else find k m

-- The dictionary of `enumerate(names, first)`.
abbrev enumerate : ℕ → List Text → List (Text × ℕ)
enumerate first [] = []
enumerate first (name ∷ names) = (name, first) ∷ enumerate (suc first) names

month_names : List (Text × ℕ)
month_names = enumerate 1 (
    text "jan"
    ∷ text "feb"
    ∷ text "mar"
    ∷ text "apr"
    ∷ text "may"
    ∷ text "jun"
    ∷ text "jul"
    ∷ text "aug"
    ∷ text "sep"
    ∷ text "oct"
    ∷ text "nov"
    ∷ text "dec"
    ∷ [])

day_names : List (Text × ℕ)
day_names =
    enumerate 0 (
      text "sun" ∷ text "mon" ∷ text "tue" ∷ text "wed" ∷ text "thu" ∷ text "fri" ∷ text "sat" ∷ [])

presets : List (Text × Text)
presets =
    (text "@hourly", text "0 * * * *")
    ∷ (text "@daily", text "0 0 * * *")
    ∷ (text "@midnight", text "0 0 * * *")
    ∷ (text "@weekly", text "0 0 * * 0")
    ∷ (text "@monthly", text "0 0 1 * *")
    ∷ (text "@yearly", text "0 0 1 1 *")
    ∷ (text "@annually", text "0 0 1 1 *")
    ∷ []

-- A `set[int]` is a list of its elements, tested by `contains`.
abbrev pub contains : List ℕ → ℕ → Bool
contains xs v = exists (λ x. x == v) xs

-- values |= more
unfoldable pub union : List ℕ → List ℕ → List ℕ
union values [] = values
union values (x ∷ more) = union (if contains values x then values else values ++ x ∷ []) more

-- range(start, stop, step) with `left` rounds; every round steps by at least one.
unfoldable pub range_from : ℕ → ℕ → ℕ → ℕ → List ℕ
range_from zero start stop step = []
range_from (suc left) start stop step =
    let rest = range_from left (start + step) stop step in
    if ltb start stop then start ∷ rest else []

unfoldable pub range : ℕ → ℕ → ℕ → List ℕ
range start stop step = range_from (stop - start) start stop step

-- The names that a field accepts: months, days of the week, or none.
unfoldable pub names_of : Field → List (Text × ℕ)
unfolding month_names day_names
names_of month = month_names
names_of day_of_week = day_names
names_of _ = []

-- `name == "day of week" and value == 7`
abbrev is_seventh_day : Field → ℕ → Bool
is_seventh_day day_of_week v = v == 7
is_seventh_day _ v = false

unfoldable pub in_bounds : Field → ℤ → Result CronError ℕ
in_bounds f (negsuc n) = err (outside f (negsuc n))
in_bounds f (pos v) =
    if is_seventh_day f v
    then ok 0
    else if leb (low f) v && leb v (high f)
    then ok v
    else err (outside f (pos v))

-- step < 1
abbrev step_of : Field → Text → ℤ → Result CronError ℕ
step_of f step_text (negsuc n) = err (step_too_small f step_text)
step_of f step_text (pos zero) = err (step_too_small f step_text)
step_of f step_text (pos (suc n)) = ok (suc n)

-- `if not values: raise`
abbrev non_empty : Field → Text → List ℕ → Result CronError (List ℕ)
non_empty f part [] = err (matches_nothing f part)
non_empty f part (v ∷ values) = ok (v ∷ values)

module _ (u : Unicode) where
  unfoldable pub to_int : Field → Text → Result CronError ℤ
  to_int f t = elim (int u t) [ none ↦ err (non_numeric f (strip t)) | some v ↦ ok v ]

  unfoldable pub to_value : Field → Text → Result CronError ℕ
  to_value f t = elim (find (casefold u (strip t)) (names_of f)) [
    | some v ↦ ok v
    | none ↦ to_int f t >>= in_bounds f
  ]

  -- The first and the last value that a piece names, its step taken off.
  unfoldable pub bounds_of : Field → Text → Result CronError (ℕ × ℕ)
  bounds_of f piece =
      if text_eq piece (text "*") || is_empty piece
      then ok (low f, high f)
      else if has_char b'-' (strip_left (λ c. c == b'-') piece)
      then (do
        first ← to_value f (partition b'-' piece).0
        last ← to_value f (partition b'-' piece).1
        raise_if (ltb last first) (runs_backwards f piece)
        ok (first, last))
      else (do v ← to_value f piece; ok (v, v))

  unfoldable pub step_and_rest : Field → Text → Result CronError (ℕ × Text)
  step_and_rest f piece =
      if has_char b'/' piece
      then (do
        v ← to_int f (partition b'/' piece).1
        step ← step_of f (partition b'/' piece).1 v
        ok (step, (partition b'/' piece).0))
      else ok (1, piece)

  unfoldable pub parse_piece : Field → Text → Result CronError (List ℕ)
  parse_piece f piece = do
    raise_if (is_empty (strip piece)) (empty_entry f)
    (step, rest) ← step_and_rest f (strip piece)
    (start, end) ← bounds_of f rest
    ok (range start (end + 1) step)

  -- The loop over the pieces, with the set built so far.
  unfoldable pub parse_pieces : Field → List ℕ → List Text → Result CronError (List ℕ)
  parse_pieces f values [] = ok values
  parse_pieces f values (piece ∷ pieces) = do
    more ← parse_piece f piece
    parse_pieces f (union values more) pieces

  unfoldable pub parse_field : Field → Text → Result CronError (List ℕ)
  parse_field f part = parse_pieces f [] (split_on b',' part) >>= non_empty f part

pub record CronSchedule : Type 0 where
  pub expression : Text
  pub minutes : List ℕ
  pub hours : List ℕ
  pub days_of_month : List ℕ
  pub months : List ℕ
  pub days_of_week : List ℕ
  pub day_fields_are_or : Bool

module _ (u : Unicode) where
  -- _PRESETS.get(raw.casefold(), raw)
  unfoldable pub expand : Text → Text
  unfolding presets
  expand raw = elim (find (casefold u raw) presets) [ none ↦ raw | some full ↦ full ]

  unfoldable pub parse_parts : Text → List Text → Result CronError CronSchedule
  parse_parts raw (a ∷ b ∷ c ∷ d ∷ e ∷ []) = do
    minutes ← parse_field u minute a
    hours ← parse_field u hour b
    days_of_month ← parse_field u day_of_month c
    months ← parse_field u month d
    days_of_week ← parse_field u day_of_week e
    ok (record {
      expression = raw;
      minutes = minutes;
      hours = hours;
      days_of_month = days_of_month;
      months = months;
      days_of_week = days_of_week;
      day_fields_are_or = not (text_eq c (text "*")) && not (text_eq e (text "*"));
    })
  parse_parts raw parts = err (field_count (length parts))

  -- `expression or ""` of a missing expression is the empty text.
  unfoldable pub parse : Text → Result CronError CronSchedule
  parse expression =
      if is_empty (strip expression)
      then err expression_required
      else parse_parts (expand (strip expression)) (split_words (expand (strip expression)))

unfoldable pub matches : CronSchedule → DateTime → Bool
matches s when =
    if not (contains s.minutes when.minute) || not (contains s.hours when.hour)
    then false
    else if not (contains s.months when.month)
    then false
    else (let day_of_week = (weekday when + 1) % 7 in
        let dom_ok = contains s.days_of_month when.day in
        let dow_ok = contains s.days_of_week day_of_week in
        if s.day_fields_are_or then dom_ok || dow_ok else dom_ok && dow_ok)

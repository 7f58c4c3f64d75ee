-- ===== src/Cron/NextRuns.antt =====
-- `CronSchedule.next_runs` of datarecon/core/cron.py: the minute-by-minute search, and the
-- description that it is held to, the matching minutes of the horizon in their order.
pub mod Order
use datarecon_ai_community_e.Prelude.{
  ℕ, zero, suc, ◌+◌, ◌*◌, ◌≤◌, ◌<◌, ◌≡◌, refl, Bool, true, false, Option, none, some, List, [], ◌∷◌,
  ◌++◌, ltb, ◌==◌, if◌then◌else◌, length, take, select, arith, append-nil, append_assoc, ap, le→leb,
  sym, ==→eq, Option-cases, leb, length-append, Bool-cases, inl, inr,
}
use datarecon_ai_community_e.Cron.{CronSchedule, matches}
use datarecon_ai_community_e.Cron.Calendar.{DateTime, floor_minute, add_minute}

unfoldable pub max_lookahead_minutes : ℕ
max_lookahead_minutes = 4 * 366 * 24 * 60

-- The `for` loop with `left` rounds to go; `none` is the OverflowError of the calendar's end.
unfoldable pub search_from :
    CronSchedule → ℕ → ℕ → DateTime → List DateTime → Option (List DateTime)
search_from s count zero cursor found = some found
search_from s count (suc left) cursor found = elim (add_minute cursor) [
  | none ↦ none
  | some next ↦
      let found' = found ++ next ∷ [] in
      let go_on = search_from s count left next found' in
      let skip = search_from s count left next found in
      if matches s next then (if length found' == count then some found' else go_on) else skip
]

unfoldable pub next_runs : CronSchedule → DateTime → ℕ → Option (List DateTime)
next_runs s after count =
    if ltb count 1
    then some []
    else search_from s count max_lookahead_minutes (floor_minute after) []

-- The minutes after `t`, at most `n` of them, up to the end of the calendar.
unfoldable pub minutes_after : ℕ → DateTime → List DateTime
minutes_after zero t = []
minutes_after (suc n) t = elim (add_minute t) [
  | none ↦ []
  | some next ↦ next ∷ minutes_after n next
]

-- The runs of the next `n` minutes.
unfoldable pub runs_within : CronSchedule → ℕ → DateTime → List DateTime
unfolding minutes_after
runs_within s n t = select (matches s) (minutes_after n t)

module _ {ℓ} {A : Type ℓ} where
  take-append_exact : (xs ys : List A) → take (length xs) (xs ++ ys) ≡ xs
  take-append_exact [] ys = refl
  take-append_exact (x ∷ xs) ys = ap (λ l. x ∷ l) (take-append_exact xs ys)

  take_all : (n : ℕ) (xs : List A) → length xs ≤ n → take n xs ≡ xs
  take_all zero [] h = refl
  take_all zero (x ∷ xs) h = absurd (omega arith)
  take_all (suc n) [] h = refl
  take_all (suc n) (x ∷ xs) h = ap (λ l. x ∷ l) (take_all n xs (omega arith))

-- The horizon of `n` minutes after `t` does not run past the calendar's end.
unfoldable pub in_calendar : ℕ → DateTime → Bool
unfolding minutes_after
in_calendar n t = length (minutes_after n t) == n

-- What a search with these runs in hand comes to.
abbrev pub outcome : ℕ → Bool → List DateTime → Option (List DateTime)
outcome count complete runs =
    if leb count (length runs) then some (take count runs) else if complete then some runs else none

module _ (n : ℕ) (t : DateTime) (over : add_minute t ≡ none) where
  in_calendar_over : in_calendar (suc n) t ≡ false
  unfolding in_calendar
  in_calendar_over = ground arith

  runs_within_over : (s : CronSchedule) → runs_within s (suc n) t ≡ []
  unfolding runs_within
  runs_within_over s = ground arith

module _ (n : ℕ) (t : DateTime) {next : DateTime} (step : add_minute t ≡ some next) where
  in_calendar_step : in_calendar (suc n) t ≡ in_calendar n next
  unfolding in_calendar
  in_calendar_step = ground arith

  runs_within_step :
      (s : CronSchedule)
      → runs_within s (suc n) t
        ≡ (if matches s next then next ∷ runs_within s n next else runs_within s n next)
  unfolding runs_within
  runs_within_step s = ground arith

  search_from_step :
      (s : CronSchedule) (count : ℕ) (found : List DateTime)
      → search_from s count (suc n) t found ≡ (
          if matches s next
          then (if length (found ++ next ∷ []) == count
              then some (found ++ next ∷ [])
              else search_from s count n next (found ++ next ∷ []))
          else search_from s count n next found)
  unfolding search_from
  search_from_step s count found = rw (step, search_from) (ground arith)

module _ (s : CronSchedule) (count : ℕ) where
  -- The runs found reach `count`: what follows them is cut off.
  outcome_full :
      (complete : Bool) (xs ys : List DateTime)
      → length xs ≡ count
      → outcome count complete (xs ++ ys) ≡ some xs
  outcome_full complete xs ys h = rw (← h) (
      rw (le→leb (length xs) (length (xs ++ ys)) (omega (arith, length-append xs ys)))
        (ap some (take-append_exact xs ys)))

  -- One more run is found: the search ends, or goes on with it.
  fires_case :
      (next : DateTime) (complete : Bool) (later found : List DateTime)
      {go_on : Option (List DateTime)}
      → length found < count
      → (length (found ++ next ∷ []) < count
          → go_on ≡ outcome count complete ((found ++ next ∷ []) ++ later))
      → (if length (found ++ next ∷ []) == count then some (found ++ next ∷ []) else go_on)
        ≡ outcome count complete (found ++ next ∷ later)
  fires_case next complete later found h ih =
      rw (← append_assoc found (next ∷ []) later)
        (elim (Bool-cases (length (found ++ next ∷ []) == count)) [
          | inl full ↦
              rw full (sym (outcome_full complete (found ++ next ∷ []) later (==→eq _ _ full)))
          | inr room ↦ rw room (ih (ground (arith, length-append found (next ∷ []))))
        ])

  search_from_lem :
      (left : ℕ) (cursor : DateTime) (found : List DateTime)
      → length found < count
      → search_from s count left cursor found
        ≡ outcome count (in_calendar left cursor) (found ++ runs_within s left cursor)
  search_from_lem zero cursor found h =
      unfold search_from runs_within in_calendar in rw append-nil (ground arith)
  search_from_lem (suc left) cursor found h = elim (Option-cases (add_minute cursor)) [
    | inl over ↦
        rw (in_calendar_over left cursor over, runs_within_over left cursor over s, append-nil)
          (unfold search_from in rw (over, search_from) (ground arith))
    | inr (next, step) ↦
        rw
          (
            in_calendar_step left cursor step,
            runs_within_step left cursor step s,
            search_from_step left cursor step s count found,
          )
          (elim (Bool-cases (matches s next)) [
            | inl fires ↦ rw fires (
                fires_case next (in_calendar left next) (runs_within s left next) found h
                  (search_from_lem left next (found ++ next ∷ [])))
            | inr quiet ↦ rw quiet (search_from_lem left next found h)
          ])
  ]

-- For a positive count, `next_runs` raises exactly when the calendar ends within the four-year
-- horizon before `count` runs are found, and else returns the first `count` matching minutes of
-- the horizon, in their order (all of them, where there are fewer).
pub next_runs_lem :
    (s : CronSchedule) (after : DateTime) (count : ℕ)
    → 0 < count
    → next_runs s after count
      ≡ outcome count
          (in_calendar max_lookahead_minutes (floor_minute after))
          (runs_within s max_lookahead_minutes (floor_minute after))
unfolding next_runs
next_runs_lem s after count h =
    rw (search_from_lem s count max_lookahead_minutes (floor_minute after) [] h) (ground arith)

-- ===== src/Cron/NextRuns/Order.antt =====
-- The runs that `next_runs` returns, as moments: after the given one, in order, all of them firing.
use mathlib.Core.Path.{subst}
use mathlib.Core.Option.{some-injective}
use datarecon_ai_community_e.Prelude.{
  leb, ℕ, zero, suc, ◌≤◌, ◌<◌, ◌≡◌, Bool, true, false, none, some, List, [], ◌∷◌, if◌then◌else◌,
  length, take, arith, Bool-cases, inl, inr, Option-cases,
}
use datarecon_ai_community_e.Cron.{CronSchedule, matches}
use datarecon_ai_community_e.Cron.Calendar.{DateTime, floor_minute, add_minute}
use datarecon_ai_community_e.Cron.Calendar.Laws.{
  stamp, IsDateTime, stamp-add_minute, add_minute-IsDateTime, floor_minute-IsDateTime,
  stamp-floor_minute,
}
use datarecon_ai_community_e.Cron.NextRuns.{
  next_runs, runs_within, minutes_after, next_runs_lem, max_lookahead_minutes, outcome,
}

-- The runs fire, and each stands after the one before it; the first stands after minute `b`.
abbrev pub AreRunsAfter : CronSchedule → ℕ → List DateTime → Type 0
AreRunsAfter s b [] = Unit
AreRunsAfter s b (t ∷ ts) = (b < stamp t) × (matches s t ≡ true) × AreRunsAfter s (stamp t) ts

module _ (s : CronSchedule) where
  weaken : (b c : ℕ) (ts : List DateTime) → c ≤ b → AreRunsAfter s b ts → AreRunsAfter s c ts
  weaken b c [] h r = tt
  weaken b c (t ∷ ts) h r = (omega arith, r.1, r.2)

  take-AreRunsAfter :
      (n b : ℕ) (ts : List DateTime) → AreRunsAfter s b ts → AreRunsAfter s b (take n ts)
  take-AreRunsAfter zero b ts r = tt
  take-AreRunsAfter (suc n) b [] r = tt
  take-AreRunsAfter (suc n) b (t ∷ ts) r = (r.0, r.1, take-AreRunsAfter n (stamp t) ts r.2)

  length-take-le : (n : ℕ) (ts : List DateTime) → length (take n ts) ≤ n
  length-take-le zero ts = omega arith
  length-take-le (suc n) [] = omega arith
  length-take-le (suc n) (t ∷ ts) = omega (arith, length-take-le n ts)

  runs_within-AreRunsAfter :
      (n : ℕ) (t : DateTime) → IsDateTime t → AreRunsAfter s (stamp t) (runs_within s n t)
  unfolding runs_within
  runs_within-AreRunsAfter zero t valid = tt
  runs_within-AreRunsAfter (suc n) t valid = elim (Option-cases (add_minute t)) [
    | inl over ↦ rw (over, minutes_after) tt
    | inr (next, step) ↦
        let later = runs_within-AreRunsAfter n next (add_minute-IsDateTime t valid next step) in
        let one_more = stamp-add_minute t valid next step in
        rw (step, minutes_after)
          (elim (Bool-cases (matches s next)) [
            | inl fires ↦ rw fires (omega arith, fires, later)
            | inr quiet ↦ rw quiet (weaken (stamp next) (stamp t) _ (omega arith) later)
          ])
  ]

  outcome-AreRunsAfter :
      (count b : ℕ) (complete : Bool) (ts found : List DateTime)
      → AreRunsAfter s b ts
      → outcome count complete ts ≡ some found
      → AreRunsAfter s b found × (length found ≤ count)
  outcome-AreRunsAfter count b complete ts found r h = elim (Bool-cases (leb count (length ts))) [
    | inl full ↦
        subst (λ x. AreRunsAfter s b x × (length x ≤ count)) (some-injective _ _ (rw full at h))
          (take-AreRunsAfter count b ts r, length-take-le count ts)
    | inr short ↦ rest complete (rw short at h) short
  ]
    where
      rest :
          (c : Bool)
          → (if c then some ts else none) ≡ some found
          → leb count (length ts) ≡ false
          → AreRunsAfter s b found × (length found ≤ count)
      rest true e short =
          subst (λ x. AreRunsAfter s b x × (length x ≤ count)) (some-injective _ _ e)
            (r, ground arith)
      rest false e short = cc

-- What `next_runs` returns are at most `count` firing minutes, strictly after the given moment's
-- minute and in strictly increasing order, where that moment is a date of the calendar.
pub next_runs-AreRunsAfter :
    (s : CronSchedule) (after : DateTime) (count : ℕ) (found : List DateTime)
    → IsDateTime after
    → next_runs s after count ≡ some found
    → AreRunsAfter s (stamp after) found × (length found ≤ count)
unfolding next_runs
next_runs-AreRunsAfter s after zero found valid h =
    subst (λ x. AreRunsAfter s (stamp after) x × (length x ≤ 0)) (some-injective _ _ h)
      (tt, omega arith)
next_runs-AreRunsAfter s after (suc n) found valid h =
    outcome-AreRunsAfter s (suc n) (stamp after) _ _ found
      (rw (← stamp-floor_minute after) (
        runs_within-AreRunsAfter s max_lookahead_minutes (floor_minute after)
          (floor_minute-IsDateTime after valid)))
      (rw (next_runs_lem s after (suc n) (omega arith)) at h)

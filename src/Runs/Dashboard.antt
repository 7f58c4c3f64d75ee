-- ===== src/Runs/Dashboard.antt =====
-- datarecon/application/services/dashboard_service.py: the counts on the dashboard.
-- The pass rate is held in units of 0.01 %, in which `round(..., 2)` is an integer.
use datarecon_ai_community_e.Prelude.{
  ℕ, suc, ◌+◌, ◌*◌, ◌≤◌, ◌<◌, ◌≡◌, Bool, true, false, Option, none, List, [], ◌∷◌, if◌then◌else◌,
  select, length, ◌==◌, round_ratio,
}
use datarecon_ai_community_e.PyText.{Text}
use datarecon_ai_community_e.Domain.{ValidationRun, RunStatus, pass, fail, error}
use datarecon_ai_community_e.Runs.Store.{list_filtered}

pub record DashboardWidgets : Type 0 where
  pub total_runs : ℕ
  pub passed : ℕ
  pub failed : ℕ
  pub errored : ℕ
  pub pass_rate_percent : ℕ

abbrev pub same_status : RunStatus → RunStatus → Bool
same_status pass pass = true
same_status fail fail = true
same_status error error = true
same_status _ _ = false

abbrev pub with_status : RunStatus → List ValidationRun → ℕ
with_status status runs = length (select (λ r. same_status r.status status) runs)

-- round(passed / total * 100.0, 2) if total else 0.0
unfoldable pub pass_rate : ℕ → ℕ → ℕ
pass_rate passed total = if total == 0 then 0 else round_ratio (passed * 10000) total

unfoldable pub summarize : List ValidationRun → DashboardWidgets
summarize runs = record {
  total_runs = length runs;
  passed = with_status pass runs;
  failed = with_status fail runs;
  errored = with_status error runs;
  pass_rate_percent = pass_rate (with_status pass runs) (length runs);
}

unfoldable pub widgets : ℕ → Option Text → List ValidationRun → DashboardWidgets
widgets limit project_id table = summarize (list_filtered project_id none none limit false table)

-- How many of the runs passed, failed and ended with an error.
pub data Tally : List ValidationRun → ℕ → ℕ → ℕ → Type 0 where
  no_runs : Tally [] 0 0 0
  one_passed :
      (r : ValidationRun) {runs : List ValidationRun} {p f e : ℕ}
      → r.status ≡ pass
      → Tally runs p f e
      → Tally (r ∷ runs) (suc p) f e
  one_failed :
      (r : ValidationRun) {runs : List ValidationRun} {p f e : ℕ}
      → r.status ≡ fail
      → Tally runs p f e
      → Tally (r ∷ runs) p (suc f) e
  one_errored :
      (r : ValidationRun) {runs : List ValidationRun} {p f e : ℕ}
      → r.status ≡ error
      → Tally runs p f e
      → Tally (r ∷ runs) p f (suc e)

-- The figures of a list of runs: its tally, and the share of the passed ones in units of 0.01 %,
-- rounded to the nearest, which is 0 for no runs and at most 100 %.
abbrev pub AreFigures : List ValidationRun → DashboardWidgets → Type 0
AreFigures runs w =
    (w.total_runs ≡ length runs)
    × Tally runs w.passed w.failed w.errored
    × (length runs ≡ w.passed + w.failed + w.errored)
    × (length runs ≡ 0 → w.pass_rate_percent ≡ 0)
    × (0 < length runs
        → (2 * (w.passed * 10000) ≤ 2 * (w.pass_rate_percent * length runs) + length runs)
          × (2 * (w.pass_rate_percent * length runs) ≤ 2 * (w.passed * 10000) + length runs))
    × (w.pass_rate_percent ≤ 10000)

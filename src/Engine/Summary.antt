-- ===== src/Engine/Summary.antt =====
-- `_build_summary` and `ComparisonResult.is_passed` of comparison_engine.py.
-- The percentage is held in units of 0.0001 %, in which `round(..., 4)` is an integer.
use datarecon_ai_community_e.Prelude.{
  ℕ, ◌+◌, ◌-◌, ◌*◌, ◌≤◌, ◌<◌, ◌≡◌, Bool, true, if◌then◌else◌, ◌==◌, arith, round_ratio,
  round_ratio_near, ◌↔◌, Bool-cases, inl, inr, ==→eq,
}

pub data Verdict : Type 0 where
  pass fail : Verdict

pub record Summary : Type 0 where
  pub rows_source : ℕ
  pub rows_target : ℕ
  pub rows_compared : ℕ
  pub rows_matched : ℕ
  pub rows_mismatched : ℕ
  pub rows_missing_in_target : ℕ
  pub rows_extra_in_target : ℕ
  pub rows_failed : ℕ
  pub success_percentage : ℕ
  pub status : Verdict

-- 100.0
abbrev pub hundred : ℕ
hundred = 1000000

unfoldable pub success_pct : ℕ → ℕ → ℕ
success_pct matched rows_compared =
    if rows_compared == 0 then hundred else round_ratio (matched * hundred) rows_compared

unfoldable pub build_summary : ℕ → ℕ → ℕ → ℕ → ℕ → ℕ → Summary
build_summary rows_source rows_target matched mismatched missing extra =
    let rows_compared = matched + mismatched + missing + extra in
    record {
      rows_source = rows_source;
      rows_target = rows_target;
      rows_compared = rows_compared;
      rows_matched = matched;
      rows_mismatched = mismatched;
      rows_missing_in_target = missing;
      rows_extra_in_target = extra;
      rows_failed = mismatched + missing + extra;
      success_percentage = success_pct matched rows_compared;
      status = if success_pct matched rows_compared == hundred then pass else fail;
    }

unfoldable pub is_passed : Summary → Bool
is_passed s = s.success_percentage == hundred

-- A whole number of units within a half of `hundred` times a ratio near one is `hundred` itself.
nearest_hundred :
    (r n failed : ℕ)
    → 2000000 * failed < n
    → 2 * ((n - failed) * hundred) ≤ 2 * (r * n) + n
    → 2 * (r * n) ≤ 2 * ((n - failed) * hundred) + n
    → r ≡ hundred
nearest_hundred r n failed h below above = grind arith

below_hundred :
    (r n failed : ℕ)
    → 0 < n
    → n < 2000000 * failed
    → 2 * (r * n) ≤ 2 * ((n - failed) * hundred) + n
    → r < hundred
below_hundred r n failed pos h above = grind arith

module _ (matched failed : ℕ) where
  near :
      0 < matched + failed
      → (2 * (matched * hundred)
          ≤ 2 * (success_pct matched (matched + failed) * (matched + failed)) + (matched + failed))
        × (2 * (success_pct matched (matched + failed) * (matched + failed))
            ≤ 2 * (matched * hundred) + (matched + failed))
  unfolding success_pct
  near pos = ground (arith, round_ratio_near (matched * hundred) (matched + failed) pos)

  matched_lem : matched + failed - failed ≡ matched
  matched_lem = omega arith

  full_marks :
      2000000 * failed < matched + failed → success_pct matched (matched + failed) ≡ hundred
  full_marks h =
      let n = near (omega arith) in
      nearest_hundred _ (matched + failed) failed h (rw matched_lem n.0) (rw matched_lem n.1)

  short_marks :
      matched + failed < 2000000 * failed → success_pct matched (matched + failed) < hundred
  short_marks h =
      let n = near (omega arith) in
      below_hundred _ (matched + failed) failed (omega arith) h (rw matched_lem n.1)

  marks_of_none : failed ≡ 0 → success_pct matched (matched + failed) ≡ hundred
  marks_of_none none = elim (Bool-cases (matched == 0)) [
    | inl empty ↦ unfold success_pct in ground arith
    | inr filled ↦ full_marks (ground arith)
  ]

  marks_iff :
      matched + failed < 2000000 → (success_pct matched (matched + failed) ≡ hundred) ↔ (failed ≡ 0)
  marks_iff small = (λ full. failed_none full, marks_of_none)
    where
      failed_none : success_pct matched (matched + failed) ≡ hundred → failed ≡ 0
      failed_none full = elim (Bool-cases (failed == 0)) [
        | inl none ↦ ==→eq failed 0 none
        | inr some_failed ↦
            let f : 0 < failed = ground arith in
            let less = short_marks (omega arith) in absurd (omega arith)
      ]

module _ (rows_source rows_target matched mismatched missing extra : ℕ) where
  abbrev pub summary : Summary
  summary = build_summary rows_source rows_target matched mismatched missing extra

  regroup : matched + mismatched + missing + extra ≡ matched + (mismatched + missing + extra)
  regroup = omega arith

  -- The run passes if fewer than one compared row in two million failed.
  pub status-pass : 2000000 * summary.rows_failed < summary.rows_compared → summary.status ≡ pass
  unfolding build_summary
  status-pass h =
      let full = full_marks matched (mismatched + missing + extra) (rw regroup at h) in
      rw regroup (ground arith)

  -- The run fails if more than one compared row in two million failed.
  pub status-fail : summary.rows_compared < 2000000 * summary.rows_failed → summary.status ≡ fail
  unfolding build_summary
  status-fail h =
      let short = short_marks matched (mismatched + missing + extra) (rw regroup at h) in
      rw regroup (ground arith)

  -- Below two million compared rows, a run passes exactly if no row failed.
  pub pass_iff_none_failed :
      summary.rows_compared < 2000000 → (summary.status ≡ pass) ↔ (summary.rows_failed ≡ 0)
  unfolding build_summary
  pass_iff_none_failed small =
      let iff = marks_iff matched (mismatched + missing + extra) (omega arith) in
      rw regroup (λ passed. iff.0 (ground arith), λ none. let full = iff.1 none in ground arith)

  -- `is_passed` and the status agree.
  pub is_passed-status : (is_passed summary ≡ true) ↔ (summary.status ≡ pass)
  unfolding build_summary is_passed
  is_passed-status = (λ h. ground arith, λ h. ground arith)

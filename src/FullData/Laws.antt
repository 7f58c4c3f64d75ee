-- ===== src/FullData/Laws.antt =====
-- A full data validation, from its frames to its run.
use datarecon_ai_community_e.Prelude.{
  ℕ, ◌≡◌, refl, Bool, true, false, List, [], ◌∷◌, ◌++◌, if◌then◌else◌, ◌↔◌, Result, ok, err,
  >>=-eq-ok, ok-injective, OnOk-eq, ap,
}
use mathlib.Core.Path.{subst}
use datarecon_ai_community_e.PyText.{Text, Unicode}
use datarecon_ai_community_e.Domain.{ValidationRun, pass, fail}
use datarecon_ai_community_e.Engine.Pandas.{Pandas, Laws, Frame}
use datarecon_ai_community_e.Engine.Config.{EngineError}
use datarecon_ai_community_e.Engine.Compare.{compare, ComparisonResult}
use datarecon_ai_community_e.Engine.Summary.{is_passed}
use datarecon_ai_community_e.Engine.Totals.{AddsUp, compare-AddsUp}
use datarecon_ai_community_e.Runs.Execution.{
  Call, Computed, perform, IsFresh, IsRecorded, perform-IsRecorded, perform-OnOk,
}
use datarecon_ai_community_e.FullData.{
  Shown, FullValidationRequest, config_of, or_raised, compare_frames, validate_full,
}

-- The status of a computed validation is the verdict on its rows, and the rows add up.
pub record IsSoundResult (P : Pandas) (c : Computed (ComparisonResult P.Cell)) : Type 0 where
  pub adds_up : AddsUp c.value.summary
  pub passes_iff : (c.status ≡ pass) ↔ (is_passed c.value.summary ≡ true)

module _ (u : Unicode) (P : Pandas) (laws : Laws P) (shown : Shown) where
  or_raised-ok :
      {A : Type 0} (r : Result EngineError A) (a : A) → or_raised u P shown r ≡ ok a → r ≡ ok a
  or_raised-ok (ok b) a h = ap ok (ok-injective h)
  or_raised-ok (err e) a h = absurd (let k = h in cc)

  passes : (b : Bool) → ((if b then pass else fail) ≡ pass) ↔ (b ≡ true)
  passes true = (λ h. refl, λ h. refl)
  passes false = (λ h. cc, λ h. cc)

  compare_frames-IsSoundResult :
      (request : FullValidationRequest u P shown) (started finished : ℕ)
      (extracted : Result Text (Frame P.Cell P.DType × Frame P.Cell P.DType))
      (c : Computed (ComparisonResult P.Cell))
      → compare_frames u P shown request started finished extracted ≡ ok c
      → IsSoundResult P c
  unfolding compare_frames
  compare_frames-IsSoundResult request started finished extracted c h =
      let (frames, _, k) = >>=-eq-ok extracted _ h in
      let (result, e, same) =
        >>=-eq-ok
          (or_raised u P shown
            (compare u P request.business_keys (config_of u P shown request) (frames.0) (frames.1)))
          _ k in
      subst (IsSoundResult P) (ok-injective same) record {
        adds_up =
            compare-AddsUp u P request.business_keys (config_of u P shown request) (frames.0)
              (frames.1) result laws (or_raised-ok _ result e);
        passes_iff = passes (is_passed result.summary);
      }

  -- A full data validation that returns has compared rows that add up, passes exactly if its
  -- comparison did, and its run is appended to the history with that status, where the call's ids
  -- are fresh and pandas keeps its laws.
  pub validate_full-IsSoundResult :
      (call : Call) (save : ValidationRun → ComparisonResult P.Cell → Result Text (Unit {0}))
      (request : FullValidationRequest u P shown) (compared_at : ℕ)
      (extracted : Result Text (Frame P.Cell P.DType × Frame P.Cell P.DType))
      (table : List ValidationRun) (c : Computed (ComparisonResult P.Cell)) (run : ValidationRun)
      → IsFresh {A = ComparisonResult P.Cell} call save table
      → (validate_full u P shown call save request compared_at extracted table).0 ≡ ok (c, run)
      → IsSoundResult P c
        × ((validate_full u P shown call save request compared_at extracted table).1
            ≡ table ++ run ∷ [])
        × (run.status ≡ c.status)
  unfolding validate_full
  validate_full-IsSoundResult call save request compared_at extracted table c run fresh h =
      let computed = compare_frames u P shown request call.started compared_at extracted in
      let recorded = perform-IsRecorded call save computed table fresh in
      let (appended, status) = by_result (perform call save computed table) recorded h in
      (
        OnOk-eq (λ (r : Computed (ComparisonResult P.Cell) × ValidationRun). IsSoundResult P (r.0))
            _
            (perform-OnOk call save (λ r. IsSoundResult P (r.0)) computed table
              (λ d r e.
                compare_frames-IsSoundResult request call.started compared_at extracted d e))
            h,
        appended,
        status,
      )
    where
      by_result :
          (r : Result Text (Computed (ComparisonResult P.Cell) × ValidationRun)
            × List ValidationRun)
          → IsRecorded call save table r
          → r.0 ≡ ok (c, run)
          → (r.1 ≡ table ++ run ∷ []) × (run.status ≡ c.status)
      by_result (ok (d, s), t) rec e =
          subst
            (λ (x : Computed (ComparisonResult P.Cell) × ValidationRun).
              (t ≡ table ++ x.1 ∷ []) × (x.1.status ≡ x.0.status))
            (ok-injective e) (let (same, _, status, _, _) = rec in (same, status))
      by_result (err message, t) rec e = absurd (let k = e in cc)

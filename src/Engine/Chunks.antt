-- ===== src/Engine/Chunks.antt =====
-- The chunked diff of `_build_mismatch_frame` is the diff of all rows at once.
use datarecon_ai_community_e.Prelude.{
  take-drop, drop_all, drop-drop, ℕ, zero, suc, ◌+◌, ◌≤◌, ◌≡◌, refl, true, false, not, List, [],
  ◌∷◌, ◌++◌, map, ◌↔◌, select, length, take, drop, arith, Bool-cases, inl, inr, ap, ◌∙◌, ltb, sym,
}
use mathlib.Core.List.{map-append}
use datarecon_ai_community_e.PyText.{Text, ℤ, pos, negsuc}
use datarecon_ai_community_e.Engine.Pandas.{Pandas, Row, MergedFrame}
use datarecon_ai_community_e.Engine.Config.{Config}
use datarecon_ai_community_e.Engine.Compare.{
  mismatch_row, diff_chunks, build_mismatch_frame, chunk_step, row_equal, differing, column_equal,
}

module _ (P : Pandas) (cfg : Config P) (merged : MergedFrame P.Cell P.DType)
    (keys cols : List Text) where
  diff_chunks_lem :
      (fuel step start : ℕ) (rows : List (Row P.Cell × Row P.Cell))
      → 1 ≤ step
      → length rows ≤ start + fuel
      → diff_chunks P cfg merged fuel step keys cols rows start
        ≡ map (mismatch_row P cfg merged keys cols) (drop start rows)
  unfolding diff_chunks
  diff_chunks_lem zero step start rows h fuel = rw (drop_all start rows (omega arith))
  diff_chunks_lem (suc fuel) step start rows h enough =
      let row = mismatch_row P cfg merged keys cols in
      elim (Bool-cases (ltb start (length rows))) [
        | inl more ↦
            rw (diff_chunks, more, diff_chunks_lem fuel step (start + step) rows h (omega arith))
              (ap (λ l. map row (take step (drop start rows)) ++ map row l)
                  (sym (drop-drop start step rows))
                ∙ sym (map-append row (take step (drop start rows)) (drop step (drop start rows)))
                ∙ ap (map row) (take-drop step (drop start rows)))
        | inr over ↦ rw (diff_chunks, over, drop_all start rows (ground arith))
      ]

  chunk_step_pos : (n : ℤ) → 1 ≤ chunk_step n
  chunk_step_pos (pos zero) = omega arith
  chunk_step_pos (pos (suc n)) = omega arith
  chunk_step_pos (negsuc n) = omega arith

  -- A row is equal exactly if no compared column differs.
  pub differing-nil :
      (columns : List Text) (p : Row P.Cell × Row P.Cell)
      → (differing P cfg merged columns p ≡ []) ↔ (row_equal P cfg merged columns p ≡ true)
  differing-nil [] p = (λ h. refl, λ h. refl)
  differing-nil (c ∷ columns) p =
      let ih = differing-nil columns p in
      elim (Bool-cases (column_equal P cfg merged p c)) [
        | inl same ↦ rw same ih
        | inr other ↦ rw other (λ h. cc, λ h. cc)
      ]

  select_none : (rows : List (Row P.Cell × Row P.Cell)) → select (λ p. false) rows ≡ []
  select_none [] = refl
  select_none (r ∷ rows) = select_none rows

module _ (P : Pandas) (cfg : Config P) (merged : MergedFrame P.Cell P.DType)
    (keys : List Text) where
  -- The rows that differ in some column, each with its values and its differing columns: the
  -- chunks of `_build_mismatch_frame` put together, whatever their size.
  pub build_mismatch_frame_lem :
      (cols : List Text) (rows : List (Row P.Cell × Row P.Cell))
      → build_mismatch_frame P cfg merged keys cols
          (select (λ p. not (row_equal P cfg merged cols p)) rows)
        ≡ map
            (mismatch_row P cfg merged keys cols)
            (select (λ p. not (row_equal P cfg merged cols p)) rows)
  unfolding build_mismatch_frame
  build_mismatch_frame_lem [] rows = rw (select_none P cfg merged keys [] rows)
  build_mismatch_frame_lem (c ∷ cols) rows =
      diff_chunks_lem P cfg merged keys (c ∷ cols) _ (chunk_step cfg.diff_chunk_size) 0 _
        (chunk_step_pos P cfg merged keys cols cfg.diff_chunk_size) (omega arith)

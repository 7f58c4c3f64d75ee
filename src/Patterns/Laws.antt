-- ===== src/Patterns/Laws.antt =====
-- About `_split_columns`, the hint of a time shift, and `analyse_mismatches`.
use datarecon_ai_community_e.Prelude.{
  ◌≡◌, ◌≢◌, refl, Bool, false, not, List, [], ◌∷◌, ◌++◌, All, arith, ap, length, ◌||◌, ◌==◌,
}
use Prim.Native.Nat.{◌%◌, ◌*◌}
use datarecon_ai_community_e.Engine.Pandas.{count}
use datarecon_ai_community_e.Patterns.Formats.{magnitude_of, second}
use datarecon_ai_community_e.Patterns.Floats.{Floats}
use datarecon_ai_community_e.Patterns.Series.{Cells}
use datarecon_ai_community_e.Patterns.Detectors.{time_hint, timezone_hint}
use datarecon_ai_community_e.Patterns.Ranking.{Pattern}
use datarecon_ai_community_e.Patterns.Ranking.Laws.{IsRanked, ranked-IsRanked, count-ranked}
use datarecon_ai_community_e.Patterns.Analysis.{
  MismatchFrame, analyse_mismatches, found_patterns, has_column, mismatched_columns,
}
use datarecon_ai_community_e.PyText.{ℤ, Unicode, text, Text, is_empty, strip, split_on, has_char}
use datarecon_ai_community_e.Engine.Compare.{join_names}
use datarecon_ai_community_e.Patterns.Ranking.{split_columns}

-- A name without commas, and without blanks at its ends.
pub record IsPlainName (name : Text) : Type 0 where
  pub no_comma : has_char b',' name ≡ false
  pub trimmed : strip name ≡ name
  pub not_empty : is_empty name ≡ false

split_on_lem : (s : Text) → has_char b',' s ≡ false → split_on b',' s ≡ s ∷ []
unfolding split_on
split_on_lem [] h = refl
split_on_lem (c ∷ s) h = ground (arith, split_on_lem s)

split_on-append :
    (s t : Text) → has_char b',' s ≡ false → split_on b',' (s ++ b',' ∷ t) ≡ s ∷ split_on b',' t
unfolding split_on
split_on-append [] t h = refl
split_on-append (c ∷ s) t h = ground (arith, split_on-append s t)

split_columns-nil : split_columns [] ≡ []
unfolding split_columns split_on strip
split_columns-nil = refl

-- What the engine joins, the analysis splits: names without commas and without blanks at their ends
-- come back in their order.
pub split_columns-join_names :
    (names : List Text) → All IsPlainName names → split_columns (join_names names) ≡ names
unfolding split_columns join_names split_on
split_columns-join_names [] h = split_columns-nil
split_columns-join_names (name ∷ []) h =
    rw (split_on_lem name h.0.no_comma, h.0.trimmed, h.0.not_empty) refl
split_columns-join_names (name ∷ next ∷ names) h =
    rw (split_on-append name (join_names (next ∷ names)) h.0.no_comma, h.0.trimmed, h.0.not_empty)
      (ap (λ l. name ∷ l) (split_columns-join_names (next ∷ names) h.1))

-- The hint of a shift is that of a timezone exactly for whole half hours, whole days among them, and
-- else the plain one: no shift gets the hint of a day.
pub time_hint_lem :
    {F : Floats} (C : Cells F) (delta : ℤ)
    → (magnitude_of delta % (1800 * second) ≡ 0 → time_hint C delta ≡ timezone_hint C delta)
      × (magnitude_of delta % (1800 * second) ≢ 0
          → time_hint C delta ≡ text "The same constant shift applies to every row.")
unfolding time_hint
time_hint_lem C delta = (λ h. ground arith, λ h. ground arith)

module _ {F : Floats} (C : Cells F) (u : Unicode) (mismatch : MismatchFrame C) where
  -- The patterns of a frame with differing rows are those that were found, each as often, with the
  -- most rows first, of equally many the explanations before the concentration, and these by name.
  pub analyse_mismatches-IsRanked :
      ((length mismatch.rows == 0) || not (has_column C mismatch mismatched_columns)) ≡ false
      → IsRanked (analyse_mismatches C u mismatch).patterns
        × ((t : Pattern → Bool)
            → count t (analyse_mismatches C u mismatch).patterns
              ≡ count t (found_patterns C u mismatch))
  unfolding analyse_mismatches
  analyse_mismatches-IsRanked h = rw h (
    ranked-IsRanked (found_patterns C u mismatch),
    λ t. count-ranked t (found_patterns C u mismatch),
  )

-- ===== src/Patterns/Analysis.antt =====
-- `analyse_mismatches` and `infer_business_keys` of mismatch_patterns.py.
pub mod Evidence
pub mod Laws
use datarecon_ai_community_e.Prelude.{
  ℕ, zero, suc, ◌+◌, ◌*◌, ◌≡◌, Bool, true, false, not, ◌&&◌, ◌||◌, Option, none, some, List, [],
  ◌∷◌, ◌++◌, map, if◌then◌else◌, select, exists, length, take, ltb, leb, ◌==◌, round_ratio,
}
use datarecon_ai_community_e.PyText.{
  Text, Unicode, text, text_eq, is_empty, strip, split_on, starts_with,
}
use datarecon_ai_community_e.Engine.Pandas.{Row, Frame}
use datarecon_ai_community_e.Suites.Store.{text_le}
use datarecon_ai_community_e.Patterns.Formats.{grouped, show_tenths, counted_columns}
use datarecon_ai_community_e.Patterns.Floats.{Floats}
use datarecon_ai_community_e.Patterns.Series.{Cells, Series, Kind, Found, column_concentration}
use datarecon_ai_community_e.Patterns.Detectors.{
  null_pattern, whitespace_pattern, case_pattern, truncation_pattern, time_shift_pattern,
}
use datarecon_ai_community_e.Patterns.Numeric.{ratio_pattern, offset_pattern, rounding_pattern}
use datarecon_ai_community_e.Patterns.Ranking.{
  Pattern, MismatchInsight, split_columns, ranked, concentration_pattern,
}

-- MISMATCHED_COLUMNS
abbrev pub mismatched_columns : Text
mismatched_columns = text "MISMATCHED_COLUMNS"

-- column.endswith(suffix)
unfoldable pub ends_with : Text → Text → Bool
ends_with suffix [] = text_eq [] suffix
ends_with suffix (c ∷ s) = text_eq (c ∷ s) suffix || ends_with suffix s

module _ {F : Floats} (C : Cells F) where
  abbrev pub MismatchFrame : Type 0
  MismatchFrame = Frame C.Cell C.DType

  -- The detectors of `_explain_column`, in their order.
  abbrev pub detectors : Unicode → List (Text → Series C → Series C → Option Found)
  detectors u =
      null_pattern C
      ∷ whitespace_pattern C
      ∷ case_pattern C u
      ∷ truncation_pattern C
      ∷ ratio_pattern C
      ∷ offset_pattern C
      ∷ rounding_pattern C
      ∷ time_shift_pattern C
      ∷ []

  -- The loop over the detectors: the first that finds something.
  unfoldable pub first_found :
      List (Text → Series C → Series C → Option Found) → Text → Series C → Series C → Option Found
  first_found [] column source target = none
  first_found (detector ∷ rest) column source target =
      let later = first_found rest column source target in
      elim (detector column source target) [ none ↦ later | some f ↦ some f ]

  abbrev pub explained : Text → ℕ → ℕ → Option Found → Option Pattern
  explained column hits total none = none
  explained column hits total (some f) = some record {
    kind = f.kind;
    headline = f.headline;
    detail = f.detail;
    column = some column;
    affected_rows = hits;
    covered = hits;
    of_rows = total;
  }

  -- _explain_column
  unfoldable pub explain_column : Unicode → Text → Series C → Series C → ℕ → ℕ → Option Pattern
  explain_column u column source target hits total =
      explained column hits total (first_found (detectors u) column source target)

  -- str(row[MISMATCHED_COLUMNS]) of .fillna("")
  abbrev pub listed_text : Row C.Cell → Text
  listed_text r = if C.is_na (r mismatched_columns) then [] else C.as_text (r mismatched_columns)

  abbrev pub lists_column : Text → Row C.Cell → Bool
  lists_column column r = exists (text_eq column) (split_columns (listed_text r))

  unfoldable pub listed_columns : List (Row C.Cell) → List Text
  unfolding split_columns
  listed_columns [] = []
  listed_columns (r ∷ rows) = split_columns (listed_text r) ++ listed_columns rows

  -- _column_hit_counts: exploded, stripped, and without the blank parts
  unfoldable pub column_hit_counts : MismatchFrame → List (Text × ℕ)
  unfolding listed_columns
  column_hit_counts mismatch = C.value_counts (listed_columns mismatch.rows)

  abbrev pub series_of : MismatchFrame → Text → List (Row C.Cell) → Series C
  series_of mismatch column rows = record {
    dtype = mismatch.dtype column;
    cells = map (λ r. r column) rows;
  }

  abbrev pub has_column : MismatchFrame → Text → Bool
  has_column mismatch column = exists (text_eq column) mismatch.columns

  -- One round of the loop over the counted columns.
  unfoldable pub column_pattern : Unicode → MismatchFrame → Text → ℕ → Option Pattern
  unfolding explain_column
  column_pattern u mismatch column hits =
      let source_col = column ++ text "_source" in
      let target_col = column ++ text "_target" in
      let rows = select (lists_column column) mismatch.rows in
      if not (has_column mismatch source_col) || not (has_column mismatch target_col)
      then none
      else explain_column u column (series_of mismatch source_col rows)
          (series_of mismatch target_col rows) hits (length mismatch.rows)

  abbrev pub push_found : Option Pattern → List Pattern → List Pattern
  push_found none ps = ps
  push_found (some p) ps = p ∷ ps

  unfoldable pub column_patterns : Unicode → MismatchFrame → List (Text × ℕ) → List Pattern
  unfolding column_pattern
  column_patterns u mismatch [] = []
  column_patterns u mismatch ((column, hits) ∷ counts) =
      push_found (column_pattern u mismatch column hits) (column_patterns u mismatch counts)

  -- What `analyse_mismatches` ranks.
  unfoldable pub found_patterns : Unicode → MismatchFrame → List Pattern
  unfolding concentration_pattern column_patterns
  found_patterns u mismatch =
      let counts = column_hit_counts mismatch in
      push_found (concentration_pattern counts (length mismatch.rows))
        (column_patterns u mismatch counts)

  unfoldable pub analyse_mismatches : Unicode → MismatchFrame → MismatchInsight
  unfolding found_patterns ranked
  analyse_mismatches u mismatch = record {
    total_rows = length mismatch.rows;
    patterns =
        if (length mismatch.rows == 0) || not (has_column mismatch mismatched_columns)
        then []
        else ranked (found_patterns u mismatch);
  }

  -- infer_business_keys
  unfoldable pub infer_business_keys : MismatchFrame → List Text
  infer_business_keys mismatch =
      if not (has_column mismatch mismatched_columns)
      then []
      else select
          (λ column.
            not (text_eq column mismatched_columns)
            && not (ends_with (text "_source") column)
            && not (ends_with (text "_target") column))
          mismatch.columns

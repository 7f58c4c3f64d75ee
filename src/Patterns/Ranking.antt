-- ===== src/Patterns/Ranking.antt =====
-- The patterns of mismatch_patterns.py and their order. A coverage is the pair of its counts; the
-- patterns of one frame share the second one, so coverages are in the order of the first ones.
pub mod Laws
use datarecon_ai_community_e.Prelude.{
  ℕ, zero, suc, ◌+◌, ◌*◌, ◌≡◌, Bool, true, false, not, ◌&&◌, ◌||◌, Option, none, some, List, [],
  ◌∷◌, ◌++◌, map, if◌then◌else◌, select, exists, length, take, ltb, leb, ◌==◌, round_ratio,
}
use datarecon_ai_community_e.PyText.{
  Text, Unicode, text, text_eq, is_empty, strip, split_on, starts_with,
}
use datarecon_ai_community_e.Engine.Pandas.{Row, Frame}
use datarecon_ai_community_e.Suites.Store.{text_le}
use datarecon_ai_community_e.Patterns.Formats.{shown, grouped, show_tenths, counted_columns}
use datarecon_ai_community_e.Patterns.Floats.{Floats}
use datarecon_ai_community_e.Patterns.Series.{Cells, Series, Kind, Found, column_concentration}
use datarecon_ai_community_e.Patterns.Detectors.{
  null_pattern, whitespace_pattern, case_pattern, truncation_pattern, time_shift_pattern,
}
use datarecon_ai_community_e.Patterns.Numeric.{ratio_pattern, offset_pattern, rounding_pattern}

pub record Pattern : Type 0 where
  pub kind : Kind
  pub headline : Text
  pub detail : Text
  pub column : Option Text
  pub affected_rows : ℕ
  -- coverage = covered / of_rows
  pub covered : ℕ
  pub of_rows : ℕ

pub record MismatchInsight : Type 0 where
  pub total_rows : ℕ
  pub patterns : List Pattern

-- Pattern.coverage_percent
unfoldable pub coverage_percent : Pattern → ℕ
coverage_percent p = round_ratio (p.covered * 1000) p.of_rows

abbrev first_headline : ℕ → List Pattern → Text
first_headline total [] = grouped total ++ text " differing row(s) — no single pattern stands out."
first_headline total (p ∷ patterns) = p.headline

-- MismatchInsight.headline
unfoldable pub insight_headline : MismatchInsight → Text
insight_headline i =
    if i.total_rows == 0
    then text "No differences to explain."
    else first_headline i.total_rows i.patterns

-- _split_columns
unfoldable pub split_columns : Text → List Text
split_columns s = select (λ part. not (is_empty part)) (map strip (split_on b',' s))

-- _specificity_rank
abbrev pub specificity_rank : Pattern → ℕ
specificity_rank p = elim p.kind [ column_concentration ↦ 1 | _ ↦ 0 ]

abbrev pub column_or_blank : Option Text → Text
column_or_blank none = []
column_or_blank (some c) = c

-- key(p) <= key(q) of the key (-coverage, rank, column) of patterns of one frame
unfoldable pub ranks_before : Pattern → Pattern → Bool
ranks_before p q =
    if ltb q.covered p.covered
    then true
    else if ltb p.covered q.covered
    then false
    else if ltb (specificity_rank p) (specificity_rank q)
    then true
    else if ltb (specificity_rank q) (specificity_rank p)
    then false
    else text_le (column_or_blank p.column) (column_or_blank q.column)

-- patterns.sort(key=...), which is stable
unfoldable pub insert_ranked : Pattern → List Pattern → List Pattern
insert_ranked p [] = p ∷ []
insert_ranked p (q ∷ qs) =
    let rest = insert_ranked p qs in if ranks_before p q then p ∷ q ∷ qs else q ∷ rest

unfoldable pub ranked : List Pattern → List Pattern
ranked [] = []
ranked (p ∷ ps) = insert_ranked p (ranked ps)

-- f"... {round(coverage * 100, 1)}% ..."
abbrev concentration_headline : Text → ℕ → ℕ → ℕ → Option Text
concentration_headline column hits total columns =
    if columns == 1
    then some (text "Every differing row differs in " ++ column)
    else if leb total (2 * hits)
    then some (
        show_tenths (round_ratio (hits * 1000) total)
        ++ text "% of differing rows differ in "
        ++ column)
    else none

abbrev concentrated : Text → ℕ → ℕ → List (Text × ℕ) → Option Text → Option Pattern
concentrated column hits total counts none = none
concentrated column hits total counts (some headline) = some record {
  kind = column_concentration;
  headline = headline;
  detail =
      shown (length counts)
      ++ text " column(s) differ in total: "
      ++ counted_columns (take 5 counts);
  column = some column;
  affected_rows = hits;
  covered = hits;
  of_rows = total;
}

-- _concentration_pattern
unfoldable pub concentration_pattern : List (Text × ℕ) → ℕ → Option Pattern
concentration_pattern [] total = none
concentration_pattern ((column, hits) ∷ counts) total =
    if total == 0
    then none
    else concentrated column hits total ((column, hits) ∷ counts)
        (concentration_headline column hits total (length ((column, hits) ∷ counts)))

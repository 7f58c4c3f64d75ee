-- ===== src/Nullability.antt =====
-- datarecon/application/services/nullability_validation_service.py: the missing values of columns.
-- The queries of DuckDB are a record of functions, and what is relied on of them the record
-- `SqlLaws`. Percentages are in units of 0.0001 %, and may be negative.
pub mod Laws
mod Tests
use datarecon_ai_community_e.Prelude.{
  ℕ, ◌+◌, ◌-◌, ◌*◌, ◌≡◌, Bool, true, false, not, ◌&&◌, ◌||◌, none, some, List, [], ◌∷◌, ◌++◌, map,
  if◌then◌else◌, exists, length, leb, ◌==◌, Result, ok, err, ◌>>=◌, ◌>>◌, round_ratio,
}
use datarecon_ai_community_e.PyText.{Text, Unicode, text, text_eq, is_empty, ℤ, pos, negsuc}
use datarecon_ai_community_e.ColumnMatching.{resolve_all}
use datarecon_ai_community_e.Domain.{ValidationRun, RunStatus, pass, fail}
use datarecon_ai_community_e.Engine.Pandas.{Row, count}
use datarecon_ai_community_e.Referential.{Table}
use datarecon_ai_community_e.Runs.Batches.{digits}
use datarecon_ai_community_e.Runs.Execution.{Call, Computed, perform}

-- _DEFAULT_SENTINELS
abbrev pub default_sentinels : List Text
default_sentinels =
    text "N/A"
    ∷ text "NA"
    ∷ text "NULL"
    ∷ text "None"
    ∷ text "-"
    ∷ text "-999"
    ∷ text "1900-01-01"
    ∷ []

-- A row of the query of `_analyze`.
pub record Counts : Type 0 where
  pub column : Text
  pub null_count : ℕ
  pub blank_count : ℕ
  pub sentinel_count : ℕ

pub record DuckDb : Type 1 where
  pub Cell : Type 0
  pub is_null : Cell → Bool
  -- CAST(c AS VARCHAR) and TRIM of a text
  pub as_varchar : Cell → Text
  pub trim : Text → Text
  -- SELECT COUNT(*), and the UNION ALL of the blocks, for columns and sentinels
  pub count_rows : List (Row Cell) → ℕ
  pub count_missing : List Text → List Text → List (Row Cell) → Result Text (List Counts)

module _ (D : DuckDb) where
  abbrev pub is_blank : D.Cell → Bool
  is_blank c = not (D.is_null c) && is_empty (D.trim (D.as_varchar c))

  abbrev pub is_sentinel : List Text → D.Cell → Bool
  is_sentinel sentinels c = not (D.is_null c) && exists (text_eq (D.as_varchar c)) sentinels

  -- The block of one column, with its three FILTER clauses.
  abbrev pub counts_of : List Text → List (Row D.Cell) → Text → Counts
  counts_of sentinels rows column = record {
    column = column;
    null_count = count (λ r. D.is_null (r column)) rows;
    blank_count = count (λ r. is_blank (r column)) rows;
    sentinel_count = count (λ r. is_sentinel sentinels (r column)) rows;
  }

  -- What SQL defines of the queries; an IN needs a value.
  pub record SqlLaws : Type 0 where
    pub count_rows_lem : (rows : List (Row D.Cell)) → D.count_rows rows ≡ length rows
    pub count_missing_lem :
        (columns : List Text) (s : Text) (sentinels : List Text) (rows : List (Row D.Cell))
        → D.count_missing columns (s ∷ sentinels) rows
          ≡ ok (map (counts_of (s ∷ sentinels) rows) columns)

-- The rounded ratio of plus - minus.
unfoldable pub signed_ratio : (plus minus : ℕ) → ℕ → ℤ
signed_ratio plus minus d =
    if leb minus plus
    then pos (round_ratio (plus - minus) d)
    else if round_ratio (minus - plus) d == 0
    then pos 0
    else negsuc (round_ratio (minus - plus) d - 1)

pub record ColumnStats : Type 0 where
  pub counts : Counts
  pub missing_count : ℕ
  pub completeness_percent : ℤ

unfoldable pub stats_of : ℕ → Counts → ColumnStats
unfolding signed_ratio
stats_of total_rows c =
    let missing = c.null_count + c.blank_count + c.sentinel_count in
    record {
      counts = c;
      missing_count = missing;
      completeness_percent = signed_ratio (total_rows * 1000000) (missing * 1000000) total_rows;
    }

-- The sum of the percentages that are not negative, and that of the others without their sign.
abbrev pub gains : List ColumnStats → ℕ
gains [] = 0
gains (s ∷ stats) = elim s.completeness_percent [ pos n ↦ n + gains stats | negsuc n ↦ gains stats ]

abbrev pub losses : List ColumnStats → ℕ
losses [] = 0
losses (s ∷ stats) = elim s.completeness_percent [
  | pos n ↦ losses stats
  | negsuc n ↦ n + 1 + losses stats
]

-- round(column_stats["completeness_percent"].mean(), 4)
unfoldable pub completeness_score : List ColumnStats → ℤ
unfolding signed_ratio
completeness_score [] = pos 1000000
completeness_score (s ∷ stats) =
    signed_ratio (gains (s ∷ stats)) (losses (s ∷ stats)) (length (s ∷ stats))

pub record NullabilityResult : Type 0 where
  pub total_rows : ℕ
  pub score : ℤ
  pub column_stats : List ColumnStats

abbrev pub no_names : List Text → Bool
no_names [] = true
no_names (_ ∷ _) = false

module _ (u : Unicode) (D : DuckDb) (missing_error : List Text → Text) where
  abbrev pub all_known : List Text × List Text → Result Text (List Text)
  all_known (columns, []) = ok columns
  all_known (columns, m ∷ missing) = err (missing_error (m ∷ missing))

  -- The columns that are checked: those of the request, or all.
  unfoldable pub checked_columns : List Text → List Text → Result Text (List Text)
  checked_columns requested columns =
      if no_names requested then ok columns else all_known (resolve_all u requested columns)

  -- _analyze
  unfoldable pub analyze :
      List (Row D.Cell) → List Text → List Text → Result Text (ℕ × List ColumnStats)
  unfolding stats_of
  analyze rows columns sentinel_values =
      let total = D.count_rows rows in
      let counted = D.count_missing columns sentinel_values rows in
      if (total == 0) || no_names columns
      then ok (total, [])
      else (counted >>= λ stats. ok (total, map (stats_of total) stats))

  -- A request, with `completeness_score >= request.completeness_threshold_percent` as a test.
  pub record NullabilityRequest : Type 0 where
    pub columns : List Text
    pub sentinel_values : List Text
    pub is_complete : ℤ → Bool

  abbrev pub nullability_summary : (ℤ → Text) → ℕ → ℤ → List (Text × Text)
  nullability_summary show_percent total score =
      (text "total_rows", digits (total + 1) total)
      ∷ (text "completeness_score", show_percent score)
      ∷ []

  abbrev pub computed_nulls :
      NullabilityRequest → (ℤ → Text) → ℕ × List ColumnStats → Computed NullabilityResult
  computed_nulls request show_percent (total, stats) =
      let score = completeness_score stats in
      record {
        status = if request.is_complete score then pass else fail;
        summary = nullability_summary show_percent total score;
        value = record { total_rows = total; score = score; column_stats = stats };
      }

  -- What `execute` computes of the frame.
  unfoldable pub analyze_request :
      NullabilityRequest → (ℤ → Text) → Table D.Cell → Result Text (Computed NullabilityResult)
  unfolding checked_columns analyze completeness_score
  analyze_request request show_percent df = do
    columns ← checked_columns request.columns df.columns
    found ← analyze df.rows columns request.sentinel_values
    ok (computed_nulls request show_percent found)

  -- execute; `extracted` is the frame, or what its extraction raised
  unfoldable pub validate_nulls :
      Call
      → NullabilityRequest
      → (ℤ → Text)
      → (ValidationRun → NullabilityResult → Result Text (Unit {0}))
      → Result Text (Table D.Cell)
      → List ValidationRun
      → Result Text (Computed NullabilityResult × ValidationRun) × List ValidationRun
  validate_nulls call request show_percent save extracted table =
      perform call save (extracted >>= analyze_request request show_percent) table

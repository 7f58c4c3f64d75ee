-- ===== src/Patterns/Blocks.antt =====
-- `analyse_row_set` of mismatch_patterns.py: rows on one side whose keys form a block.
-- A key that is a number is a multiple of 1/unit and is not negative.
pub mod Laws
use datarecon_ai_community_e.Prelude.{
  ℕ, suc, ◌+◌, ◌-◌, ◌/◌, ◌%◌, ◌≡◌, ◌↔◌, Bool, true, false, not, ◌&&◌, ◌||◌, Option, none, some,
  List, [], ◌∷◌, ◌++◌, map, if◌then◌else◌, exists, length, ltb, leb, ◌==◌,
}
use datarecon_ai_community_e.PyText.{Text, text, text_eq}
use datarecon_ai_community_e.Engine.Pandas.{Row}
use datarecon_ai_community_e.Patterns.Formats.{grouped}
use datarecon_ai_community_e.Patterns.Series.{contiguous_key_block}
use datarecon_ai_community_e.Patterns.Detectors.{min_rows_for_claim}
use datarecon_ai_community_e.Patterns.Ranking.{Pattern}

pub record Numbers : Type 1 where
  pub Cell : Type 0
  pub unit : ℕ
  -- pd.to_numeric(..., errors="coerce"), `none` for NaN
  pub to_numeric : Cell → Option ℕ
  -- values.nunique()
  pub nunique : List ℕ → ℕ

-- No value stands twice.
abbrev pub are_distinct : List ℕ → Bool
are_distinct [] = true
are_distinct (x ∷ xs) = not (exists (λ y. y == x) xs) && are_distinct xs

-- min and max of the values `m ∷ xs`
abbrev pub least : ℕ → List ℕ → ℕ
least m [] = m
least m (x ∷ xs) = let rest = least m xs in if ltb x rest then x else rest

abbrev pub greatest : ℕ → List ℕ → ℕ
greatest m [] = m
greatest m (x ∷ xs) = let rest = greatest m xs in if ltb rest x then x else rest

module _ (N : Numbers) where
  -- pd.to_numeric(frame[key], errors="coerce").dropna()
  unfoldable pub numeric_values : List N.Cell → List ℕ
  numeric_values [] = []
  numeric_values (c ∷ cells) =
      let rest = numeric_values cells in elim (N.to_numeric c) [ none ↦ rest | some v ↦ v ∷ rest ]

  abbrev pub block : Text → Text → ℕ → ℕ → ℕ → Pattern
  block key side total low high = record {
    kind = contiguous_key_block;
    headline =
        text "All "
        ++ grouped total
        ++ text " "
        ++ side
        ++ text " row(s) form one unbroken block of "
        ++ key
        ++ text " ("
        ++ grouped low
        ++ text " to "
        ++ grouped high
        ++ text ")";
    detail =
        text
          "Rows lost at random do not come out contiguous — a solid range points at a truncated, partial or interrupted load rather than row-level failures.";
    column = some key;
    affected_rows = total;
    covered = total;
    of_rows = total;
  }

  -- Behind the tests of the frame: `values` are the numbers of the one key.
  unfoldable pub block_of : Text → Text → ℕ → List ℕ → List Pattern
  block_of key side total [] = []
  block_of key side total (v ∷ values) =
      let low = least v values / N.unit in
      let high = greatest v values / N.unit in
      if not (length (v ∷ values) == total) || not (v % N.unit == 0)
      then []
      else if not (N.nunique (v ∷ values) == total) || not (high - low + 1 == total)
      then []
      else block key side total low high ∷ []

  -- analyse_row_set, of a frame with the given columns and rows
  unfoldable pub analyse_row_set : List Text → List (Row N.Cell) → List Text → Text → List Pattern
  unfolding block_of numeric_values
  analyse_row_set columns rows [] side = []
  analyse_row_set columns rows (key ∷ next ∷ keys) side = []
  analyse_row_set columns rows (key ∷ []) side =
      if ltb (length rows) min_rows_for_claim
      then []
      else if not (exists (text_eq key) columns)
      then []
      else block_of key side (length rows) (numeric_values (map (λ r. r key) rows))

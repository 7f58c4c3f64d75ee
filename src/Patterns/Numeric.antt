-- ===== src/Patterns/Numeric.antt =====
-- The detectors of mismatch_patterns.py on numbers.
use datarecon_ai_community_e.Prelude.{
  not, ◌&&◌, ◌||◌, Option, none, List, [], ◌∷◌, ◌++◌, map, if◌then◌else◌, exists, length, ltb,
}
use datarecon_ai_community_e.PyText.{Text, text}
use datarecon_ai_community_e.Patterns.Floats.{
  Floats, format_number, format_factor, is_power_of_ten, decimal_places,
}
use datarecon_ai_community_e.Patterns.Series.{
  Cells, Series, Found, sign_flip, constant_ratio, constant_offset, rounding, numeric_pair,
}
use datarecon_ai_community_e.Patterns.Detectors.{min_rows_for_claim, found_if, on_pairs}

module _ {F : Floats} (C : Cells F) where
  open F use {
    Float, literal, subtract, divide, magnitude, less, less_eq, equal, median, largest, all_close,
    show_10g,
  }

  -- _RTOL and _IDENTITY_EPS
  abbrev pub rtol : Float
  rtol = literal 1 9

  abbrev pub identity_eps : Float
  identity_eps = literal 1 12

  -- A constant factor that is none of the identity, named.
  abbrev pub scaled : Text → Float → Found
  scaled column factor =
      if less (magnitude (F.add factor (literal 1 0))) rtol
      then record {
        kind = sign_flip;
        headline = column ++ text " has the opposite sign in the target for every differing row";
        detail =
            text
              "Target = -Source throughout. A sign convention differs between the two systems (debit/credit, or an inverted adjustment).";
      }
      else record {
        kind = constant_ratio;
        headline =
            column ++ text " is off by exactly " ++ format_factor F factor ++ text " in the target";
        detail =
            if is_power_of_ten F factor
            then text
                "A clean power of ten across every row is a units or scale problem — cents against currency units, or a stray multiplier — not row-level data corruption."
            else text
                "The same constant multiplier across every row points at a conversion or scaling step, not row-level corruption.";
      }

  -- Behind the test for zeros; np.allclose has atol=1e-8 where none is given.
  abbrev pub ratio_found : Text → List Float → Option Found
  ratio_found column ratios =
      let factor = median ratios in
      found_if
        (not (less (magnitude (subtract factor (literal 1 0))) identity_eps)
          && all_close ratios factor rtol (literal 1 8))
        (scaled column factor)

  -- _ratio_pattern
  unfoldable pub ratio_pattern : Text → Series C → Series C → Option Found
  ratio_pattern column source target =
      on_pairs
        (λ pairs.
          if ltb (length pairs) min_rows_for_claim
          then none
          else if exists (λ p. equal p.0 (literal 0 0)) pairs
          then none
          else ratio_found column (map (λ p. divide p.1 p.0) pairs))
        (numeric_pair C source target)

  -- max(abs(offset), float(np.abs(diffs).max()), 1.0)
  abbrev pub offset_scale : Float → List Float → Float
  offset_scale offset diffs =
      largest (magnitude offset ∷ largest (map magnitude diffs) ∷ literal 1 0 ∷ [])

  abbrev pub offset_found : Text → List Float → Option Found
  offset_found column diffs =
      let offset = median diffs in
      found_if
        (not (less (magnitude offset) identity_eps)
          && all_close diffs offset (literal 0 0)
              (F.multiply (offset_scale offset diffs) (literal 1 9)))
        record {
          kind = constant_offset;
          headline =
              column
              ++ text " is shifted by exactly "
              ++ format_number F offset
              ++ text " in the target";
          detail =
              text
                "The same constant is added to every row, which is an adjustment or an off-by-one applied uniformly rather than scattered errors.";
        }

  -- _offset_pattern
  unfoldable pub offset_pattern : Text → Series C → Series C → Option Found
  offset_pattern column source target =
      on_pairs
        (λ pairs.
          if ltb (length pairs) min_rows_for_claim
          then none
          else offset_found column (map (λ p. subtract p.1 p.0) pairs))
        (numeric_pair C source target)

  -- x or 1.0
  abbrev or_one : Float → Float
  or_one x = if equal x (literal 0 0) then literal 1 0 else x

  abbrev pub rounding_found : Text → List Float → Float → Option Found
  rounding_found column diffs biggest_source =
      let biggest = largest diffs in
      let beyond =
        less (literal 5 1) biggest || less (literal 1 4) (divide biggest (or_one biggest_source)) in
      found_if (exists (λ d. less (literal 0 0) d) diffs && not beyond) record {
        kind = rounding;
        headline =
            column
            ++ text " differs only beyond the "
            ++ decimal_places F biggest
            ++ text " decimal place";
        detail =
            text "The largest difference is "
            ++ show_10g biggest
            ++ text
                ". Setting a float tolerance in the comparison options would classify these as matches.";
      }

  -- _rounding_pattern
  unfoldable pub rounding_pattern : Text → Series C → Series C → Option Found
  rounding_pattern column source target =
      on_pairs
        (λ pairs.
          if ltb (length pairs) min_rows_for_claim
          then none
          else rounding_found column (map (λ p. magnitude (subtract p.1 p.0)) pairs)
              (largest (map (λ p. magnitude p.0) pairs)))
        (numeric_pair C source target)

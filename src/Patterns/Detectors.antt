-- ===== src/Patterns/Detectors.antt =====
-- The detectors of mismatch_patterns.py on missing values, texts and instants.
use datarecon_ai_community_e.Prelude.{
  ℕ, ◌-◌, ◌*◌, ◌%◌, Bool, true, false, not, ◌&&◌, ◌||◌, Option, none, some, List, [], ◌∷◌, ◌++◌,
  if◌then◌else◌, length, ltb, leb, ◌==◌,
}
use datarecon_ai_community_e.PyText.{
  Text, Unicode, text, text_eq, strip, casefold, starts_with, ℤ, pos, negsuc,
}
use datarecon_ai_community_e.Patterns.Formats.{shown, magnitude_of, second, format_duration}
use datarecon_ai_community_e.Patterns.Floats.{Floats}
use datarecon_ai_community_e.Patterns.Series.{
  Cells, Series, Found, null_on_source, null_on_target, whitespace_only, case_only, truncation,
  time_shift, all_of, string_pair, datetime_pair,
}

-- _MIN_ROWS_FOR_CLAIM
abbrev pub min_rows_for_claim : ℕ
min_rows_for_claim = 3

abbrev pub found_if : Bool → Found → Option Found
found_if true f = some f
found_if false f = none

-- The `if left is None: return None` of a detector.
abbrev pub on_pairs : {A : Type 0} → (List A → Option Found) → Option (List A) → Option Found
on_pairs f none = none
on_pairs f (some pairs) = f pairs

-- _truncation_pattern, of one pair
abbrev pub is_cut : Text × Text → Bool
is_cut p = starts_with (p.0) (p.1) && ltb (length p.1) (length p.0)

-- right.str.len().unique() has one element; the width is the first one.
abbrev pub first_width : List (Text × Text) → ℕ
first_width [] = 0
first_width (p ∷ pairs) = length p.1

abbrev pub one_width : List (Text × Text) → Bool
one_width pairs = all_of (λ p. length p.1 == first_width pairs) pairs

-- right - left
abbrev pub delta_of : ℕ × ℕ → ℤ
delta_of p = if leb p.0 p.1 then pos (p.1 - p.0) else negsuc (p.0 - p.1 - 1)

abbrev pub same_delta : ℤ → ℤ → Bool
same_delta (pos a) (pos b) = a == b
same_delta (negsuc a) (negsuc b) = a == b
same_delta _ _ = false

abbrev pub first_delta : List (ℕ × ℕ) → ℤ
first_delta [] = pos 0
first_delta (p ∷ pairs) = delta_of p

module _ {F : Floats} (C : Cells F) where
  -- _null_pattern
  unfoldable pub null_pattern : Text → Series C → Series C → Option Found
  null_pattern column source target =
      let source_empty = all_of C.is_na source.cells in
      let target_empty = all_of C.is_na target.cells in
      if source_empty && not target_empty
      then some record {
        kind = null_on_source;
        headline = column ++ text " is empty on the source for every differing row";
        detail =
            text
              "The target has a value and the source does not, which usually means the column was not populated rather than that it changed.";
      }
      else if target_empty && not source_empty
      then some record {
        kind = null_on_target;
        headline = column ++ text " arrived NULL in the target for every differing row";
        detail =
            text
              "The source has values throughout — the column was dropped or never written, rather than written incorrectly.";
      }
      else none

  -- _whitespace_pattern
  unfoldable pub whitespace_pattern : Text → Series C → Series C → Option Found
  whitespace_pattern column source target =
      on_pairs
        (λ pairs. found_if (all_of (λ p. text_eq (strip p.0) (strip p.1)) pairs) record {
          kind = whitespace_only;
          headline = column ++ text " differs only in leading/trailing whitespace";
          detail =
              text
                "The values are otherwise identical. Enabling 'Trim strings' in the comparison options would classify these as matches.";
        })
        (string_pair C source target)

  -- _case_pattern
  unfoldable pub case_pattern : Unicode → Text → Series C → Series C → Option Found
  case_pattern u column source target =
      on_pairs
        (λ pairs. found_if (all_of (λ p. text_eq (casefold u p.0) (casefold u p.1)) pairs) record {
          kind = case_only;
          headline = column ++ text " differs only in letter case";
          detail =
              text
                "The values match case-insensitively. Enabling 'Ignore case' in the comparison options would classify these as matches.";
        })
        (string_pair C source target)

  abbrev pub truncated : Text → List (Text × Text) → Found
  truncated column pairs =
      if one_width pairs
      then record {
        kind = truncation;
        headline =
            column
            ++ text " is truncated to "
            ++ shown (first_width pairs)
            ++ text " characters in the target";
        detail =
            text "Every target value is the first "
            ++ shown (first_width pairs)
            ++ text
                " characters of the source — the target column is almost certainly narrower than the source.";
      }
      else record {
        kind = truncation;
        headline = column ++ text " is truncated in the target";
        detail = text "Every target value is a prefix of its source value, at varying lengths.";
      }

  -- _truncation_pattern
  unfoldable pub truncation_pattern : Text → Series C → Series C → Option Found
  truncation_pattern column source target =
      on_pairs
        (λ pairs.
          found_if (not (ltb (length pairs) min_rows_for_claim) && all_of is_cut pairs)
            (truncated column pairs))
        (string_pair C source target)

  abbrev pub timezone_hint : ℤ → Text
  timezone_hint delta =
      text "A constant "
      ++ format_duration delta
      ++ text
          " shift across every row is the signature of a timezone difference, not of wrong timestamps."

  abbrev pub day_hint : Text
  day_hint = text "Every timestamp is exactly one day out — an off-by-one in a date window."

  -- The hint of _time_shift_pattern.
  unfoldable pub time_hint : ℤ → Text
  time_hint delta =
      let micros = magnitude_of delta in
      if (micros % (3600 * second) == 0) || (micros % (1800 * second) == 0)
      then timezone_hint delta
      else if micros == 86400 * second
      then day_hint
      else text "The same constant shift applies to every row."

  abbrev pub shifted : Text → ℤ → Found
  shifted column delta = record {
    kind = time_shift;
    headline =
        column ++ text " is shifted by exactly " ++ format_duration delta ++ text " in the target";
    detail = time_hint delta;
  }

  -- _time_shift_pattern; no delta is missing, since both sides have a value
  unfoldable pub time_shift_pattern : Text → Series C → Series C → Option Found
  unfolding time_hint
  time_shift_pattern column source target =
      on_pairs
        (λ pairs.
          let delta = first_delta pairs in
          found_if
            (not (ltb (length pairs) min_rows_for_claim)
              && all_of (λ p. same_delta (delta_of p) delta) pairs
              && not (same_delta delta (pos 0)))
            (shifted column delta))
        (datetime_pair C source target)

-- ===== src/Patterns/Tests.antt =====
-- Mismatches of a shop: names cut to two letters, keys that are halves, and joined column names.
use datarecon_ai_community_e.Prelude.{
  ℕ, suc, ◌+◌, ◌*◌, ◌-◌, ◌/◌, ◌≡◌, ◌≢◌, ◌≤◌, refl, Bool, true, false, not, ◌&&◌, none, some, List,
  [], ◌∷◌, map, if◌then◌else◌, exists, length, leb, ltb, ◌==◌, arith, All,
}
use Prim.Native.Nat.{◌%◌}
use datarecon_ai_community_e.PyText.{
  Text, Unicode, text, text_eq, is_empty, strip, is_space, pos, negsuc,
}
use datarecon_ai_community_e.Engine.Pandas.{Row, count}
use datarecon_ai_community_e.Engine.Compare.{join_names}
use datarecon_ai_community_e.Patterns.Formats.{magnitude_of, second}
use datarecon_ai_community_e.Patterns.Floats.{Floats}
use datarecon_ai_community_e.Patterns.Series.{Cells, Series, truncation}
use datarecon_ai_community_e.Patterns.Detectors.{time_hint, timezone_hint}
use datarecon_ai_community_e.Patterns.Ranking.{Pattern, split_columns}
use datarecon_ai_community_e.Patterns.Ranking.Laws.{IsRanked}
use datarecon_ai_community_e.Patterns.Analysis.{MismatchFrame, analyse_mismatches, found_patterns}
use datarecon_ai_community_e.Patterns.Blocks.{
  Numbers, block, block_of, numeric_values, analyse_row_set,
}
use datarecon_ai_community_e.Patterns.Blocks.Laws.{
  CountsDistinct, IsFilled, analyse_row_set-IsFilled,
}
use datarecon_ai_community_e.Patterns.Laws.{
  IsPlainName, split_columns-join_names, time_hint_lem, analyse_mismatches-IsRanked,
}

abbrev ascii : Unicode
ascii = record { fold = λ c. (if leb 65 c && leb c 90 then c + 32 else c) ∷ []; digit = λ c. none }

abbrev greatest : List ℕ → ℕ
greatest [] = 0
greatest (x ∷ xs) = let later = greatest xs in if ltb later x then x else later

-- Whole numbers in the place of floats.
abbrev whole : Floats
whole = record {
  Float = ℕ;
  literal = λ m e. if e == 0 then m else 0;
  of_int = λ z. elim z [ pos n ↦ n | negsuc n ↦ 0 ];
  add = λ x y. x + y;
  subtract = λ x y. x - y;
  multiply = λ x y. x * y;
  divide = λ x y. x / y;
  magnitude = λ x. x;
  log10 = λ x. x;
  round_int = λ x. pos x;
  ceil_minus = λ x. pos 0;
  less = ltb;
  less_eq = leb;
  equal = λ x y. x == y;
  median = λ xs. elim xs [ [] ↦ 0 | x ∷ _ ↦ x ];
  largest = greatest;
  all_close = λ xs x rtol atol. not (exists (λ y. not (y == x)) xs);
  show_6g = λ x. [];
  show_10g = λ x. [];
}

-- The values of a list that has one value.
abbrev tally : List Text → List (Text × ℕ)
tally [] = []
tally (n ∷ ns) = (n, length (n ∷ ns)) ∷ []

abbrev texts : Cells whole
texts = record {
  Cell = Text;
  DType = Unit {0};
  is_na = is_empty;
  is_str = λ c. true;
  as_text = λ c. c;
  as_float = length;
  as_instant = length;
  is_string_dtype = λ d. true;
  is_object_dtype = λ d. false;
  is_numeric_dtype = λ d. false;
  is_bool_dtype = λ d. false;
  is_datetime_dtype = λ d. false;
  value_counts = tally;
}

abbrev names : Series texts
names = record { dtype = tt; cells = text "Anna" ∷ text "Berta" ∷ text "" ∷ text "Carla" ∷ [] }

abbrev cut_names : Series texts
cut_names = record { dtype = tt; cells = text "An" ∷ text "Be" ∷ text "D" ∷ text "Ca" ∷ [] }

abbrev cut_pattern : Pattern
cut_pattern = record {
  kind = truncation;
  headline = text "name is truncated to 2 characters in the target";
  detail =
      text
        "Every target value is the first 2 characters of the source — the target column is almost certainly narrower than the source.";
  column = some (text "name");
  affected_rows = 4;
  covered = 4;
  of_rows = 5;
}

-- values.nunique()
abbrev distinct_count : List ℕ → ℕ
distinct_count [] = 0
distinct_count (x ∷ xs) =
    let rest = distinct_count xs in if exists (λ y. y == x) xs then rest else suc rest

distinct_count_le : (xs : List ℕ) → distinct_count xs ≤ length xs
distinct_count_le [] = omega arith
distinct_count_le (x ∷ xs) = ground (arith, distinct_count_le xs)

distinct_count_lem : CountsDistinct distinct_count
distinct_count_lem [] h = refl
distinct_count_lem (x ∷ xs) h = ground (arith, distinct_count_le xs, distinct_count_lem xs)

-- Halves: the key 3 stands for 1.5.
abbrev halves : Numbers
halves = record { Cell = ℕ; unit = 2; to_numeric = λ c. some c; nunique = distinct_count }

abbrev keyed : ℕ → Row ℕ
keyed n = λ column. n

abbrev three_rows : List (Row ℕ)
three_rows = keyed 4 ∷ keyed 2 ∷ keyed 6 ∷ []

three_reported :
    analyse_row_set halves (text "id" ∷ []) three_rows (text "id" ∷ []) (text "source")
    ≡ block halves (text "id") (text "source") 3 1 3 ∷ []
unfolding analyse_row_set text_eq
three_reported = refl

analyse_row_set-IsFilled_example :
    (low high : ℕ) × (block halves (text "id") (text "source") 3 1 3
      ≡ block halves (text "id") (text "source") (length three_rows) low high)
    × (length (numeric_values halves (map (λ r. r (text "id")) three_rows)) ≡ length three_rows)
    × IsFilled 2 low high (numeric_values halves (map (λ r. r (text "id")) three_rows))
unfolding numeric_values
analyse_row_set-IsFilled_example =
    analyse_row_set-IsFilled halves (omega arith) distinct_count_lem (text "id" ∷ []) three_rows
      (text "id") (text "source") (block halves (text "id") (text "source") 3 1 3)
      (refl, (refl, (refl, tt))) three_reported

-- The keys 1, 2.5 and 3 are reported as the unbroken block from 1 to 3: only the first is tested.
gap_reported :
    block_of halves (text "id") (text "source") 3 (2 ∷ 5 ∷ 6 ∷ [])
    ≡ block halves (text "id") (text "source") 3 1 3 ∷ []
unfolding block_of
gap_reported = refl

abbrev two_columns : List Text
two_columns = text "amount" ∷ text "paid at" ∷ []

abbrev two_columns_plain : All IsPlainName two_columns
unfolding strip is_space
two_columns_plain = (
  record { no_comma = refl; trimmed = refl; not_empty = refl },
  (record { no_comma = refl; trimmed = refl; not_empty = refl }, tt),
)

split_columns-join_names_example : split_columns (join_names two_columns) ≡ two_columns
split_columns-join_names_example = split_columns-join_names two_columns two_columns_plain

-- One day, of 86,400,000,000 microseconds.
time_hint_lem_example :
    (magnitude_of (pos 86400000000) % (1800 * second) ≡ 0
      → time_hint texts (pos 86400000000) ≡ timezone_hint texts (pos 86400000000))
    × (magnitude_of (pos 86400000000) % (1800 * second) ≢ 0
        → time_hint texts (pos 86400000000) ≡ text "The same constant shift applies to every row.")
time_hint_lem_example = time_hint_lem texts (pos 86400000000)

abbrev listing : Text → Text → Row Text
listing source target = λ column.
    if text_eq column (text "MISMATCHED_COLUMNS")
    then text "name"
    else if text_eq column (text "name_source")
    then source
    else target

abbrev mismatches : MismatchFrame texts
mismatches = record {
  columns = text "id" ∷ text "name_source" ∷ text "name_target" ∷ text "MISMATCHED_COLUMNS" ∷ [];
  dtype = λ column. tt;
  rows = listing (text "Anna") (text "anna") ∷ listing (text "Bert") (text "BERT") ∷ [];
}

analyse_mismatches-IsRanked_example :
    IsRanked (analyse_mismatches texts ascii mismatches).patterns
    × ((t : Pattern → Bool)
        → count t (analyse_mismatches texts ascii mismatches).patterns
          ≡ count t (found_patterns texts ascii mismatches))
unfolding text_eq
analyse_mismatches-IsRanked_example = analyse_mismatches-IsRanked texts ascii mismatches refl

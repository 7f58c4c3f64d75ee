-- ===== src/Engine/Tests.antt =====
-- Tests of the comparison engine over frames of optional numbers, and its theorems at them.
use datarecon_ai_community_e.Prelude.{
  ℕ, ◌+◌, ◌≡◌, refl, Bool, true, false, not, ◌&&◌, Option, none, some, List, [], ◌∷◌, map,
  if◌then◌else◌, select, ◌==◌, arith, ok, ltb, leb,
}
use datarecon_ai_community_e.PyText.{Text, text, ascii, text_eq, casefold, pos}
use datarecon_ai_community_e.PyText.Dict.{get, set}
use datarecon_ai_community_e.Engine.Pandas.{
  Pandas, Laws, Frame, Row, MergedFrame, Merged, left_only, right_only, both, repeats, outer_join,
  map_merged, count,
}
use datarecon_ai_community_e.Engine.Config.{Config}
use datarecon_ai_community_e.Engine.Columns.{
  align_column_case, resolve_compare_columns, canonical, canonical_from, spelled, rename, new_name,
}
use datarecon_ai_community_e.Engine.Columns.Laws.{canonical-resolve}
use datarecon_ai_community_e.ColumnMatching.{resolve}
use datarecon_ai_community_e.Engine.Prepare.{prepare}
use datarecon_ai_community_e.Engine.Equality.{cell_equal, raw_equal, cell_equal_cases}
use datarecon_ai_community_e.Engine.Summary.{
  Summary, build_summary, pass, fail, status-pass, status-fail,
}
use datarecon_ai_community_e.Engine.Compare.{
  compare, ComparisonResult, split_merged, build_mismatch_frame, diff_chunks, join_names,
  mismatch_row, row_equal,
}
use datarecon_ai_community_e.Engine.Chunks.{build_mismatch_frame_lem}
use datarecon_ai_community_e.Engine.Totals.{AddsUp, compare-AddsUp}

abbrev pub Cell : Type 0
Cell = Option ℕ

abbrev cell_eq : Cell → Cell → Bool
cell_eq none none = true
cell_eq (some a) (some b) = a == b
cell_eq _ _ = false

abbrev pub DType : Type 0
DType = Unit {0}

abbrev sample_merge : List Text → Frame Cell DType → Frame Cell DType → MergedFrame Cell DType
sample_merge keys src tgt = record {
  source_dtype = src.dtype;
  target_dtype = tgt.dtype;
  rows = outer_join cell_eq keys src.rows tgt.rows;
}

-- Optional numbers, joined in the order of the left side.
abbrev pub numbers : Pandas
numbers = record {
  Cell = Cell;
  DType = DType;
  Tolerance = ℕ;
  is_na = λ c. elim c [ none ↦ true | some _ ↦ false ];
  is_numeric = λ _. true;
  is_float = λ _. true;
  is_text = λ _. false;
  equal = cell_eq;
  float_equal = cell_eq;
  close = λ tolerance a b. elim a [
    | none ↦ false
    | some x ↦ (elim b [ none ↦ false | some y ↦ leb x (y + tolerance) && leb y (x + tolerance) ])
  ];
  positive = λ tolerance. ltb 0 tolerance;
  str_strip = λ c. c;
  str_upper = λ c. c;
  key_equal = cell_eq;
  duplicated = λ keys rows. repeats cell_eq keys [] rows;
  widen = λ side src tgt row. row;
  merge = sample_merge;
}

cell_sym : (a b : Cell) → cell_eq a b ≡ true → cell_eq b a ≡ true
cell_sym none none h = refl
cell_sym (some a) (some b) h = ground arith
cell_sym none (some b) h = cc
cell_sym (some a) none h = cc

cell_trans : (a b c : Cell) → cell_eq a b ≡ true → cell_eq b c ≡ true → cell_eq a c ≡ true
cell_trans a b c h k = ground arith

same_merged : (m : Merged Cell) → map_merged (λ side row. row) m ≡ m
same_merged (left_only l) = refl
same_merged (right_only r) = refl
same_merged (both l r) = refl

same_count :
    (p : Merged Cell → Bool) (ms : List (Merged Cell))
    → count p ms ≡ count p (map (map_merged (λ side row. row)) ms)
same_count p [] = refl
same_count p (m ∷ ms) = ground (arith, same_merged m, same_count p ms)

pub numbers-Laws : Laws numbers
numbers-Laws = record {
  key_sym = cell_sym;
  key_trans = cell_trans;
  duplicated_lem = λ keys rows. refl;
  merge_rows = λ keys src tgt p. same_count p (outer_join cell_eq keys src.rows tgt.rows);
}

abbrev pub config : Config numbers
config = record {
  compare_columns = none;
  nulls_equal = true;
  trim_strings = false;
  ignore_case = false;
  float_tolerance = 0;
  drop_duplicate_keys = false;
  case_insensitive_columns = true;
  diff_chunk_size = pos 1;
}

-- A row with an id and an amount.
abbrev row : Text → ℕ → Cell → Row Cell
row key i amount name = if text_eq name key then some i else amount

abbrev pub source_frame : Frame Cell DType
source_frame = record {
  columns = text "ID" ∷ text "AMOUNT" ∷ [];
  dtype = λ _. tt;
  rows =
      row (text "ID") 1 (some 10)
      ∷ row (text "ID") 2 none
      ∷ row (text "ID") 3 (some 30)
      ∷ row (text "ID") 4 (some 40)
      ∷ [];
}

abbrev pub target_frame : Frame Cell DType
target_frame = record {
  columns = text "amount" ∷ text "id" ∷ [];
  dtype = λ _. tt;
  rows =
      row (text "id") 3 (some 31)
      ∷ row (text "id") 2 none
      ∷ row (text "id") 5 none
      ∷ row (text "id") 4 none
      ∷ row (text "id") 1 (some 10)
      ∷ [];
}

-- Two rows match, two differ, none is missing, one is extra; the chunks hold one row each.
abbrev pub expected : ComparisonResult Cell
expected = record {
  exact_match =
      ((text "ID", some 1) ∷ (text "AMOUNT", some 10) ∷ [])
      ∷ ((text "ID", some 2) ∷ (text "AMOUNT", none) ∷ [])
      ∷ [];
  mismatch =
      record {
        keys = (text "ID", some 3) ∷ [];
        values = (text "AMOUNT", some 30, some 31) ∷ [];
        mismatched_columns = text "AMOUNT";
      }
      ∷ record {
        keys = (text "ID", some 4) ∷ [];
        values = (text "AMOUNT", some 40, none) ∷ [];
        mismatched_columns = text "AMOUNT";
      }
      ∷ [];
  missing_in_target = [];
  extra_in_target = ((text "ID", some 5) ∷ (text "AMOUNT", none) ∷ []) ∷ [];
  summary = build_summary 4 5 2 2 0 1;
}

pub compared : compare ascii numbers (text "id" ∷ []) config source_frame target_frame ≡ ok expected
unfolding compare align_column_case canonical canonical_from spelled rename new_name
    resolve_compare_columns prepare split_merged build_mismatch_frame diff_chunks join_names
    cell_equal raw_equal get set text_eq casefold
compared = refl

compare-AddsUp_example : AddsUp expected.summary
compare-AddsUp_example =
    compare-AddsUp ascii numbers (text "id" ∷ []) config source_frame target_frame expected
      numbers-Laws compared

-- The rows of the two frames that share a key, as aligned.
abbrev merged_frame : MergedFrame Cell DType
merged_frame = sample_merge (text "ID" ∷ []) source_frame target_frame

abbrev amounts : List Text
amounts = text "AMOUNT" ∷ []

abbrev pair : Row Cell × Row Cell
pair = (row (text "ID") 3 (some 30), row (text "ID") 3 (some 31))

build_mismatch_frame_lem_example :
    build_mismatch_frame numbers config merged_frame
      (text "ID" ∷ [])
      amounts
      (select (λ p. not (row_equal numbers config merged_frame amounts p)) (pair ∷ pair ∷ []))
    ≡ map
        (mismatch_row numbers config merged_frame (text "ID" ∷ []) amounts)
        (select (λ p. not (row_equal numbers config merged_frame amounts p)) (pair ∷ pair ∷ []))
build_mismatch_frame_lem_example =
    build_mismatch_frame_lem numbers config merged_frame (text "ID" ∷ []) amounts (pair ∷ pair ∷ [])

-- One failed row of 2,500,000 goes unnoticed, two of them do not.
status-pass_example : Summary.status (build_summary 2500000 2500000 2499999 1 0 0) ≡ pass
status-pass_example =
    status-pass 2500000 2500000 2499999 1 0 0 (unfold build_summary in omega arith)

status-fail_example : Summary.status (build_summary 2500000 2500000 2499998 1 1 0) ≡ fail
status-fail_example =
    status-fail 2500000 2500000 2499998 1 1 0 (unfold build_summary in omega arith)

cell_equal_cases_example : cell_equal numbers config tt tt (some 1) none ≡ (
    if numbers.is_na (some 1)
    then (if numbers.is_na none then config.nulls_equal else false)
    else if numbers.is_na none
    then false
    else raw_equal numbers config tt tt (some 1) none)
cell_equal_cases_example = cell_equal_cases numbers config tt tt (some 1) none

canonical-resolve_example :
    get (casefold ascii (text "id")) (canonical ascii (text "Name" ∷ text "ID" ∷ []))
    ≡ resolve ascii (text "id") (text "Name" ∷ text "ID" ∷ [])
unfolding casefold text_eq
canonical-resolve_example =
    canonical-resolve ascii (text "id") (text "Name" ∷ text "ID" ∷ []) ((refl, tt), (tt, tt))

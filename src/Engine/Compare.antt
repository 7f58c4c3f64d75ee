-- ===== src/Engine/Compare.antt =====
-- `compare`, `_project_side` and `_build_mismatch_frame` of comparison_engine.py.
-- A merged row keeps the two rows that it joins, so `_suffixed`, which finds the column of one
-- side among the merged columns, is the choice of that row.
use datarecon_ai_community_e.Prelude.{
  ℕ, zero, suc, ◌+◌, Bool, true, false, not, ◌&&◌, List, [], ◌∷◌, ◌++◌, map, if◌then◌else◌, select,
  length, take, drop, ltb, Result, ok, ◌>>=◌, ◌>>◌, raise_if,
}
use datarecon_ai_community_e.PyText.{Text, Unicode, ℤ, pos, negsuc}
use datarecon_ai_community_e.Engine.Pandas.{
  Pandas, Frame, Row, source, target, Merged, left_only, right_only, both, MergedFrame,
}
use datarecon_ai_community_e.Engine.Config.{Config, EngineError, no_business_key}
use datarecon_ai_community_e.Engine.Columns.{align_column_case, resolve_compare_columns}
use datarecon_ai_community_e.Engine.Prepare.{prepare}
use datarecon_ai_community_e.Engine.Equality.{cell_equal}
use datarecon_ai_community_e.Engine.Summary.{Summary, build_summary}

module _ {C : Type 0} where
  -- merged.loc[ind == "left_only"] and its like
  abbrev pub lefts : List (Merged C) → List (Row C)
  lefts [] = []
  lefts (left_only l ∷ ms) = l ∷ lefts ms
  lefts (right_only r ∷ ms) = lefts ms
  lefts (both l r ∷ ms) = lefts ms

  abbrev pub rights : List (Merged C) → List (Row C)
  rights [] = []
  rights (left_only l ∷ ms) = rights ms
  rights (right_only r ∷ ms) = r ∷ rights ms
  rights (both l r ∷ ms) = rights ms

  abbrev pub pairs : List (Merged C) → List (Row C × Row C)
  pairs [] = []
  pairs (left_only l ∷ ms) = pairs ms
  pairs (right_only r ∷ ms) = pairs ms
  pairs (both l r ∷ ms) = (l, r) ∷ pairs ms

  -- One row of a result: the key columns, then the compared ones.
  abbrev pub project : List Text → List Text → Row C → List (Text × C)
  project keys cols row = map (λ c. (c, row c)) (keys ++ cols)

-- ",".join(names)
unfoldable pub join_names : List Text → Text
join_names [] = []
join_names (name ∷ []) = name
join_names (name ∷ next ∷ names) = name ++ b',' ∷ join_names (next ∷ names)

-- max(self.config.diff_chunk_size, 1)
abbrev pub chunk_step : ℤ → ℕ
chunk_step (pos zero) = 1
chunk_step (pos (suc n)) = suc n
chunk_step (negsuc n) = 1

pub record MismatchRow (C : Type 0) : Type 0 where
  pub keys : List (Text × C)
  pub values : List (Text × C × C)
  pub mismatched_columns : Text

pub record ComparisonResult (C : Type 0) : Type 0 where
  pub exact_match : List (List (Text × C))
  pub mismatch : List (MismatchRow C)
  pub missing_in_target : List (List (Text × C))
  pub extra_in_target : List (List (Text × C))
  pub summary : Summary

module _ (P : Pandas) (cfg : Config P) (merged : MergedFrame P.Cell P.DType) where
  abbrev pub column_equal : Row P.Cell × Row P.Cell → Text → Bool
  column_equal (l, r) c =
      cell_equal P cfg (merged.source_dtype c) (merged.target_dtype c) (l c) (r c)

  -- The row's entry of `equal_mask`.
  abbrev pub row_equal : List Text → Row P.Cell × Row P.Cell → Bool
  row_equal [] p = true
  row_equal (c ∷ cols) p = column_equal p c && row_equal cols p

  abbrev pub differing : List Text → Row P.Cell × Row P.Cell → List Text
  differing cols p = select (λ c. not (column_equal p c)) cols

  abbrev pub mismatch_row : List Text → List Text → Row P.Cell × Row P.Cell → MismatchRow P.Cell
  mismatch_row keys cols p = record {
    keys = map (λ k. (k, p.0 k)) keys;
    values = map (λ c. (c, p.0 c, p.1 c)) cols;
    mismatched_columns = join_names (differing cols p);
  }

  -- The loop over the chunks, from row `start` on.
  unfoldable pub diff_chunks :
      ℕ → ℕ → List Text → List Text → List (Row P.Cell × Row P.Cell) → ℕ → List (MismatchRow P.Cell)
  diff_chunks zero step keys cols rows start = []
  diff_chunks (suc fuel) step keys cols rows start =
      let rest = diff_chunks fuel step keys cols rows (start + step) in
      if ltb start (length rows)
      then map (mismatch_row keys cols) (take step (drop start rows)) ++ rest
      else []

  abbrev no_columns : List Text → Bool
  no_columns [] = true
  no_columns (_ ∷ _) = false

  -- With a step of at least one, there are at most as many chunks as rows.
  unfoldable pub build_mismatch_frame :
      List Text → List Text → List (Row P.Cell × Row P.Cell) → List (MismatchRow P.Cell)
  build_mismatch_frame keys cols rows =
      if no_columns cols
      then []
      else diff_chunks (length rows) (chunk_step cfg.diff_chunk_size) keys cols rows 0

module _ (P : Pandas) (cfg : Config P) (keys cols : List Text) (src tgt : Frame P.Cell P.DType)
    (merged : MergedFrame P.Cell P.DType) where
  -- The body of `compare` behind the merge.
  unfoldable pub split_merged : ComparisonResult P.Cell
  split_merged =
      let missing = map (project keys cols) (lefts merged.rows) in
      let extra = map (project keys cols) (rights merged.rows) in
      let equal = row_equal P cfg merged cols in
      let exact = map (λ p. project keys cols (p.0)) (select equal (pairs merged.rows)) in
      let unequal = select (λ p. not (equal p)) (pairs merged.rows) in
      record {
        exact_match = exact;
        mismatch = build_mismatch_frame P cfg merged keys cols unequal;
        missing_in_target = missing;
        extra_in_target = extra;
        summary =
            build_summary (length src.rows) (length tgt.rows) (length exact) (length unequal)
              (length missing) (length extra);
      }

abbrev pub no_keys : List Text → Bool
no_keys [] = true
no_keys (_ ∷ _) = false

-- ComparisonEngine(business_keys, config).compare(source, target)
unfoldable pub compare :
    (u : Unicode) (P : Pandas)
    → List Text
    → Config P
    → Frame P.Cell P.DType
    → Frame P.Cell P.DType
    → Result EngineError (ComparisonResult P.Cell)
compare u P business_keys config source_frame target_frame = do
  raise_if (no_keys business_keys) no_business_key
  let a = align_column_case u P business_keys config source_frame target_frame
  src ← prepare P a.config a.keys source_frame source
  tgt ← prepare P a.config a.keys a.target_frame target
  cols ← resolve_compare_columns a.keys a.config.compare_columns src tgt
  ok (split_merged P a.config a.keys cols src tgt (P.merge a.keys src tgt))

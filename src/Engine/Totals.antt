-- ===== src/Engine/Totals.antt =====
-- The figures of a comparison add up: each row of either side is accounted for once.
use datarecon_ai_community_e.Prelude.{
  suc, ◌+◌, ◌≡◌, refl, Bool, not, List, [], ◌∷◌, map, select, length, arith, Bool-cases, inl, inr,
  ap, ◌∙◌, Result, ok, OnOk, OnOk-bind, OnOk-eq, raise_if, ◌==◌,
}
use datarecon_ai_community_e.PyText.{Text, Unicode}
use datarecon_ai_community_e.Engine.Pandas.{
  Pandas, Laws, Frame, Side, source, target, Row, same_key, count, Merged, MergedFrame, left_only,
  right_only, both, outer_join, map_merged, repeats,
}
use datarecon_ai_community_e.Engine.Config.{Config, EngineError, no_business_key}
use datarecon_ai_community_e.Engine.Prepare.{
  prepare, settle_duplicates, if_keys_found, sum_mask, normalize,
}
use datarecon_ai_community_e.Engine.Compare.{
  lefts, rights, pairs, no_keys, split_merged, compare, ComparisonResult, row_equal,
}
use datarecon_ai_community_e.Engine.Columns.{mem_text, align_column_case, resolve_compare_columns}
use datarecon_ai_community_e.Engine.Summary.{Summary, build_summary}
use datarecon_ai_community_e.Engine.Keys.{
  NoRepeats, NoRepeats-unmasked, count_matches_le_one, same_sym,
}
use datarecon_ai_community_e.Engine.Join.{
  is_left, is_right, is_both, outer_join_left, outer_join_right,
}

-- The figures of one comparison, as a reader of the summary relies on them.
pub record AddsUp (s : Summary) : Type 0 where
  pub source_rows : s.rows_matched + s.rows_mismatched + s.rows_missing_in_target ≡ s.rows_source
  pub target_rows : s.rows_matched + s.rows_mismatched + s.rows_extra_in_target ≡ s.rows_target
  pub compared : s.rows_matched + s.rows_failed ≡ s.rows_compared

module _ {C : Type 0} where
  length-lefts : (ms : List (Merged C)) → length (lefts ms) ≡ count is_left ms
  length-lefts [] = refl
  length-lefts (left_only l ∷ ms) = ap suc (length-lefts ms)
  length-lefts (right_only r ∷ ms) = length-lefts ms
  length-lefts (both l r ∷ ms) = length-lefts ms

  length-rights : (ms : List (Merged C)) → length (rights ms) ≡ count is_right ms
  length-rights [] = refl
  length-rights (left_only l ∷ ms) = length-rights ms
  length-rights (right_only r ∷ ms) = ap suc (length-rights ms)
  length-rights (both l r ∷ ms) = length-rights ms

  length-pairs : (ms : List (Merged C)) → length (pairs ms) ≡ count is_both ms
  length-pairs [] = refl
  length-pairs (left_only l ∷ ms) = length-pairs ms
  length-pairs (right_only r ∷ ms) = length-pairs ms
  length-pairs (both l r ∷ ms) = ap suc (length-pairs ms)

  -- A test of the kind of a row alone counts the same after the cells are changed.
  count_kind :
      (p : Merged C → Bool) (f : Side → Row C → Row C)
      → ((m : Merged C) → p (map_merged f m) ≡ p m)
      → (ms : List (Merged C)) → count p (map (map_merged f) ms) ≡ count p ms
  count_kind p f h [] = refl
  count_kind p f h (m ∷ ms) = ground (arith, h m, count_kind p f h ms)

module _ {ℓ} {A : Type ℓ} where
  length-map {κ} : {B : Type κ} (f : A → B) (xs : List A) → length (map f xs) ≡ length xs
  length-map f [] = refl
  length-map f (x ∷ xs) = ap suc (length-map f xs)

  length-select-split :
      (p : A → Bool) (xs : List A)
      → length (select p xs) + length (select (λ x. not (p x)) xs) ≡ length xs
  length-select-split p [] = omega arith
  length-select-split p (x ∷ xs) = ground (arith, length-select-split p xs)

module _ (P : Pandas) (laws : Laws P) (cfg : Config P) (keys : List Text) where
  abbrev Unique : Frame P.Cell P.DType → Type 0
  Unique f = NoRepeats P.key_equal keys [] f.rows

  settle-Unique :
      (side : Side) (df : Frame P.Cell P.DType)
      → OnOk Unique (settle_duplicates P cfg side df (repeats P.key_equal keys [] df.rows))
  settle-Unique side df = elim (Bool-cases (sum_mask (repeats P.key_equal keys [] df.rows) == 0)) [
    | inl none ↦ rw none (ground arith)
    | inr some_repeat ↦ rw some_repeat (elim (Bool-cases cfg.drop_duplicate_keys) [
      | inl drop ↦ rw drop (NoRepeats-unmasked P.key_equal keys [] df.rows)
      | inr keep ↦ rw keep tt
    ])
  ]

  keys_found-OnOk :
      (Q : Frame P.Cell P.DType → Type 0) (side : Side) (missing : List Text)
      (r : Result EngineError (Frame P.Cell P.DType))
      → OnOk Q r
      → OnOk Q (if_keys_found P cfg side missing r)
  keys_found-OnOk Q side [] r h = h
  keys_found-OnOk Q side (k ∷ missing) r h = tt

  -- A side that passes the checks has each business key once.
  pub prepare-Unique :
      (df : Frame P.Cell P.DType) (side : Side) → OnOk Unique (prepare P cfg keys df side)
  unfolding prepare
  prepare-Unique df side =
      keys_found-OnOk Unique side (select (λ k. not (mem_text k df.columns)) keys)
        (settle_duplicates P cfg side (normalize P cfg df)
          (P.duplicated keys (normalize P cfg df).rows))
        (rw (laws.duplicated_lem keys (normalize P cfg df).rows)
          (settle-Unique side (normalize P cfg df)))

  module _ (src tgt : Frame P.Cell P.DType) where
    abbrev joined : List (Merged P.Cell)
    joined = outer_join P.key_equal keys src.rows tgt.rows

    abbrev merged : MergedFrame P.Cell P.DType
    merged = P.merge keys src tgt

    kind_count :
        (p : Merged P.Cell → Bool)
        → ((f : Side → Row P.Cell → Row P.Cell) (m : Merged P.Cell) → p (map_merged f m) ≡ p m)
        → count p merged.rows ≡ count p joined
    kind_count p h =
        laws.merge_rows keys src tgt p
        ∙ count_kind p (λ side. P.widen side src tgt) (h (λ side. P.widen side src tgt)) joined

    is_left_map :
        (f : Side → Row P.Cell → Row P.Cell) (m : Merged P.Cell)
        → is_left (map_merged f m) ≡ is_left m
    is_left_map f (left_only l) = refl
    is_left_map f (right_only l) = refl
    is_left_map f (both l r) = refl

    is_right_map :
        (f : Side → Row P.Cell → Row P.Cell) (m : Merged P.Cell)
        → is_right (map_merged f m) ≡ is_right m
    is_right_map f (left_only l) = refl
    is_right_map f (right_only l) = refl
    is_right_map f (both l r) = refl

    is_both_map :
        (f : Side → Row P.Cell → Row P.Cell) (m : Merged P.Cell)
        → is_both (map_merged f m) ≡ is_both m
    is_both_map f (left_only l) = refl
    is_both_map f (right_only l) = refl
    is_both_map f (both l r) = refl

    merged_left :
        Unique tgt → length (lefts merged.rows) + length (pairs merged.rows) ≡ length src.rows
    merged_left unique = omega (
      arith,
      length-lefts merged.rows,
      length-pairs merged.rows,
      kind_count is_left is_left_map,
      kind_count is_both is_both_map,
      outer_join_left P.key_equal keys src.rows tgt.rows (λ l.
          count_matches_le_one P.key_equal keys laws.key_sym laws.key_trans [] tgt.rows l unique),
    )

    same_comm : (a b : Row P.Cell) → same_key P.key_equal keys a b ≡ same_key P.key_equal keys b a
    same_comm a b = ground (
      arith,
      same_sym P.key_equal laws.key_sym keys a b,
      same_sym P.key_equal laws.key_sym keys b a,
    )

    count_comm :
        (r : Row P.Cell) (ls : List (Row P.Cell))
        → count (λ l. same_key P.key_equal keys l r) ls ≡ count (same_key P.key_equal keys r) ls
    count_comm r [] = refl
    count_comm r (l ∷ ls) = ground (arith, same_comm l r, count_comm r ls)

    merged_right :
        Unique src → length (rights merged.rows) + length (pairs merged.rows) ≡ length tgt.rows
    merged_right unique = omega (
      arith,
      length-rights merged.rows,
      length-pairs merged.rows,
      kind_count is_right is_right_map,
      kind_count is_both is_both_map,
      outer_join_right P.key_equal keys src.rows tgt.rows (λ r.
          rw (count_comm r src.rows) (
            count_matches_le_one P.key_equal keys laws.key_sym laws.key_trans [] src.rows r
              unique)),
    )

    split_merged-AddsUp :
        (cols : List Text)
        → Unique src
        → Unique tgt
        → AddsUp (split_merged P cfg keys cols src tgt merged).summary
    unfolding split_merged build_summary
    split_merged-AddsUp cols us ut =
        let equal = row_equal P cfg merged cols in
        let split = length-select-split equal (pairs merged.rows) in
        record {
          source_rows =
              rw (length-map _ (select equal (pairs merged.rows)), length-map _ (lefts merged.rows))
                (omega (arith, merged_left ut));
          target_rows =
              rw
                (length-map _ (select equal (pairs merged.rows)), length-map _ (rights merged.rows))
                (omega (arith, merged_right us));
          compared = omega arith;
        }

-- In the result of a comparison, each source row that was compared is matched, mismatched or
-- missing in the target, each target row is matched, mismatched or extra, and the compared rows are
-- the matched and the failed ones.
pub compare-AddsUp :
    (u : Unicode) (P : Pandas) (keys : List Text) (cfg : Config P) (src tgt : Frame P.Cell P.DType)
    (result : ComparisonResult P.Cell)
    → Laws P
    → compare u P keys cfg src tgt ≡ ok result
    → AddsUp result.summary
unfolding compare
compare-AddsUp u P keys cfg src tgt result laws done =
    let Q : ComparisonResult P.Cell → Type 0 = λ r. AddsUp r.summary in
    let a = align_column_case u P keys cfg src tgt in
    OnOk-eq Q (compare u P keys cfg src tgt)
      (OnOk-bind Q (raise_if (no_keys keys) no_business_key) _ λ _ _.
        OnOk-bind Q (prepare P a.config a.keys src source) _ λ s hs.
          OnOk-bind Q (prepare P a.config a.keys a.target_frame target) _ λ t ht.
            OnOk-bind Q (resolve_compare_columns a.keys a.config.compare_columns s t) _ λ cols _.
              split_merged-AddsUp P laws a.config a.keys s t cols
                (OnOk-eq _ _ (prepare-Unique P laws a.config a.keys src source) hs)
                (OnOk-eq _ _ (prepare-Unique P laws a.config a.keys a.target_frame target) ht))
      done

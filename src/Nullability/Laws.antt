-- ===== src/Nullability/Laws.antt =====
-- About `_analyze` of nullability_validation_service.py, and its percentages.
use datarecon_ai_community_e.Prelude.{
  ℕ, suc, ◌+◌, ◌-◌, ◌*◌, ◌≡◌, ◌≤◌, ◌<◌, refl, Bool, true, false, ◌&&◌, ◌||◌, List, [], ◌∷◌, map,
  select, if◌then◌else◌, exists, length, ◌==◌, ok, All, arith, round_ratio, round_ratio_near,
  Bool-cases, inl, inr, ap,
}
use mathlib.Core.Path.{subst}
use datarecon_ai_community_e.PyText.{Text, Unicode, text_eq, is_empty, pos}
use datarecon_ai_community_e.PyText.Laws.{text_eq-eq}
use datarecon_ai_community_e.Engine.Pandas.{Row, count}
use datarecon_ai_community_e.Nullability.{
  DuckDb, is_blank, is_sentinel, counts_of, SqlLaws, signed_ratio, ColumnStats, stats_of, gains,
  losses, completeness_score, analyze,
}

-- A part of a million parts, rounded, is at most a million.
round_ratio_le : (n d m : ℕ) → 0 < d → n ≤ m * d → round_ratio n d ≤ m
round_ratio_le n d m h l = grind (arith, round_ratio_near n d h)

signed_ratio-pos :
    (plus minus d : ℕ)
    → minus ≤ plus
    → signed_ratio plus minus d ≡ pos (round_ratio (plus - minus) d)
unfolding signed_ratio
signed_ratio-pos plus minus d h = ground arith

-- At most one of three tests is passed.
abbrev IsOneOf : Bool → Bool → Bool → Type 0
IsOneOf a b c = ((a && b) || (a && c) || (b && c)) ≡ false

add_three :
    (a b c : Bool) (x y z w : ℕ)
    → IsOneOf a b c
    → x + y + z ≡ w
    → (if a then suc x else x) + (if b then suc y else y) + (if c then suc z else z)
      ≡ (if a || b || c then suc w else w)
add_three a b c x y z w h e = ground arith

length_if :
    {A : Type 0} (b : Bool) (x : A) (xs : List A)
    → length (if b then x ∷ xs else xs) ≡ (if b then suc (length xs) else length xs)
length_if b x xs = ground arith

three_counts :
    {A : Type 0} (p q r : A → Bool)
    → ((x : A) → IsOneOf (p x) (q x) (r x))
    → (xs : List A) → count p xs + count q xs + count r xs ≡ count (λ x. p x || q x || r x) xs
three_counts p q r h [] = refl
three_counts p q r h (x ∷ xs) =
    rw
      (
        length_if (p x) x (select p xs),
        length_if (q x) x (select q xs),
        length_if (r x) x (select r xs),
        length_if (p x || q x || r x) x (select (λ y. p y || q y || r y) xs),
      )
      (add_three (p x) (q x) (r x) (count p xs) (count q xs) (count r xs) _ (h x)
        (three_counts p q r h xs))

count_le : {A : Type 0} (p : A → Bool) (xs : List A) → count p xs ≤ length xs
count_le p [] = omega arith
count_le p (x ∷ xs) = ground (arith, count_le p xs)

module _ (D : DuckDb) where
  -- The cell has no value, a blank one, or one of the sentinels.
  abbrev pub is_missing : List Text → D.Cell → Bool
  is_missing sentinels c = D.is_null c || is_blank D c || is_sentinel D sentinels c

  -- A text is no blank.
  abbrev pub IsSolid : Text → Type 0
  IsSolid s = is_empty (D.trim s) ≡ false

  not_listed :
      (sentinels : List Text) (t : Text)
      → All IsSolid sentinels
      → is_empty (D.trim t) ≡ true
      → exists (text_eq t) sentinels ≡ false
  not_listed [] t h e = refl
  not_listed (s ∷ sentinels) t h e = elim (Bool-cases (text_eq t s)) [
    | inl same ↦ absurd (let eq = text_eq-eq t s same in let solid = h.0 in cc)
    | inr other ↦ rw other (not_listed sentinels t h.1 e)
  ]

  blank_no_sentinel :
      (sentinels : List Text) (c : D.Cell)
      → All IsSolid sentinels
      → is_blank D c ≡ true
      → is_sentinel D sentinels c ≡ false
  blank_no_sentinel sentinels c h b =
      rw (not_listed sentinels (D.as_varchar c) h (ground arith)) (ground arith)

  disjoint :
      (sentinels : List Text) (c : D.Cell)
      → All IsSolid sentinels
      → IsOneOf (D.is_null c) (is_blank D c) (is_sentinel D sentinels c)
  disjoint sentinels c h = elim (Bool-cases (is_blank D c)) [
    | inl b ↦
        let no_sentinel : is_sentinel D sentinels c ≡ false = blank_no_sentinel sentinels c h b in
        ground arith
    | inr b ↦ ground arith
  ]

  -- The three counts of a column do not overlap.
  counts_lem :
      (sentinels : List Text) (column : Text) (rows : List (Row D.Cell))
      → All IsSolid sentinels
      → count (λ r. D.is_null (r column)) rows
          + count (λ r. is_blank D (r column)) rows
          + count (λ r. is_sentinel D sentinels (r column)) rows
        ≡ count (λ r. is_missing sentinels (r column)) rows
  counts_lem sentinels column rows h =
      three_counts (λ r. D.is_null (r column)) (λ r. is_blank D (r column))
        (λ r. is_sentinel D sentinels (r column)) (λ r. disjoint sentinels (r column) h) rows

  -- The statistics of a column that is counted right.
  abbrev pub complete_stats : List Text → List (Row D.Cell) → Text → ColumnStats
  complete_stats sentinels rows column =
      let missing = count (λ r. is_missing sentinels (r column)) rows in
      record {
        counts = counts_of D sentinels rows column;
        missing_count = missing;
        completeness_percent =
            pos (round_ratio (length rows * 1000000 - missing * 1000000) (length rows));
      }

  stats_of_lem :
      (sentinels : List Text) (rows : List (Row D.Cell)) (column : Text)
      → All IsSolid sentinels
      → stats_of (length rows) (counts_of D sentinels rows column)
        ≡ complete_stats sentinels rows column
  unfolding stats_of
  stats_of_lem sentinels rows column h =
      rw
        (
          counts_lem sentinels column rows h,
          signed_ratio-pos (length rows * 1000000)
              (count (λ r. is_missing sentinels (r column)) rows * 1000000) (length rows)
              (omega (arith, count_le (λ r. is_missing sentinels (r column)) rows)),
        )
        refl

  all_stats :
      (sentinels columns : List Text) (rows : List (Row D.Cell))
      → All IsSolid sentinels
      → map (stats_of (length rows)) (map (counts_of D sentinels rows) columns)
        ≡ map (complete_stats sentinels rows) columns
  all_stats sentinels [] rows h = refl
  all_stats sentinels (c ∷ columns) rows h =
      rw (stats_of_lem sentinels rows c h, all_stats sentinels columns rows h) refl

  gains_le :
      (sentinels columns : List Text) (rows : List (Row D.Cell))
      → 0 < length rows
      → (gains (map (complete_stats sentinels rows) columns) ≤ 1000000 * length columns)
        × (losses (map (complete_stats sentinels rows) columns) ≡ 0)
  gains_le sentinels [] rows h = (omega arith, refl)
  gains_le sentinels (c ∷ columns) rows h =
      let missing = count (λ r. is_missing sentinels (r c)) rows in
      let (rest, none_lost) = gains_le sentinels columns rows h in
      let part =
        round_ratio_le (length rows * 1000000 - missing * 1000000) (length rows) 1000000 h
          (omega arith) in
      (omega (arith, rest, part), none_lost)

  length-map : (f : Text → ColumnStats) (xs : List Text) → length (map f xs) ≡ length xs
  length-map f [] = refl
  length-map f (x ∷ xs) = ap suc (length-map f xs)

  -- The sum of the columns' shares of cells that are not missing.
  abbrev pub total_share : List Text → List (Row D.Cell) → List Text → ℕ
  total_share sentinels rows [] = 0
  total_share sentinels rows (column ∷ columns) =
      let missing = count (λ r. is_missing sentinels (r column)) rows in
      round_ratio (length rows * 1000000 - missing * 1000000) (length rows)
      + total_share sentinels rows columns

  gains_lem :
      (sentinels columns : List Text) (rows : List (Row D.Cell))
      → gains (map (complete_stats sentinels rows) columns) ≡ total_share sentinels rows columns
  gains_lem sentinels [] rows = refl
  gains_lem sentinels (c ∷ columns) rows = rw (gains_lem sentinels columns rows) refl

  -- The number is the mean of `count` numbers with the sum `total`, rounded to the nearest.
  abbrev pub IsMean : (total count n : ℕ) → Type 0
  IsMean total count n =
      (2 * total ≤ 2 * (n * count) + count) × (2 * (n * count) ≤ 2 * total + count)

  score_le :
      (sentinels : List Text) (c : Text) (columns : List Text) (rows : List (Row D.Cell))
      → 0 < length rows
      → (n : ℕ) × (completeness_score (map (complete_stats sentinels rows) (c ∷ columns)) ≡ pos n)
        × IsMean (total_share sentinels rows (c ∷ columns)) (length (c ∷ columns)) n
        × (n ≤ 1000000)
  unfolding completeness_score
  score_le sentinels c columns rows h =
      let stats = map (complete_stats sentinels rows) (c ∷ columns) in
      let (most, none_lost) = gains_le sentinels (c ∷ columns) rows h in
      let size = length-map (complete_stats sentinels rows) (c ∷ columns) in
      (
        round_ratio (gains stats - losses stats) (length stats),
        signed_ratio-pos (gains stats) (losses stats) (length stats) (omega (arith, none_lost)),
        subst
            (λ (k : ℕ).
              IsMean (total_share sentinels rows (c ∷ columns)) k
                (round_ratio (gains stats - losses stats) (length stats)))
            size
            (subst
              (λ (k : ℕ).
                IsMean k (length stats) (round_ratio (gains stats - losses stats) (length stats)))
              (omega (arith, none_lost, gains_lem sentinels (c ∷ columns) rows))
              (round_ratio_near (gains stats - losses stats) (length stats) (omega (arith, size)))),
        round_ratio_le (gains stats - losses stats) (length stats) 1000000 (omega (arith, size))
            (omega (arith, most, none_lost, size)),
      )

-- With data, columns and sentinels none of which is blank, the analysis of a frame gives every
-- column, in order, the number of its cells that are null, blank or a sentinel, each counted once,
-- and the rounded share of the others; the score is the mean of these shares, rounded to the
-- nearest, and lies between 0 and 100 %.
pub analyze_complete :
    (u : Unicode) (D : DuckDb) (missing_error : List Text → Text)
    → SqlLaws D
    → (rows : List (Row D.Cell)) (c : Text) (columns : List Text) (s : Text) (sentinels : List Text)
    → 0 < length rows
    → All (IsSolid D) (s ∷ sentinels)
    → let stats = map (complete_stats D (s ∷ sentinels) rows) (c ∷ columns) in
      (analyze u D missing_error rows (c ∷ columns) (s ∷ sentinels) ≡ ok (length rows, stats))
      × ((n : ℕ) × (completeness_score stats ≡ pos n)
          × IsMean D (total_share D (s ∷ sentinels) rows (c ∷ columns)) (length (c ∷ columns)) n
          × (n ≤ 1000000))
unfolding analyze
analyze_complete u D missing_error laws rows c columns s sentinels h solid =
    let some_rows : (length rows == 0) ≡ false = ground arith in
    (
      rw
          (
            laws.count_rows_lem rows,
            some_rows,
            laws.count_missing_lem (c ∷ columns) s sentinels rows,
            all_stats D (s ∷ sentinels) (c ∷ columns) rows solid,
          )
          refl,
      score_le D (s ∷ sentinels) c columns rows h,
    )

-- ===== src/Nullability/Tests.antt =====
-- Three names, one of them missing and one a sentinel.
use datarecon_ai_community_e.Prelude.{
  ℕ, ◌≡◌, ◌≤◌, ◌<◌, refl, Bool, true, false, none, some, Option, List, [], ◌∷◌, map, length, ok,
  err, All, Result, round_ratio, arith,
}
use datarecon_ai_community_e.PyText.{Text, ascii, text, text_eq, strip, is_space, pos, negsuc}
use datarecon_ai_community_e.Engine.Pandas.{Row}
use datarecon_ai_community_e.Nullability.{
  Counts, DuckDb, SqlLaws, counts_of, analyze, completeness_score, stats_of, signed_ratio,
}
use datarecon_ai_community_e.Nullability.Laws.{
  IsSolid, IsMean, total_share, complete_stats, analyze_complete,
}

abbrev is_none : Option Text → Bool
is_none none = true
is_none (some t) = false

abbrev varchar : Option Text → Text
varchar none = []
varchar (some t) = t

abbrev cells : DuckDb
cells = record {
  Cell = Option Text;
  is_null = is_none;
  as_varchar = varchar;
  trim = strip;
  count_rows = length;
  count_missing = λ columns sentinels rows. err [];
}

abbrev answer : List Text → List Text → List (Row (Option Text)) → Result Text (List Counts)
answer columns [] rows = err (text "Parser Error: syntax error")
answer columns (s ∷ sentinels) rows = ok (map (counts_of cells (s ∷ sentinels) rows) columns)

abbrev duck : DuckDb
duck = record cells { count_missing = answer }

duck_laws : SqlLaws duck
duck_laws = record {
  count_rows_lem = λ rows. refl;
  count_missing_lem = λ columns s sentinels rows. refl;
}

abbrev named : Option Text → Row (Option Text)
named t = λ column. t

abbrev three_names : List (Row (Option Text))
three_names = named (some (text "Anna")) ∷ named none ∷ named (some (text "N/A")) ∷ []

abbrev marks : List Text
marks = text "N/A" ∷ text "-" ∷ []

abbrev marks_solid : All (IsSolid duck) marks
unfolding strip is_space
marks_solid = (refl, (refl, tt))

some_names : 0 < length three_names
some_names = omega arith

analyze_complete_example :
    (analyze ascii duck (λ missing. text "missing") three_names (text "name" ∷ []) marks
      ≡ ok (3, map (complete_stats duck marks three_names) (text "name" ∷ [])))
    × ((n : ℕ) × (completeness_score
            (map (complete_stats duck marks three_names) (text "name" ∷ []))
          ≡ pos n)
        × IsMean duck (total_share duck marks three_names (text "name" ∷ [])) 1 n
        × (n ≤ 1000000))
analyze_complete_example =
    analyze_complete ascii duck (λ missing. text "missing") duck_laws three_names (text "name") []
      (text "N/A") (text "-" ∷ []) some_names marks_solid

-- With a blank among the sentinels, a blank cell is missing twice, and less than nothing is complete.
blank_counted_twice :
    (stats_of 1 (
      counts_of duck
        (text "" ∷ [])
        (named (some (text "")) ∷ [])
        (text "name"))).completeness_percent
    ≡ negsuc 999999
unfolding stats_of signed_ratio strip text_eq round_ratio
blank_counted_twice = refl

-- ===== src/ColumnMatching/Tests.antt =====
-- Tests of column matching, and its theorems at concrete inputs.
use datarecon_ai_community_e.Prelude.{◌≡◌, refl, some, List, [], ◌∷◌, map}
use datarecon_ai_community_e.PyText.{Text, text, ascii, casefold, text_eq}
use datarecon_ai_community_e.ColumnMatching.{resolve, align_to_source}
use datarecon_ai_community_e.ColumnMatching.Laws.{
  first_match, resolve-first_match, in_spelling_of, align_to_source_lem, resolved_names,
}

abbrev columns : List Text
columns = text "ID" ∷ text "Name" ∷ text "id" ∷ []

abbrev names : List Text
names = text "name" ∷ text "City" ∷ text "id" ∷ []

-- The left-most of two spellings wins.
left_most : first_match ascii (text "id") columns ≡ some (text "ID")
unfolding casefold text_eq
left_most = refl

resolve-first_match_example :
    resolve ascii (text "id") columns ≡ first_match ascii (text "id") columns
resolve-first_match_example = resolve-first_match ascii (text "id") columns

align_to_source_lem_example :
    align_to_source ascii columns names ≡ map (in_spelling_of ascii columns) names
align_to_source_lem_example = align_to_source_lem ascii columns names

resolved_of_names : resolved_names ascii columns names ≡ text "Name" ∷ text "ID" ∷ []
unfolding casefold text_eq
resolved_of_names = refl

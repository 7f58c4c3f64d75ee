-- ===== src/SqlGeneration/Bulk.antt =====
-- The lists of table names of sql_generation_service.py.
pub mod Laws
use datarecon_ai_community_e.Prelude.{
  ℕ, Bool, true, false, not, ◌&&◌, ◌||◌, List, [], ◌∷◌, ◌++◌, map, if◌then◌else◌, select, exists,
  ◌==◌,
}
use datarecon_ai_community_e.PyText.{Text, Unicode, text_eq, strip, casefold, is_empty}

abbrev pub is_separator : ℕ → Bool
is_separator c = (c == b',') || (c == 10) || (c == b';')

abbrev pub prepend : ℕ → List Text → List Text
prepend c [] = (c ∷ []) ∷ []
prepend c (part ∷ parts) = (c ∷ part) ∷ parts

-- re.split(r"[,\n;]+", raw); `after` is whether a separator stands before.
unfoldable pub split_runs : (after : Bool) → Text → List Text
split_runs after [] = [] ∷ []
split_runs after (c ∷ s) = elim (is_separator c) [
  | false ↦ prepend c (split_runs false s)
  | true ↦ elim after [ true ↦ split_runs true s | false ↦ [] ∷ split_runs true s ]
]

unfoldable pub parse_table_list : Text → List Text
parse_table_list raw = select (λ part. not (is_empty part)) (map strip (split_runs false raw))

module _ (u : Unicode) where
  abbrev pub is_seen : Text → List Text → Bool
  is_seen name seen = exists (text_eq (casefold u name)) seen

  -- The loop of `generate_bulk` over the names.
  unfoldable pub ordered_from : (seen : List Text) → List Text → List Text
  ordered_from seen [] = []
  ordered_from seen (raw ∷ tables) =
      let name = strip raw in
      elim (not (is_empty name) && not (is_seen name seen)) [
        | true ↦ name ∷ ordered_from (casefold u name ∷ seen) tables
        | false ↦ ordered_from seen tables
      ]

  unfoldable pub ordered : List Text → List Text
  ordered tables = ordered_from [] tables

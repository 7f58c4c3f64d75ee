-- ===== src/ColumnMatching.antt =====
-- datarecon/core/column_matching.py: column names matched without regard to case.
-- `columns` stands for the names of a frame's columns, which `str` leaves as they are.
pub mod Laws
mod Tests
use datarecon_ai_community_e.Prelude.{
  Bool, not, ◌&&◌, Option, none, some, List, [], ◌∷◌, ◌++◌, if◌then◌else◌,
}
use datarecon_ai_community_e.PyText.{Text, Unicode, text_eq, casefold}
use datarecon_ai_community_e.PyText.Dict.{Dict, get, set_default}

module _ (u : Unicode) where
  -- The loop of `canonical_map`, with the mapping built so far.
  unfoldable pub add_columns : Dict Text → List Text → Dict Text
  add_columns mapping [] = mapping
  add_columns mapping (column ∷ columns) =
      add_columns (set_default (casefold u column) column mapping) columns

  unfoldable pub canonical_map : List Text → Dict Text
  canonical_map columns = add_columns [] columns

  unfoldable pub resolve : Text → List Text → Option Text
  resolve name columns = get (casefold u name) (canonical_map columns)

  -- The spelling that `canonical` gives a column of the target, if it is another one.
  abbrev pub renamed : Dict Text → Text → Text
  renamed canonical c = elim (get (casefold u c) canonical) [
    | none ↦ c
    | some actual ↦ if text_eq c actual then c else actual
  ]

  unfoldable pub rename_all : Dict Text → List Text → List Text
  rename_all canonical [] = []
  rename_all canonical (c ∷ columns) = renamed canonical c ∷ rename_all canonical columns

  -- `align_to_source`, on the names of the columns of both frames.
  unfoldable pub align_to_source : List Text → List Text → List Text
  align_to_source source target = rename_all (canonical_map source) target

  -- The loop of `resolve_all`.
  unfoldable pub resolve_names :
      Dict Text → List Text → List Text → List Text → List Text × List Text
  resolve_names mapping resolved missing [] = (resolved, missing)
  resolve_names mapping resolved missing (name ∷ names) = elim (get (casefold u name) mapping) [
    | none ↦ resolve_names mapping resolved (missing ++ name ∷ []) names
    | some actual ↦ resolve_names mapping (resolved ++ actual ∷ []) missing names
  ]

  unfoldable pub resolve_all : List Text → List Text → List Text × List Text
  resolve_all names columns = resolve_names (canonical_map columns) [] [] names

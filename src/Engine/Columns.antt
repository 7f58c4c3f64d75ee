-- ===== src/Engine/Columns.antt =====
-- `_align_column_case` and `_resolve_compare_columns` of comparison_engine.py.
-- A dict comprehension sets its keys in turn, so of several spellings of one name the last stays.
pub mod Laws
use datarecon_ai_community_e.Prelude.{
  Bool, true, false, not, ◌&&◌, ◌||◌, Option, none, some, List, [], ◌∷◌, ◌++◌, map, if◌then◌else◌,
  select, exists, Result, ok, err,
}
use datarecon_ai_community_e.PyText.{Text, Unicode, text_eq, casefold}
use datarecon_ai_community_e.PyText.Dict.{Dict, get, set}
use datarecon_ai_community_e.Engine.Pandas.{Pandas, Frame, Row}
use datarecon_ai_community_e.Engine.Config.{Config, EngineError, columns_missing}

-- name in names
abbrev pub mem_text : Text → List Text → Bool
mem_text name names = exists (λ n. text_eq n name) names

abbrev has_columns : List Text → Bool
has_columns [] = false
has_columns (_ ∷ _) = true

-- `if missing_src or missing_tgt: raise`, else the columns
abbrev pub if_none_missing : List Text → List Text → List Text → Result EngineError (List Text)
if_none_missing missing_src missing_tgt cols =
    if has_columns missing_src || has_columns missing_tgt
    then err (columns_missing missing_src missing_tgt)
    else ok cols

module _ (u : Unicode) where
  -- {str(c).casefold(): str(c) for c in columns}, continuing a dict
  unfoldable pub canonical_from : Dict Text → List Text → Dict Text
  canonical_from d [] = d
  canonical_from d (c ∷ columns) = canonical_from (set (casefold u c) c d) columns

  unfoldable pub canonical : List Text → Dict Text
  canonical columns = canonical_from [] columns

  -- canonical.get(str(k).casefold(), k)
  unfoldable pub spelled : Dict Text → Text → Text
  spelled d k = elim (get (casefold u k) d) [ none ↦ k | some actual ↦ actual ]

  -- The renames map a column to its canonical spelling where that is another one.
  unfoldable pub new_name : Dict Text → Text → Text
  new_name d c = elim (get (casefold u c) d) [
    | none ↦ c
    | some actual ↦ if not (text_eq c actual) then actual else c
  ]

  -- The column of the old frame that bears the new name.
  abbrev old_name : Dict Text → List Text → Text → Text
  old_name d [] name = name
  old_name d (c ∷ columns) name =
      let rest = old_name d columns name in if text_eq (new_name d c) name then c else rest

  -- target.rename(columns=renames)
  unfoldable pub rename : {C D : Type 0} → Dict Text → Frame C D → Frame C D
  rename d f = record {
    columns = map (new_name d) f.columns;
    dtype = λ name. f.dtype (old_name d f.columns name);
    rows = map (λ row name. row (old_name d f.columns name)) f.rows;
  }

  module _ (P : Pandas) where
    pub record Aligned : Type 0 where
      pub target_frame : Frame P.Cell P.DType
      pub keys : List Text
      pub config : Config P

    -- The engine's keys and configuration are replaced too.
    unfoldable pub align_column_case :
        List Text → Config P → Frame P.Cell P.DType → Frame P.Cell P.DType → Aligned
    align_column_case keys cfg src tgt =
        if not cfg.case_insensitive_columns
        then record { target_frame = tgt; keys = keys; config = cfg }
        else (let d = canonical src.columns in
            record {
              target_frame = rename d tgt;
              keys = map (spelled d) keys;
              config = record cfg {
                compare_columns = elim cfg.compare_columns [
                  | none ↦ none
                  | some cols ↦ some (map (spelled d) cols)
                ];
              };
            })

module _ {C D : Type 0} where
  unfoldable pub resolve_compare_columns :
      List Text → Option (List Text) → Frame C D → Frame C D → Result EngineError (List Text)
  resolve_compare_columns keys (some configured) src tgt =
      let cols = select (λ c. not (mem_text c keys)) configured in
      if_none_missing (select (λ c. not (mem_text c src.columns)) cols)
        (select (λ c. not (mem_text c tgt.columns)) cols) cols
  resolve_compare_columns keys none src tgt =
      ok (select (λ c. mem_text c tgt.columns && not (mem_text c keys)) src.columns)

-- ===== src/Engine/Prepare.antt =====
-- `_prepare` of comparison_engine.py: the checks and the normalisation of one side.
use datarecon_ai_community_e.Prelude.{
  ℕ, ◌+◌, Bool, not, ◌&&◌, ◌||◌, List, [], ◌∷◌, map, if◌then◌else◌, select, Result, ok, err, ◌==◌,
}
use datarecon_ai_community_e.PyText.{Text}
use datarecon_ai_community_e.Engine.Pandas.{Pandas, Frame, Side}
use datarecon_ai_community_e.Engine.Config.{
  Config, EngineError, keys_not_found, duplicate_business_key,
}
use datarecon_ai_community_e.Engine.Columns.{mem_text}

-- int(mask.sum())
abbrev pub sum_mask : List Bool → ℕ
sum_mask [] = 0
sum_mask (b ∷ mask) = (if b then 1 else 0) + sum_mask mask

-- rows.loc[~mask]
abbrev pub unmasked {ℓ} : {A : Type ℓ} → List Bool → List A → List A
unmasked [] rows = rows
unmasked (b ∷ mask) [] = []
unmasked (b ∷ mask) (r ∷ rows) = let rest = unmasked mask rows in if b then rest else r ∷ rest

module _ (P : Pandas) (cfg : Config P) where
  abbrev trimmed : P.Cell → P.Cell
  trimmed c = if cfg.trim_strings then P.str_strip c else c

  abbrev folded : P.Cell → P.Cell
  folded c = if cfg.ignore_case then P.str_upper c else c

  -- Text columns are trimmed, then put in upper case, as the configuration asks.
  unfoldable pub normalize : Frame P.Cell P.DType → Frame P.Cell P.DType
  normalize df =
      if cfg.trim_strings || cfg.ignore_case
      then record df {
        rows =
            map
              (λ row col.
                if mem_text col df.columns && P.is_text (df.dtype col)
                then folded (trimmed (row col))
                else row col)
              df.rows;
      }
      else df

  -- `if dup_count:` the duplicates are dropped or refused
  abbrev pub settle_duplicates :
      Side → Frame P.Cell P.DType → List Bool → Result EngineError (Frame P.Cell P.DType)
  settle_duplicates side out dup_mask =
      if sum_mask dup_mask == 0
      then ok out
      else if cfg.drop_duplicate_keys
      then ok (record out { rows = unmasked dup_mask out.rows })
      else err (duplicate_business_key side (sum_mask dup_mask))

  abbrev pub if_keys_found :
      Side
      → List Text
      → Result EngineError (Frame P.Cell P.DType)
      → Result EngineError (Frame P.Cell P.DType)
  if_keys_found side [] rest = rest
  if_keys_found side (k ∷ missing) rest = err (keys_not_found side (k ∷ missing))

  unfoldable pub prepare :
      List Text → Frame P.Cell P.DType → Side → Result EngineError (Frame P.Cell P.DType)
  unfolding normalize
  prepare keys df side =
      if_keys_found side (select (λ k. not (mem_text k df.columns)) keys)
        (settle_duplicates side (normalize df) (P.duplicated keys (normalize df).rows))

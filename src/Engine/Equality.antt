-- ===== src/Engine/Equality.antt =====
-- `_column_equal` of comparison_engine.py, at one pair of aligned cells.
use datarecon_ai_community_e.Prelude.{◌≡◌, Bool, false, not, ◌&&◌, ◌||◌, if◌then◌else◌, arith}
use datarecon_ai_community_e.Engine.Pandas.{Pandas}
use datarecon_ai_community_e.Engine.Config.{Config}

module _ (P : Pandas) (cfg : Config P) where
  -- One of the columns holds floats, and both hold numbers.
  abbrev pub float_path : P.DType → P.DType → Bool
  float_path s t = (P.is_float s || P.is_float t) && (P.is_numeric s && P.is_numeric t)

  -- The comparison before missing values are regarded.
  unfoldable pub raw_equal : P.DType → P.DType → P.Cell → P.Cell → Bool
  raw_equal s_type t_type s t =
      if float_path s_type t_type
      then (if P.positive cfg.float_tolerance
          then P.close cfg.float_tolerance s t
          else P.float_equal s t)
      else P.equal s t

  unfoldable pub cell_equal : P.DType → P.DType → P.Cell → P.Cell → Bool
  cell_equal s_type t_type s t =
      let eq = raw_equal s_type t_type s t && not (P.is_na s || P.is_na t) in
      if cfg.nulls_equal then eq || (P.is_na s && P.is_na t) else eq

  -- On every path of types: two missing values are equal exactly if the configuration says so, a
  -- missing and a present one never are, and of two present ones the comparison itself decides.
  pub cell_equal_cases :
      (s_type t_type : P.DType) (s t : P.Cell)
      → cell_equal s_type t_type s t ≡ (
          if P.is_na s
          then (if P.is_na t then cfg.nulls_equal else false)
          else if P.is_na t
          then false
          else raw_equal s_type t_type s t)
  unfolding cell_equal
  cell_equal_cases s_type t_type s t = ground arith

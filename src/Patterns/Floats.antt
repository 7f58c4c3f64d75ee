-- ===== src/Patterns/Floats.antt =====
-- The floats of mismatch_patterns.py and how they are written. Python's and NumPy's operations are
-- a record of functions.
use datarecon_ai_community_e.Prelude.{
  ℕ, suc, Bool, false, not, ◌&&◌, ◌||◌, List, ◌∷◌, ◌++◌, if◌then◌else◌, ltb, ◌==◌,
}
use datarecon_ai_community_e.PyText.{Text, text, ℤ, pos, negsuc}
use datarecon_ai_community_e.Patterns.Formats.{grouped, shown}

pub record Floats : Type 1 where
  pub Float : Type 0
  -- m * 10 ** -e
  pub literal : ℕ → ℕ → Float
  pub of_int : ℤ → Float
  pub add : Float → Float → Float
  pub subtract : Float → Float → Float
  pub multiply : Float → Float → Float
  pub divide : Float → Float → Float
  pub magnitude : Float → Float
  pub log10 : Float → Float
  pub round_int : Float → ℤ
  -- int(np.ceil(-x))
  pub ceil_minus : Float → ℤ
  pub less : Float → Float → Bool
  pub less_eq : Float → Float → Bool
  pub equal : Float → Float → Bool
  -- np.median, and the greatest of some values
  pub median : List Float → Float
  pub largest : List Float → Float
  -- np.allclose(xs, x, rtol, atol)
  pub all_close : List Float → Float → Float → Float → Bool
  -- f"{x:,.6g}", f"{x:.10g}"
  pub show_6g : Float → Text
  pub show_10g : Float → Text

-- f"{n:,}" of an int
abbrev pub grouped_int : ℤ → Text
grouped_int (pos n) = grouped n
grouped_int (negsuc n) = b'-' ∷ grouped (suc n)

module _ (F : Floats) where
  open F use {
    Float, literal, of_int, subtract, divide, magnitude, log10, round_int, ceil_minus, less,
    less_eq, equal, show_6g,
  }

  abbrev pub is_near_int : Float → Bool
  is_near_int x = less (magnitude (subtract x (of_int (round_int x)))) (literal 1 9)

  -- _format_number
  unfoldable pub format_number : Float → Text
  format_number value = if is_near_int value then grouped_int (round_int value) else show_6g value

  -- _format_factor
  unfoldable pub format_factor : Float → Text
  unfolding format_number
  format_factor factor =
      let inverse = divide (literal 1 0) factor in
      if less_eq (literal 1 0) (magnitude factor) || equal factor (literal 0 0)
      then format_number factor ++ text "x"
      else if is_near_int inverse
      then text "1/" ++ format_number inverse ++ text " (" ++ format_number factor ++ text "x)"
      else format_number factor ++ text "x"

  abbrev is_zero_int : ℤ → Bool
  is_zero_int (pos n) = n == 0
  is_zero_int (negsuc n) = false

  -- _is_power_of_ten
  unfoldable pub is_power_of_ten : Float → Bool
  is_power_of_ten factor =
      let exponent = log10 factor in
      if less_eq factor (literal 0 0)
      then false
      else is_near_int exponent && not (is_zero_int (round_int exponent))

  -- max(1, n)
  abbrev at_least_one : ℤ → ℕ
  at_least_one (pos n) = if ltb n 1 then 1 else n
  at_least_one (negsuc n) = 1

  abbrev ordinal : ℕ → Text
  ordinal n =
      if n == 1
      then text "1st"
      else if n == 2
      then text "2nd"
      else if n == 3
      then text "3rd"
      else shown n ++ text "th"

  -- _decimal_places
  unfoldable pub decimal_places : Float → Text
  decimal_places largest = ordinal (at_least_one (ceil_minus (log10 largest)))

-- ===== src/Patterns/Formats.antt =====
-- The numbers and durations in the texts of mismatch_patterns.py.
use datarecon_ai_community_e.Prelude.{
  ℕ, suc, ◌+◌, ◌*◌, ◌/◌, ◌%◌, List, [], ◌∷◌, ◌++◌, if◌then◌else◌, length, ltb, ◌==◌,
}
use datarecon_ai_community_e.PyText.{Text, text, ℤ, pos, negsuc}
use datarecon_ai_community_e.Runs.Batches.{digits}

-- f"{n}"
abbrev pub shown : ℕ → Text
shown n = digits (n + 1) n

-- Commas in front of every third digit from the right, but the first one.
unfoldable pub with_commas : Text → Text
with_commas [] = []
with_commas (d ∷ ds) =
    let rest = with_commas ds in
    if 0 == length ds then d ∷ rest else if length ds % 3 == 0 then d ∷ b',' ∷ rest else d ∷ rest

-- f"{n:,}"
unfoldable pub grouped : ℕ → Text
unfolding with_commas
grouped n = with_commas (shown n)

-- f"{x}" of a float with one decimal, given in tenths
unfoldable pub show_tenths : ℕ → Text
show_tenths n = shown (n / 10) ++ b'.' ∷ shown (n % 10)

-- ", ".join(f"{c} ({n:,})" for c, n in counts)
unfoldable pub counted_columns : List (Text × ℕ) → Text
unfolding grouped
counted_columns [] = []
counted_columns ((c, n) ∷ []) = c ++ text " (" ++ grouped n ++ text ")"
counted_columns ((c, n) ∷ next ∷ counts) =
    c ++ text " (" ++ grouped n ++ text "), " ++ counted_columns (next ∷ counts)

-- abs(delta), in microseconds
abbrev pub magnitude_of : ℤ → ℕ
magnitude_of (pos n) = n
magnitude_of (negsuc n) = suc n

abbrev pub sign_of : ℤ → Text
sign_of (pos n) = text "+"
sign_of (negsuc n) = text "-"

abbrev pub second : ℕ
second = 1000000

-- f"{n:02d}"
abbrev pub two_digits : ℕ → Text
two_digits n = if ltb n 10 then b'0' ∷ shown n else shown n

-- _format_duration
unfoldable pub format_duration : ℤ → Text
format_duration delta =
    let micros = magnitude_of delta in
    let hours = micros / (3600 * second) in
    let minutes = micros % (3600 * second) / (60 * second) in
    if micros % (86400 * second) == 0
    then sign_of delta ++ shown (micros / (86400 * second)) ++ text " day(s)"
    else if minutes == 0
    then sign_of delta ++ shown hours ++ text " hour(s)"
    else sign_of delta ++ shown hours ++ text "h" ++ two_digits minutes ++ text "m"

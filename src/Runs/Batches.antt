-- ===== src/Runs/Batches.antt =====
-- `sanitize_export_name` and `batch_frame` of datarecon/application/services/reporting_service.py.
-- A frame is the list of its rows.
pub mod Laws
use datarecon_ai_community_e.Prelude.{
  ℕ, zero, suc, ◌+◌, ◌-◌, ◌/◌, ◌%◌, Bool, true, false, not, ◌&&◌, ◌||◌, List, [], ◌∷◌, ◌++◌,
  if◌then◌else◌, length, take, drop, ltb, leb, ◌==◌, Result, ok, err,
}
use datarecon_ai_community_e.PyText.{Text, text, is_empty, strip_left, strip_right}

-- [A-Za-z0-9._-]
abbrev pub is_safe : ℕ → Bool
is_safe c =
    (leb b'A' c && leb c b'Z')
    || (leb b'a' c && leb c b'z')
    || (leb b'0' c && leb c b'9')
    || (c == b'.')
    || (c == b'_')
    || (c == b'-')

-- _UNSAFE_FILENAME_CHARS.sub("_", name), inside a run of unsafe characters or not
unfoldable pub replace_unsafe : Bool → Text → Text
replace_unsafe inside [] = []
replace_unsafe inside (c ∷ s) =
    let other = c ∷ replace_unsafe false s in
    let more = replace_unsafe true s in
    if is_safe c then other else if inside then more else b'_' ∷ more

-- cleaned or "export"
abbrev pub or_export : Text → Text
or_export [] = text "export"
or_export (c ∷ s) = c ∷ s

abbrev pub is_underscore : ℕ → Bool
is_underscore c = c == b'_'

unfoldable pub sanitize_export_name : Text → Text
sanitize_export_name name =
    or_export (strip_right is_underscore (strip_left is_underscore (replace_unsafe false name)))

-- str(n); n has at most n + 1 digits
unfoldable pub digits : ℕ → ℕ → Text
digits zero n = []
digits (suc fuel) n =
    let front = digits fuel (n / 10) in
    if ltb n 10 then (b'0' + n) ∷ [] else front ++ (b'0' + n % 10) ∷ []

pub data ReportingError : Type 0 where
  batch_rows_too_small : ReportingError

pub record ReportBatch (Row : Type 0) : Type 0 where
  pub name : Text
  pub number : ℕ
  pub total : ℕ
  pub first_row : ℕ
  pub last_row : ℕ
  pub dataframe : List Row

abbrev smaller : ℕ → ℕ → ℕ
smaller a b = if leb a b then a else b

module _ {Row : Type 0} where
  -- The comprehension over the starts, from the batch with the given number on.
  unfoldable pub batches_from : ℕ → Text → ℕ → ℕ → List Row → ℕ → ℕ → List (ReportBatch Row)
  batches_from zero name batch_rows total df number start = []
  batches_from (suc fuel) name batch_rows total df number start =
      let rest = batches_from fuel name batch_rows total df (number + 1) (start + batch_rows) in
      if ltb start (length df)
      then record {
        name = name ++ text "_" ++ digits (number + 1) number;
        number = number;
        total = total;
        first_row = start + 1;
        last_row = smaller (start + batch_rows) (length df);
        dataframe = take batch_rows (drop start df);
      }
        ∷ rest
      else []

  -- A negative size is refused like zero. There are at most as many batches as rows.
  unfoldable pub batch_frame : Text → List Row → ℕ → Result ReportingError (List (ReportBatch Row))
  batch_frame name df zero = err batch_rows_too_small
  batch_frame name df (suc n) =
      if leb (length df) (suc n)
      then ok (
          record {
            name = name;
            number = 1;
            total = 1;
            first_row = if length df == 0 then 0 else 1;
            last_row = length df;
            dataframe = df;
          }
          ∷ [])
      else ok (batches_from (length df) name (suc n) ((length df + n) / suc n) df 1 0)

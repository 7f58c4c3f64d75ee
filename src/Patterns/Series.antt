-- ===== src/Patterns/Series.antt =====
-- The columns of a mismatch frame as mismatch_patterns.py sees them, and its `_..._pair` helpers.
use datarecon_ai_community_e.Prelude.{
  ℕ, Bool, not, ◌&&◌, ◌||◌, Option, none, some, List, [], ◌∷◌, map, if◌then◌else◌, exists,
}
use datarecon_ai_community_e.PyText.{Text}
use datarecon_ai_community_e.Patterns.Floats.{Floats}

-- What is read of a cell and of a column's type.
pub record Cells (F : Floats) : Type 1 where
  pub Cell : Type 0
  pub DType : Type 0
  pub is_na : Cell → Bool
  pub is_str : Cell → Bool
  -- str(v), float(v), and the microseconds of an instant
  pub as_text : Cell → Text
  pub as_float : Cell → F.Float
  pub as_instant : Cell → ℕ
  -- pandas.api.types, and dtype == object
  pub is_string_dtype : DType → Bool
  pub is_object_dtype : DType → Bool
  pub is_numeric_dtype : DType → Bool
  pub is_bool_dtype : DType → Bool
  pub is_datetime_dtype : DType → Bool
  -- s.value_counts().to_dict(), in the order of its entries
  pub value_counts : List Text → List (Text × ℕ)

pub record Series {F : Floats} (C : Cells F) : Type 0 where
  pub dtype : C.DType
  pub cells : List C.Cell

pub data Kind : Type 0 where
  column_concentration null_on_source null_on_target whitespace_only case_only : Kind
  truncation sign_flip constant_ratio constant_offset rounding time_shift : Kind
  contiguous_key_block : Kind

-- What a detector answers: kind, headline and detail.
pub record Found : Type 0 where
  pub kind : Kind
  pub headline : Text
  pub detail : Text

abbrev pub all_of {ℓ} : {A : Type ℓ} → (A → Bool) → List A → Bool
all_of p xs = not (exists (λ x. not (p x)) xs)

module _ {F : Floats} (C : Cells F) where
  open C use {Cell, is_na}

  -- The rows in which both sides have a value.
  unfoldable pub both_present : List Cell → List Cell → List (Cell × Cell)
  both_present [] ts = []
  both_present (s ∷ ss) [] = []
  both_present (s ∷ ss) (t ∷ ts) =
      let rest = both_present ss ts in
      if not (is_na s) && not (is_na t) then (s, t) ∷ rest else rest

  -- _aligned
  unfoldable pub aligned : Series C → Series C → Option (List (Cell × Cell))
  unfolding both_present
  aligned source target = elim (both_present source.cells target.cells) [
    | [] ↦ none
    | p ∷ ps ↦ some (p ∷ ps)
  ]

  -- _is_stringy, of the values that are left of a column
  abbrev pub is_stringy : C.DType → List Cell → Bool
  is_stringy dtype cells =
      C.is_string_dtype dtype || (C.is_object_dtype dtype && all_of C.is_str cells)

  abbrev pub lefts : List (Cell × Cell) → List Cell
  lefts = map (λ p. p.0)

  abbrev pub rights : List (Cell × Cell) → List Cell
  rights = map (λ p. p.1)

  abbrev read_both : {A : Type 0} → (Cell → A) → List (Cell × Cell) → Bool → Option (List (A × A))
  read_both f pairs test = if test then some (map (λ p. (f p.0, f p.1)) pairs) else none

  -- _string_pair
  unfoldable pub string_pair : Series C → Series C → Option (List (Text × Text))
  unfolding aligned
  string_pair source target = elim (aligned source target) [
    | none ↦ none
    | some pairs ↦
        read_both C.as_text pairs
          (is_stringy source.dtype (lefts pairs) && is_stringy target.dtype (rights pairs))
  ]

  -- _numeric_pair
  unfoldable pub numeric_pair : Series C → Series C → Option (List (F.Float × F.Float))
  unfolding aligned
  numeric_pair source target = elim (aligned source target) [
    | none ↦ none
    | some pairs ↦ read_both C.as_float pairs (
        C.is_numeric_dtype source.dtype
        && C.is_numeric_dtype target.dtype
        && not (C.is_bool_dtype source.dtype))
  ]

  -- _datetime_pair
  unfoldable pub datetime_pair : Series C → Series C → Option (List (ℕ × ℕ))
  unfolding aligned
  datetime_pair source target = elim (aligned source target) [
    | none ↦ none
    | some pairs ↦
        read_both C.as_instant pairs
          (C.is_datetime_dtype source.dtype && C.is_datetime_dtype target.dtype)
  ]

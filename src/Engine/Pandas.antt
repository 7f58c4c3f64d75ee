-- ===== src/Engine/Pandas.antt =====
-- Frames as comparison_engine.py sees them, and the calls of pandas and NumPy that it makes.
-- A row maps a column's name to its cell. The calls are a record of functions; what the engine
-- relies on of them is the record `Laws`, whose fields state pandas' documented behaviour.
use datarecon_ai_community_e.Prelude.{
  ℕ, ◌≡◌, Bool, true, ◌&&◌, not, List, [], ◌∷◌, ◌++◌, map, exists, select, length,
}
use datarecon_ai_community_e.PyText.{Text}

abbrev pub Row : Type 0 → Type 0
Row C = Text → C

pub record Frame (C D : Type 0) : Type 0 where
  pub columns : List Text
  pub dtype : Text → D
  pub rows : List (Row C)

-- A row of an outer merge with its indicator, as the rows of the two sides that it joins.
pub data Merged (C : Type 0) : Type 0 where
  left_only : Row C → Merged C
  right_only : Row C → Merged C
  both : Row C → Row C → Merged C

pub record MergedFrame (C D : Type 0) : Type 0 where
  pub source_dtype : Text → D
  pub target_dtype : Text → D
  pub rows : List (Merged C)

pub data Side : Type 0 where
  source target : Side

pub record Pandas : Type 1 where
  pub Cell : Type 0
  pub DType : Type 0
  pub Tolerance : Type 0
  pub is_na : Cell → Bool
  pub is_numeric : DType → Bool
  pub is_float : DType → Bool
  pub is_text : DType → Bool
  -- s.eq(t), an NA answer read as False
  pub equal : Cell → Cell → Bool
  -- a == b after `astype("float64")`
  pub float_equal : Cell → Cell → Bool
  -- np.isclose(a, b, rtol=0.0, atol=tolerance, equal_nan=False)
  pub close : Tolerance → Cell → Cell → Bool
  pub positive : Tolerance → Bool
  pub str_strip : Cell → Cell
  pub str_upper : Cell → Cell
  -- how join keys are told apart
  pub key_equal : Cell → Cell → Bool
  -- out.duplicated(subset=keys, keep="first")
  pub duplicated : List Text → List (Row Cell) → List Bool
  -- what an outer merge makes of one side's rows, as it widens the types of columns
  pub widen : Side → Frame Cell DType → Frame Cell DType → Row Cell → Row Cell
  -- src.merge(tgt, on=keys, how="outer", indicator=...)
  pub merge : List Text → Frame Cell DType → Frame Cell DType → MergedFrame Cell DType

-- `xs` passes the test this often.
abbrev pub count {ℓ} : {A : Type ℓ} → (A → Bool) → List A → ℕ
count p xs = length (select p xs)

abbrev pub with_partners : {C : Type 0} → Row C → List (Row C) → List (Merged C)
with_partners l [] = left_only l ∷ []
with_partners l (r ∷ rs) = map (both l) (r ∷ rs)

-- The rows agree on every key column.
abbrev pub same_key : {C : Type 0} → (C → C → Bool) → List Text → Row C → Row C → Bool
same_key key_equal [] a b = true
same_key key_equal (k ∷ ks) a b = key_equal (a k) (b k) && same_key key_equal ks a b

module _ {C : Type 0} (key_equal : C → C → Bool) (keys : List Text) where
  -- For each row, whether an earlier one (of `seen` or of the list) has its key.
  abbrev pub repeats : List (Row C) → List (Row C) → List Bool
  repeats seen [] = []
  repeats seen (r ∷ rows) = exists (λ s. same_key key_equal keys s r) seen ∷ repeats (r ∷ seen) rows

  -- A row of the left side with all its partners.
  abbrev pub join_row : Row C → List (Row C) → List (Merged C)
  join_row l rows = with_partners l (select (same_key key_equal keys l) rows)

  abbrev pub join_left : List (Row C) → List (Row C) → List (Merged C)
  join_left [] rs = []
  join_left (l ∷ ls) rs = join_row l rs ++ join_left ls rs

  -- The full outer join.
  abbrev pub outer_join : List (Row C) → List (Row C) → List (Merged C)
  outer_join ls rs =
      join_left ls rs
      ++ map right_only (select (λ r. not (exists (λ l. same_key key_equal keys l r) ls)) rs)

abbrev pub map_merged : {C : Type 0} → (Side → Row C → Row C) → Merged C → Merged C
map_merged f (left_only l) = left_only (f source l)
map_merged f (right_only r) = right_only (f target r)
map_merged f (both l r) = both (f source l) (f target r)

-- What pandas documents of the calls above.
pub record Laws (P : Pandas) : Type 0 where
  pub key_sym : (a b : P.Cell) → P.key_equal a b ≡ true → P.key_equal b a ≡ true
  pub key_trans :
      (a b c : P.Cell) → P.key_equal a b ≡ true → P.key_equal b c ≡ true → P.key_equal a c ≡ true
  -- `keep="first"`: every row but the first of its key is marked
  pub duplicated_lem :
      (keys : List Text) (rows : List (Row P.Cell))
      → P.duplicated keys rows ≡ repeats P.key_equal keys [] rows
  -- The merge has the rows of the full outer join, each as often, in an order of its own.
  pub merge_rows :
      (keys : List Text) (src tgt : Frame P.Cell P.DType) (p : Merged P.Cell → Bool)
      → count p (P.merge keys src tgt).rows
        ≡ count p (
            map
              (map_merged (λ side. P.widen side src tgt))
              (outer_join P.key_equal keys src.rows tgt.rows))

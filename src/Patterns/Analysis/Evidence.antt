-- ===== src/Patterns/Analysis/Evidence.antt =====
-- What the findings of the detectors say of the rows, and how they read them.
use datarecon_ai_community_e.Prelude.{
  ℕ, ◌≡◌, ◌≤◌, ◌<◌, refl, Bool, true, false, not, ◌&&◌, ◌||◌, List, [], ◌∷◌, ◌++◌, map, length,
  take, ltb, if◌then◌else◌, All, ◌⊎◌, suc, exists, arith, Bool-cases, inl, inr, Option, none, some,
  ap,
}
use datarecon_ai_community_e.PyText.{
  Text, text, Unicode, strip, casefold, starts_with, ℤ, pos, negsuc,
}
use datarecon_ai_community_e.Patterns.Floats.{Floats, format_number, format_factor, decimal_places}
use datarecon_ai_community_e.Patterns.Formats.{shown, format_duration}
use datarecon_ai_community_e.Patterns.Series.{
  Cells, Series, Kind, Found, null_on_source, null_on_target, whitespace_only, case_only,
  truncation, sign_flip, constant_ratio, constant_offset, rounding, time_shift, all_of,
  both_present, aligned, string_pair, numeric_pair, datetime_pair,
}
use datarecon_ai_community_e.Patterns.Detectors.{
  null_pattern, on_pairs, found_if, is_cut, delta_of, same_delta,
}
use datarecon_ai_community_e.Patterns.Numeric.{rtol, identity_eps, offset_scale}
use datarecon_ai_community_e.Patterns.Ranking.{Pattern}

pub none-ne-some : (p : Pattern) → none ≡ some p → ⊥
none-ne-some p h = cc

pub all_of-All :
    {A : Type 0} (p : A → Bool) (xs : List A) → all_of p xs ≡ true → All (λ x. p x ≡ true) xs
all_of-All p [] h = tt
all_of-All p (x ∷ xs) h = (ground arith, all_of-All p xs (ground arith))

pub starts_with-take : (s t : Text) → starts_with s t ≡ true → t ≡ take (length t) s
unfolding starts_with
starts_with-take s [] h = refl
starts_with-take [] (p ∷ t) h = cc
starts_with-take (c ∷ s) (p ∷ t) h = ground (arith, starts_with-take s t)

pub same_delta-eq : (a b : ℤ) → same_delta a b ≡ true → a ≡ b
same_delta-eq (pos a) (pos b) h = ground arith
same_delta-eq (pos a) (negsuc b) h = cc
same_delta-eq (negsuc a) (pos b) h = cc
same_delta-eq (negsuc a) (negsuc b) h = ground arith

pub exists-All :
    {A : Type 0} (p : A → Bool) (xs : List A) → exists p xs ≡ false → All (λ x. p x ≡ false) xs
exists-All p [] h = tt
exists-All p (x ∷ xs) h = (ground arith, exists-All p xs (ground arith))

-- np.isclose(y, x, rtol, atol)
abbrev pub is_close : (F : Floats) → F.Float → F.Float → F.Float → F.Float → Bool
is_close F y x rel abs =
    F.equal y x
    || F.less_eq (F.magnitude (F.subtract y x)) (F.add abs (F.multiply rel (F.magnitude x)))

-- What NumPy documents: np.allclose is np.isclose of every value, and no value is over the greatest
-- one where none is NaN, which does not equal itself.
pub record FloatLaws (F : Floats) : Type 0 where
  pub all_close_lem :
      (xs : List F.Float) (x rel abs : F.Float)
      → F.all_close xs x rel abs ≡ true
      → All (λ y. is_close F y x rel abs ≡ true) xs
  pub largest_lem :
      (bound : F.Float) (xs : List F.Float)
      → All (λ x. F.equal x x ≡ true) xs
      → F.less bound (F.largest xs) ≡ false
      → All (λ x. F.less bound x ≡ false) xs

module _ {F : Floats} (C : Cells F) (u : Unicode) (source target : Series C) (column : Text) where
  -- The rows of the column in which both sides have a value.
  abbrev pub present : List (C.Cell × C.Cell)
  present = both_present C source.cells target.cells

  abbrev pub Enough : Type 0
  Enough = 3 ≤ length present

  abbrev pub NoZero : Type 0
  NoZero = Enough × All (λ p. F.equal (C.as_float p.0) (F.literal 0 0) ≡ false) present

  abbrev pub ratios : List F.Float
  ratios =
      map (λ (p : F.Float × F.Float). F.divide p.1 p.0)
        (map (λ p. (C.as_float p.0, C.as_float p.1)) present)

  abbrev pub differences : List F.Float
  differences =
      map (λ (p : F.Float × F.Float). F.subtract p.1 p.0)
        (map (λ p. (C.as_float p.0, C.as_float p.1)) present)

  abbrev pub sizes : List F.Float
  sizes =
      map (λ (p : F.Float × F.Float). F.magnitude (F.subtract p.1 p.0))
        (map (λ p. (C.as_float p.0, C.as_float p.1)) present)

  -- All ratios are close to one factor, which is not that of the identity.
  abbrev pub ScaledBy : F.Float → Type 0
  ScaledBy factor =
      NoZero
      × (F.less (F.magnitude (F.subtract factor (F.literal 1 0))) (identity_eps C) ≡ false)
      × All
          (λ p.
            is_close F (F.divide (C.as_float p.1) (C.as_float p.0)) factor (rtol C) (F.literal 1 8)
            ≡ true)
          present

  -- All differences are close to one offset, which is not zero.
  abbrev pub ShiftedBy : F.Float → Type 0
  ShiftedBy offset =
      Enough
      × (F.less (F.magnitude offset) (identity_eps C) ≡ false)
      × All
          (λ p.
            is_close F (F.subtract (C.as_float p.1) (C.as_float p.0)) offset (F.literal 0 0)
              (F.multiply (offset_scale C offset differences) (F.literal 1 9))
            ≡ true)
          present

  -- All values of the target have the length that a headline names, or it names none.
  abbrev pub IsWidth : Text → Type 0
  IsWidth headline =
      ((w : ℕ) × (headline
          ≡ column ++ text " is truncated to " ++ shown w ++ text " characters in the target")
        × All (λ p. length (C.as_text p.1) ≡ w) present)
      ⊎ (headline ≡ column ++ text " is truncated in the target")

  -- What a finding with this headline says of the rows of the column.
  abbrev pub IsTrue : Kind → Text → Type 0
  IsTrue null_on_source headline =
      (headline ≡ column ++ text " is empty on the source for every differing row")
      × All (λ c. C.is_na c ≡ true) source.cells
      × (all_of C.is_na target.cells ≡ false)
  IsTrue null_on_target headline =
      (headline ≡ column ++ text " arrived NULL in the target for every differing row")
      × All (λ c. C.is_na c ≡ true) target.cells
      × (all_of C.is_na source.cells ≡ false)
  IsTrue whitespace_only headline =
      (headline ≡ column ++ text " differs only in leading/trailing whitespace")
      × All (λ p. strip (C.as_text p.0) ≡ strip (C.as_text p.1)) present
  IsTrue case_only headline =
      (headline ≡ column ++ text " differs only in letter case")
      × All (λ p. casefold u (C.as_text p.0) ≡ casefold u (C.as_text p.1)) present
  IsTrue truncation headline =
      IsWidth headline
      × Enough
      × All
          (λ p.
            (C.as_text p.1 ≡ take (length (C.as_text p.1)) (C.as_text p.0))
            × (length (C.as_text p.1) < length (C.as_text p.0)))
          present
  IsTrue sign_flip headline =
      (headline ≡ column ++ text " has the opposite sign in the target for every differing row")
      × ((factor : F.Float) × (F.less (F.magnitude (F.add factor (F.literal 1 0))) (rtol C) ≡ true)
          × ScaledBy factor)
  IsTrue constant_ratio headline =
      (factor : F.Float) × (headline
        ≡ column ++ text " is off by exactly " ++ format_factor F factor ++ text " in the target")
      × ScaledBy factor
  IsTrue constant_offset headline =
      (offset : F.Float) × (headline
        ≡ column
          ++ text " is shifted by exactly "
          ++ format_number F offset
          ++ text " in the target")
      × ShiftedBy offset
  IsTrue rounding headline =
      (headline
        ≡ column
          ++ text " differs only beyond the "
          ++ decimal_places F (F.largest sizes)
          ++ text " decimal place")
      × Enough
      × All
          (λ p.
            F.less (F.literal 5 1) (F.magnitude (F.subtract (C.as_float p.1) (C.as_float p.0)))
            ≡ false)
          present
  IsTrue time_shift headline =
      (d : ℤ) × (headline
        ≡ column ++ text " is shifted by exactly " ++ format_duration d ++ text " in the target")
      × (same_delta d (pos 0) ≡ false)
      × Enough
      × All (λ p. delta_of (C.as_instant p.0, C.as_instant p.1) ≡ d) present
  IsTrue _ headline = Enough

  abbrev pub FoundTrue : Option Found → Type 0
  FoundTrue none = Unit
  FoundTrue (some f) = IsTrue f.kind f.headline

  pub found_if-true :
      (b : Bool) (f : Found) → (b ≡ true → IsTrue f.kind f.headline) → FoundTrue (found_if b f)
  found_if-true true f h = h refl
  found_if-true false f h = tt

  pub not_all :
      (p : C.Cell → Bool) (xs : List C.Cell) → not (all_of p xs) ≡ true → all_of p xs ≡ false
  not_all p xs h = ground arith

  pub null-true : FoundTrue (null_pattern C column source target)
  unfolding null_pattern
  null-true = elim (Bool-cases (all_of C.is_na source.cells)) [
    | inl se ↦ elim (Bool-cases (all_of C.is_na target.cells)) [
      | inl te ↦ rw (se, te) tt
      | inr te ↦ rw (se, te) (refl, all_of-All C.is_na source.cells se, te)
    ]
    | inr se ↦ elim (Bool-cases (all_of C.is_na target.cells)) [
      | inl te ↦ rw (se, te) (refl, all_of-All C.is_na target.cells te, se)
      | inr te ↦ rw (se, te) tt
    ]
  ]

  -- The pairs are those in which both sides have a value, if there are some.
  pub aligned-cases : (aligned C source target ≡ none) ⊎ (aligned C source target ≡ some present)
  aligned-cases = by_pairs present refl
    where
      by_pairs :
          (pairs : List (C.Cell × C.Cell))
          → present ≡ pairs
          → (aligned C source target ≡ none) ⊎ (aligned C source target ≡ some present)
      by_pairs [] h = inl (unfold aligned in rw (h, aligned) refl)
      by_pairs (p ∷ ps) h = inr (unfold aligned in rw (h, aligned) refl)

  module _ {A : Type 0} (f : C.Cell → A) (test : Bool) where
    abbrev pub both_read : List (C.Cell × C.Cell) → List (A × A)
    both_read = map (λ p. (f p.0, f p.1))

    -- A detector that is true of the pairs that were read is true.
    pub read-true :
        (g : List (A × A) → Option Found)
        → FoundTrue (g (both_read present))
        → FoundTrue (on_pairs g (if test then some (both_read present) else none))
    read-true g h = elim (Bool-cases test) [
      | inl yes_read ↦ rw yes_read h
      | inr not_read ↦ rw not_read tt
    ]

  pub string_pair-true :
      (g : List (Text × Text) → Option Found)
      → FoundTrue (g (map (λ p. (C.as_text p.0, C.as_text p.1)) present))
      → FoundTrue (on_pairs g (string_pair C source target))
  unfolding string_pair
  string_pair-true g h = elim aligned-cases [
    | inl nothing ↦ rw (nothing, string_pair) tt
    | inr some_pairs ↦ rw (some_pairs, string_pair) (read-true C.as_text _ g h)
  ]

  pub numeric_pair-true :
      (g : List (F.Float × F.Float) → Option Found)
      → FoundTrue (g (map (λ p. (C.as_float p.0, C.as_float p.1)) present))
      → FoundTrue (on_pairs g (numeric_pair C source target))
  unfolding numeric_pair
  numeric_pair-true g h = elim aligned-cases [
    | inl nothing ↦ rw (nothing, numeric_pair) tt
    | inr some_pairs ↦ rw (some_pairs, numeric_pair) (read-true C.as_float _ g h)
  ]

  pub numeric_pair-none :
      C.is_numeric_dtype source.dtype ≡ false → numeric_pair C source target ≡ none
  unfolding numeric_pair
  numeric_pair-none h = elim aligned-cases [
    | inl nothing ↦ rw (nothing, numeric_pair) refl
    | inr some_pairs ↦ rw (some_pairs, numeric_pair, h) refl
  ]

  -- No difference of two numbers of the column is NaN.
  abbrev pub NoNan : Type 0
  NoNan = C.is_numeric_dtype source.dtype ≡ true → All (λ x. F.equal x x ≡ true) sizes

  pub datetime_pair-true :
      (g : List (ℕ × ℕ) → Option Found)
      → FoundTrue (g (map (λ p. (C.as_instant p.0, C.as_instant p.1)) present))
      → FoundTrue (on_pairs g (datetime_pair C source target))
  unfolding datetime_pair
  datetime_pair-true g h = elim aligned-cases [
    | inl nothing ↦ rw (nothing, datetime_pair) tt
    | inr some_pairs ↦ rw (some_pairs, datetime_pair) (read-true C.as_instant _ g h)
  ]

  pub All-map :
      {A : Type 0} (f : C.Cell × C.Cell → A) (P : A → Type 0) (xs : List (C.Cell × C.Cell))
      → All P (map f xs)
      → All (λ x. P (f x)) xs
  All-map f P [] h = tt
  All-map f P (x ∷ xs) h = (h.0, All-map f P xs h.1)

  pub length-map :
      {A : Type 0} (f : C.Cell × C.Cell → A) (xs : List (C.Cell × C.Cell))
      → length (map f xs) ≡ length xs
  length-map f [] = refl
  length-map f (x ∷ xs) = ap suc (length-map f xs)

  abbrev pub texts : List (Text × Text)
  texts = map (λ p. (C.as_text p.0, C.as_text p.1)) present

  abbrev pub floats : List (F.Float × F.Float)
  floats = map (λ p. (C.as_float p.0, C.as_float p.1)) present

  abbrev pub instants : List (ℕ × ℕ)
  instants = map (λ p. (C.as_instant p.0, C.as_instant p.1)) present

  pub cut_lem :
      (p : Text × Text)
      → is_cut p ≡ true
      → (p.1 ≡ take (length p.1) p.0) × (length p.1 < length p.0)
  cut_lem (s, t) h = (starts_with-take s t (ground arith), ground arith)

  pub and-true : (a b : Bool) → (a && b) ≡ true → (a ≡ true) × (b ≡ true)
  and-true a b h = ground arith

  pub enough :
      {A : Type 0} (f : C.Cell × C.Cell → A) → not (ltb (length (map f present)) 3) ≡ true → Enough
  enough f h = ground (arith, length-map f present)

  -- A detector that looks at three rows at least.
  pub if_enough :
      (o : Option Found)
      → (not (ltb (length floats) 3) ≡ true → FoundTrue o)
      → FoundTrue (if ltb (length floats) 3 then none else o)
  if_enough o h = elim (Bool-cases (ltb (length floats) 3)) [
    | inl few ↦ rw few tt
    | inr many ↦ rw many (h (rw many refl))
  ]

-- ===== src/Engine/Columns/Laws.antt =====
-- About `_align_column_case` of comparison_engine.py, and `resolve` of column_matching.py.
use datarecon_ai_community_e.Prelude.{
  ◌≡◌, refl, Option, none, some, List, [], ◌∷◌, if◌then◌else◌, arith, ◌∙◌, sym, true, false, All,
  Bool-cases, inl, inr,
}
use datarecon_ai_community_e.PyText.{Text, Unicode, casefold}
use datarecon_ai_community_e.PyText.Dict.{Dict, get, set, get-set, or_else}
use datarecon_ai_community_e.ColumnMatching.{resolve}
use datarecon_ai_community_e.ColumnMatching.Laws.{same_name, first_match, resolve-first_match}
use datarecon_ai_community_e.PyText.Laws.{text_eq_iff}
use datarecon_ai_community_e.Engine.Columns.{canonical_from, canonical}

-- The right-most column that matches the name.
abbrev pub last_match : Unicode → Text → List Text → Option Text
last_match u name [] = none
last_match u name (c ∷ columns) =
    or_else (last_match u name columns) (if same_name u c name then some c else none)

module _ (u : Unicode) where
  get-canonical_from :
      (name : Text) (d : Dict Text) (columns : List Text)
      → get (casefold u name) (canonical_from u d columns)
        ≡ or_else (last_match u name columns) (get (casefold u name) d)
  unfolding canonical_from
  get-canonical_from name d [] = refl
  get-canonical_from name d (c ∷ columns) =
      get-canonical_from name (set (casefold u c) c d) columns
      ∙ rw (get-set (casefold u c) (casefold u name) c d) (ground arith)

  or_none : (o : Option Text) → or_else o none ≡ o
  or_none none = refl
  or_none (some c) = refl

  -- The engine's canonical spelling of a name is that of the right-most source column that matches
  -- it when case is folded, and it has none exactly where no column matches.
  canonical-last_match :
      (name : Text) (columns : List Text)
      → get (casefold u name) (canonical u columns) ≡ last_match u name columns
  unfolding canonical get
  canonical-last_match name columns =
      get-canonical_from name [] columns ∙ or_none (last_match u name columns)

  -- No two columns are the same without regard to case.
  abbrev pub AreDistinctColumns : List Text → Type 0
  AreDistinctColumns [] = Unit
  AreDistinctColumns (c ∷ columns) =
      All (λ d. same_name u d c ≡ false) columns × AreDistinctColumns columns

  no_other_match :
      (name c : Text) (columns : List Text)
      → same_name u c name ≡ true
      → All (λ d. same_name u d c ≡ false) columns
      → last_match u name columns ≡ none
  no_other_match name c [] h k = refl
  no_other_match name c (d ∷ columns) h k =
      let same : casefold u c ≡ casefold u name =
        (text_eq_iff (casefold u c) (casefold u name)).0 h in
      let other : same_name u d name ≡ false = rw (← same) (k.0) in
      rw (no_other_match name c columns h k.1, other) refl

  last-first :
      (name : Text) (columns : List Text)
      → AreDistinctColumns columns
      → last_match u name columns ≡ first_match u name columns
  last-first name [] h = refl
  last-first name (c ∷ columns) h = elim (Bool-cases (same_name u c name)) [
    | inl same ↦ rw (no_other_match name c columns same h.0, same) refl
    | inr other ↦ rw (other, or_none (last_match u name columns)) (last-first name columns h.1)
  ]

  -- Where no two source columns are the same without regard to case, the engine's canonical spelling
  -- of a name is the column to which `resolve` of column_matching.py resolves it, and there is none
  -- exactly where that finds none.
  pub canonical-resolve :
      (name : Text) (columns : List Text)
      → AreDistinctColumns columns
      → get (casefold u name) (canonical u columns) ≡ resolve u name columns
  canonical-resolve name columns h =
      canonical-last_match name columns
      ∙ last-first name columns h
      ∙ sym (resolve-first_match u name columns)

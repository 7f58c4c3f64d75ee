-- ===== src/ColumnMatching/Laws.antt =====
-- `resolve` and `resolve_all` find the left-most column that matches, and aligning is stable.
use mathlib.Core.Path.{ap₂}
use mathlib.Core.Option.{some-injective, get_or}
use datarecon_ai_community_e.Prelude.{
  ◌≡◌, refl, Bool, Option, none, some, List, [], ◌∷◌, ◌++◌, if◌then◌else◌, arith, ◌∙◌, sym, ap,
  Option-cases, Bool-cases, inl, inr, append_assoc, append-nil, map,
}
use datarecon_ai_community_e.PyText.{Text, Unicode, text_eq, casefold}
use datarecon_ai_community_e.PyText.Laws.{text_eq_iff}
use datarecon_ai_community_e.PyText.Dict.{Dict, get, set_default, get-set_default, or_else}
use datarecon_ai_community_e.ColumnMatching.{
  add_columns, canonical_map, resolve, renamed, rename_all, align_to_source, resolve_names,
  resolve_all,
}

-- Two names match, when case is folded.
abbrev pub same_name : Unicode → Text → Text → Bool
same_name u a b = text_eq (casefold u a) (casefold u b)

-- The left-most column that matches the name.
abbrev pub first_match : Unicode → Text → List Text → Option Text
first_match u name [] = none
first_match u name (c ∷ columns) =
    let rest = first_match u name columns in if same_name u c name then some c else rest

module _ (u : Unicode) where
  get-add_columns :
      (name : Text) (mapping : Dict Text) (columns : List Text)
      → get (casefold u name) (add_columns u mapping columns)
        ≡ or_else (get (casefold u name) mapping) (first_match u name columns)
  unfolding add_columns
  get-add_columns name mapping [] = ground arith
  get-add_columns name mapping (c ∷ columns) =
      get-add_columns name (set_default (casefold u c) c mapping) columns
      ∙ rw (get-set_default (casefold u c) (casefold u name) c mapping) (ground arith)

  -- A name resolves to the left-most column that is equal to it when case is folded, and to
  -- nothing exactly where there is none.
  pub resolve-first_match :
      (name : Text) (columns : List Text) → resolve u name columns ≡ first_match u name columns
  unfolding resolve canonical_map get
  resolve-first_match name columns = get-add_columns name [] columns

  -- What matches has the same folded name.
  fold-first_match :
      (name : Text) (columns : List Text) {c : Text}
      → first_match u name columns ≡ some c
      → casefold u c ≡ casefold u name
  fold-first_match name [] h = cc
  fold-first_match name (c ∷ columns) h = elim (Bool-cases (same_name u c name)) [
    | inl same ↦
        let e = rw same at h in
        ap (casefold u) (sym (some-injective _ _ e))
        ∙ (text_eq_iff (casefold u c) (casefold u name)).0 same
    | inr other ↦ fold-first_match name columns (rw other at h)
  ]

  -- A name in the spelling of the columns, or as it is.
  abbrev pub in_spelling_of : List Text → Text → Text
  in_spelling_of columns name = get_or (first_match u name columns) name

  get-canonical_map :
      (name : Text) (columns : List Text)
      → get (casefold u name) (canonical_map u columns) ≡ first_match u name columns
  unfolding canonical_map get
  get-canonical_map name columns = get-add_columns name [] columns

  respell :
      (c : Text) (o : Option Text)
      → elim o as (λ _. Text) [ none ↦ c | some actual ↦ if text_eq c actual then c else actual ]
        ≡ get_or o c
  respell c none = refl
  respell c (some actual) = elim (Bool-cases (text_eq c actual)) [
    | inl same ↦ rw same ((text_eq_iff c actual).0 same)
    | inr other ↦ rw other
  ]

  renamed_lem :
      (source : List Text) (c : Text)
      → renamed u (canonical_map u source) c ≡ in_spelling_of source c
  renamed_lem source c =
      rw (get-canonical_map c source, renamed) (respell c (first_match u c source))

  rename_all_lem :
      (source target : List Text)
      → rename_all u (canonical_map u source) target ≡ map (in_spelling_of source) target
  unfolding rename_all
  rename_all_lem source [] = refl
  rename_all_lem source (c ∷ target) =
      ap₂ (λ x xs. x ∷ xs) (renamed_lem source c) (rename_all_lem source target)

  -- Aligning gives each target column that matches a source column the spelling of the left-most
  -- such column, and leaves every other as it is.
  pub align_to_source_lem :
      (source target : List Text)
      → align_to_source u source target ≡ map (in_spelling_of source) target
  unfolding align_to_source
  align_to_source_lem = rename_all_lem

  first_match_cong :
      (a b : Text) (columns : List Text)
      → casefold u a ≡ casefold u b
      → first_match u a columns ≡ first_match u b columns
  first_match_cong a b [] h = refl
  first_match_cong a b (c ∷ columns) h = rw (h, first_match_cong a b columns h)

  respelt_twice :
      (source : List Text) (c : Text)
      → in_spelling_of source (in_spelling_of source c) ≡ in_spelling_of source c
  respelt_twice source c = elim (Option-cases (first_match u c source)) [
    | inl absent ↦ rw absent (rw absent)
    | inr (actual, found) ↦
        let again : first_match u actual source ≡ some actual =
          first_match_cong actual c source (fold-first_match c source found) ∙ found in
        rw found (rw again)
  ]

  respelt_all_twice :
      (source target : List Text)
      → map (in_spelling_of source) (map (in_spelling_of source) target)
        ≡ map (in_spelling_of source) target
  respelt_all_twice source [] = refl
  respelt_all_twice source (c ∷ target) =
      ap₂ (λ x xs. x ∷ xs) (respelt_twice source c) (respelt_all_twice source target)

  -- Aligning a frame that is aligned already changes nothing.
  pub align-align :
      (source target : List Text)
      → align_to_source u source (align_to_source u source target) ≡ align_to_source u source target
  align-align source target = simp align_to_source_lem (respelt_all_twice source target)

  -- The names that resolve, in the spelling of the columns.
  abbrev pub resolved_names : List Text → List Text → List Text
  resolved_names columns [] = []
  resolved_names columns (name ∷ names) = elim (first_match u name columns) [
    | none ↦ resolved_names columns names
    | some actual ↦ actual ∷ resolved_names columns names
  ]

  -- The names that do not, as they were typed.
  abbrev pub missing_names : List Text → List Text → List Text
  missing_names columns [] = []
  missing_names columns (name ∷ names) = elim (first_match u name columns) [
    | none ↦ name ∷ missing_names columns names
    | some _ ↦ missing_names columns names
  ]

  resolve_names_lem :
      (columns resolved missing names : List Text)
      → resolve_names u (canonical_map u columns) resolved missing names
        ≡ (resolved ++ resolved_names columns names, missing ++ missing_names columns names)
  unfolding resolve_names
  resolve_names_lem columns resolved missing [] = rw (append-nil resolved, append-nil missing)
  resolve_names_lem columns resolved missing (name ∷ names) =
      rw (get-canonical_map name columns, resolve_names)
        (elim (Option-cases (first_match u name columns)) [
          | inl absent ↦
              rw (absent, resolved_names, missing_names)
                (resolve_names_lem columns resolved (missing ++ name ∷ []) names
                  ∙ rw (append_assoc missing (name ∷ []) (missing_names columns names)))
          | inr (actual, found) ↦
              rw (found, resolved_names, missing_names)
                (resolve_names_lem columns (resolved ++ actual ∷ []) missing names
                  ∙ rw (append_assoc resolved (actual ∷ []) (resolved_names columns names)))
        ])

  -- `resolve_all` splits the names in their order: the resolved ones, each in the spelling of the
  -- left-most column that matches, and those that match no column, as they were typed.
  pub resolve_all_lem :
      (names columns : List Text)
      → resolve_all u names columns ≡ (resolved_names columns names, missing_names columns names)
  unfolding resolve_all
  resolve_all_lem names columns = resolve_names_lem columns [] [] names

-- ===== src/PyText/Dict.antt =====
-- Python's `dict` with text keys, in its order of insertion.
use datarecon_ai_community_e.Prelude.{
  ◌≡◌, refl, Bool, true, false, Option, none, some, List, [], ◌∷◌, if◌then◌else◌, arith,
}
use datarecon_ai_community_e.PyText.{Text, text_eq}
use datarecon_ai_community_e.PyText.Laws.{text_eq_iff}

abbrev pub Dict {ℓ} : Type ℓ → Type ℓ
Dict V = List (Text × V)

module _ {ℓ} {V : Type ℓ} where
  -- d.get(k)
  unfoldable pub get : Text → Dict V → Option V
  get k [] = none
  get k ((j, v) ∷ d) = if text_eq j k then some v else get k d

  -- d[k] = v: an old key keeps its place
  unfoldable pub set : Text → V → Dict V → Dict V
  set k v [] = (k, v) ∷ []
  set k v ((j, w) ∷ d) = if text_eq j k then (j, v) ∷ d else (j, w) ∷ set k v d

  -- d.setdefault(k, v)
  unfoldable pub set_default : Text → V → Dict V → Dict V
  set_default k v [] = (k, v) ∷ []
  set_default k v ((j, w) ∷ d) = if text_eq j k then (j, w) ∷ d else (j, w) ∷ set_default k v d

  -- k in d
  abbrev pub has : Text → Dict V → Bool
  has k d = elim (get k d) [ none ↦ false | some _ ↦ true ]

  pub get-set :
      (k j : Text) (v : V) (d : Dict V)
      → get j (set k v d) ≡ (if text_eq k j then some v else get j d)
  unfolding get set
  get-set k j v [] = refl
  get-set k j v ((i, w) ∷ d) =
      ground (arith, text_eq_iff i k, text_eq_iff i j, text_eq_iff k j, get-set k j v d)

  abbrev pub or_else : Option V → Option V → Option V
  or_else none y = y
  or_else (some x) y = some x

  pub get-set_default :
      (k j : Text) (v : V) (d : Dict V)
      → get j (set_default k v d) ≡ or_else (get j d) (if text_eq k j then some v else none)
  unfolding get set_default
  get-set_default k j v [] = ground arith
  get-set_default k j v ((i, w) ∷ d) =
      ground (arith, text_eq_iff i k, text_eq_iff i j, text_eq_iff k j, get-set_default k j v d)

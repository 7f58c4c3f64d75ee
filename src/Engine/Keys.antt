-- ===== src/Engine/Keys.antt =====
-- What `duplicated` marks: a list of rows with no mark has each key once.
use datarecon_ai_community_e.Prelude.{
  ◌≤◌, ◌≡◌, refl, Bool, true, List, [], ◌∷◌, exists, arith, Bool-cases, inl, inr,
}
use datarecon_ai_community_e.PyText.{Text}
use datarecon_ai_community_e.Engine.Pandas.{Row, same_key, repeats, count}
use datarecon_ai_community_e.Engine.Prepare.{sum_mask, unmasked}

module _ {C : Type 0} (key_equal : C → C → Bool) where
  abbrev IsSym : Type 0
  IsSym = (a b : C) → key_equal a b ≡ true → key_equal b a ≡ true

  abbrev IsTrans : Type 0
  IsTrans = (a b c : C) → key_equal a b ≡ true → key_equal b c ≡ true → key_equal a c ≡ true

  pub same_sym :
      IsSym
      → (ks : List Text) (a b : Row C) → same_key key_equal ks a b ≡ true
      → same_key key_equal ks b a ≡ true
  same_sym sym [] a b h = refl
  same_sym sym (k ∷ ks) a b h = ground (arith, sym (a k) (b k), same_sym sym ks a b)

  pub same_trans :
      IsTrans
      → (ks : List Text) (a b c : Row C) → same_key key_equal ks a b ≡ true
      → same_key key_equal ks b c ≡ true
      → same_key key_equal ks a c ≡ true
  same_trans trans [] a b c h k = refl
  same_trans trans (x ∷ ks) a b c h k =
      ground (arith, trans (a x) (b x) (c x), same_trans trans ks a b c)

-- No row has the key of an earlier one, or of one of `seen`.
abbrev pub NoRepeats :
    {C : Type 0} → (C → C → Bool) → List Text → List (Row C) → List (Row C) → Type 0
NoRepeats key_equal keys seen rows = sum_mask (repeats key_equal keys seen rows) ≡ 0

module _ {C : Type 0} (key_equal : C → C → Bool) (keys : List Text) (sym : IsSym key_equal)
    (trans : IsTrans key_equal) where
  abbrev same : Row C → Row C → Bool
  same = same_key key_equal keys

  exists_same :
      (seen : List (Row C)) (x r : Row C)
      → exists (λ s. same s x) seen ≡ true
      → same x r ≡ true
      → exists (λ s. same s r) seen ≡ true
  exists_same [] x r h k = cc
  exists_same (s ∷ seen) x r h k =
      ground (arith, same_trans key_equal trans keys s x r, exists_same seen x r)

  -- Rows without repeats hold no row with the key of a row seen before.
  count_seen :
      (seen rows : List (Row C)) (x : Row C)
      → NoRepeats key_equal keys seen rows
      → exists (λ s. same s x) seen ≡ true
      → count (same x) rows ≡ 0
  count_seen seen [] x h k = refl
  count_seen seen (r ∷ rows) x h k =
      ground (arith, exists_same seen x r, count_seen (r ∷ seen) rows x)

  -- A key has at most one row among rows without repeats.
  pub count_matches_le_one :
      (seen rows : List (Row C)) (x : Row C)
      → NoRepeats key_equal keys seen rows
      → count (same x) rows ≤ 1
  count_matches_le_one seen [] x h = omega arith
  count_matches_le_one seen (r ∷ rows) x h = ground (
    arith,
    same_sym key_equal sym keys x r,
    count_seen (r ∷ seen) rows x,
    count_matches_le_one (r ∷ seen) rows x,
  )

-- Fewer rows seen before make fewer repeats.
module _ {C : Type 0} (key_equal : C → C → Bool) (keys : List Text) where
  NoRepeats-fewer :
      (seen more rows : List (Row C))
      → ((x : Row C)
          → exists (λ s. same_key key_equal keys s x) seen ≡ true
          → exists (λ s. same_key key_equal keys s x) more ≡ true)
      → NoRepeats key_equal keys more rows
      → NoRepeats key_equal keys seen rows
  NoRepeats-fewer seen more [] sub h = refl
  NoRepeats-fewer seen more (r ∷ rows) sub h =
      ground (arith, sub r, NoRepeats-fewer (r ∷ seen) (r ∷ more) rows (λ x. ground (arith, sub x)))

  -- What is left when the repeats are dropped has no repeats.
  pub NoRepeats-unmasked :
      (seen rows : List (Row C))
      → NoRepeats key_equal keys seen (unmasked (repeats key_equal keys seen rows) rows)
  NoRepeats-unmasked seen [] = refl
  NoRepeats-unmasked seen (r ∷ rows) =
      elim (Bool-cases (exists (λ s. same_key key_equal keys s r) seen)) [
        | inl again ↦ rw again (
            NoRepeats-fewer seen (r ∷ seen) _ (λ x h. ground arith)
              (NoRepeats-unmasked (r ∷ seen) rows))
        | inr first ↦ rw first (rw first (omega (arith, NoRepeats-unmasked (r ∷ seen) rows)))
      ]

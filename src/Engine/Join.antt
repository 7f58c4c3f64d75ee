-- ===== src/Engine/Join.antt =====
-- How many rows of each kind an outer join has, where each key stands once on either side.
use datarecon_ai_community_e.Prelude.{
  ℕ, suc, ◌+◌, ◌≤◌, ◌≡◌, refl, Bool, true, false, not, List, [], ◌∷◌, ◌++◌, map, if◌then◌else◌,
  exists, select, length, arith, ap, ◌∙◌,
}
use datarecon_ai_community_e.PyText.{Text}
use datarecon_ai_community_e.Engine.Pandas.{
  Row, same_key, count, Merged, left_only, right_only, both, with_partners, join_row, join_left,
  outer_join,
}

abbrev pub is_left : {C : Type 0} → Merged C → Bool
is_left (left_only _) = true
is_left (right_only _) = false
is_left (both _ _) = false

abbrev pub is_right : {C : Type 0} → Merged C → Bool
is_right (left_only _) = false
is_right (right_only _) = true
is_right (both _ _) = false

abbrev pub is_both : {C : Type 0} → Merged C → Bool
is_both (left_only _) = false
is_both (right_only _) = false
is_both (both _ _) = true

module _ {ℓ} {A : Type ℓ} where
  pub count-append : (p : A → Bool) (xs ys : List A) → count p (xs ++ ys) ≡ count p xs + count p ys
  count-append p [] ys = omega arith
  count-append p (x ∷ xs) ys = ground (arith, count-append p xs ys)

  pub count-map {κ} :
      {B : Type κ} (p : A → Bool) (f : B → A) (xs : List B)
      → count p (map f xs) ≡ count (λ x. p (f x)) xs
  count-map p f [] = refl
  count-map p f (x ∷ xs) = ground (arith, count-map p f xs)

module _ {C : Type 0} where
  count_both_none : (l : Row C) (rs : List (Row C)) → count is_both (map (both l) rs) ≡ length rs
  count_both_none l [] = refl
  count_both_none l (r ∷ rs) = ap suc (count_both_none l rs)

  count_other_none :
      (p : Merged C → Bool) (l : Row C) (rs : List (Row C))
      → ((r : Row C) → p (both l r) ≡ false)
      → count p (map (both l) rs) ≡ 0
  count_other_none p l [] h = refl
  count_other_none p l (r ∷ rs) h = ground (arith, h r, count_other_none p l rs h)

  count_right_map :
      (p : Merged C → Bool) (rs : List (Row C)) (b : Bool)
      → ((r : Row C) → p (right_only r) ≡ b)
      → count p (map right_only rs) ≡ (if b then length rs else 0)
  count_right_map p [] b h = ground arith
  count_right_map p (r ∷ rs) b h = ground (arith, h r, count_right_map p rs b h)

  both_partners : (l : Row C) (ps : List (Row C)) → count is_both (with_partners l ps) ≡ length ps
  both_partners l [] = refl
  both_partners l (p ∷ ps) = count_both_none l (p ∷ ps)

  right_partners : (l : Row C) (ps : List (Row C)) → count is_right (with_partners l ps) ≡ 0
  right_partners l [] = refl
  right_partners l (p ∷ ps) = count_other_none is_right l (p ∷ ps) (λ r. refl)

  left_partners :
      (l : Row C) (ps : List (Row C))
      → length ps ≤ 1
      → count is_left (with_partners l ps) + length ps ≡ 1
  left_partners l [] h = omega arith
  left_partners l (p ∷ []) h = omega arith
  left_partners l (p ∷ q ∷ ps) h = absurd (omega arith)

module _ {C : Type 0} (key_equal : C → C → Bool) (keys : List Text) where
  abbrev same : Row C → Row C → Bool
  same = same_key key_equal keys

  abbrev joined : List (Row C) → List (Row C) → List (Merged C)
  joined = join_left key_equal keys

  -- The pairs of rows with one key.
  cross : List (Row C) → List (Row C) → ℕ
  cross [] rs = 0
  cross (l ∷ ls) rs = count (same l) rs + cross ls rs

  cross-nil : (ls : List (Row C)) → cross ls [] ≡ 0
  unfolding cross
  cross-nil [] = refl
  cross-nil (l ∷ ls) = omega (arith, cross-nil ls)

  cross-cons :
      (ls : List (Row C)) (r : Row C) (rs : List (Row C))
      → cross ls (r ∷ rs) ≡ count (λ l. same l r) ls + cross ls rs
  unfolding cross
  cross-cons [] r rs = omega arith
  cross-cons (l ∷ ls) r rs = ground (arith, cross-cons ls r rs)

  both-joined : (ls rs : List (Row C)) → count is_both (joined ls rs) ≡ cross ls rs
  unfolding cross
  both-joined [] rs = refl
  both-joined (l ∷ ls) rs =
      count-append is_both (join_row key_equal keys l rs) (joined ls rs)
      ∙ omega (arith, both_partners l (select (same l) rs), both-joined ls rs)

  right-joined : (ls rs : List (Row C)) → count is_right (joined ls rs) ≡ 0
  right-joined [] rs = refl
  right-joined (l ∷ ls) rs =
      count-append is_right (join_row key_equal keys l rs) (joined ls rs)
      ∙ omega (arith, right_partners l (select (same l) rs), right-joined ls rs)

  left-joined :
      (ls rs : List (Row C))
      → ((l : Row C) → count (same l) rs ≤ 1)
      → count is_left (joined ls rs) + cross ls rs ≡ length ls
  unfolding cross
  left-joined [] rs h = omega arith
  left-joined (l ∷ ls) rs h = omega (
    arith,
    count-append is_left (join_row key_equal keys l rs) (joined ls rs),
    left_partners l (select (same l) rs) (h l),
    left-joined ls rs h,
  )

  abbrev unmatched : List (Row C) → Row C → Bool
  unmatched ls r = not (exists (λ l. same l r) ls)

  -- A row has a partner or is unmatched.
  partner_or_none :
      (ls : List (Row C)) (r : Row C)
      → count (λ l. same l r) ls ≤ 1
      → count (λ l. same l r) ls + (if unmatched ls r then 1 else 0) ≡ 1
  partner_or_none [] r h = omega arith
  partner_or_none (l ∷ ls) r h = ground (arith, partner_or_none ls r)

  right_total :
      (ls rs : List (Row C))
      → ((r : Row C) → count (λ l. same l r) ls ≤ 1)
      → cross ls rs + length (select (unmatched ls) rs) ≡ length rs
  right_total ls [] h = omega (arith, cross-nil ls)
  right_total ls (r ∷ rs) h =
      ground (arith, cross-cons ls r rs, partner_or_none ls r (h r), right_total ls rs h)

  -- Every row of the left side is left over or paired once; so is every row of the right side.
  pub outer_join_left :
      (ls rs : List (Row C))
      → ((l : Row C) → count (same l) rs ≤ 1)
      → count is_left (outer_join key_equal keys ls rs)
          + count is_both (outer_join key_equal keys ls rs)
        ≡ length ls
  outer_join_left ls rs h = omega (
    arith,
    count-append is_left (joined ls rs) (map right_only (select (unmatched ls) rs)),
    count-append is_both (joined ls rs) (map right_only (select (unmatched ls) rs)),
    count_right_map is_left (select (unmatched ls) rs) false (λ r. refl),
    count_right_map is_both (select (unmatched ls) rs) false (λ r. refl),
    both-joined ls rs,
    left-joined ls rs h,
  )

  pub outer_join_right :
      (ls rs : List (Row C))
      → ((r : Row C) → count (λ l. same l r) ls ≤ 1)
      → count is_right (outer_join key_equal keys ls rs)
          + count is_both (outer_join key_equal keys ls rs)
        ≡ length rs
  outer_join_right ls rs h = omega (
    arith,
    count-append is_right (joined ls rs) (map right_only (select (unmatched ls) rs)),
    count-append is_both (joined ls rs) (map right_only (select (unmatched ls) rs)),
    count_right_map is_right (select (unmatched ls) rs) true (λ r. refl),
    count_right_map is_both (select (unmatched ls) rs) false (λ r. refl),
    both-joined ls rs,
    right-joined ls rs,
    right_total ls rs h,
  )

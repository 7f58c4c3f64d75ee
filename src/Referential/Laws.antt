-- ===== src/Referential/Laws.antt =====
-- The orphans that the service finds are those of an independent description.
use datarecon_ai_community_e.Prelude.{
  ℕ, zero, suc, ◌+◌, ◌≤◌, ◌≡◌, refl, Bool, true, false, not, ◌&&◌, List, [], ◌∷◌, map, select,
  exists, exists-select, exists-map, exists_ext, length, length-select-le, take, ◌==◌, ok,
  >>=-eq-ok, ok-injective, arith, Bool-cases, inl, inr, ap, sym, ◌∙◌,
}
use mathlib.Core.Path.{subst}
use datarecon_ai_community_e.PyText.{Text, Unicode, text_eq}
use datarecon_ai_community_e.PyText.Laws.{text_eq_refl}
use datarecon_ai_community_e.Engine.Pandas.{Row, same_key}
use datarecon_ai_community_e.Referential.{
  ReferentialError, JoinPandas, JoinLaws, has_key, has_partner, with_columns, Orphans, parent_side,
  join_orphans, orphans_of,
}

-- The keys are equal, column by column.
abbrev pub pairs_equal :
    {C : Type 0} → (C → C → Bool) → List Text → List Text → Row C → Row C → Bool
pairs_equal eq [] ps l r = true
pairs_equal eq (c ∷ cs) [] l r = true
pairs_equal eq (c ∷ cs) (p ∷ ps) l r = eq (l c) (r p) && pairs_equal eq cs ps l r

abbrev pub all_distinct : List Text → Bool
all_distinct [] = true
all_distinct (c ∷ cs) = not (exists (λ d. text_eq c d) cs) && all_distinct cs

module _ (P : JoinPandas) where
  skip_column :
      (ks : List Text) (n o : Text) (new old : List Text) (l r : Row P.Cell)
      → exists (λ d. text_eq n d) ks ≡ false
      → same_key P.key_equal ks l (with_columns (n ∷ new) (o ∷ old) r)
        ≡ same_key P.key_equal ks l (with_columns new old r)
  skip_column [] n o new old l r h = refl
  skip_column (k ∷ ks) n o new old l r h = ground (arith, skip_column ks n o new old l r)

  -- Columns put under other names give the comparison of the pairs.
  same_key-with_columns :
      (new old : List Text) (l r : Row P.Cell)
      → all_distinct new ≡ true
      → length new ≡ length old
      → same_key P.key_equal new l (with_columns new old r) ≡ pairs_equal P.key_equal new old l r
  same_key-with_columns [] old l r d e = refl
  same_key-with_columns (n ∷ new) [] l r d e = absurd (omega arith)
  same_key-with_columns (n ∷ new) (o ∷ old) l r d e =
      let skip = skip_column new n o new old l r (ground arith) in
      let rest = same_key-with_columns new old l r (ground arith) (omega arith) in
      rw (text_eq_refl n, skip, rest) refl

  module _ (laws : JoinLaws P) where
    partner_has_key :
        (ks : List Text) (l r : Row P.Cell)
        → has_key P ks l ≡ true
        → same_key P.key_equal ks l r ≡ true
        → has_key P ks r ≡ true
    partner_has_key [] l r h s = refl
    partner_has_key (k ∷ ks) l r h s =
        ground (arith, laws.key_na (l k) (r k), partner_has_key ks l r)

    -- A partner's key has no missing value, so that such rows are dropped makes no difference.
    null_free :
        (ks : List Text) (l r : Row P.Cell)
        → has_key P ks l ≡ true
        → (has_key P ks r && same_key P.key_equal ks l r) ≡ same_key P.key_equal ks l r
    null_free ks l r h = elim (Bool-cases (same_key P.key_equal ks l r)) [
      | inl same ↦ rw (same, partner_has_key ks l r h same) refl
      | inr other ↦ rw other (ground arith)
    ]

    pairs_congruent :
        (cs ps : List Text) (l a b : Row P.Cell)
        → length cs ≡ length ps
        → same_key P.key_equal ps a b ≡ true
        → pairs_equal P.key_equal cs ps l a ≡ pairs_equal P.key_equal cs ps l b
    pairs_congruent [] ps l a b e h = refl
    pairs_congruent (c ∷ cs) [] l a b e h = refl
    pairs_congruent (c ∷ cs) (p ∷ ps) l a b e h = ground (
      arith,
      laws.key_sym (a p) (b p),
      laws.key_trans (l c) (a p) (b p),
      laws.key_trans (l c) (b p) (a p),
      pairs_congruent cs ps l a b,
    )

    -- A child row with a key has a partner among the parent's rows as the merge sees them exactly if
    -- a row of the parent has its key.
    has_partner-parent_side :
        (u : Unicode) (describe : ReferentialError → Text) (cs ps : List Text)
        (parents : List (Row P.Cell)) (l : Row P.Cell)
        → all_distinct cs ≡ true
        → length cs ≡ length ps
        → has_key P cs l ≡ true
        → has_partner P cs (parent_side u P describe cs ps parents) l
          ≡ exists (pairs_equal P.key_equal cs ps l) parents
    has_partner-parent_side u describe cs ps parents l d e h =
        exists-select (has_key P cs) (same_key P.key_equal cs l)
          (map (with_columns cs ps) (P.drop_duplicates ps parents))
        ∙ exists_ext _ _ (map (with_columns cs ps) (P.drop_duplicates ps parents))
            (λ r. null_free cs l r h)
        ∙ exists-map (with_columns cs ps) (same_key P.key_equal cs l) (P.drop_duplicates ps parents)
        ∙ exists_ext _ _ (P.drop_duplicates ps parents) (λ r. same_key-with_columns cs ps l r d e)
        ∙ laws.drop_duplicates_lem ps parents (pairs_equal P.key_equal cs ps l)
            (λ a b s. pairs_congruent cs ps l a b e s)

-- A child row that refers to something, and no parent row is it.
abbrev pub is_orphan :
    (P : JoinPandas) → List Text → List Text → List (Row P.Cell) → Row P.Cell → Bool
is_orphan P cs ps parents l =
    has_key P cs l && not (exists (pairs_equal P.key_equal cs ps l) parents)

count_select :
    {A : Type 0} (p q r : A → Bool) (xs : List A)
    → ((x : A) → p x ≡ true → q x ≡ r x)
    → length (select q (select p xs)) ≡ length (select (λ x. p x && r x) xs)
count_select p q r [] h = refl
count_select p q r (x ∷ xs) h = ground (arith, h x, count_select p q r xs h)

length-select-append :
    {A : Type 0} (p : A → Bool) (xs : List A)
    → length (select p xs) + length (select (λ x. not (p x)) xs) ≡ length xs
length-select-append p [] = refl
length-select-append p (x ∷ xs) = ground (arith, length-select-append p xs)

no_checked :
    {A : Type 0} (p r : A → Bool) (xs : List A)
    → length (select p xs) ≡ 0
    → length (select (λ x. p x && r x) xs) ≡ 0
no_checked p r [] h = refl
no_checked p r (x ∷ xs) h = ground (arith, no_checked p r xs)

-- What the counts of an outcome are, for the child's and the parent's rows and their key columns.
pub record IsCounted (P : JoinPandas) (cs ps : List Text) (children parents : List (Row P.Cell))
    (o : Orphans P.Cell) : Type 0 where
  pub child_rows_eq : o.child_rows ≡ length children
  pub checked_rows_eq : o.checked_rows ≡ length (select (has_key P cs) children)
  pub null_key_rows_eq : o.null_key_rows ≡ length (select (λ l. not (has_key P cs l)) children)
  pub orphan_rows_eq : o.orphan_rows ≡ length (select (is_orphan P cs ps parents) children)
  pub orphans_le : o.orphan_rows ≤ o.checked_rows
  pub sample_le : length o.orphans ≤ o.orphan_rows

length-take-le : {A : Type 0} (n : ℕ) (xs : List A) → length (take n xs) ≤ length xs
length-take-le zero xs = omega arith
length-take-le (suc n) [] = omega arith
length-take-le (suc n) (x ∷ xs) = omega (arith, length-take-le n xs)

module _ (u : Unicode) (P : JoinPandas) (laws : JoinLaws P) (describe : ReferentialError → Text)
    (cs ps : List Text) (distinct : all_distinct cs ≡ true) (paired : length cs ≡ length ps)
    (limit : ℕ) (children parents : List (Row P.Cell)) where
  abbrev with_key : List (Row P.Cell)
  with_key = select (has_key P cs) children

  joined-IsCounted :
      (found : List (Row P.Cell))
      → P.left_only_rows cs with_key (parent_side u P describe cs ps parents) ≡ ok found
      → IsCounted P cs ps children parents
          (orphans_of u P describe cs (length children) (length with_key) limit found)
  joined-IsCounted found h =
      let marked =
        laws.left_only_lem cs with_key (parent_side u P describe cs ps parents) found h in
      let orphans =
        count_select (has_key P cs)
          (λ l. not (has_partner P cs (parent_side u P describe cs ps parents) l))
          (λ l. not (exists (pairs_equal P.key_equal cs ps l) parents)) children
          (λ l k.
            ap not (has_partner-parent_side P laws u describe cs ps parents l distinct paired k)) in
      let whole = length-select-append (has_key P cs) children in
      let part =
        length-select-le (λ l. not (has_partner P cs (parent_side u P describe cs ps parents) l))
          with_key in
      record {
        child_rows_eq = refl;
        checked_rows_eq = refl;
        null_key_rows_eq = omega arith;
        orphan_rows_eq = marked ∙ orphans;
        orphans_le = omega arith;
        sample_le = length-take-le limit found;
      }

  -- The orphans are the child rows with a value in every key column and no parent row of that key,
  -- whatever duplicates and missing values the parent has: the outcome counts them, the checked rows
  -- and the rows without a key, where the child's key columns are distinct and pair up with the
  -- parent's, and pandas' merge keeps its laws.
  pub join_orphans-IsCounted :
      (o : Orphans P.Cell)
      → join_orphans u P describe cs ps limit children parents ≡ ok o
      → IsCounted P cs ps children parents o
  unfolding join_orphans
  join_orphans-IsCounted o h = elim (Bool-cases (length with_key == 0)) [
    | inl none ↦
        let nothing : length with_key ≡ 0 = ground arith in
        let whole = length-select-append (has_key P cs) children in
        let no_orphans =
          no_checked (has_key P cs) (λ l. not (exists (pairs_equal P.key_equal cs ps l) parents))
            children nothing in
        subst (IsCounted P cs ps children parents) (ok-injective (rw (none, join_orphans) at h))
          record {
            child_rows_eq = refl;
            checked_rows_eq = sym nothing;
            null_key_rows_eq = omega arith;
            orphan_rows_eq = sym no_orphans;
            orphans_le = omega arith;
            sample_le = omega arith;
          }
    | inr filled ↦
        let (found, e, k) =
          >>=-eq-ok (P.left_only_rows cs with_key (parent_side u P describe cs ps parents)) _
            (rw (filled, join_orphans) at h) in
        subst (IsCounted P cs ps children parents) (ok-injective k) (joined-IsCounted found e)
  ]

-- ===== src/SqlGeneration/Bulk/Laws.antt =====
-- About `parse_table_list` and the names of `generate_bulk`.
use datarecon_ai_community_e.Prelude.{
  ℕ, ◌≡◌, refl, Bool, true, false, not, ◌&&◌, ◌||◌, List, [], ◌∷◌, ◌++◌, map, select, sym, exists,
  append-nil, All, All-imp, arith, Bool-cases, inl, inr, ap,
}
use mathlib.Core.Path.{subst}
use datarecon_ai_community_e.PyText.{Text, Unicode, text_eq, strip, casefold, is_empty}
use datarecon_ai_community_e.PyText.Laws.{text_eq_refl}
use datarecon_ai_community_e.PyText.Strip.{strip-strip}
use datarecon_ai_community_e.SqlGeneration.Bulk.{
  is_separator, split_runs, parse_table_list, is_seen, ordered_from, ordered,
}

-- A name that a list can hold.
pub record IsTableName (name : Text) : Type 0 where
  pub no_separator : exists is_separator name ≡ false
  pub trimmed : strip name ≡ name
  pub not_empty : is_empty name ≡ false

-- The names with the separator between them.
abbrev pub listed_with : ℕ → List Text → Text
listed_with c [] = []
listed_with c (name ∷ []) = name
listed_with c (name ∷ next ∷ names) = name ++ c ∷ listed_with c (next ∷ names)

split_runs_lem :
    (c : ℕ) (s rest : Text)
    → is_separator c ≡ true
    → exists is_separator s ≡ false
    → split_runs false (s ++ c ∷ rest) ≡ s ∷ split_runs true rest
unfolding split_runs
split_runs_lem c [] rest sep h = rw (sep, split_runs) refl
split_runs_lem c (x ∷ s) rest sep h =
    let plain : is_separator x ≡ false = ground arith in
    rw (plain, split_runs, split_runs_lem c s rest sep (ground arith)) refl

split_runs-whole : (s : Text) → exists is_separator s ≡ false → split_runs false s ≡ s ∷ []
unfolding split_runs
split_runs-whole [] h = refl
split_runs-whole (x ∷ s) h =
    let plain : is_separator x ≡ false = ground arith in
    rw (plain, split_runs, split_runs-whole s (ground arith)) refl

-- Behind a separator, a name that is not empty is read as at the beginning.
split_runs-after :
    (s rest : Text)
    → is_empty s ≡ false
    → exists is_separator s ≡ false
    → split_runs true (s ++ rest) ≡ split_runs false (s ++ rest)
unfolding split_runs
split_runs-after [] rest e h = cc
split_runs-after (x ∷ s) rest e h =
    let plain : is_separator x ≡ false = ground arith in rw (plain, split_runs) refl

module _ (c : ℕ) (sep : is_separator c ≡ true) where
  listed_runs :
      (names : List Text)
      → All IsTableName names
      → select (λ part. not (is_empty part)) (map strip (split_runs false (listed_with c names)))
        ≡ names
  listed_runs [] h = unfold strip in unfold split_runs in refl
  listed_runs (name ∷ []) h =
      rw (split_runs-whole name h.0.no_separator, h.0.trimmed, h.0.not_empty) refl
  listed_runs (name ∷ next ∷ names) h =
      let (first, (second, rest)) = h in
      let later = listed_runs (next ∷ names) (second, rest) in
      rw
        (
          split_runs_lem c name (listed_with c (next ∷ names)) sep first.no_separator,
          first.trimmed,
          first.not_empty,
          run_begins next names second,
        )
        (ap (λ l. name ∷ l) later)
    where
      run_begins :
          (next : Text) (names : List Text)
          → IsTableName next
          → split_runs true (listed_with c (next ∷ names))
            ≡ split_runs false (listed_with c (next ∷ names))
      run_begins next [] k =
          rw (← append-nil next) (split_runs-after next [] k.not_empty k.no_separator)
      run_begins next (other ∷ names) k =
          split_runs-after next (c ∷ listed_with c (other ∷ names)) k.not_empty k.no_separator

-- Names that a list can hold, with commas, semicolons or newlines between them, are read back in
-- their order.
pub parse_table_list-listed_with :
    (c : ℕ) (names : List Text)
    → is_separator c ≡ true
    → All IsTableName names
    → parse_table_list (listed_with c names) ≡ names
unfolding parse_table_list
parse_table_list-listed_with c names sep h = listed_runs c sep names h

-- The first list is the second one with some entries left out.
pub data IsPartOf : List Text → List Text → Type 0 where
  nothing : IsPartOf [] []
  kept_part : (x : Text) {xs ys : List Text} → IsPartOf xs ys → IsPartOf (x ∷ xs) (x ∷ ys)
  left_out : (y : Text) {xs ys : List Text} → IsPartOf xs ys → IsPartOf xs (y ∷ ys)

module _ (u : Unicode) where
  -- No two names are the same without regard to case.
  abbrev pub AreDistinct : List Text → Type 0
  AreDistinct [] = Unit
  AreDistinct (name ∷ names) =
      All (λ other. text_eq (casefold u other) (casefold u name) ≡ false) names × AreDistinct names

  -- The name stands in the list, but for its case and the blanks around it.
  abbrev pub is_taken : List Text → Text → Bool
  is_taken names raw = is_seen u (strip raw) (map (casefold u) names)

  abbrev IsKept : List Text → List Text → Text → Type 0
  IsKept seen names raw =
      (is_empty (strip raw) || is_seen u (strip raw) seen || is_taken names raw) ≡ true

  abbrev pub is_new : List Text → Text → Bool
  is_new seen raw = not (is_empty (strip raw)) && not (is_seen u (strip raw) seen)

  ordered_from-new :
      (seen : List Text) (raw : Text) (tables : List Text)
      → is_new seen raw ≡ true
      → ordered_from u seen (raw ∷ tables)
        ≡ strip raw ∷ ordered_from u (casefold u (strip raw) ∷ seen) tables
  unfolding ordered_from strip
  ordered_from-new seen raw tables h = rw (ordered_from, h) refl

  ordered_from-old :
      (seen : List Text) (raw : Text) (tables : List Text)
      → is_new seen raw ≡ false
      → ordered_from u seen (raw ∷ tables) ≡ ordered_from u seen tables
  unfolding ordered_from
  ordered_from-old seen raw tables h = rw (ordered_from, h) refl

  ordered_from-fresh :
      (seen tables : List Text) → All (λ n. is_seen u n seen ≡ false) (ordered_from u seen tables)
  ordered_from-fresh seen [] = unfold ordered_from in tt
  ordered_from-fresh seen (raw ∷ tables) = elim (Bool-cases (is_new seen raw)) [
    | inl new ↦ rw (ordered_from-new seen raw tables new) (
      ground arith,
      All-imp _ _
          (λ (n : Text) (h : is_seen u n (casefold u (strip raw) ∷ seen) ≡ false). ground arith)
          (ordered_from u (casefold u (strip raw) ∷ seen) tables)
          (ordered_from-fresh (casefold u (strip raw) ∷ seen) tables),
    )
    | inr old ↦ rw (ordered_from-old seen raw tables old) (ordered_from-fresh seen tables)
  ]

  ordered_from-AreDistinct : (seen tables : List Text) → AreDistinct (ordered_from u seen tables)
  ordered_from-AreDistinct seen [] = unfold ordered_from in tt
  ordered_from-AreDistinct seen (raw ∷ tables) = elim (Bool-cases (is_new seen raw)) [
    | inl new ↦ rw (ordered_from-new seen raw tables new) (
      All-imp _ _
          (λ (n : Text) (h : is_seen u n (casefold u (strip raw) ∷ seen) ≡ false). ground arith)
          (ordered_from u (casefold u (strip raw) ∷ seen) tables)
          (ordered_from-fresh (casefold u (strip raw) ∷ seen) tables),
      ordered_from-AreDistinct (casefold u (strip raw) ∷ seen) tables,
    )
    | inr old ↦ rw (ordered_from-old seen raw tables old) (ordered_from-AreDistinct seen tables)
  ]

  ordered_from-IsKept :
      (seen tables : List Text) → All (IsKept seen (ordered_from u seen tables)) tables
  ordered_from-IsKept seen [] = unfold ordered_from in tt
  ordered_from-IsKept seen (raw ∷ tables) = elim (Bool-cases (is_new seen raw)) [
    | inl new ↦
        let later = ordered_from u (casefold u (strip raw) ∷ seen) tables in
        subst (λ names. All (IsKept seen names) (raw ∷ tables))
          (sym (ordered_from-new seen raw tables new))
          (
            rw (text_eq_refl (casefold u (strip raw))) (ground arith),
            All-imp (IsKept (casefold u (strip raw) ∷ seen) later) (IsKept seen (strip raw ∷ later))
                (λ n h. ground arith) tables
                (ordered_from-IsKept (casefold u (strip raw) ∷ seen) tables),
          )
    | inr old ↦
        subst (λ names. All (IsKept seen names) (raw ∷ tables))
          (sym (ordered_from-old seen raw tables old))
          (ground arith, ordered_from-IsKept seen tables)
  ]

  ordered_from-trimmed :
      (seen tables : List Text) → All (λ n. strip n ≡ n) (ordered_from u seen tables)
  ordered_from-trimmed seen [] = unfold ordered_from in tt
  ordered_from-trimmed seen (raw ∷ tables) = elim (Bool-cases (is_new seen raw)) [
    | inl new ↦
        rw (ordered_from-new seen raw tables new)
          (strip-strip raw, ordered_from-trimmed (casefold u (strip raw) ∷ seen) tables)
    | inr old ↦ rw (ordered_from-old seen raw tables old) (ordered_from-trimmed seen tables)
  ]

  ordered_from-IsPartOf :
      (seen tables : List Text) → IsPartOf (ordered_from u seen tables) (map strip tables)
  ordered_from-IsPartOf seen [] = unfold ordered_from in nothing
  ordered_from-IsPartOf seen (raw ∷ tables) = elim (Bool-cases (is_new seen raw)) [
    | inl new ↦
        rw (ordered_from-new seen raw tables new)
          (kept_part (strip raw) (ordered_from-IsPartOf (casefold u (strip raw) ∷ seen) tables))
    | inr old ↦
        rw (ordered_from-old seen raw tables old)
          (left_out (strip raw) (ordered_from-IsPartOf seen tables))
  ]

  ordered_from-named :
      (seen tables : List Text) → All (λ n. is_empty n ≡ false) (ordered_from u seen tables)
  ordered_from-named seen [] = unfold ordered_from in tt
  ordered_from-named seen (raw ∷ tables) = elim (Bool-cases (is_new seen raw)) [
    | inl new ↦
        let named : is_empty (strip raw) ≡ false = ground arith in
        rw (ordered_from-new seen raw tables new)
          (named, ordered_from-named (casefold u (strip raw) ∷ seen) tables)
    | inr old ↦ rw (ordered_from-old seen raw tables old) (ordered_from-named seen tables)
  ]

  pub ordered-IsPartOf : (tables : List Text) → IsPartOf (ordered u tables) (map strip tables)
  unfolding ordered
  ordered-IsPartOf tables = ordered_from-IsPartOf [] tables

  pub ordered-named : (tables : List Text) → All (λ n. is_empty n ≡ false) (ordered u tables)
  unfolding ordered
  ordered-named tables = ordered_from-named [] tables

  pub ordered-AreDistinct : (tables : List Text) → AreDistinct (ordered u tables)
  unfolding ordered
  ordered-AreDistinct tables = ordered_from-AreDistinct [] tables

  pub ordered-trimmed : (tables : List Text) → All (λ n. strip n ≡ n) (ordered u tables)
  unfolding ordered
  ordered-trimmed tables = ordered_from-trimmed [] tables

  pub ordered-taken :
      (tables : List Text)
      → All (λ raw. (is_empty (strip raw) || is_taken (ordered u tables) raw) ≡ true) tables
  unfolding ordered
  ordered-taken tables =
      All-imp (IsKept [] (ordered_from u [] tables)) _ (λ n k. ground arith) tables
        (ordered_from-IsKept [] tables)

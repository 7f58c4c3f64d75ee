-- ===== src/Runs/Batches/Laws.antt =====
-- Batches cover every row once, and export names are safe.
use datarecon_ai_community_e.Prelude.{
  ℕ, zero, suc, ◌+◌, ◌/◌, ◌≤◌, ◌≡◌, refl, Bool, true, false, List, [], ◌∷◌, ◌++◌, append-nil,
  if◌then◌else◌, length, take, drop, take-drop, drop_all, drop-drop, ltb, leb, ◌==◌, ok, All, arith,
  Bool-cases, inl, inr, ap, sym, ◌∙◌,
}
use datarecon_ai_community_e.PyText.{Text, is_empty, strip_left, strip_right}
use datarecon_ai_community_e.Runs.Batches.{
  is_safe, replace_unsafe, or_export, is_underscore, sanitize_export_name, ReportBatch,
  batches_from, batch_frame,
}

module _ {Row : Type 0} where
  abbrev pub all_rows : List (ReportBatch Row) → List Row
  all_rows [] = []
  all_rows (b ∷ batches) = b.dataframe ++ all_rows batches

  take-le : (n : ℕ) (xs : List Row) → length (take n xs) ≤ n
  take-le zero xs = omega arith
  take-le (suc n) [] = omega arith
  take-le (suc n) (x ∷ xs) = omega (arith, take-le n xs)

  all_rows-batches_from :
      (fuel : ℕ) (name : Text) (size total : ℕ) (df : List Row) (number start : ℕ)
      → 1 ≤ size
      → length df ≤ start + fuel
      → all_rows (batches_from fuel name size total df number start) ≡ drop start df
  unfolding batches_from
  all_rows-batches_from zero name size total df number start h enough =
      sym (drop_all start df (omega arith))
  all_rows-batches_from (suc fuel) name size total df number start h enough =
      elim (Bool-cases (ltb start (length df))) [
        | inl more ↦
            rw
              (
                batches_from,
                more,
                all_rows-batches_from fuel name size total df (number + 1) (start + size) h
                    (omega arith),
              )
              (ap (λ l. take size (drop start df) ++ l) (sym (drop-drop start size df))
                ∙ take-drop size (drop start df))
        | inr over ↦ rw (batches_from, over, drop_all start df (ground arith)) refl
      ]

  small_batches :
      (fuel : ℕ) (name : Text) (size total : ℕ) (df : List Row) (number start : ℕ)
      → All (λ b. length (b.dataframe) ≤ size) (batches_from fuel name size total df number start)
  unfolding batches_from
  small_batches zero name size total df number start = tt
  small_batches (suc fuel) name size total df number start =
      elim (Bool-cases (ltb start (length df))) [
        | inl more ↦
            rw (batches_from, more)
              (
                take-le size (drop start df),
                small_batches fuel name size total df (number + 1) (start + size),
              )
        | inr over ↦ rw (batches_from, over) tt
      ]

  -- With a positive batch size a frame is split: the batches hold its rows in their order, each of
  -- them once, and no batch has more rows than the size.
  pub batch_frame_lem :
      (name : Text) (df : List Row) (size : ℕ)
      → 1 ≤ size
      → (batches : List (ReportBatch Row)) × (batch_frame name df size ≡ ok batches)
        × (all_rows batches ≡ df)
        × All (λ b. length (b.dataframe) ≤ size) batches
  unfolding batch_frame
  batch_frame_lem name df zero h = absurd (omega arith)
  batch_frame_lem name df (suc n) h = elim (Bool-cases (leb (length df) (suc n))) [
    | inl fits ↦ (
      record {
        name = name;
        number = 1;
        total = 1;
        first_row = if length df == 0 then 0 else 1;
        last_row = length df;
        dataframe = df;
      }
          ∷ [],
      rw (batch_frame, fits) refl,
      append-nil df,
      (ground arith, tt),
    )
    | inr over ↦ (
      batches_from (length df) name (suc n) ((length df + n) / suc n) df 1 0,
      rw (batch_frame, over) refl,
      all_rows-batches_from (length df) name (suc n) _ df 1 0 (omega arith) (omega arith),
      small_batches (length df) name (suc n) _ df 1 0,
    )
  ]

abbrev pub IsSafe : Text → Type 0
IsSafe s = All (λ c. is_safe c ≡ true) s

replace_unsafe-IsSafe : (inside : Bool) (s : Text) → IsSafe (replace_unsafe inside s)
unfolding replace_unsafe
replace_unsafe-IsSafe inside [] = tt
replace_unsafe-IsSafe inside (c ∷ s) = elim (Bool-cases (is_safe c)) [
  | inl safe ↦ rw safe (safe, replace_unsafe-IsSafe false s)
  | inr unsafe ↦ rw unsafe (elim (Bool-cases inside) [
    | inl inner ↦ rw inner (replace_unsafe-IsSafe true s)
    | inr outer ↦ rw outer (refl, replace_unsafe-IsSafe true s)
  ])
]

strip_left-IsSafe : (p : ℕ → Bool) (s : Text) → IsSafe s → IsSafe (strip_left p s)
unfolding strip_left
strip_left-IsSafe p [] h = tt
strip_left-IsSafe p (c ∷ s) h = elim (Bool-cases (p c)) [
  | inl drops ↦ rw drops (strip_left-IsSafe p s h.1)
  | inr keeps ↦ rw keeps h
]

strip_right-IsSafe : (p : ℕ → Bool) (s : Text) → IsSafe s → IsSafe (strip_right p s)
unfolding strip_right
strip_right-IsSafe p [] h = tt
strip_right-IsSafe p (c ∷ s) h = elim (Bool-cases (p c)) [
  | inl drops ↦ rw drops (elim (Bool-cases (is_empty (strip_right p s))) [
    | inl last ↦ rw last tt
    | inr inner ↦ rw inner (h.0, strip_right-IsSafe p s h.1)
  ])
  | inr keeps ↦ rw keeps (h.0, strip_right-IsSafe p s h.1)
]

or_export-IsSafe : (s : Text) → IsSafe s → (is_empty (or_export s) ≡ false) × IsSafe (or_export s)
or_export-IsSafe [] h = (refl, (refl, (refl, (refl, (refl, (refl, (refl, tt)))))))
or_export-IsSafe (c ∷ s) h = (refl, h)

-- An export name is never empty and holds only letters, digits, dots, underscores and dashes.
pub sanitize_export_name-IsSafe :
    (name : Text)
    → (is_empty (sanitize_export_name name) ≡ false) × IsSafe (sanitize_export_name name)
unfolding sanitize_export_name
sanitize_export_name-IsSafe name = or_export-IsSafe _ (
    strip_right-IsSafe is_underscore _
      (strip_left-IsSafe is_underscore _ (replace_unsafe-IsSafe false name)))

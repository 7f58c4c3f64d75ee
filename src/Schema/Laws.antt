-- ===== src/Schema/Laws.antt =====
-- What the rows of a schema comparison say, and when it passes.
use mathlib.Core.Option
use mathlib.Core.Option.{some-injective}
use mathlib.Core.Path.{subst}
use datarecon_ai_community_e.Prelude.{
  ℕ, ◌≡◌, refl, Bool, true, false, Option, none, some, List, [], ◌∷◌, if◌then◌else◌, ◌==◌, All, ◌↔◌,
  arith, inl, inr, Option-cases,
}
use datarecon_ai_community_e.PyText.{Text, Unicode}
use datarecon_ai_community_e.PyText.Dict.{get}
use datarecon_ai_community_e.Domain.{pass}
use datarecon_ai_community_e.Schema.{
  Dtypes, ColumnStatus, ColumnCatalogMetadata, ColumnRow, SchemaFrame, missing_in_target,
  extra_in_target, type_mismatch, position_mismatch, matching, status_of, same_option,
  same_category, type_of, column_row, rows_of, compare_schemas, is_critical, has_attribute_mismatch,
  schema_status, shown_name, keys_of, from_keys, positions,
}

-- What the cells of a row say of its status.
abbrev pub status_from : ColumnRow → ColumnStatus
status_from r = elim r.target_position [
  | none ↦ missing_in_target
  | some j ↦ (elim r.source_position [
    | none ↦ extra_in_target
    | some i ↦
        if same_option same_category r.source_type r.target_type
        then (if i == j then matching else position_mismatch)
        else type_mismatch
  ])
]

mapped_rows :
    (o : Option (List ColumnRow)) (r : ColumnRow) (rows : List ColumnRow)
    → Option.map (λ rs. r ∷ rs) o ≡ some rows
    → (r.status ≡ status_from r)
    → ((rs : List ColumnRow) → o ≡ some rs → All (λ x. x.status ≡ status_from x) rs)
    → All (λ x. x.status ≡ status_from x) rows
mapped_rows none r rows h p f = absurd (let e = h in cc)
mapped_rows (some rs) r rows h p f =
    subst (All (λ x. x.status ≡ status_from x)) (some-injective _ _ h) (p, f rs refl)

module _ (u : Unicode) (T : Dtypes) (src tgt : SchemaFrame u T)
    (source_catalog target_catalog : Option (List ColumnCatalogMetadata)) where
  status_from_positions :
      (s t : Option ℕ) (b : Bool)
      → status_of
          (elim t [ none ↦ false | some _ ↦ true ])
          (elim s [ none ↦ false | some _ ↦ true ])
          b
          (same_option (λ i j. i == j) s t)
        ≡ elim t [
          | none ↦ missing_in_target
          | some j ↦ (elim s [
            | none ↦ extra_in_target
            | some i ↦ if b then (if i == j then matching else position_mismatch) else type_mismatch
          ])
        ]
  status_from_positions s none b = refl
  status_from_positions none (some j) b = refl
  status_from_positions (some i) (some j) b = ground arith

  column_row-status :
      (key col : Text)
      → (column_row u T src tgt source_catalog target_catalog key col).status
        ≡ status_from (column_row u T src tgt source_catalog target_catalog key col)
  unfolding column_row
  column_row-status key col =
      status_from_positions (get key (positions u T src tgt source_catalog target_catalog src))
        (get key (positions u T src tgt source_catalog target_catalog tgt))
        (same_option same_category (type_of u T src key) (type_of u T tgt key))

  rows_of-All :
      (ks : List Text) (rows : List ColumnRow)
      → rows_of u T src tgt source_catalog target_catalog ks ≡ some rows
      → All (λ r. r.status ≡ status_from r) rows
  unfolding rows_of
  rows_of-All [] [] h = tt
  rows_of-All [] (r ∷ rows) h = absurd (let e = h in cc)
  rows_of-All (key ∷ ks) rows h =
      elim (Option-cases (shown_name u T src tgt source_catalog target_catalog key)) [
        | inl absent ↦ absurd (let e = rw (absent, rows_of) at h in cc)
        | inr (col, found) ↦
            mapped_rows (rows_of u T src tgt source_catalog target_catalog ks)
              (column_row u T src tgt source_catalog target_catalog key col) rows
              (rw (found, rows_of) at h) (column_row-status key col) (rows_of-All ks)
      ]

  -- The status of each row follows from its other cells: it is MATCH exactly for a column that both
  -- sides have, with one type and at one position, and the first of the failing tests names it
  -- otherwise.
  pub compare_schemas-statuses :
      (rows : List ColumnRow)
      → compare_schemas u T src tgt source_catalog target_catalog ≡ some rows
      → All (λ r. r.status ≡ status_from r) rows
  unfolding compare_schemas
  compare_schemas-statuses rows h =
      rows_of-All
        (keys_of (
          from_keys
            (from_keys [] (keys_of (positions u T src tgt source_catalog target_catalog src)))
            (keys_of (positions u T src tgt source_catalog target_catalog tgt))))
        rows h

-- A schema comparison passes exactly if no column is missing, extra or of another type, and no
-- attribute that both catalogs give differs.
pub schema_status_lem :
    (rows : List ColumnRow)
    → (schema_status rows ≡ pass)
      ↔ All (λ r. (is_critical r.status ≡ false) × (has_attribute_mismatch r ≡ false)) rows
unfolding schema_status
schema_status_lem [] = (λ h. tt, λ h. refl)
schema_status_lem (r ∷ rows) = let ih = schema_status_lem rows in ground (arith, ih.0, ih.1)

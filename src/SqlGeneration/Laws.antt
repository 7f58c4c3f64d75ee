-- ===== src/SqlGeneration/Laws.antt =====
-- About `generate` and `generate_bulk` of sql_generation_service.py.
use datarecon_ai_community_e.Prelude.{
  ◌≡◌, refl, false, true, ◌||◌, Option, none, some, List, [], ◌∷◌, map, select, All, Result, ok,
  err, ◌>>=◌, ◌⊎◌, inl, inr, Bool-cases,
}
use datarecon_ai_community_e.PyText.{Text, Unicode, text, strip, is_empty}
use datarecon_ai_community_e.Domain.{
  ValidationModule, schema, record_count, duplicate, nullability, aggregation, full_data,
  referential_integrity, profiling, file_comparison,
}
use datarecon_ai_community_e.Domain.Databases.{DatabaseType}
use datarecon_ai_community_e.Connections.{Connection, ConnectionError}
use datarecon_ai_community_e.Connections.Store.{ConnectionRow, get_by_id}
use datarecon_ai_community_e.Connections.Service.{Outside}
use datarecon_ai_community_e.Extraction.{
  Extractor, raised, of_connection, type_of, get_table_catalog_metadata, get_database_type,
}
use datarecon_ai_community_e.Schema.{ColumnCatalogMetadata}
use datarecon_ai_community_e.SqlGeneration.{
  TableGeneration, is_supported, for_module, generated, failed, no_metadata, of_catalog, generate,
  generate_all, generate_bulk,
}
use datarecon_ai_community_e.SqlGeneration.Quoting.{quoter_of}
use datarecon_ai_community_e.SqlGeneration.Bulk.{ordered}
use datarecon_ai_community_e.SqlGeneration.Bulk.Laws.{
  AreDistinct, is_taken, IsPartOf, ordered-IsPartOf, ordered-named, ordered-AreDistinct,
  ordered-trimmed, ordered-taken,
}

-- A table's statements are those of the supported modules, in their order, or it has none and an
-- error says why.
abbrev pub IsOutcome : List ValidationModule → TableGeneration → Type 0
IsOutcome modules g =
    ((g.error ≡ none) × (map (λ s. s.module_kind) g.statements ≡ select is_supported modules))
    ⊎ ((g.statements ≡ []) × ((message : Text) × (g.error ≡ some message)))

module _ (o : Outside) (x : Extractor) (describe : ConnectionError → Text) (u : Unicode)
    (show_list : List Text → Text) (connections : List ConnectionRow) (connection_id : Text)
    (modules : List ValidationModule) where
  type_known :
      {A : Type 0} (f : Connection → Text → Result Text (Option A))
      (r : Result ConnectionError (Option Connection)) (m : Option A)
      → (raised o x describe r >>= of_connection o x describe f) ≡ ok m
      → (t : Option DatabaseType) × ((raised o x describe r >>= λ found.
            ok (type_of o x describe found))
          ≡ ok t)
  type_known f (ok c) m h = (type_of o x describe c, refl)
  type_known f (err e) m h = absurd (let k = h in cc)

  get_database_type-ok :
      (table : Text) (m : Option (List ColumnCatalogMetadata))
      → get_table_catalog_metadata o x describe connection_id table connections ≡ ok m
      → (t : Option DatabaseType) × (get_database_type o x describe connection_id connections
          ≡ ok t)
  unfolding get_table_catalog_metadata get_database_type
  get_database_type-ok table m h =
      type_known (λ c. x.catalog_columns c table) (get_by_id connection_id connections) m h

  for_module-kind :
      (table : Text) (columns : List ColumnCatalogMetadata) (t : Option DatabaseType)
      (m : ValidationModule)
      → (for_module show_list m table columns (quoter_of t)).module_kind ≡ m
  unfolding for_module
  for_module-kind table columns t schema = refl
  for_module-kind table columns t record_count = refl
  for_module-kind table columns t duplicate = refl
  for_module-kind table columns t nullability = refl
  for_module-kind table columns t aggregation = refl
  for_module-kind table columns t full_data = refl
  for_module-kind table columns t referential_integrity = refl
  for_module-kind table columns t profiling = refl
  for_module-kind table columns t file_comparison = refl

  for_module-kinds :
      (table : Text) (columns : List ColumnCatalogMetadata) (t : Option DatabaseType)
      (ms : List ValidationModule)
      → map (λ s. s.module_kind) (map (λ m. for_module show_list m table columns (quoter_of t)) ms)
        ≡ ms
  for_module-kinds table columns t [] = refl
  for_module-kinds table columns t (m ∷ ms) =
      rw (for_module-kind table columns t m, for_module-kinds table columns t ms) refl

  abbrev pub Returned : Text → Result Text TableGeneration → Type 0
  Returned table r = (g : TableGeneration) × (r ≡ ok g) × (g.table ≡ table) × IsOutcome modules g

  Returned-failed : (table message : Text) → Returned table (ok (failed table message))
  Returned-failed table message = (failed table message, refl, refl, inr (refl, (message, refl)))

  of_catalog-Returned :
      (table : Text) (a : Result Text (Option (List ColumnCatalogMetadata)))
      → get_table_catalog_metadata o x describe connection_id table connections ≡ a
      → Returned table
          (of_catalog o x describe u show_list connections connection_id table modules a)
  of_catalog-Returned table (err message) h = Returned-failed table message
  of_catalog-Returned table (ok none) h = Returned-failed table (no_metadata table)
  of_catalog-Returned table (ok (some [])) h = Returned-failed table (no_metadata table)
  of_catalog-Returned table (ok (some (c ∷ columns))) h =
      let (t, known) = get_database_type-ok table (some (c ∷ columns)) h in
      rw known (
        generated o x describe u show_list connections table (c ∷ columns) modules t,
        refl,
        refl,
        inl (refl, for_module-kinds table (c ∷ columns) t (select is_supported modules)),
      )

  -- Whatever the store, the cipher and the driver raise for a table, `generate` returns: with the
  -- stripped name of the table, and either no error and one statement for each supported module that
  -- was asked for, in their order, or an error and no statement.
  pub generate-Returned :
      (raw : Text)
      → Returned
          (strip raw)
          (generate o x describe u show_list connections connection_id raw modules)
  unfolding generate
  generate-Returned raw = elim (Bool-cases (is_empty (strip raw))) [
    | inl blank ↦
        rw (blank, generate) (Returned-failed (strip raw) (text "Table name is required."))
    | inr named ↦ rw (named, generate) (of_catalog-Returned (strip raw) _ refl)
  ]

  abbrev pub tables_of : List TableGeneration → List Text
  tables_of gs = map (λ g. g.table) gs

  abbrev pub ReturnedAll : List Text → Result Text (List TableGeneration) → Type 0
  ReturnedAll names r =
      (gs : List TableGeneration) × (r ≡ ok gs)
      × (tables_of gs ≡ names)
      × All (IsOutcome modules) gs

  generate_all-Returned :
      (names : List Text)
      → All (λ n. strip n ≡ n) names
      → ReturnedAll names
          (generate_all o x describe u show_list connections connection_id names modules)
  unfolding generate_all
  generate_all-Returned [] h = ([], refl, refl, tt)
  generate_all-Returned (name ∷ names) h =
      let (g, done, same, outcome) = generate-Returned name in
      let (gs, all_done, all_same, outcomes) = generate_all-Returned names h.1 in
      (g ∷ gs, rw (done, all_done) refl, rw (same, h.0, all_same) refl, (outcome, outcomes))

  -- A bulk run returns whatever fails, with one outcome for each of its tables, in their order.
  -- These are names that were asked for, without the blanks around them, in the order in which they
  -- were asked for; none is blank, no two are the same without regard to case, and every name that
  -- was asked for and is not blank is one of them, but for its case and the blanks around it.
  pub generate_bulk-Returned :
      (raws : List Text)
      → (names : List Text) × ReturnedAll names
          (generate_bulk o x describe u show_list connections connection_id raws modules)
        × IsPartOf names (map strip raws)
        × All (λ n. is_empty n ≡ false) names
        × AreDistinct u names
        × All (λ raw. (is_empty (strip raw) || is_taken u names raw) ≡ true) raws
  unfolding generate_bulk
  generate_bulk-Returned raws = (
    ordered u raws,
    generate_all-Returned (ordered u raws) (ordered-trimmed u raws),
    ordered-IsPartOf u raws,
    ordered-named u raws,
    ordered-AreDistinct u raws,
    ordered-taken u raws,
  )

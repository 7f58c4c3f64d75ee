-- ===== src/Connections/Service/Reread.antt =====
-- Which connections pass the checks again when they are read from the table.
use datarecon_ai_community_e.Prelude.{
  ◌≡◌, ◌≢◌, Bool, true, false, ◌||◌, Option, some, List, ok, ◌>>◌, raise_if, >>=-eq-ok, arith, ap,
  ◌∙◌,
}
use mathlib.Core.Path.{subst}
use datarecon_ai_community_e.PyText.{Text, is_empty, strip}
use datarecon_ai_community_e.PyText.Dict.{Dict}
use datarecon_ai_community_e.Domain.Databases.{DatabaseType}
use datarecon_ai_community_e.Connections.{
  Connection, validate, validate_type, options, name_required,
}
use datarecon_ai_community_e.Connections.Store.{ConnectionRow, get_by_id}
use datarecon_ai_community_e.Connections.Store.Laws.{kept}
use datarecon_ai_community_e.Connections.Store.Refinement.{Directory, Represents}
use datarecon_ai_community_e.Connections.Service.{Outside, create_connection}
use datarecon_ai_community_e.Connections.Service.Laws.{
  FernetLaws, create_connection-ok, create_connection-read,
}

-- The types that need a field which the repository does not store.
abbrev pub loses_required : DatabaseType → Bool
loses_required DatabaseType.databricks = true
loses_required DatabaseType.jdbc = true
loses_required DatabaseType.aws_s3 = true
loses_required DatabaseType.azure_blob = true
loses_required DatabaseType.azure_data_lake = true
loses_required DatabaseType.gcs = true
loses_required _ = false

-- The types that may be described by such a field or by others.
abbrev pub may_lose : DatabaseType → Bool
may_lose DatabaseType.idms = true
may_lose DatabaseType.mongodb = true
may_lose _ = false

module _ (loads : Text → Dict Text) (c : Connection) where
  kept-raises :
      (t : DatabaseType) → loses_required t ≡ true → validate_type loads (kept c) t ≢ ok tt
  unfolding validate_type kept
  kept-raises DatabaseType.databricks h = ground arith
  kept-raises t h = ground arith

  kept-passes :
      (t : DatabaseType)
      → loses_required t ≡ false
      → may_lose t ≡ false
      → validate_type loads (kept c) t ≡ validate_type loads c t
  unfolding validate_type kept
  kept-passes DatabaseType.databricks h k = cc
  kept-passes t h k = ground arith

  pub kept-validate_raises : loses_required c.database_type ≡ true → validate loads (kept c) ≢ ok tt
  unfolding validate kept
  kept-validate_raises h e = kept-raises c.database_type h (
      by_tt (
        >>=-eq-ok
          (raise_if (is_empty c.connection_name || is_empty (strip c.connection_name))
            name_required)
          _ e))
    where
      by_tt :
          (x : Unit {0}) × (raise_if
                (is_empty c.connection_name || is_empty (strip c.connection_name))
                name_required
              ≡ ok x)
            × (validate_type loads (kept c) c.database_type ≡ ok tt)
          → validate_type loads (kept c) c.database_type ≡ ok tt
      by_tt (x, h, k) = k

  pub kept-validate_passes :
      loses_required c.database_type ≡ false
      → may_lose c.database_type ≡ false
      → validate loads (kept c) ≡ validate loads c
  unfolding validate kept
  kept-validate_passes h k =
      ap
        (λ r.
          raise_if (is_empty c.connection_name || is_empty (strip c.connection_name)) name_required
          >> r)
        (kept-passes c.database_type h k)

module _ (o : Outside) (table : List ConnectionRow) (m : Directory)
    (represents : Represents table m) where
  -- A connection that was created and is read back fails the checks that it passed, where its type
  -- needs a field that the repository does not store (Databricks, JDBC and cloud storage); of the
  -- other types it passes them again, but for IDMS and MongoDB, where that depends on the fields
  -- that were filled.
  pub create_connection-reread :
      (c : Connection) (password : Option Text) (saved : Connection) (table' : List ConnectionRow)
      → FernetLaws o
      → create_connection o c password table ≡ ok (saved, table')
      → (again : Connection) × (get_by_id c.connection_id table' ≡ ok (some again))
        × (loses_required c.database_type ≡ true → validate o.loads again ≢ ok tt)
        × (loses_required c.database_type ≡ false
            → may_lose c.database_type ≡ false
            → validate o.loads again ≡ ok tt)
  unfolding validate validate_type options
  create_connection-reread c password saved table' laws h =
      let (valid, same, added) = create_connection-ok o c password saved table table' h in
      let (read, _) = create_connection-read o table m represents c password saved table' laws h in
      (
        kept saved,
        read,
        λ lost.
            kept-validate_raises o.loads saved
              (subst (λ (s : Connection). loses_required s.database_type ≡ true) same lost),
        λ not_lost sure.
            kept-validate_passes o.loads saved
              (subst (λ (s : Connection). loses_required s.database_type ≡ false) same not_lost)
              (subst (λ (s : Connection). may_lose s.database_type ≡ false) same sure)
            ∙ subst (λ (s : Connection). validate o.loads s ≡ ok tt) same valid,
      )

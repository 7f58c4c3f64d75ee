-- ===== src/Referential.antt =====
-- datarecon/application/services/referential_integrity_service.py: child rows whose key no parent
-- row has.
-- The calls of pandas are a record of functions, and what is relied on of them the record `Laws`.
-- Percentages are in units of 0.0001 %; a sample limit is not negative.
pub mod Laws
mod Tests
use datarecon_ai_community_e.Prelude.{
  ℕ, zero, suc, ◌+◌, ◌-◌, ◌*◌, ◌≡◌, Bool, true, false, not, ◌&&◌, ◌||◌, Option, none, some, List,
  [], ◌∷◌, map, if◌then◌else◌, select, exists, length, take, ◌==◌, Result, ok, err, ◌>>=◌, ◌>>◌,
  raise_if, round_ratio,
}
use datarecon_ai_community_e.PyText.{Text, Unicode, text, text_eq}
use datarecon_ai_community_e.ColumnMatching.{resolve_all}
use datarecon_ai_community_e.Domain.{ValidationRun, RunStatus, pass, fail}
use datarecon_ai_community_e.Engine.Pandas.{Row, same_key}
use datarecon_ai_community_e.Runs.Batches.{digits}
use datarecon_ai_community_e.Runs.Execution.{Call, Computed, perform}

pub data ReferentialError : Type 0 where
  no_child_columns : ReferentialError
  unpaired_columns : ℕ → ℕ → ReferentialError
  child_columns_missing : List Text → ReferentialError
  parent_columns_missing : List Text → ReferentialError

pub record Table (C : Type 0) : Type 0 where
  pub columns : List Text
  pub rows : List (Row C)

pub record JoinPandas : Type 1 where
  pub Cell : Type 0
  pub is_na : Cell → Bool
  pub key_equal : Cell → Cell → Bool
  -- df.drop_duplicates() of the key columns
  pub drop_duplicates : List Text → List (Row Cell) → List (Row Cell)
  -- the rows of left.merge(right, on=keys, how="left", indicator=...) that are left_only
  pub left_only_rows : List Text → List (Row Cell) → List (Row Cell) → Result Text (List (Row Cell))

-- The rows have a value in every key column, and a partner of a row has its key.
module _ (P : JoinPandas) where
  abbrev pub has_key : List Text → Row P.Cell → Bool
  has_key keys r = not (exists (λ k. P.is_na (r k)) keys)

  abbrev pub has_partner : List Text → List (Row P.Cell) → Row P.Cell → Bool
  has_partner keys rows l = exists (same_key P.key_equal keys l) rows

  -- What pandas documents of the calls above.
  pub record JoinLaws : Type 0 where
    pub key_sym : (a b : P.Cell) → P.key_equal a b ≡ true → P.key_equal b a ≡ true
    pub key_trans :
        (a b c : P.Cell) → P.key_equal a b ≡ true → P.key_equal b c ≡ true → P.key_equal a c ≡ true
    pub key_na : (a b : P.Cell) → P.key_equal a b ≡ true → P.is_na a ≡ P.is_na b
    -- dropping duplicates leaves a row of every key, and invents none
    pub drop_duplicates_lem :
        (keys : List Text) (rows : List (Row P.Cell)) (p : Row P.Cell → Bool)
        → ((a b : Row P.Cell) → same_key P.key_equal keys a b ≡ true → p a ≡ p b)
        → exists p (P.drop_duplicates keys rows) ≡ exists p rows
    -- a left merge marks one row for each left row without a partner
    pub left_only_lem :
        (keys : List Text) (left right found : List (Row P.Cell))
        → P.left_only_rows keys left right ≡ ok found
        → length found ≡ length (select (λ l. not (has_partner keys right l)) left)

-- The old column that is to be called `name`.
abbrev pub old_column : List Text → List Text → Text → Text
old_column [] old name = name
old_column (n ∷ new) [] name = name
old_column (n ∷ new) (o ∷ old) name = if text_eq n name then o else old_column new old name

-- parent_side.columns = child_keys
abbrev pub with_columns : {C : Type 0} → List Text → List Text → Row C → Row C
with_columns new old r name = r (old_column new old name)

pub record Orphans (C : Type 0) : Type 0 where
  pub child_rows : ℕ
  pub checked_rows : ℕ
  pub null_key_rows : ℕ
  pub orphan_rows : ℕ
  pub orphan_percent : ℕ
  pub distinct_orphan_keys : ℕ
  pub orphans : List (Row C)

-- `if missing: raise`
abbrev pub none_missing :
    (List Text → ReferentialError) → List Text → Result ReferentialError (Unit {0})
none_missing e [] = ok tt
none_missing e (m ∷ missing) = err (e (m ∷ missing))

module _ (u : Unicode) (P : JoinPandas) (describe : ReferentialError → Text) where
  abbrev pub described : {A : Type 0} → Result ReferentialError A → Result Text A
  described (ok a) = ok a
  described (err e) = err (describe e)

  -- The parent's rows as the merge sees them.
  abbrev pub parent_side : List Text → List Text → List (Row P.Cell) → List (Row P.Cell)
  parent_side child_keys parent_keys rows =
      select (has_key P child_keys)
        (map (with_columns child_keys parent_keys) (P.drop_duplicates parent_keys rows))

  -- The outcome where rows were checked.
  abbrev pub orphans_of : List Text → ℕ → ℕ → ℕ → List (Row P.Cell) → Orphans P.Cell
  orphans_of child_keys child_rows checked_rows sample_limit orphans = record {
    child_rows = child_rows;
    checked_rows = checked_rows;
    null_key_rows = child_rows - checked_rows;
    orphan_rows = length orphans;
    orphan_percent = round_ratio (length orphans * 1000000) checked_rows;
    distinct_orphan_keys = length (P.drop_duplicates child_keys orphans);
    orphans = take sample_limit orphans;
  }

  abbrev pub none_checked : ℕ → Orphans P.Cell
  none_checked child_rows = record {
    child_rows = child_rows;
    checked_rows = 0;
    null_key_rows = child_rows - 0;
    orphan_rows = 0;
    orphan_percent = 0;
    distinct_orphan_keys = 0;
    orphans = [];
  }

  -- Behind the resolution of the names.
  unfoldable pub join_orphans :
      List Text
      → List Text
      → ℕ
      → List (Row P.Cell)
      → List (Row P.Cell)
      → Result Text (Orphans P.Cell)
  join_orphans child_keys parent_keys sample_limit children parents =
      let with_key = select (has_key P child_keys) children in
      let found =
        P.left_only_rows child_keys with_key (parent_side child_keys parent_keys parents) in
      if length with_key == 0
      then ok (none_checked (length children))
      else (found >>= λ orphans.
          ok (orphans_of child_keys (length children) (length with_key) sample_limit orphans))

  unfoldable pub find_orphans :
      Table P.Cell → Table P.Cell → List Text → List Text → ℕ → Result Text (Orphans P.Cell)
  find_orphans child_df parent_df child_columns parent_columns sample_limit = do
    let child = resolve_all u child_columns child_df.columns
    described (none_missing child_columns_missing child.1)
    let parent = resolve_all u parent_columns parent_df.columns
    described (none_missing parent_columns_missing parent.1)
    join_orphans (child.0) (parent.0) sample_limit child_df.rows parent_df.rows

  -- A request, with `orphan_percent <= request.tolerance_percent` as a test.
  pub record ReferentialRequest : Type 0 where
    pub child_columns : List Text
    pub parent_columns : List Text
    pub sample_limit : ℕ
    pub within_tolerance : ℕ → Bool

  abbrev pub no_columns : List Text → Bool
  no_columns [] = true
  no_columns (_ ∷ _) = false

  abbrev pub summary_of : (ℕ → Text) → Orphans P.Cell → List (Text × Text)
  summary_of show_percent o =
      let shown = λ (n : ℕ). digits (n + 1) n in
      (text "child_rows", shown o.child_rows)
      ∷ (text "checked_rows", shown o.checked_rows)
      ∷ (text "null_key_rows", shown o.null_key_rows)
      ∷ (text "orphan_rows", shown o.orphan_rows)
      ∷ (text "orphan_percent", show_percent o.orphan_percent)
      ∷ (text "distinct_orphan_keys", shown o.distinct_orphan_keys)
      ∷ []

  abbrev pub computed_orphans :
      ReferentialRequest → (ℕ → Text) → Orphans P.Cell → Computed (Orphans P.Cell)
  computed_orphans request show_percent o = record {
    status = if request.within_tolerance o.orphan_percent then pass else fail;
    summary = summary_of show_percent o;
    value = o;
  }

  -- `if not outcome.orphans.empty: self._details.save(...)`
  abbrev pub save_orphans :
      (ValidationRun → List (Row P.Cell) → Result Text (Unit {0}))
      → ValidationRun
      → Orphans P.Cell
      → Result Text (Unit {0})
  save_orphans save run o = if length o.orphans == 0 then ok tt else save run o.orphans

  abbrev pub checked_request : ReferentialRequest → Result ReferentialError (Unit {0})
  checked_request request = do
    raise_if (no_columns request.child_columns) no_child_columns
    raise_if (not (length request.child_columns == length request.parent_columns))
        (unpaired_columns (length request.child_columns) (length request.parent_columns))

  -- execute; `extracted` is the child and the parent frame, or what their extraction raised. The
  -- checks of the request stand before the `try`.
  unfoldable pub validate :
      Call
      → ReferentialRequest
      → (ℕ → Text)
      → (ValidationRun → List (Row P.Cell) → Result Text (Unit {0}))
      → Result Text (Table P.Cell × Table P.Cell)
      → List ValidationRun
      → Result Text (Computed (Orphans P.Cell) × ValidationRun) × List ValidationRun
  validate call request show_percent save extracted table = elim (checked_request request) [
    | err e ↦ (err (describe e), table)
    | ok _ ↦
        perform call (save_orphans save)
          (do
            dfs ← extracted
            o ←
                find_orphans (dfs.0) (dfs.1) request.child_columns request.parent_columns
                  request.sample_limit
            ok (computed_orphans request show_percent o))
          table
  ]

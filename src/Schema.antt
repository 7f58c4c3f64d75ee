-- ===== src/Schema.antt =====
-- `_compare_schemas` of datarecon/application/services/schema_validation_service.py, and the status
-- that `execute` gives its rows. A frame is the names of its columns and their types.
pub mod Laws
pub mod Execute
mod Tests
use mathlib.Core.Option
use datarecon_ai_community_e.Prelude.{
  ℕ, zero, suc, ◌+◌, Bool, true, false, not, ◌&&◌, ◌||◌, Option, none, some, List, [], ◌∷◌, ◌++◌,
  map, if◌then◌else◌, select, length, ltb, ◌==◌,
}
use datarecon_ai_community_e.PyText.{Text, Unicode, text_eq, is_empty, casefold}
use datarecon_ai_community_e.PyText.Dict.{Dict, get, set, has}
use datarecon_ai_community_e.ColumnMatching.{canonical_map}
use datarecon_ai_community_e.Domain.{RunStatus, pass, fail}

-- The tests of pandas.api.types on a type.
pub record Dtypes : Type 1 where
  pub DType : Type 0
  pub is_bool : DType → Bool
  pub is_integer : DType → Bool
  pub is_float : DType → Bool
  pub is_datetime : DType → Bool
  pub is_object : DType → Bool
  pub is_string : DType → Bool

pub data TypeCategory : Type 0 where
  boolean integer float datetime string other : TypeCategory

pub data ColumnStatus : Type 0 where
  missing_in_target extra_in_target type_mismatch position_mismatch matching : ColumnStatus

pub record ColumnCatalogMetadata : Type 0 where
  pub name : Text
  pub native_type : Text
  pub max_length : Option ℕ
  pub nullable : Bool
  pub default : Option Text
  pub is_primary_key : Bool

pub record ColumnRow : Type 0 where
  pub column : Text
  pub source_position : Option ℕ
  pub target_position : Option ℕ
  pub source_type : Option TypeCategory
  pub target_type : Option TypeCategory
  pub status : ColumnStatus
  pub source_length : Option ℕ
  pub target_length : Option ℕ
  pub length_match : Option Bool
  pub source_key : Option Bool
  pub target_key : Option Bool
  pub key_match : Option Bool
  pub source_default : Option Text
  pub target_default : Option Text
  pub default_match : Option Bool

-- a == b of two values that may be None
abbrev pub same_option : {A : Type 0} → (A → A → Bool) → Option A → Option A → Bool
same_option eq none none = true
same_option eq (some a) (some b) = eq a b
same_option eq none (some b) = false
same_option eq (some a) none = false

abbrev pub same_category : TypeCategory → TypeCategory → Bool
same_category boolean boolean = true
same_category integer integer = true
same_category float float = true
same_category datetime datetime = true
same_category string string = true
same_category other other = true
same_category _ _ = false

abbrev pub same_bool : Bool → Bool → Bool
same_bool true b = b
same_bool false b = not b

-- The cascade of statuses: is the column in the target, in the source, of one type, at one place?
abbrev pub status_of : Bool → Bool → Bool → Bool → ColumnStatus
status_of in_target in_source same_type same_position =
    if not in_target
    then missing_in_target
    else if not in_source
    then extra_in_target
    else if not same_type
    then type_mismatch
    else if not same_position
    then position_mismatch
    else matching

-- meta.get(key) if meta else None, of an optional catalog
abbrev pub of_both :
    {A : Type 0}
    → (ColumnCatalogMetadata → ColumnCatalogMetadata → A)
    → Option ColumnCatalogMetadata
    → Option ColumnCatalogMetadata
    → Option A
of_both f none t = none
of_both f (some s) none = none
of_both f (some s) (some t) = some (f s t)

abbrev pub flatten : {A : Type 0} → Option (Option A) → Option A
flatten none = none
flatten (some o) = o

abbrev pub keys_of : {V : Type 0} → Dict V → List Text
keys_of [] = []
keys_of ((k, v) ∷ d) = k ∷ keys_of d

-- dict.fromkeys, continuing a dict
unfoldable pub from_keys : Dict (Unit {0}) → List Text → Dict (Unit {0})
from_keys d [] = d
from_keys d (k ∷ ks) = from_keys (set k tt d) ks

module _ (u : Unicode) where
  -- {str(c).casefold(): i for i, c in enumerate(columns)}, continuing a dict at index i
  unfoldable pub positions_from : ℕ → Dict ℕ → List Text → Dict ℕ
  positions_from i d [] = d
  positions_from i d (c ∷ columns) = positions_from (suc i) (set (casefold u c) i d) columns

  -- {c.name.casefold(): c for c in catalog}, continuing a dict
  unfoldable pub by_name_from :
      Dict ColumnCatalogMetadata → List ColumnCatalogMetadata → Dict ColumnCatalogMetadata
  by_name_from d [] = d
  by_name_from d (c ∷ catalog) = by_name_from (set (casefold u c.name) c d) catalog

  -- An empty catalog has no entries, like none.
  abbrev pub catalog_by_name : Option (List ColumnCatalogMetadata) → Dict ColumnCatalogMetadata
  catalog_by_name none = []
  catalog_by_name (some catalog) = by_name_from [] catalog

  module _ (T : Dtypes) where
    pub record SchemaFrame : Type 0 where
      pub columns : List Text
      pub dtype : Text → T.DType

    unfoldable pub dtype_category : T.DType → TypeCategory
    dtype_category t =
        if T.is_bool t
        then boolean
        else if T.is_integer t
        then integer
        else if T.is_float t
        then float
        else if T.is_datetime t
        then datetime
        else if T.is_object t || T.is_string t
        then string
        else other

    -- The category of the column that the key stands for.
    abbrev pub type_of : SchemaFrame → Text → Option TypeCategory
    type_of df key =
        Option.map (λ c. dtype_category (df.dtype c)) (get key (canonical_map u df.columns))

    module _ (src tgt : SchemaFrame)
        (source_catalog target_catalog : Option (List ColumnCatalogMetadata)) where
      abbrev pub positions : SchemaFrame → Dict ℕ
      positions df = positions_from 0 [] df.columns

      -- source_actual.get(key) or target_actual[key]; `none` is the KeyError
      abbrev pub shown_name : Text → Option Text
      shown_name key = elim (get key (canonical_map u src.columns)) [
        | none ↦ get key (canonical_map u tgt.columns)
        | some c ↦ if is_empty c then get key (canonical_map u tgt.columns) else some c
      ]

      -- The row of one key.
      unfoldable pub column_row : Text → Text → ColumnRow
      column_row key col =
          let s = get key (catalog_by_name source_catalog) in
          let t = get key (catalog_by_name target_catalog) in
          record {
            column = col;
            source_position = get key (positions src);
            target_position = get key (positions tgt);
            source_type = type_of src key;
            target_type = type_of tgt key;
            status =
                status_of (has key (positions tgt)) (has key (positions src))
                  (same_option same_category (type_of src key) (type_of tgt key))
                  (same_option (λ i j. i == j) (get key (positions src)) (get key (positions tgt)));
            source_length = flatten (Option.map (λ m. m.max_length) s);
            target_length = flatten (Option.map (λ m. m.max_length) t);
            length_match =
                of_both (λ a b. same_option (λ i j. i == j) a.max_length b.max_length) s t;
            source_key = Option.map (λ m. m.is_primary_key) s;
            target_key = Option.map (λ m. m.is_primary_key) t;
            key_match = of_both (λ a b. same_bool a.is_primary_key b.is_primary_key) s t;
            source_default = flatten (Option.map (λ m. m.default) s);
            target_default = flatten (Option.map (λ m. m.default) t);
            default_match = of_both (λ a b. same_option text_eq a.default b.default) s t;
          }

      -- The loop over the keys.
      unfoldable pub rows_of : List Text → Option (List ColumnRow)
      rows_of [] = some []
      rows_of (key ∷ ks) = elim (shown_name key) [
        | none ↦ none
        | some col ↦ Option.map (λ rows. column_row key col ∷ rows) (rows_of ks)
      ]

      unfoldable pub compare_schemas : Option (List ColumnRow)
      compare_schemas =
          rows_of
            (keys_of (from_keys (from_keys [] (keys_of (positions src))) (keys_of (positions tgt))))

-- status in _CRITICAL_STATUSES
abbrev pub is_critical : ColumnStatus → Bool
is_critical missing_in_target = true
is_critical extra_in_target = true
is_critical type_mismatch = true
is_critical position_mismatch = false
is_critical matching = false

-- match.eq(False)
abbrev pub is_false : Option Bool → Bool
is_false none = false
is_false (some b) = not b

abbrev pub has_attribute_mismatch : ColumnRow → Bool
has_attribute_mismatch r =
    is_false r.length_match || is_false r.key_match || is_false r.default_match

unfoldable pub schema_status : List ColumnRow → RunStatus
schema_status rows =
    let mismatches = length (select (λ r. is_critical r.status) rows) in
    let attribute_mismatches = length (select has_attribute_mismatch rows) in
    if ltb 0 mismatches || ltb 0 attribute_mismatches then fail else pass

-- ===== src/Connections/Store/Laws.antt =====
-- Rows are read back as the connections that were written.
use datarecon_ai_community_e.Prelude.{
  ℕ, ◌+◌, ◌≡◌, refl, false, not, ◌||◌, Option, none, some, List, [], ◌∷◌, ◌++◌, select, exists,
  if◌then◌else◌, ok, >>=-eq-ok, ok-injective, arith, ap, sym,
}
use datarecon_ai_community_e.PyText.{Text, text_eq}
use datarecon_ai_community_e.PyText.Laws.{text_eq_iff}
use datarecon_ai_community_e.Domain.Databases.{
  DatabaseType, ConnectionRole, Environment, member_of, role_value, roles, database_value,
  database_types, environment_value, environments,
}
use datarecon_ai_community_e.Domain.Databases.Laws.{database_type-read, role-read, environment-read}
use datarecon_ai_community_e.Connections.{Connection}
use datarecon_ai_community_e.Connections.Store.{
  ConnectionRow, entity_to_params, entity_of, row_to_entity, or_bad_value, updated_row,
  is_connection, is_named, first_row, on_connection, used_once_more, tested_row,
}

-- What the table keeps of a connection: the fields that are not stored are gone.
unfoldable pub kept : Connection → Connection
kept c = record c {
  driver_class = none;
  driver_location = none;
  jdbc_url = none;
  http_path = none;
  catalog = none;
  bucket = none;
  region = none;
  storage_account = none;
  cloud_project = none;
  file_format = none;
  extra_options = none;
}

pub params-read : (c : Connection) → row_to_entity (entity_to_params c) ≡ ok (kept c)
unfolding row_to_entity entity_to_params kept entity_of
params-read c =
    rw
      (
        role-read c.connection_role,
        database_type-read c.database_type,
        environment-read c.environment,
      )
      refl

-- What an update leaves of the stored connection `old`.
pub overwritten : Connection → Connection → Connection
unfolding kept
overwritten c old = record (kept c) {
  connection_id = old.connection_id;
  created_at = old.created_at;
  last_tested_at = old.last_tested_at;
  last_test_status = old.last_test_status;
  usage_count = old.usage_count;
}

abbrev pub used : Connection → Connection
used c = record c { usage_count = c.usage_count + 1 }

abbrev pub tested : ℕ → Text → Connection → Connection
tested now status c = record c { last_tested_at = some now; last_test_status = some status }

-- Where a row is read, its enumerations are members.
row_to_entity-ok :
    (row : ConnectionRow) (old : Connection)
    → row_to_entity row ≡ ok old
    → (r : ConnectionRole) × (t : DatabaseType) × (e : Environment) × (or_bad_value
          (member_of role_value roles row.connection_role)
        ≡ ok r)
      × (or_bad_value (member_of database_value database_types row.database_type) ≡ ok t)
      × (or_bad_value (member_of environment_value environments row.environment) ≡ ok e)
      × (entity_of row r t e ≡ old)
unfolding row_to_entity
row_to_entity-ok row old h =
    let (r, hr, h₁) =
      >>=-eq-ok (or_bad_value (member_of role_value roles row.connection_role)) _ h in
    let (t, ht, h₂) =
      >>=-eq-ok (or_bad_value (member_of database_value database_types row.database_type)) _ h₁ in
    let (e, he, h₃) =
      >>=-eq-ok (or_bad_value (member_of environment_value environments row.environment)) _ h₂ in
    (r, t, e, hr, ht, he, ok-injective h₃)

module _ (row : ConnectionRow) (old : Connection) (h : row_to_entity row ≡ ok old) where
  pub updated-read : (c : Connection) → row_to_entity (updated_row c row) ≡ ok (overwritten c old)
  unfolding row_to_entity updated_row entity_to_params overwritten kept entity_of
  updated-read c =
      let (r, t, e, hr, ht, he, same) = row_to_entity-ok row old h in
      rw
        (
          role-read c.connection_role,
          database_type-read c.database_type,
          environment-read c.environment,
        )
        (ap (λ o. ok (overwritten c o)) same)

  pub used-read : row_to_entity (used_once_more row) ≡ ok (used old)
  unfolding row_to_entity entity_of
  used-read =
      let (r, t, e, hr, ht, he, same) = row_to_entity-ok row old h in
      rw (hr, ht, he) (ap (λ o. ok (used o)) same)

  pub tested-read :
      (now : ℕ) (status : Text)
      → row_to_entity (tested_row now status row) ≡ ok (tested now status old)
  unfolding row_to_entity entity_of
  tested-read now status =
      let (r, t, e, hr, ht, he, same) = row_to_entity-ok row old h in
      rw (hr, ht, he) (ap (λ o. ok (tested now status o)) same)

  pub id-read : old.connection_id ≡ row.connection_id
  unfolding entity_of
  id-read =
      let (r, t, e, hr, ht, he, same) = row_to_entity-ok row old h in
      sym (ap (λ o. o.connection_id) same)

abbrev pub mapped {ℓ} : {A : Type ℓ} → (A → A) → Option A → Option A
mapped f none = none
mapped f (some a) = some (f a)

-- The row with an id behind an operation on the rows of an id, where that leaves the id.
pub first_row-on_connection :
    (f : ConnectionRow → ConnectionRow)
    → ((row : ConnectionRow) → (f row).connection_id ≡ row.connection_id)
    → (j k : Text) (table : List ConnectionRow)
    → first_row (is_connection k) (on_connection f j table) ≡ (
        if text_eq j k
        then mapped f (first_row (is_connection k) table)
        else first_row (is_connection k) table)
unfolding first_row
first_row-on_connection f keep j k [] = ground arith
first_row-on_connection f keep j k (row ∷ table) = ground (
  arith,
  keep row,
  text_eq_iff row.connection_id j,
  text_eq_iff row.connection_id k,
  text_eq_iff j k,
  first_row-on_connection f keep j k table,
)

pub first_row-select :
    (j k : Text) (table : List ConnectionRow)
    → first_row (is_connection k) (select (λ row. not (is_connection j row)) table)
      ≡ (if text_eq j k then none else first_row (is_connection k) table)
unfolding first_row
first_row-select j k [] = ground arith
first_row-select j k (row ∷ table) = ground (
  arith,
  text_eq_iff row.connection_id j,
  text_eq_iff row.connection_id k,
  text_eq_iff j k,
  first_row-select j k table,
)

pub first_row-append :
    (name : Text) (new : ConnectionRow) (k : Text) (table : List ConnectionRow)
    → exists (λ row. is_connection new.connection_id row || is_named name row) table ≡ false
    → first_row (is_connection k) (table ++ new ∷ [])
      ≡ (if text_eq new.connection_id k then some new else first_row (is_connection k) table)
unfolding first_row
first_row-append name new k [] h = ground arith
first_row-append name new k (row ∷ table) h = ground (
  arith,
  text_eq_iff row.connection_id k,
  text_eq_iff row.connection_id new.connection_id,
  text_eq_iff new.connection_id k,
  first_row-append name new k table,
)

-- ===== src/Connections/Service.antt =====
-- datarecon/application/services/connection_service.py: connections are created, changed, copied,
-- deleted and tested. The cipher, the drivers and the file system are parameters; the identifiers
-- and the readings of the clock are arguments.
pub mod Laws
pub mod Reread
use datarecon_ai_community_e.Prelude.{
  ℕ, Bool, true, false, not, ◌||◌, Option, none, some, List, [], ◌∷◌, ◌++◌, if◌then◌else◌, Result,
  ok, err, ◌>>=◌, ◌>>◌, raise_if,
}
use datarecon_ai_community_e.PyText.{Text, text, is_empty}
use datarecon_ai_community_e.PyText.Dict.{Dict}
use datarecon_ai_community_e.Domain.Databases.{DatabaseType, ConnectionCategory, category_of}
use datarecon_ai_community_e.Connections.{
  Connection, ConnectionError, integrity_error, name_taken, not_found, decryption_failed, filled,
  validate,
}
use datarecon_ai_community_e.Connections.Store.{
  ConnectionRow, add, write, delete, get_by_id, get_by_name, touch, record_test_result,
}
use datarecon_ai_community_e.Connections.Secrets.{sanitize}
use datarecon_ai_community_e.Connectors.Tables.{Engine, FactoryError, supports, engine_test_query}
use datarecon_ai_community_e.Connectors.Engines.{create_engine, text_or}

-- Fernet with the installation's key (`none` is InvalidToken), the JSON reader, the drivers, with
-- what they raise, and the texts of exceptions.
pub record Outside : Type 0 where
  pub encrypt_token : Text → Text
  pub decrypt_token : Text → Option Text
  pub loads : Text → Dict Text
  pub is_word : ℕ → Bool
  pub is_file : Text → Bool
  pub timeout : ℕ
  pub test_storage : Connection → Text → Result Text (Unit {0})
  pub test_mongodb : Connection → Text → Result Text (Unit {0})
  pub test_dbapi : Connection → Text → Result Text (Unit {0})
  pub test_engine : Engine → Text → Result Text (Unit {0})
  pub describe : FactoryError → Text

pub record TestResult : Type 0 where
  pub success : Bool
  pub message : Text
  pub elapsed_ms : ℕ

abbrev pub Answer : Type 0
Answer = Result ConnectionError (Connection × List ConnectionRow)

abbrev pub is_found : Option Connection → Bool
is_found none = false
is_found (some _) = true

-- What the table answers to an INSERT or UPDATE.
abbrev pub stored : Connection → Option (List ConnectionRow) → Answer
stored c none = err integrity_error
stored c (some table) = ok (c, table)

abbrev pub or_not_found : Text → Option Connection → Result ConnectionError Connection
or_not_found connection_id none = err (not_found connection_id)
or_not_found connection_id (some c) = ok c

-- _require
unfoldable pub require : Text → List ConnectionRow → Result ConnectionError Connection
require connection_id table = get_by_id connection_id table >>= or_not_found connection_id

module _ (o : Outside) where
  -- CredentialCipher.encrypt
  unfoldable pub encrypt : Option Text → Option Text
  encrypt none = none
  encrypt (some plaintext) = if is_empty plaintext then none else some (o.encrypt_token plaintext)

  abbrev pub or_rotated : Option Text → Result ConnectionError (Option Text)
  or_rotated none = err decryption_failed
  or_rotated (some plaintext) = ok (some plaintext)

  -- CredentialCipher.decrypt
  unfoldable pub decrypt : Option Text → Result ConnectionError (Option Text)
  decrypt none = ok none
  decrypt (some ciphertext) =
      if is_empty ciphertext then ok none else or_rotated (o.decrypt_token ciphertext)

  unfoldable pub create_connection : Connection → Option Text → List ConnectionRow → Answer
  create_connection c plaintext_password table = do
    validate o.loads c
    existing ← get_by_name c.connection_name table
    raise_if (is_found existing) (name_taken c.connection_name)
    let saved = record c { password_encrypted = encrypt plaintext_password }
    stored saved (add saved table)

  abbrev pub with_password : Connection → Option Text → Connection
  with_password c plaintext_password =
      if filled plaintext_password
      then record c { password_encrypted = encrypt plaintext_password }
      else c

  -- update_connection, at the time `now`
  unfoldable pub update_connection : ℕ → Connection → Option Text → List ConnectionRow → Answer
  update_connection now c plaintext_password table = do
    validate o.loads c
    let touched = touch now (with_password c plaintext_password)
    stored touched (write touched table)

  -- replace(source, ...)
  abbrev pub copy_of : (new_id : Text) (created updated : ℕ) → Connection → Connection
  copy_of new_id created updated source = record source {
    connection_id = new_id;
    connection_name = source.connection_name ++ text " (Copy)";
    created_at = created;
    updated_at = updated;
    last_tested_at = none;
    last_test_status = none;
    usage_count = 0;
  }

  unfoldable pub clone_connection :
      (new_id : Text) (created updated : ℕ) → Text → List ConnectionRow → Answer
  clone_connection new_id created updated connection_id table = do
    source ← require connection_id table
    let clone = copy_of new_id created updated source
    stored clone (add clone table)

  abbrev pub described : Result FactoryError Engine → Result Text Engine
  described (ok engine) = ok engine
  described (err e) = err (o.describe e)

  -- f"File not found: {conn.file_path}"
  abbrev pub shown_path : Option Text → Text
  shown_path none = text "None"
  shown_path (some path) = path

  abbrev pub test_sqlalchemy : Connection → Text → Result Text (Unit {0})
  test_sqlalchemy conn secret = do
    engine ← described (create_engine o.timeout o.loads conn secret)
    o.test_engine engine (engine_test_query conn.database_type)

  abbrev pub test_database : Connection → Text → Result Text (Unit {0})
  test_database conn secret =
      if supports conn.database_type then test_sqlalchemy conn secret else o.test_dbapi conn secret

  -- The body of the `try` of `test_connection`.
  unfoldable pub connect_by_category :
      Connection → Text → ConnectionCategory → Result Text (Unit {0})
  connect_by_category conn secret ConnectionCategory.file =
      raise_if (not (o.is_file (text_or conn.file_path [])))
        (text "File not found: " ++ shown_path conn.file_path)
  connect_by_category conn secret ConnectionCategory.storage = o.test_storage conn secret
  connect_by_category conn secret ConnectionCategory.nosql = o.test_mongodb conn secret
  connect_by_category conn secret ConnectionCategory.generic = o.test_dbapi conn secret
  connect_by_category conn secret ConnectionCategory.relational = test_database conn secret

  -- The test's answer and what is recorded of it, at the time `now`.
  unfoldable pub concluded :
      ℕ → ℕ → Text → List ConnectionRow → Result Text (Unit {0}) → TestResult × List ConnectionRow
  concluded elapsed now connection_id table (ok _) = (
    record { success = true; message = text "Connectivity check passed."; elapsed_ms = elapsed },
    record_test_result now connection_id (text "PASS") table,
  )
  concluded elapsed now connection_id table (err message) = (
    record { success = false; message = sanitize o.is_word message; elapsed_ms = elapsed },
    record_test_result now connection_id (text "FAIL") table,
  )

  unfoldable pub test_connection :
      ℕ → ℕ → Text → List ConnectionRow → Result ConnectionError (TestResult × List ConnectionRow)
  unfolding concluded connect_by_category
  test_connection elapsed now connection_id table = do
    conn ← require connection_id table
    secret ← decrypt conn.password_encrypted
    ok (
        concluded elapsed now connection_id table
          (connect_by_category conn (text_or secret []) (category_of conn.database_type)))

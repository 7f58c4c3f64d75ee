-- ===== src/Connections/Tests.antt =====
-- A table with a connection to PostgreSQL, and one to a bucket.
use datarecon_ai_community_e.Prelude.{
  ℕ, ◌≡◌, ◌≢◌, ◌↔◌, refl, Bool, true, false, ◌&&◌, ◌||◌, none, some, List, [], ◌∷◌, if◌then◌else◌,
  leb, ◌==◌, ok, err, arith,
}
use datarecon_ai_community_e.PyText.{Text, text, text_eq, strip, is_space}
use datarecon_ai_community_e.Domain.Databases.{
  DatabaseType, category_of, member_of, role_value, database_value, environment_value,
}
use datarecon_ai_community_e.Connections.{Connection, validate, name_required}
use datarecon_ai_community_e.Connections.Examples.{blank}
use datarecon_ai_community_e.Connections.Store.{
  ConnectionRow, entity_to_params, first_row, get_by_id, get_by_name, add, list_all,
  by_connection_name, row_to_entity, insert_named, read_all,
}
use datarecon_ai_community_e.Suites.Store.{text_le}
use datarecon_ai_community_e.Connections.Store.Laws.{kept}
use datarecon_ai_community_e.Connections.Store.Refinement.{
  Directory, Represents, add_connection, test_connection as tested_command, run_spec,
  run_command-Represents,
}
use datarecon_ai_community_e.Connections.Secrets.{ignore_case, sanitize}
use datarecon_ai_community_e.Connections.Secrets.Laws.{LettersAreWords, IsClean, values}
use datarecon_ai_community_e.Connections.Secrets.Clean.{sanitize-IsClean}
use datarecon_ai_community_e.Connectors.Engines.{text_or}
use datarecon_ai_community_e.Connections.Service.{
  Outside, TestResult, create_connection, encrypt, decrypt, test_connection,
}
use datarecon_ai_community_e.Connections.Service.Laws.{
  FernetLaws, given, create_connection-read, test_connection_lem, Reaches,
}
use datarecon_ai_community_e.Connections.Service.Reread.{
  loses_required, may_lose, create_connection-reread,
}

abbrev warehouse : Connection
warehouse = record (blank (text "w") (text "Warehouse") DatabaseType.postgresql) {
  host = some (text "db");
  username = some (text "etl");
}

abbrev lake : Connection
lake = record (blank (text "l") (text "Lake") DatabaseType.aws_s3) { bucket = some (text "raw") }

abbrev letter_or_digit : ℕ → Bool
letter_or_digit c =
    (leb b'a' c && leb c b'z')
    || (leb b'A' c && leb c b'Z')
    || (leb b'0' c && leb c b'9')
    || (c == b'_')
    || (c == 0x17f)

-- A token is the text behind a mark; every driver refuses, and tells the password.
abbrev refusing : Outside
refusing = record {
  encrypt_token = λ t. b'#' ∷ t;
  decrypt_token = λ t. elim t [ [] ↦ none | c ∷ s ↦ some s ];
  loads = λ t. [];
  is_word = letter_or_digit;
  is_file = λ path. false;
  timeout = 10;
  test_storage = λ c secret. err (text "no bucket");
  test_mongodb = λ c secret. err (text "no host");
  test_dbapi = λ c secret. err (text "no driver");
  test_engine = λ e query. err (text "refused: UID=etl;PWD=geheim; login");
  describe = λ e. text "no engine";
}

letters : LettersAreWords letter_or_digit
unfolding ignore_case
letters c h = ground arith

fernet : FernetLaws refusing
fernet = record { token_not_empty = λ t. refl; decrypt-encrypt = λ t. refl }

scrubbed :
    sanitize letter_or_digit (text "refused: UID=etl;PWD=geheim; login")
    ≡ text "refused: UID=etl;PWD=***; login"
unfolding sanitize is_space
scrubbed = refl

abbrev nothing : Directory
nothing k = none

empty : Represents [] nothing
unfolding get_by_id first_row
empty k = refl

abbrev stored_warehouse : List ConnectionRow
stored_warehouse = entity_to_params warehouse ∷ []

warehouse_known : Represents stored_warehouse (run_spec (add_connection warehouse) nothing)
unfolding add
warehouse_known = run_command-Represents [] nothing empty (add_connection warehouse) _ refl

no_name : validate (λ t. []) (record warehouse { connection_name = text "  " }) ≡ err name_required
unfolding validate strip is_space
no_name = refl

by_name :
    list_all (entity_to_params warehouse ∷ entity_to_params lake ∷ [])
    ≡ ok (kept lake ∷ kept warehouse ∷ [])
unfolding list_all by_connection_name insert_named text_le read_all row_to_entity member_of text_eq
    role_value database_value environment_value entity_to_params kept
by_name = refl

run_command-Represents_example :
    Represents
      (entity_to_params lake ∷ [])
      (λ k. if text_eq (text "l") k then some (kept lake) else none)
unfolding add
run_command-Represents_example =
    run_command-Represents [] nothing empty (add_connection lake) (entity_to_params lake ∷ []) refl

abbrev failure : Text
failure = text "refused: UID=etl;PWD=geheim; login"

sanitize-IsClean_example :
    IsClean letter_or_digit false (sanitize letter_or_digit failure)
    × (values letter_or_digit false failure ≡ [] → sanitize letter_or_digit failure ≡ failure)
sanitize-IsClean_example = sanitize-IsClean letter_or_digit letters failure

abbrev saved : Connection → Connection
saved c = record c { password_encrypted = some (text "#geheim") }

created_lake :
    create_connection refusing lake (some (text "geheim")) []
    ≡ ok (saved lake, entity_to_params (saved lake) ∷ [])
unfolding create_connection validate get_by_name first_row add encrypt strip is_space
created_lake = refl

create_connection-read_example :
    (get_by_id (text "l") (entity_to_params (saved lake) ∷ []) ≡ ok (some (kept (saved lake))))
    × (decrypt refusing (some (text "#geheim")) ≡ ok (given (some (text "geheim"))))
create_connection-read_example =
    create_connection-read refusing [] nothing empty lake (some (text "geheim")) (saved lake)
      (entity_to_params (saved lake) ∷ []) fernet created_lake

create_connection-reread_example :
    (again : Connection) × (get_by_id (text "l") (entity_to_params (saved lake) ∷ [])
      ≡ ok (some again))
    × (loses_required DatabaseType.aws_s3 ≡ true → validate (λ t. []) again ≢ ok tt)
    × (loses_required DatabaseType.aws_s3 ≡ false
        → may_lose DatabaseType.aws_s3 ≡ false
        → validate (λ t. []) again ≡ ok tt)
create_connection-reread_example =
    create_connection-reread refusing [] nothing empty lake (some (text "geheim")) (saved lake)
      (entity_to_params (saved lake) ∷ []) fernet created_lake

warehouse_found : run_spec (add_connection warehouse) nothing (text "w") ≡ some (kept warehouse)
unfolding text_eq
warehouse_found = refl

no_secret : decrypt refusing ((kept warehouse).password_encrypted) ≡ ok none
unfolding decrypt kept
no_secret = refl

test_connection_lem_example :
    (r : TestResult) × (table' : List ConnectionRow) × (test_connection refusing 3 9
        (text "w")
        stored_warehouse
      ≡ ok (r, table'))
    × ((r.success ≡ true)
        ↔ Reaches refusing stored_warehouse
            (run_spec (add_connection warehouse) nothing)
            warehouse_known
            (kept warehouse)
            (text_or none [])
            (category_of ((kept warehouse).database_type)))
    × (r.success ≡ false → IsClean letter_or_digit false r.message)
    × Represents table' (
        run_spec
          (tested_command 9 (text "w") (text (if r.success then "PASS" else "FAIL")))
          (run_spec (add_connection warehouse) nothing))
test_connection_lem_example =
    test_connection_lem refusing stored_warehouse (run_spec (add_connection warehouse) nothing)
      warehouse_known 3 9 (text "w") (kept warehouse) none letters warehouse_found no_secret

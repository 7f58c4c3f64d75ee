-- ===== src/Connections/Service/Laws.antt =====
-- What the calls of the connection service leave in the table.
use datarecon_ai_community_e.Prelude.{
  ℕ, ◌≡◌, ◌↔◌, refl, Bool, true, false, Option, none, some, List, [], if◌then◌else◌, Result, ok,
  err, arith, ◌>>=◌, >>=-eq-ok, ok-injective, ap, sym, ◌∙◌, raise_if, Bool-cases, inl, inr,
}
use mathlib.Core.Path.{subst}
use datarecon_ai_community_e.PyText.{Text, text, is_empty}
use datarecon_ai_community_e.PyText.Laws.{text_eq_refl}
use datarecon_ai_community_e.Domain.Databases.{ConnectionCategory, category_of}
use datarecon_ai_community_e.Connections.{Connection, ConnectionError, validate, name_taken}
use datarecon_ai_community_e.Connections.Store.{ConnectionRow, add, get_by_id, get_by_name}
use datarecon_ai_community_e.Connections.Store.Laws.{kept}
use datarecon_ai_community_e.Connections.Store.Refinement.{
  Directory, Represents, add_connection, test_connection as tested_command, run_spec,
  run_command-Represents,
}
use datarecon_ai_community_e.Connections.Secrets.Laws.{LettersAreWords, IsClean}
use datarecon_ai_community_e.Connections.Secrets.Clean.{sanitize-IsClean}
use datarecon_ai_community_e.Connectors.Tables.{Engine, FactoryError, supports, engine_test_query}
use datarecon_ai_community_e.Connectors.Engines.{text_or, create_engine}
use datarecon_ai_community_e.Connections.Service.{
  Outside, TestResult, stored, is_found, encrypt, decrypt, create_connection, require, concluded,
  test_connection, connect_by_category, described,
}

-- What Fernet documents: a token is not empty, and decrypts to what was encrypted.
pub record FernetLaws (o : Outside) : Type 0 where
  pub token_not_empty : (t : Text) → is_empty (o.encrypt_token t) ≡ false
  pub decrypt-encrypt : (t : Text) → o.decrypt_token (o.encrypt_token t) ≡ some t

-- A password that is empty is none.
abbrev pub given : Option Text → Option Text
given none = none
given (some t) = if is_empty t then none else some t

module _ (o : Outside) where
  decrypt-encrypt : FernetLaws o → (p : Option Text) → decrypt o (encrypt o p) ≡ ok (given p)
  unfolding decrypt encrypt
  decrypt-encrypt laws none = refl
  decrypt-encrypt laws (some t) = elim (Bool-cases (is_empty t)) [
    | inl empty ↦ rw empty refl
    | inr full ↦ rw (full, laws.token_not_empty t, laws.decrypt-encrypt t) refl
  ]

  stored-ok :
      (c saved : Connection) (r : Option (List ConnectionRow)) (table' : List ConnectionRow)
      → stored c r ≡ ok (saved, table')
      → (c ≡ saved) × (r ≡ some table')
  stored-ok c saved none table' h = absurd (let k = h in cc)
  stored-ok c saved (some t) table' h =
      let e = ok-injective h in (ap (λ p. p.0) e, ap (λ p. some (p.1)) e)

  raise_if-ok : (b : Bool) (e : ConnectionError) {x : Unit {0}} → raise_if b e ≡ ok x → b ≡ false
  raise_if-ok true e h = absurd (let k = h in cc)
  raise_if-ok false e h = refl

  -- What a creation that returns has passed, and what it has added.
  pub create_connection-ok :
      (c : Connection) (password : Option Text) (saved : Connection)
      (table table' : List ConnectionRow)
      → create_connection o c password table ≡ ok (saved, table')
      → (validate o.loads c ≡ ok tt)
        × (record c { password_encrypted = encrypt o password } ≡ saved)
        × (add saved table ≡ some table')
  unfolding create_connection
  create_connection-ok c password saved table table' h =
      let (_, valid, h₁) = >>=-eq-ok (validate o.loads c) _ h in
      let (found, _, h₂) = >>=-eq-ok (get_by_name c.connection_name table) _ h₁ in
      let (_, _, h₃) = >>=-eq-ok (raise_if (is_found found) (name_taken c.connection_name)) _ h₂ in
      let (same, added) =
        stored-ok (record c { password_encrypted = encrypt o password }) saved _ table' h₃ in
      (valid, same, subst (λ s. add s table ≡ some table') same added)

  module _ (table : List ConnectionRow) (m : Directory) (represents : Represents table m) where
    -- A connection that was created is read back, but for the fields that the repository does
    -- not store, and its password decrypts to the given one.
    pub create_connection-read :
        (c : Connection) (password : Option Text) (saved : Connection) (table' : List ConnectionRow)
        → FernetLaws o
        → create_connection o c password table ≡ ok (saved, table')
        → (get_by_id c.connection_id table' ≡ ok (some (kept saved)))
          × (decrypt o saved.password_encrypted ≡ ok (given password))
    create_connection-read c password saved table' laws h =
        let (_, same, added) = create_connection-ok c password saved table table' h in
        let read = run_command-Represents table m represents (add_connection saved) table' added in
        let ids : saved.connection_id ≡ c.connection_id = sym (ap (λ s. s.connection_id) same) in
        (
          read c.connection_id ∙ ap ok (rw (ids, text_eq_refl c.connection_id) refl),
          subst (λ s. decrypt o s.password_encrypted ≡ ok (given password)) same
              (decrypt-encrypt laws password),
        )

    -- What a test of the connection asks of the file system or of a driver, by its category.
    abbrev pub Reaches : Connection → Text → ConnectionCategory → Type 0
    Reaches conn secret ConnectionCategory.file = o.is_file (text_or conn.file_path []) ≡ true
    Reaches conn secret ConnectionCategory.storage = o.test_storage conn secret ≡ ok tt
    Reaches conn secret ConnectionCategory.nosql = o.test_mongodb conn secret ≡ ok tt
    Reaches conn secret ConnectionCategory.generic = o.test_dbapi conn secret ≡ ok tt
    Reaches conn secret ConnectionCategory.relational =
        (supports conn.database_type ≡ true
          → (engine : Engine) × (create_engine o.timeout o.loads conn secret ≡ ok engine)
            × (o.test_engine engine (engine_test_query conn.database_type) ≡ ok tt))
        × (supports conn.database_type ≡ false → o.test_dbapi conn secret ≡ ok tt)

    through_engine :
        (query : Text) (r : Result FactoryError Engine)
        → ((described o r >>= λ engine. o.test_engine engine query) ≡ ok tt)
          ↔ ((engine : Engine) × (r ≡ ok engine) × (o.test_engine engine query ≡ ok tt))
    through_engine query (ok engine) =
        (λ h. (engine, refl, h), λ found. let (e, same, h) = found in rw (ok-injective same) h)
    through_engine query (err e) = (λ h. cc, λ found. let (e', same, h) = found in cc)

    connect-Reaches :
        (conn : Connection) (secret : Text) (category : ConnectionCategory)
        → (connect_by_category o conn secret category ≡ ok tt) ↔ Reaches conn secret category
    unfolding connect_by_category
    connect-Reaches conn secret ConnectionCategory.file = ground arith
    connect-Reaches conn secret ConnectionCategory.storage = (λ h. h, λ h. h)
    connect-Reaches conn secret ConnectionCategory.nosql = (λ h. h, λ h. h)
    connect-Reaches conn secret ConnectionCategory.generic = (λ h. h, λ h. h)
    connect-Reaches conn secret ConnectionCategory.relational =
        let by_engine =
          through_engine (engine_test_query conn.database_type)
            (create_engine o.timeout o.loads conn secret) in
        elim (Bool-cases (supports conn.database_type)) [
          | inl sql ↦ rw sql (λ h. (λ s. by_engine.0 h, λ s. cc), λ r. by_engine.1 (r.0 refl))
          | inr other ↦ rw other (λ h. (λ s. cc, λ s. h), λ r. r.1 refl)
        ]

    -- What is concluded from the outcome of a test.
    abbrev Concluded : ℕ → Text → Result Text (Unit {0}) → TestResult × List ConnectionRow → Type 0
    Concluded now k outcome (r, table') =
        ((r.success ≡ true) ↔ (outcome ≡ ok tt))
        × (r.success ≡ false → IsClean o.is_word false r.message)
        × Represents table'
            (run_spec (tested_command now k (text (if r.success then "PASS" else "FAIL"))) m)

    concluded_lem :
        (elapsed now : ℕ) (k : Text) (outcome : Result Text (Unit {0}))
        → LettersAreWords o.is_word
        → Concluded now k outcome (concluded o elapsed now k table outcome)
    unfolding concluded
    concluded_lem elapsed now k (ok _) words = (
      (λ h. refl, λ h. refl),
      λ h. cc,
      run_command-Represents table m represents (tested_command now k (text "PASS")) _ refl,
    )
    concluded_lem elapsed now k (err message) words = (
      (λ h. cc, λ h. cc),
      λ h. (sanitize-IsClean o.is_word words message).0,
      run_command-Represents table m represents (tested_command now k (text "FAIL")) _ refl,
    )

    -- A test of a stored connection whose password decrypts always answers: with success exactly if
    -- its file is there or the driver of its category raises nothing (for a database that SQLAlchemy
    -- serves, if it gets an engine and the engine's test query passes), else with a message in which
    -- every value behind a key `pwd=` or `password=`, up to a semicolon, a comma or a blank, is
    -- masked; and only that verdict is written to the connection's row.
    pub test_connection_lem :
        (elapsed now : ℕ) (k : Text) (conn : Connection) (secret : Option Text)
        → LettersAreWords o.is_word
        → m k ≡ some conn
        → decrypt o conn.password_encrypted ≡ ok secret
        → (r : TestResult) × (table' : List ConnectionRow) × (test_connection o elapsed now k table
            ≡ ok (r, table'))
          × ((r.success ≡ true) ↔ Reaches conn (text_or secret []) (category_of conn.database_type))
          × (r.success ≡ false → IsClean o.is_word false r.message)
          × Represents table'
              (run_spec (tested_command now k (text (if r.success then "PASS" else "FAIL"))) m)
    unfolding test_connection require
    test_connection_lem elapsed now k conn secret words found decrypted =
        let outcome =
          connect_by_category o conn (text_or secret []) (category_of conn.database_type) in
        let (answers, clean, wrote) = concluded_lem elapsed now k outcome words in
        (
          (concluded o elapsed now k table outcome).0,
          (concluded o elapsed now k table outcome).1,
          rw (represents k, found, decrypted) refl,
          (
            λ h.
                (connect-Reaches conn (text_or secret []) (category_of conn.database_type)).0
                  (answers.0 h),
            λ h.
                answers.1
                  ((connect-Reaches conn (text_or secret []) (category_of conn.database_type)).1 h),
          ),
          clean,
          wrote,
        )

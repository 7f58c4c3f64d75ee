-- ===== src/Extraction/Laws.antt =====
-- About `extract_dataframe` of data_extraction_service.py.
use datarecon_ai_community_e.Prelude.{◌≡◌, refl, Option, none, some, List, Result, ok, err, ◌>>=◌}
use datarecon_ai_community_e.PyText.{Text}
use datarecon_ai_community_e.Connections.{Connection, ConnectionError}
use datarecon_ai_community_e.Connections.Store.{ConnectionRow, get_by_id, increment_usage}
use datarecon_ai_community_e.Connections.Service.{Outside}
use datarecon_ai_community_e.Extraction.{
  Extractor, raised, or_missing, secret_of, extracted, counted, extract_dataframe,
}

abbrev answer : Connection → Result ConnectionError (Option Connection)
answer c = ok (some c)

module _ (o : Outside) (x : Extractor) (describe : ConnectionError → Text) where
  extracted-cases :
      (r : Result ConnectionError (Option Connection)) (request : x.Request) (df : x.DataFrame)
      → (raised o x describe r >>= λ found. or_missing o x describe found >>= λ c.
          secret_of o x describe c >>= λ secret. x.extract c request secret)
        ≡ ok df
      → (c : Connection) × (secret : Text) × (r ≡ ok (some c))
        × (secret_of o x describe c ≡ ok secret)
        × (x.extract c request secret ≡ ok df)
  extracted-cases (err e) request df h = absurd (let k = h in cc)
  extracted-cases (ok none) request df h = absurd (let k = h in cc)
  extracted-cases (ok (some c)) request df h = by_secret (secret_of o x describe c) refl h
    where
      by_secret :
          (s : Result Text Text)
          → secret_of o x describe c ≡ s
          → (s >>= λ secret. x.extract c request secret) ≡ ok df
          → (found : Connection) × (secret : Text) × (answer c ≡ answer found)
            × (secret_of o x describe found ≡ ok secret)
            × (x.extract found request secret ≡ ok df)
      by_secret (err message) e k = absurd (let k2 = k in cc)
      by_secret (ok secret) e k = (c, secret, refl, e, k)

  -- What an extraction answers and leaves: data of the stored connection, read with its decrypted
  -- secret, and the usage of that connection counted once; or an error, and the table as it was.
  abbrev pub IsExtraction :
      Text → x.Request → List ConnectionRow → Result Text x.DataFrame → List ConnectionRow → Type 0
  IsExtraction connection_id request table (err message) table' = table' ≡ table
  IsExtraction connection_id request table (ok df) table' =
      (table' ≡ increment_usage connection_id table)
      × ((c : Connection) × (secret : Text) × (get_by_id connection_id table ≡ ok (some c))
          × (secret_of o x describe c ≡ ok secret)
          × (x.extract c request secret ≡ ok df))

  -- An extraction that gives data gives what the extractor reads from the stored connection with its
  -- decrypted secret, and the usage of that connection is counted once; one that raises leaves the
  -- table as it was.
  pub extract_dataframe_lem :
      (connection_id : Text) (request : x.Request) (table : List ConnectionRow)
      → IsExtraction connection_id request table
          (extract_dataframe o x describe connection_id request table).0
          (extract_dataframe o x describe connection_id request table).1
  unfolding extract_dataframe
  extract_dataframe_lem connection_id request table =
      by_data (extracted o x describe connection_id request table) refl
    where
      by_data :
          (r : Result Text x.DataFrame)
          → extracted o x describe connection_id request table ≡ r
          → IsExtraction connection_id request table
              (counted o x describe connection_id table r).0
              (counted o x describe connection_id table r).1
      by_data (err message) h = refl
      by_data (ok df) h = (refl, extracted-cases (get_by_id connection_id table) request df h)

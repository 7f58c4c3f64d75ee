-- ===== src/Connections/Secrets.antt =====
-- `_sanitize` of datarecon/application/services/connection_service.py: the substitution of
-- `_SECRET_RE`, (?i)\b(pwd|password)=([^;,\s]*), in the text of an exception.
-- `is_word` is the class \w of the interpreter's character database.
pub mod Laws
pub mod Clean
use datarecon_ai_community_e.Prelude.{
  ℕ, zero, suc, ◌+◌, Bool, true, false, ◌||◌, ◌&&◌, Option, none, some, [], ◌∷◌, ◌++◌,
  if◌then◌else◌, leb, ◌==◌,
}
use datarecon_ai_community_e.PyText.{Text, text, is_space}

-- The letter that a code point matches when case is ignored: of the letters of the two keys only s
-- has a partner beyond ASCII, the long s.
unfoldable pub ignore_case : ℕ → ℕ
ignore_case c = if leb b'A' c && leb c b'Z' then c + 32 else if c == 0x17f then b's' else c

-- Does the text begin with the pattern, case ignored?
unfoldable pub matches_key : Text → Text → Bool
unfolding ignore_case
matches_key [] s = true
matches_key (p ∷ ps) [] = false
matches_key (p ∷ ps) (c ∷ s) = ignore_case c == p && matches_key ps s

-- How many letters stand between the first one of a key and its sign, where the text begins with a
-- key.
unfoldable pub letters_left : Text → Option ℕ
unfolding matches_key
letters_left s =
    if matches_key (text "pwd=") s
    then some 2
    else if matches_key (text "password=") s
    then some 7
    else none

-- A character that is not in [^;,\s]
abbrev pub ends_value : ℕ → Bool
ends_value c = (c == b';') || (c == b',') || is_space c

abbrev pub stars : Text
stars = text "***"

-- Where the scan is: between matches, in a key of which some letters are still to come, or in a
-- value.
pub data Place : Type 0 where
  outside : Place
  in_key : ℕ → Place
  in_value : Place

module _ (is_word : ℕ → Bool) where
  -- A match begins at \b: no character of \w stands before it.
  abbrev pub key_at : Bool → Text → Option ℕ
  key_at after_word s = if after_word then none else letters_left s

  -- _SECRET_RE.sub(...); `after_word` is whether the last character was one of \w.
  unfoldable pub scrub : Place → Bool → Text → Text
  unfolding letters_left
  scrub place after_word [] = []
  scrub outside after_word (c ∷ s) = elim (key_at after_word (c ∷ s)) [
    | none ↦ c ∷ scrub outside (is_word c) s
    | some n ↦ c ∷ scrub (in_key n) true s
  ]
  scrub (in_key zero) after_word (c ∷ s) = c ∷ stars ++ scrub in_value after_word s
  scrub (in_key (suc n)) after_word (c ∷ s) = c ∷ scrub (in_key n) true s
  scrub in_value after_word (c ∷ s) =
      let rest = scrub in_value after_word s in
      if ends_value c then c ∷ scrub outside (is_word c) s else rest

  unfoldable pub sanitize : Text → Text
  unfolding scrub
  sanitize message = scrub outside false message

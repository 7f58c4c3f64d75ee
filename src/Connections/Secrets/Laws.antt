-- ===== src/Connections/Secrets/Laws.antt =====
-- One step of the substitution, and the values that stand behind the keys of a text.
use datarecon_ai_community_e.Prelude.{
  ℕ, suc, ◌≡◌, refl, Bool, true, false, ◌||◌, Option, none, some, List, [], ◌∷◌, ◌++◌,
  if◌then◌else◌, ◌==◌, All, drop, length, arith, Bool-cases, inl, inr, ap,
}
use datarecon_ai_community_e.PyText.{Text, text, is_space}
use datarecon_ai_community_e.Connections.Secrets.{
  ignore_case, matches_key, letters_left, ends_value, stars, outside, in_key, in_value, scrub,
  key_at,
}

-- A letter of the two keys.
abbrev pub is_key_letter : ℕ → Bool
is_key_letter c =
    (c == b'p')
    || (c == b'w')
    || (c == b'd')
    || (c == b'a')
    || (c == b's')
    || (c == b'o')
    || (c == b'r')

-- The value at the beginning of a text.
abbrev pub value_of : Text → Text
value_of [] = []
value_of (c ∷ s) = let rest = value_of s in if ends_value c then [] else c ∷ rest

-- What stands behind the key that a text begins with.
abbrev pub behind_key : Text → Option Text
behind_key s =
    if matches_key (text "pwd=") s
    then some (drop 4 s)
    else if matches_key (text "password=") s
    then some (drop 9 s)
    else none

abbrev pub letters_match : Text → Text → Bool
letters_match ls s = matches_key (ls ++ text "=") s

abbrev pub AreLetters : Text → Type 0
AreLetters ls = All (λ l. is_key_letter l ≡ true) ls

pub wd_letters : AreLetters (text "wd")
wd_letters = (refl, (refl, tt))

pub assword_letters : AreLetters (text "assword")
assword_letters = (refl, (refl, (refl, (refl, (refl, (refl, (refl, tt)))))))

module _ (is_word : ℕ → Bool) where
  -- The values behind every key in a text, overlapping ones included.
  unfoldable pub values : Bool → Text → List Text
  values after_word [] = []
  values after_word (c ∷ s) =
      let rest = values (is_word c) s in
      elim (if after_word then none else behind_key (c ∷ s)) [
        | none ↦ rest
        | some r ↦ value_of r ∷ rest
      ]

  -- Letters of either case are characters of \w.
  abbrev pub LettersAreWords : Type 0
  LettersAreWords = (c : ℕ) → is_key_letter (ignore_case c) ≡ true → is_word c ≡ true

  abbrev pub IsClean : Bool → Text → Type 0
  IsClean after_word s = All (λ v. v ≡ stars) (values after_word s)

  module _ (words : LettersAreWords) where
    pub letter-IsWord :
        (l c : ℕ) → is_key_letter l ≡ true → (ignore_case c == l) ≡ true → is_word c ≡ true
    letter-IsWord l c h e = words c (ground arith)

    -- Behind a letter a scan changes no key.
    pub matches_key-scrub :
        (ls s : Text)
        → AreLetters ls
        → letters_match ls (scrub is_word outside true s) ≡ letters_match ls s
    unfolding matches_key scrub
    matches_key-scrub [] [] h = refl
    matches_key-scrub [] (c ∷ s) h = refl
    matches_key-scrub (l ∷ ls) [] h = refl
    matches_key-scrub (l ∷ ls) (c ∷ s) h = elim (Bool-cases (ignore_case c == l)) [
      | inl same ↦ rw (same, letter-IsWord l c h.0 same) (matches_key-scrub ls s h.1)
      | inr other ↦ rw other refl
    ]

    pub value_of-scrub : (w : Bool) (s : Text) → value_of (scrub is_word in_value w s) ≡ []
    unfolding scrub
    value_of-scrub w [] = refl
    value_of-scrub w (c ∷ s) = ground (arith, value_of-scrub w s)

    -- The copy of a key's letters and its sign, with what follows.
    pub copied_key :
        (ls s : Text) (w : Bool)
        → letters_match ls s ≡ true
        → (letters_match ls (scrub is_word (in_key (length ls)) w s) ≡ true)
          × (value_of (drop (suc (length ls)) (scrub is_word (in_key (length ls)) w s)) ≡ stars)
    unfolding matches_key scrub is_space
    copied_key [] [] w h = cc
    copied_key [] (c ∷ s) w h = (h, ap (λ v. stars ++ v) (value_of-scrub w s))
    copied_key (l ∷ ls) [] w h = cc
    copied_key (l ∷ ls) (c ∷ s) w h = elim (Bool-cases (ignore_case c == l)) [
      | inl same ↦ rw same (copied_key ls s true (rw same at h))
      | inr other ↦ absurd (let k = rw other at h in cc)
    ]

    -- A character that begins no key.
    pub no_p :
        (w : Bool) (c : ℕ) (s : Text)
        → (ignore_case c == b'p') ≡ false
        → values w (c ∷ s) ≡ values (is_word c) s
    unfolding values matches_key
    no_p true c s h = refl
    no_p false c s h = rw (h, values) refl

    pub word_p : (c : ℕ) (s : Text) → values true (c ∷ s) ≡ values (is_word c) s
    unfolding values
    word_p c s = refl

    pub ends-no_p : (c : ℕ) → ends_value c ≡ true → (ignore_case c == b'p') ≡ false
    unfolding is_space ignore_case
    ends-no_p c h = ground arith

    pub one_key :
        (s : Text) → letters_match (text "assword") s ≡ true → letters_match (text "wd") s ≡ false
    unfolding matches_key
    one_key [] h = refl
    one_key (c ∷ s) h = ground arith

    pub p-IsWord : (c : ℕ) → (ignore_case c == b'p') ≡ true → is_word c ≡ true
    p-IsWord c h = letter-IsWord b'p' c refl h

    -- The text behind a scan that was outside, at a position where it found no key.
    pub no_key-scrub :
        (c : ℕ) (s : Text)
        → matches_key (text "pwd=") (c ∷ s) ≡ false
        → matches_key (text "password=") (c ∷ s) ≡ false
        → behind_key (c ∷ scrub is_word outside (is_word c) s) ≡ none
    unfolding matches_key
    no_key-scrub c s h k = elim (Bool-cases (ignore_case c == b'p')) [
      | inr other ↦ rw other refl
      | inl same ↦
          rw
            (
              same,
              p-IsWord c same,
              matches_key-scrub (text "wd") s wd_letters,
              matches_key-scrub (text "assword") s assword_letters,
              rw same at h,
              rw same at k,
            )
            refl
    ]

    -- What a scan leaves of a text is clean, wherever it begins.
    record Scanned (s : Text) : Type 0 where
      from_outside : (w : Bool) → IsClean w (scrub is_word outside w s)
      from_key :
          (ls : Text)
          → AreLetters ls
          → letters_match ls s ≡ true
          → IsClean true (scrub is_word (in_key (length ls)) true s)
      from_value : (w w' : Bool) → IsClean w' (scrub is_word in_value w s)

    pub scrub-none :
        (w : Bool) (c : ℕ) (s : Text)
        → key_at is_word w (c ∷ s) ≡ none
        → scrub is_word outside w (c ∷ s) ≡ c ∷ scrub is_word outside (is_word c) s
    unfolding scrub
    scrub-none w c s h = rw (h, scrub) refl

    pub scrub-some :
        (c n : ℕ) (s : Text)
        → letters_left (c ∷ s) ≡ some n
        → scrub is_word outside false (c ∷ s) ≡ c ∷ scrub is_word (in_key n) true s
    unfolding scrub
    scrub-some c n s h = rw (h, scrub) refl

    pub values-none :
        (c : ℕ) (s : Text) → behind_key (c ∷ s) ≡ none → values false (c ∷ s) ≡ values (is_word c) s
    unfolding values
    values-none c s h = rw (h, values) refl

    pub values-some :
        (c : ℕ) (s r : Text)
        → behind_key (c ∷ s) ≡ some r
        → values false (c ∷ s) ≡ value_of r ∷ values (is_word c) s
    unfolding values
    values-some c s r h = rw (h, values) refl

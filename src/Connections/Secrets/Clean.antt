-- ===== src/Connections/Secrets/Clean.antt =====
-- About `_sanitize`, and the values behind the keys `pwd=` and `password=` of a text.
use datarecon_ai_community_e.Prelude.{
  ℕ, suc, List, ◌≡◌, refl, Bool, true, false, none, some, [], ◌∷◌, drop, length, Bool-cases, inl,
  inr, ap, ◌==◌, sym, ◌∙◌,
}
use datarecon_ai_community_e.PyText.{Text, text}
use datarecon_ai_community_e.Connections.Secrets.{
  matches_key, letters_left, ends_value, outside, in_key, in_value, scrub, ignore_case, sanitize,
}
use datarecon_ai_community_e.Connections.Secrets.Laws.{
  values, behind_key, letters_match, AreLetters, LettersAreWords, IsClean, wd_letters,
  assword_letters, copied_key, no_p, word_p, ends-no_p, one_key, p-IsWord, no_key-scrub, scrub-none,
  scrub-some, values-none, values-some, letter-IsWord,
}

module _ (is_word : ℕ → Bool) (words : LettersAreWords is_word) where
  -- What a scan leaves of a text is clean, wherever it begins.
  record Scanned (s : Text) : Type 0 where
    from_outside : (w : Bool) → IsClean is_word w (scrub is_word outside w s)
    from_key :
        (ls : Text)
        → AreLetters ls
        → letters_match ls s ≡ true
        → IsClean is_word true (scrub is_word (in_key (length ls)) true s)
    from_value : (w w' : Bool) → IsClean is_word w' (scrub is_word in_value w s)

  module _ (c : ℕ) (s : Text) (ih : Scanned s) where
    -- A key that begins at `c`: what its letters and its sign are copied to.
    key_found :
        (ls : Text)
        → AreLetters ls
        → is_word c ≡ true
        → letters_match ls s ≡ true
        → letters_left (c ∷ s) ≡ some (length ls)
        → behind_key (c ∷ scrub is_word (in_key (length ls)) true s)
          ≡ some (drop (suc (length ls)) (scrub is_word (in_key (length ls)) true s))
        → IsClean is_word false (scrub is_word outside false (c ∷ s))
    key_found ls letters word matched left behind =
        rw
          (
            scrub-some is_word words c (length ls) s left,
            values-some is_word words c _ _ behind,
            word,
          )
          ((copied_key is_word words ls s true matched).1, ih.from_key ls letters matched)

    -- At `c` a key is found, or none.
    scanned_key : IsClean is_word false (scrub is_word outside false (c ∷ s))
    unfolding letters_left matches_key
    scanned_key = elim (Bool-cases (ignore_case c == b'p')) [
      | inr other ↦
          rw
            (
              scrub-none is_word words false c s (rw other refl),
              no_p is_word words false c (scrub is_word outside (is_word c) s) other,
            )
            (ih.from_outside (is_word c))
      | inl same ↦
          let word : is_word c ≡ true = p-IsWord is_word words c same in
          elim (Bool-cases (letters_match (text "wd") s)) [
            | inl short ↦
                key_found (text "wd") wd_letters word short (rw (same, short) refl)
                  (rw (same, (copied_key is_word words (text "wd") s true short).0) refl)
            | inr not_short ↦ elim (Bool-cases (letters_match (text "assword") s)) [
              | inl long ↦
                  let copied = (copied_key is_word words (text "assword") s true long).0 in
                  key_found (text "assword") assword_letters word long
                    (rw (same, not_short, long) refl)
                    (rw (same, one_key is_word words _ copied, copied) refl)
              | inr not_long ↦
                  rw
                    (
                      scrub-none is_word words false c s (rw (same, not_short, not_long) refl),
                      values-none is_word words c _ (
                          no_key-scrub is_word words c s (rw (same, not_short) refl)
                            (rw (same, not_long) refl)),
                    )
                    (ih.from_outside (is_word c))
            ]
          ]
    ]

    scanned_letters :
        (ls : Text)
        → AreLetters ls
        → letters_match ls (c ∷ s) ≡ true
        → IsClean is_word true (scrub is_word (in_key (length ls)) true (c ∷ s))
    unfolding scrub matches_key ignore_case
    scanned_letters [] letters h =
        rw
          (
            word_p is_word words c _,
            no_p is_word words _ b'*' _ refl,
            no_p is_word words _ b'*' _ refl,
            no_p is_word words _ b'*' _ refl,
          )
          (ih.from_value true _)
    scanned_letters (l ∷ ls) letters h = elim (Bool-cases (ignore_case c == l)) [
      | inl same ↦
          rw (word_p is_word words c _, letter-IsWord is_word words l c letters.0 same)
            (ih.from_key ls letters.1 (rw same at h))
      | inr other ↦ absurd (let k = rw other at h in cc)
    ]

    scanned_value : (w w' : Bool) → IsClean is_word w' (scrub is_word in_value w (c ∷ s))
    unfolding scrub
    scanned_value w w' = elim (Bool-cases (ends_value c)) [
      | inl ends ↦
          rw (ends, no_p is_word words w' c _ (ends-no_p is_word words c ends))
            (ih.from_outside (is_word c))
      | inr more ↦ rw more (ih.from_value w w')
    ]

    scanned_outside : (w : Bool) → IsClean is_word w (scrub is_word outside w (c ∷ s))
    scanned_outside true =
        rw (scrub-none is_word words true c s refl, word_p is_word words c _)
          (ih.from_outside (is_word c))
    scanned_outside false = scanned_key

  scanned : (s : Text) → Scanned s
  unfolding scrub values matches_key
  scanned [] = record {
    from_outside = λ w. tt;
    from_key = λ ls letters h. tt;
    from_value = λ w w'. tt;
  }
  scanned (c ∷ s) =
      let ih = scanned s in
      record {
        from_outside = scanned_outside c s ih;
        from_key = scanned_letters c s ih;
        from_value = scanned_value c s ih;
      }

  not_nil : (v : Text) (vs : List Text) → v ∷ vs ≡ [] → ⊥
  not_nil v vs h = cc

  no_match :
      (c : ℕ) (s : Text)
      → values is_word false (c ∷ s) ≡ []
      → (letters_left (c ∷ s) ≡ none) × (values is_word (is_word c) s ≡ [])
  unfolding letters_left
  no_match c s h = elim (Bool-cases (matches_key (text "pwd=") (c ∷ s))) [
    | inl short ↦
        absurd
          (not_nil _ _ (sym (values-some is_word words c s (drop 4 (c ∷ s)) (rw short refl)) ∙ h))
    | inr not_short ↦ elim (Bool-cases (matches_key (text "password=") (c ∷ s))) [
      | inl long ↦ absurd (
          not_nil _ _
            (sym (values-some is_word words c s (drop 9 (c ∷ s)) (rw (not_short, long) refl)) ∙ h))
      | inr not_long ↦ (
        rw (not_short, not_long) refl,
        sym (values-none is_word words c s (rw (not_short, not_long) refl)) ∙ h,
      )
    ]
  ]

  no_key_kept : (w : Bool) (s : Text) → values is_word w s ≡ [] → scrub is_word outside w s ≡ s
  no_key_kept w [] h = nothing w
    where
      nothing : (w : Bool) → scrub is_word outside w [] ≡ []
      nothing w = unfold scrub in refl
  no_key_kept true (c ∷ s) h =
      scrub-none is_word words true c s refl
      ∙ ap (λ t. c ∷ t) (no_key_kept (is_word c) s (sym (word_p is_word words c s) ∙ h))
  no_key_kept false (c ∷ s) h =
      let (left, rest) = no_match c s h in
      scrub-none is_word words false c s left ∙ ap (λ t. c ∷ t) (no_key_kept (is_word c) s rest)

  -- In a sanitized message the value behind every key is `***`, and a message without keys is left
  -- as it is.
  pub sanitize-IsClean :
      (message : Text)
      → IsClean is_word false (sanitize is_word message)
        × (values is_word false message ≡ [] → sanitize is_word message ≡ message)
  unfolding sanitize
  sanitize-IsClean message = ((scanned message).from_outside false, no_key_kept false message)

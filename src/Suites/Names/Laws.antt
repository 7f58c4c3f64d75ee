-- ===== src/Suites/Names/Laws.antt =====
-- Saving a suite again does not prefix its name twice.
use datarecon_ai_community_e.Prelude.{
  ℕ, ◌≡◌, refl, false, [], ◌∷◌, ◌++◌, drop, length, Bool-cases, inl, inr, ap,
}
use datarecon_ai_community_e.PyText.{Text, Unicode, strip, casefold, starts_with, is_space}
use datarecon_ai_community_e.PyText.Laws.{casefold-append, starts_with-append}
use datarecon_ai_community_e.PyText.Strip.{
  IsTrimmed, IsTrimmed-cons, IsTrimmed-drop, strip-IsTrimmed, strip_fixed,
}
use datarecon_ai_community_e.Domain.{
  ValidationModule, code, schema, record_count, duplicate, nullability, aggregation, full_data,
  referential_integrity, profiling, file_comparison,
}
use datarecon_ai_community_e.Suites.Names.{prefix, prefixed_name}

drop-append : (p s : Text) → drop (length p) (p ++ s) ≡ s
drop-append [] s = refl
drop-append (c ∷ p) s = drop-append p s

-- Every prefix is two letters and an underscore.
prefix_shape :
    (Q : Text → Type 0)
    → ((a b : ℕ) → is_space a ≡ false → is_space b ≡ false → Q (a ∷ b ∷ b'_' ∷ []))
    → (m : ValidationModule) → Q (prefix m)
unfolding code is_space
prefix_shape Q h schema = h _ _ refl refl
prefix_shape Q h record_count = h _ _ refl refl
prefix_shape Q h duplicate = h _ _ refl refl
prefix_shape Q h nullability = h _ _ refl refl
prefix_shape Q h aggregation = h _ _ refl refl
prefix_shape Q h full_data = h _ _ refl refl
prefix_shape Q h referential_integrity = h _ _ refl refl
prefix_shape Q h profiling = h _ _ refl refl
prefix_shape Q h file_comparison = h _ _ refl refl

underscore : is_space b'_' ≡ false
unfolding is_space
underscore = refl

strip-prefix :
    (m : ValidationModule) (rest : Text)
    → IsTrimmed rest
    → strip (prefix m ++ rest) ≡ prefix m ++ rest
strip-prefix m rest h =
    prefix_shape (λ p. strip (p ++ rest) ≡ p ++ rest)
      (λ a b ha hb.
        strip_fixed a (b ∷ b'_' ∷ rest) ha
          (IsTrimmed-cons a _ ha (IsTrimmed-cons b _ hb (IsTrimmed-cons b'_' rest underscore h))))
      m

module _ (u : Unicode) (m : ValidationModule) where
  -- A name that has the prefix keeps it as it is.
  prefixed_again :
      (rest : Text) → IsTrimmed rest → prefixed_name u m (prefix m ++ rest) ≡ prefix m ++ rest
  unfolding prefixed_name
  prefixed_again rest h =
      rw
        (
          strip-prefix m rest h,
          casefold-append u (prefix m) rest,
          starts_with-append (casefold u (prefix m)) (casefold u rest),
        )
        (ap (λ s. prefix m ++ s) (drop-append (prefix m) rest))

  -- Prefixing is idempotent, whatever the name and the interpreter's tables of case folding.
  pub prefixed_name-prefixed_name :
      (name : Text) → prefixed_name u m (prefixed_name u m name) ≡ prefixed_name u m name
  prefixed_name-prefixed_name name =
      elim (Bool-cases (starts_with (casefold u (strip name)) (casefold u (prefix m)))) [
        | inl has ↦
            let e : prefixed_name u m name ≡ prefix m ++ drop (length (prefix m)) (strip name) =
              unfold prefixed_name in rw has in
            rw e (
              prefixed_again _
                (IsTrimmed-drop (length (prefix m)) (strip name) (strip-IsTrimmed name)))
        | inr lacks ↦
            let e : prefixed_name u m name ≡ prefix m ++ strip name =
              unfold prefixed_name in rw lacks in
            rw e (prefixed_again (strip name) (strip-IsTrimmed name))
      ]

-- ===== src/PyText/Laws.antt =====
-- Laws of the operations on texts.
use datarecon_ai_community_e.Prelude.{◌≡◌, refl, true, [], ◌∷◌, ◌++◌, append_assoc, ◌↔◌, arith}
use datarecon_ai_community_e.PyText.{Text, Unicode, text_eq, starts_with, casefold}

pub text_eq-eq : (s t : Text) → text_eq s t ≡ true → s ≡ t
unfolding text_eq
text_eq-eq [] [] h = refl
text_eq-eq [] (y ∷ t) h = cc
text_eq-eq (x ∷ s) [] h = cc
text_eq-eq (x ∷ s) (y ∷ t) h = ground (arith, text_eq-eq s t)

pub text_eq_refl : (s : Text) → text_eq s s ≡ true
unfolding text_eq
text_eq_refl [] = refl
text_eq_refl (x ∷ s) = ground (arith, text_eq_refl s)

pub text_eq_iff : (s t : Text) → (text_eq s t ≡ true) ↔ (s ≡ t)
text_eq_iff s t = (text_eq-eq s t, λ e. rw e (text_eq_refl t))

pub starts_with-append : (p s : Text) → starts_with (p ++ s) p ≡ true
unfolding starts_with
starts_with-append [] s = refl
starts_with-append (c ∷ p) s = ground (arith, starts_with-append p s)

module _ (u : Unicode) where
  pub casefold-append : (s t : Text) → casefold u (s ++ t) ≡ casefold u s ++ casefold u t
  unfolding casefold
  casefold-append [] t = refl
  casefold-append (c ∷ s) t = simp (casefold-append s t, append_assoc)

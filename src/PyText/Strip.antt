-- ===== src/PyText/Strip.antt =====
-- Stripping: what is stripped stays as it is.
use datarecon_ai_community_e.Prelude.{
  ℕ, zero, suc, ◌≡◌, refl, false, [], ◌∷◌, drop, arith, Bool-cases, inl, inr,
}
use datarecon_ai_community_e.PyText.{Text, strip_left, strip_right, strip, is_space}

-- No space at the end.
abbrev pub IsTrimmed : Text → Type 0
IsTrimmed s = strip_right is_space s ≡ s

pub IsTrimmed-tail : (c : ℕ) (s : Text) → IsTrimmed (c ∷ s) → IsTrimmed s
unfolding strip_right
IsTrimmed-tail c s h = ground arith

pub IsTrimmed-cons : (c : ℕ) (s : Text) → is_space c ≡ false → IsTrimmed s → IsTrimmed (c ∷ s)
unfolding strip_right
IsTrimmed-cons c s h k = ground arith

pub IsTrimmed-drop : (n : ℕ) (s : Text) → IsTrimmed s → IsTrimmed (drop n s)
IsTrimmed-drop zero s h = h
IsTrimmed-drop (suc n) [] h = h
IsTrimmed-drop (suc n) (c ∷ s) h = IsTrimmed-drop n s (IsTrimmed-tail c s h)

strip_right-IsTrimmed : (s : Text) → IsTrimmed (strip_right is_space s)
unfolding strip_right
strip_right-IsTrimmed [] = refl
strip_right-IsTrimmed (c ∷ s) = ground (arith, strip_right-IsTrimmed s)

pub strip-IsTrimmed : (s : Text) → IsTrimmed (strip s)
unfolding strip
strip-IsTrimmed s = strip_right-IsTrimmed (strip_left is_space s)

-- A text that begins with no space and ends with none is left alone.
pub strip_fixed :
    (c : ℕ) (s : Text) → is_space c ≡ false → IsTrimmed (c ∷ s) → strip (c ∷ s) ≡ c ∷ s
unfolding strip strip_left
strip_fixed c s h k = rw h k

strip_right_cons :
    (c : ℕ) (s : Text)
    → is_space c ≡ false
    → strip_right is_space (c ∷ s) ≡ c ∷ strip_right is_space s
unfolding strip_right
strip_right_cons c s h = rw h refl

strip-strip_right :
    (s : Text)
    → strip (strip_right is_space (strip_left is_space s))
      ≡ strip_right is_space (strip_left is_space s)
unfolding strip_left
strip-strip_right [] = unfold strip_right in unfold strip in refl
strip-strip_right (c ∷ s) = elim (Bool-cases (is_space c)) [
  | inl blank ↦ rw blank (strip-strip_right s)
  | inr solid ↦
      rw (solid, strip_right_cons c s solid)
        (strip_fixed c (strip_right is_space s) solid
          (IsTrimmed-cons c (strip_right is_space s) solid (strip_right-IsTrimmed s)))
]

-- A stripped text is left alone.
pub strip-strip : (s : Text) → strip (strip s) ≡ strip s
unfolding strip
strip-strip s = strip-strip_right s

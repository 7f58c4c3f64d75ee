-- ===== src/PyText.antt =====
-- Python's `str` as the program uses it: a text is the list of its code points.
-- What depends on the character database (case folding, decimal digits) is a parameter; the
-- operations themselves are written out.
pub mod Laws
pub mod Dict
pub mod Strip
use Prim.Native.Char.{code}
use Prim.Native.String
use datarecon_ai_community_e.Prelude.{
  ℕ, zero, suc, ◌+◌, ◌-◌, ◌*◌, String, Bool, true, false, ◌&&◌, ◌||◌, Option, none, some, List, [],
  ◌∷◌, ◌++◌, ltb, leb, ◌==◌, if◌then◌else◌, length, exists,
}

abbrev pub Text : Type 0
Text = List ℕ

abbrev pub text : String → Text
text String.[] = []
text (String.◌∷◌ c s) = code c ∷ text s

-- The character database of the interpreter: what one code point folds to, and its decimal value.
pub record Unicode : Type 0 where
  pub fold : ℕ → Text
  pub digit : ℕ → Option ℕ

-- a == b
unfoldable pub text_eq : Text → Text → Bool
text_eq [] [] = true
text_eq (x ∷ xs) (y ∷ ys) = x == y && text_eq xs ys
text_eq _ _ = false

-- `not s`
abbrev pub is_empty : Text → Bool
is_empty [] = true
is_empty (_ ∷ _) = false

-- c.isspace()
unfoldable pub is_space : ℕ → Bool
is_space c =
    (leb 9 c && leb c 13)
    || (leb 28 c && leb c 32)
    || (c == 0x85)
    || (c == 0xa0)
    || (c == 0x1680)
    || (leb 0x2000 c && leb c 0x200a)
    || (c == 0x2028)
    || (c == 0x2029)
    || (c == 0x202f)
    || (c == 0x205f)
    || (c == 0x3000)

-- s.lstrip(), with the test for what is stripped
unfoldable pub strip_left : (ℕ → Bool) → Text → Text
strip_left p [] = []
strip_left p (c ∷ s) = if p c then strip_left p s else c ∷ s

unfoldable pub strip_right : (ℕ → Bool) → Text → Text
strip_right p [] = []
strip_right p (c ∷ s) =
    let rest = strip_right p s in if p c then (if is_empty rest then [] else c ∷ rest) else c ∷ rest

-- s.strip()
unfoldable pub strip : Text → Text
unfolding strip_left strip_right is_space
strip s = strip_right is_space (strip_left is_space s)

-- c in s
abbrev pub has_char : ℕ → Text → Bool
has_char c s = exists (λ x. x == c) s

-- s.startswith(prefix)
unfoldable pub starts_with : Text → Text → Bool
starts_with s [] = true
starts_with [] (p ∷ ps) = false
starts_with (c ∷ s) (p ∷ ps) = c == p && starts_with s ps

-- s.partition(sep): what stands before and behind the first separator
unfoldable pub partition : ℕ → Text → Text × Text
partition sep [] = ([], [])
partition sep (c ∷ s) =
    let (before, behind) = partition sep s in if c == sep then ([], s) else (c ∷ before, behind)

-- Puts a character before the first piece.
abbrev push_char : ℕ → List Text → List Text
push_char c [] = (c ∷ []) ∷ []
push_char c (p ∷ ps) = (c ∷ p) ∷ ps

-- s.split(sep)
unfoldable pub split_on : ℕ → Text → List Text
split_on sep [] = [] ∷ []
split_on sep (c ∷ s) = let rest = split_on sep s in if c == sep then [] ∷ rest else push_char c rest

-- s.split(): the runs of other characters between white space
unfoldable pub split_words : Text → List Text
unfolding is_space
split_words [] = []
split_words (c ∷ []) = if is_space c then [] else (c ∷ []) ∷ []
split_words (c ∷ d ∷ s) =
    let rest = split_words (d ∷ s) in
    if is_space c then rest else if is_space d then (c ∷ []) ∷ rest else push_char c rest

module _ (u : Unicode) where
  -- s.casefold(): folding is character by character
  unfoldable pub casefold : Text → Text
  casefold [] = []
  casefold (c ∷ s) = u.fold c ++ casefold s

  -- The digits of `int`: one underscore may stand between two of them.
  abbrev more_digits : ℕ → ℕ → Text → Option (ℕ × ℕ)
  more_digits n count [] = some (n, count)
  more_digits n count (c ∷ []) = elim (u.digit c) [
    | none ↦ none
    | some d ↦ some (n * 10 + d, count + 1)
  ]
  more_digits n count (c ∷ d ∷ s) = elim (u.digit c) [
    | some v ↦ more_digits (n * 10 + v) (count + 1) (d ∷ s)
    | none ↦
        if c == b'_'
        then (elim (u.digit d) [ none ↦ none | some v ↦ more_digits (n * 10 + v) (count + 1) s ])
        else none
  ]

  abbrev within_limit : Option (ℕ × ℕ) → Option ℕ
  within_limit none = none
  within_limit (some (n, count)) = if leb count 4300 then some n else none

  abbrev unsigned : Text → Option ℕ
  unsigned [] = none
  unsigned (c ∷ s) = elim (u.digit c) [ none ↦ none | some d ↦ within_limit (more_digits d 1 s) ]

-- A Python `int`: `negsuc n` is -(n + 1).
pub data ℤ : Type 0 where
  pos : ℕ → ℤ
  negsuc : ℕ → ℤ

abbrev negate : Option ℕ → Option ℤ
negate none = none
negate (some zero) = some (pos 0)
negate (some (suc n)) = some (negsuc n)

abbrev plain : Option ℕ → Option ℤ
plain none = none
plain (some n) = some (pos n)

abbrev signed : Unicode → Text → Option ℤ
signed u [] = none
signed u (c ∷ s) =
    if c == b'-'
    then negate (unsigned u s)
    else if c == b'+'
    then plain (unsigned u s)
    else plain (unsigned u (c ∷ s))

-- int(s); `none` is the ValueError. More than 4300 digits are refused by the interpreter too.
unfoldable pub int : Unicode → Text → Option ℤ
unfolding strip
int u s = signed u (strip s)

-- The database at ASCII, for tests.
abbrev pub ascii : Unicode
ascii = record {
  fold = λ c. if leb b'A' c && leb c b'Z' then (c + 32) ∷ [] else c ∷ [];
  digit = λ c. if leb b'0' c && leb c b'9' then some (c - b'0') else none;
}

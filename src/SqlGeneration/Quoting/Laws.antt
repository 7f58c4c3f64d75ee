-- ===== src/SqlGeneration/Quoting/Laws.antt =====
-- About `_Quoter`, and a reader of identifiers.
use datarecon_ai_community_e.Prelude.{
  ℕ, ◌≡◌, refl, ◌∙◌, true, false, none, some, [], ◌∷◌, ◌++◌, arith, Bool-cases, inl, inr, ◌==◌,
  Bool, ◌||◌, if◌then◌else◌, map, append_assoc, ==→eq, eq→==,
}
use mathlib.Core.Path.{subst, sym}
use datarecon_ai_community_e.PyText.{Text, has_char}
use datarecon_ai_community_e.Domain.Databases.{DatabaseType, sqlserver}
use datarecon_ai_community_e.SqlGeneration.Quoting.{
  Quoter, quoter_of, is_first, is_later, is_bare_rest, is_bare, escape, quote,
}
use datarecon_ai_community_e.SqlGeneration.Quoting.Reader.{
  Delimiters, delimiters, starts_word, continues_word, all_continue, is_word, read_bare,
  read_quoted, before_found, read_identifier,
}

or_false : (b : Bool) → (b || false) ≡ b
or_false b = ground arith

false-true : {b : Bool} → b ≡ true → b ≡ false → ⊥
false-true h k = cc

-- What may stand behind an identifier: no character that would be a part of it.
abbrev pub CanFollow : Delimiters → Text → Type 0
CanFollow q [] = Unit
CanFollow q (c ∷ s) = (continues_word c ≡ false) × ((c == q.closing) ≡ false)

read_bare_lem :
    (q : Delimiters) (name rest : Text)
    → all_continue name ≡ true
    → CanFollow q rest
    → read_bare (name ++ rest) ≡ (name, rest)
unfolding read_bare
read_bare_lem q [] [] b h = refl
read_bare_lem q [] (c ∷ rest) b h = rw (h.0) refl
read_bare_lem q (c ∷ name) rest b h =
    let later : continues_word c ≡ true = ground arith in
    rw (later, read_bare_lem q name rest (ground arith) h) refl

read_quoted-end :
    (q : Delimiters) (rest : Text)
    → CanFollow q rest
    → read_quoted q.closing (q.closing ∷ rest) ≡ some ([], rest)
unfolding read_quoted
read_quoted-end q [] h = ground arith
read_quoted-end q (c ∷ rest) h = ground arith

read_quoted-doubled :
    (close : ℕ) (s : Text)
    → read_quoted close (close ∷ close ∷ s) ≡ before_found close (read_quoted close s)
unfolding read_quoted
read_quoted-doubled close s = ground arith

read_quoted-plain :
    (close c : ℕ) (s : Text)
    → (c == close) ≡ false
    → read_quoted close (c ∷ s) ≡ before_found c (read_quoted close s)
unfolding read_quoted
read_quoted-plain close c [] h = rw h refl
read_quoted-plain close c (d ∷ s) h = rw h refl

read_quoted_lem :
    (q : Delimiters) (name rest : Text)
    → CanFollow q rest
    → read_quoted q.closing (escape q.closing name ++ q.closing ∷ rest) ≡ some (name, rest)
unfolding escape
read_quoted_lem q [] rest h = read_quoted-end q rest h
read_quoted_lem q (c ∷ name) rest h = elim (Bool-cases (c == q.closing)) [
  | inl same ↦
      let e : c ≡ q.closing = ==→eq c q.closing same in
      rw
        (
          same,
          read_quoted-doubled q.closing (escape q.closing name ++ q.closing ∷ rest),
          read_quoted_lem q name rest h,
          e,
        )
        refl
  | inr other ↦
      rw
        (
          other,
          read_quoted-plain q.closing c (escape q.closing name ++ q.closing ∷ rest) other,
          read_quoted_lem q name rest h,
        )
        refl
]

-- Without a newline, the pattern's words are those of the databases.
is_bare_rest-word : (s : Text) → has_char 10 s ≡ false → is_bare_rest s ≡ all_continue s
unfolding is_bare_rest is_later is_first
is_bare_rest-word [] h = refl
is_bare_rest-word (c ∷ s) h =
    let newline : (c == 10) ≡ false = ground arith in
    rw (newline, is_bare_rest-word s (ground arith)) (or_false _)

is_bare-word : (s : Text) → has_char 10 s ≡ false → is_bare s ≡ is_word s
unfolding is_bare is_first
is_bare-word [] h = refl
is_bare-word (c ∷ s) h = rw (is_bare_rest-word s (ground arith)) refl

abbrev quotes : DatabaseType → Quoter
quotes t = record { open_char = (delimiters t).opening; close_char = (delimiters t).closing }

quoter_of-quotes : (t : DatabaseType) → quoter_of (some t) ≡ quotes t
unfolding quoter_of delimiters
quoter_of-quotes sqlserver = refl
quoter_of-quotes t = refl

-- A name that is no bare identifier stands between the quote characters.
quoted :
    (q : Quoter) (name rest : Text)
    → is_bare name ≡ false
    → quote q name ++ rest ≡ q.open_char ∷ escape q.close_char name ++ q.close_char ∷ rest
unfolding quote
quoted q name rest h = rw (h, append_assoc (escape q.close_char name) (q.close_char ∷ []) rest) refl

quoted-delimiters :
    (t : DatabaseType) (name rest : Text)
    → is_bare name ≡ false
    → quote (quoter_of (some t)) name ++ rest
      ≡ (delimiters t).opening ∷ escape (delimiters t).closing name ++ (delimiters t).closing ∷ rest
quoted-delimiters t name rest h =
    subst
      (λ q.
        quote q name ++ rest
        ≡ (delimiters t).opening ∷ escape (delimiters t).closing name
          ++ (delimiters t).closing ∷ rest)
      (sym (quoter_of-quotes t)) (quoted (quotes t) name rest h)

-- A bare identifier stands as it is.
bare : (q : Quoter) (name : Text) → is_bare name ≡ true → quote q name ≡ name
unfolding quote
bare q name h = rw h refl

-- No dialect opens an identifier with a letter.
delimiters-opening : (t : DatabaseType) → starts_word (delimiters t).opening ≡ false
unfolding delimiters
delimiters-opening sqlserver = refl
delimiters-opening t = refl

first-opening :
    (q : Delimiters) (c : ℕ)
    → starts_word q.opening ≡ false
    → starts_word c ≡ true
    → (c == q.opening) ≡ false
first-opening q c h k = elim (Bool-cases (c == q.opening)) [
  | inl same ↦ let e : c ≡ q.opening = ==→eq c q.opening same in absurd (false-true (rw e at k) h)
  | inr other ↦ other
]

module _ (t : DatabaseType) (fold : ℕ → ℕ) (is_reserved : Text → Bool) where
  word-read :
      (name rest : Text)
      → CanFollow (delimiters t) rest
      → is_word name ≡ true
      → read_identifier t fold is_reserved (name ++ rest)
        ≡ (if is_reserved name then none else some (map fold name, rest))
  unfolding read_identifier
  word-read [] rest h b = cc
  word-read (c ∷ s) rest h b =
      let first : starts_word c ≡ true = ground arith in
      let whole : all_continue s ≡ true = ground arith in
      rw
        (
          first-opening (delimiters t) c (delimiters-opening t) first,
          first,
          read_bare_lem (delimiters t) s rest whole h,
        )
        refl

  quoted-read :
      (name rest : Text)
      → CanFollow (delimiters t) rest
      → read_identifier t fold is_reserved (
          (delimiters t).opening ∷ escape (delimiters t).closing name
          ++ (delimiters t).closing ∷ rest)
        ≡ some (name, rest)
  unfolding read_identifier
  quoted-read name rest h =
      rw (eq→== (delimiters t).opening (delimiters t).opening refl)
        (read_quoted_lem (delimiters t) name rest h)

  -- A name without a newline, as it is quoted for a type of database, and with a text behind it that
  -- does not begin with a character of a word or a closing delimiter, is read by that type: a name
  -- that is no word gives exactly this name, whatever stands in it; a word stands bare, so that it
  -- gives the name in the case that the database folds it to, and is refused where it is reserved.
  -- The text behind is left.
  pub read_identifier-quote :
      (name rest : Text)
      → has_char 10 name ≡ false
      → CanFollow (delimiters t) rest
      → read_identifier t fold is_reserved (quote (quoter_of (some t)) name ++ rest) ≡ (
          if is_word name
          then (if is_reserved name then none else some (map fold name, rest))
          else some (name, rest))
  read_identifier-quote name rest n h = elim (Bool-cases (is_word name)) [
    | inl word ↦
        rw (bare (quoter_of (some t)) name ((is_bare-word name n) ∙ word), word)
          (word-read name rest h word)
    | inr other ↦
        rw (quoted-delimiters t name rest ((is_bare-word name n) ∙ other), other)
          (quoted-read name rest h)
  ]

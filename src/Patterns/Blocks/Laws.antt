-- ===== src/Patterns/Blocks/Laws.antt =====
-- About `analyse_row_set`, and lists of distinct numbers.
use datarecon_ai_community_e.Prelude.{
  ℕ, zero, suc, ◌+◌, ◌-◌, ◌*◌, ◌/◌, ◌%◌, ◌≡◌, ◌≤◌, ◌<◌, refl, Bool, true, false, not, ◌||◌, List,
  [], ◌∷◌, map, if◌then◌else◌, exists, length, ltb, ◌==◌, ==→eq, eq→==, sym, ap, ◌∙◌, All, All-imp,
  arith, Bool-cases, inl, inr,
}
use mathlib.Core.Path.{subst}
use datarecon_ai_community_e.PyText.{Text, text_eq}
use datarecon_ai_community_e.Engine.Pandas.{Row}
use datarecon_ai_community_e.Patterns.Ranking.{Pattern}
use datarecon_ai_community_e.Patterns.Blocks.{
  Numbers, are_distinct, least, greatest, block, block_of, numeric_values, analyse_row_set,
}

abbrev pub has : ℕ → List ℕ → Bool
has k xs = exists (λ x. x == k) xs

abbrev range : ℕ → ℕ → List ℕ
range low zero = []
range low (suc n) = low ∷ range (suc low) n

-- The list without the first `k`.
abbrev without : ℕ → List ℕ → List ℕ
without k [] = []
without k (x ∷ xs) = let rest = without k xs in if x == k then xs else x ∷ rest

length-without : (k : ℕ) (xs : List ℕ) → has k xs ≡ true → length xs ≡ suc (length (without k xs))
length-without k [] h = cc
length-without k (x ∷ xs) h = ground (arith, length-without k xs)

has-without :
    (k j : ℕ) (xs : List ℕ) → has j xs ≡ true → (j == k) ≡ false → has j (without k xs) ≡ true
has-without k j [] h ne = cc
has-without k j (x ∷ xs) h ne = ground (arith, has-without k j xs)

has-range : (k low n : ℕ) → low ≤ k → k < low + n → has k (range low n) ≡ true
has-range k low zero h l = absurd (omega arith)
has-range k low (suc n) h l = ground (arith, has-range k (suc low) n)

length-range : (low n : ℕ) → length (range low n) ≡ n
length-range low zero = refl
length-range low (suc n) = omega (arith, length-range (suc low) n)

others :
    (x : ℕ) (xs ys : List ℕ)
    → has x xs ≡ false
    → All (λ z. has z ys ≡ true) xs
    → All (λ z. has z (without x ys) ≡ true) xs
others x [] ys d h = tt
others x (z ∷ xs) ys d h =
    (has-without x z ys h.0 (ground arith), others x xs ys (ground arith) h.1)

-- A list of distinct numbers is no longer than one that has them all.
length-distinct-le :
    (xs ys : List ℕ)
    → are_distinct xs ≡ true
    → All (λ x. has x ys ≡ true) xs
    → length xs ≤ length ys
length-distinct-le [] ys d h = omega arith
length-distinct-le (x ∷ xs) ys d h = omega (
  arith,
  length-without x ys h.0,
  length-distinct-le xs (without x ys) (ground arith) (others x xs ys (ground arith) h.1),
)

-- The pigeonhole principle.
pub range_filled :
    (xs : List ℕ) (low k : ℕ)
    → are_distinct xs ≡ true
    → All (λ x. (low ≤ x) × (x < low + length xs)) xs
    → low ≤ k
    → k < low + length xs
    → has k xs ≡ true
range_filled xs low k d h l m = elim (Bool-cases (has k xs)) [
  | inl found ↦ found
  | inr missing ↦
      let ys = range low (length xs) in
      absurd (
        omega (
          arith,
          length-distinct-le xs (without k ys) d (
              others k xs ys missing (
                All-imp _ _
                  (λ x (b : (low ≤ x) × (x < low + length xs)). has-range x low (length xs) b.0 b.1)
                  xs h)),
          length-without k ys (has-range k low (length xs) l m),
          length-range low (length xs),
        ))
]

Below-trans : (m n : ℕ) (xs : List ℕ) → m ≤ n → All (λ x. n ≤ x) xs → All (λ x. m ≤ x) xs
Below-trans m n xs l = All-imp (λ x. n ≤ x) (λ x. m ≤ x) (λ x h. omega arith) xs

Above-trans : (m n : ℕ) (xs : List ℕ) → n ≤ m → All (λ x. x ≤ n) xs → All (λ x. x ≤ m) xs
Above-trans m n xs l = All-imp (λ x. x ≤ n) (λ x. x ≤ m) (λ x h. omega arith) xs

least-le : (m : ℕ) (xs : List ℕ) → All (λ x. least m xs ≤ x) (m ∷ xs)
least-le m [] = (omega arith, tt)
least-le m (x ∷ xs) =
    let (first, rest) = least-le m xs in
    let below : (least m (x ∷ xs) ≤ least m xs) × (least m (x ∷ xs) ≤ x) = ground arith in
    (omega arith, (below.1, Below-trans _ (least m xs) xs below.0 rest))

le-greatest : (m : ℕ) (xs : List ℕ) → All (λ x. x ≤ greatest m xs) (m ∷ xs)
le-greatest m [] = (omega arith, tt)
le-greatest m (x ∷ xs) =
    let (first, rest) = le-greatest m xs in
    let above : (greatest m xs ≤ greatest m (x ∷ xs)) × (x ≤ greatest m (x ∷ xs)) = ground arith in
    (omega arith, (above.1, Above-trans _ (greatest m xs) xs above.0 rest))

false-ne-true : false ≡ true → ⊥
false-ne-true h = cc

-- Whole numbers, in units.
abbrev pub AreWhole : ℕ → List ℕ → Type 0
AreWhole unit = All (λ v. v ≡ v / unit * unit)

module _ (unit : ℕ) (positive : 0 < unit) where
  cancel : (a b : ℕ) → a * unit ≡ b * unit → a ≡ b
  cancel a b h = grind arith

  eq-div : (x k : ℕ) → x ≡ x / unit * unit → (x / unit == k) ≡ (x == k * unit)
  eq-div x k h = elim (Bool-cases (x / unit == k)) [
    | inl same ↦
        rw same (sym (eq→== x (k * unit) (h ∙ ap (λ q. q * unit) (==→eq (x / unit) k same))))
    | inr other ↦ elim (Bool-cases (x == k * unit)) [
      | inl equal ↦ absurd (
          let e = cancel (x / unit) k (sym h ∙ ==→eq x (k * unit) equal) in
          false-ne-true (sym other ∙ eq→== (x / unit) k e))
      | inr unequal ↦ rw (other, unequal) refl
    ]
  ]

  has-div :
      (k : ℕ) (xs : List ℕ) → AreWhole unit xs → has k (map (λ v. v / unit) xs) ≡ has (k * unit) xs
  has-div k [] h = refl
  has-div k (x ∷ xs) h = rw (eq-div x k h.0, has-div k xs h.1) refl

  are_distinct-div :
      (xs : List ℕ)
      → AreWhole unit xs
      → are_distinct xs ≡ true
      → are_distinct (map (λ v. v / unit) xs) ≡ true
  are_distinct-div [] h d = refl
  are_distinct-div (x ∷ xs) h d =
      let kept : has (x / unit * unit) xs ≡ false = rw (← h.0) (ground arith) in
      rw (has-div (x / unit) xs h.1, kept, are_distinct-div xs h.1 (ground arith)) refl

div_mono : (u a b : ℕ) → 0 < u → a ≤ b → a / u ≤ b / u
div_mono u a b h l = grind arith

-- What pandas documents of `nunique`: it is the length exactly for distinct values.
abbrev pub CountsDistinct : (List ℕ → ℕ) → Type 0
CountsDistinct nunique = (xs : List ℕ) → nunique xs ≡ length xs → are_distinct xs ≡ true

abbrev pub IsFilled : ℕ → ℕ → ℕ → List ℕ → Type 0
IsFilled unit low high values = (k : ℕ) → low ≤ k → k ≤ high → has (k * unit) values ≡ true

nil-ne : (p : Pattern) → [] ≡ p ∷ [] → ⊥
nil-ne p h = cc

first_or : Pattern → List Pattern → Pattern
first_or q [] = q
first_or q (p ∷ ps) = p

head-eq : {p q : Pattern} → p ∷ [] ≡ q ∷ [] → p ≡ q
unfolding first_or
head-eq {p} h = ap (first_or p) h

module _ (N : Numbers) (positive : 0 < N.unit) (counts : CountsDistinct N.nunique) where
  in_range :
      (low high : ℕ) (xs : List ℕ)
      → All (λ x. low ≤ x) xs
      → All (λ x. x ≤ high) xs
      → All
          (λ n. (low / N.unit ≤ n) × (n < low / N.unit + (high / N.unit - low / N.unit + 1)))
          (map (λ v. v / N.unit) xs)
  in_range low high [] b a = tt
  in_range low high (x ∷ xs) b a = (
    (
      div_mono N.unit low x positive b.0,
      omega (arith, div_mono N.unit x high positive a.0, div_mono N.unit low x positive b.0),
    ),
    in_range low high xs b.1 a.1,
  )

  length-map : (xs : List ℕ) → length (map (λ v. v / N.unit) xs) ≡ length xs
  length-map [] = refl
  length-map (x ∷ xs) = omega (arith, length-map xs)

  filled :
      (v : ℕ) (values : List ℕ)
      → AreWhole N.unit (v ∷ values)
      → are_distinct (v ∷ values) ≡ true
      → length (v ∷ values) ≡ greatest v values / N.unit - least v values / N.unit + 1
      → IsFilled N.unit (least v values / N.unit) (greatest v values / N.unit) (v ∷ values)
  filled v values whole distinct long k l m =
      let ns = map (λ w. w / N.unit) (v ∷ values) in
      let size : length ns ≡ greatest v values / N.unit - least v values / N.unit + 1 =
        length-map (v ∷ values) ∙ long in
      sym (has-div N.unit positive k (v ∷ values) whole)
      ∙ range_filled ns (least v values / N.unit) k
          (are_distinct-div N.unit positive (v ∷ values) whole distinct)
          (subst
            (λ (n : ℕ).
              All (λ x. (least v values / N.unit ≤ x) × (x < least v values / N.unit + n)) ns)
            (sym size)
            (in_range (least v values) (greatest v values) (v ∷ values) (least-le v values)
              (le-greatest v values)))
          l (omega arith)

  block_of-filled :
      (key side : Text) (total : ℕ) (values : List ℕ) (p : Pattern)
      → AreWhole N.unit values
      → block_of N key side total values ≡ p ∷ []
      → (low high : ℕ) × (p ≡ block N key side total low high)
        × (length values ≡ total)
        × IsFilled N.unit low high values
  unfolding block_of
  block_of-filled key side total [] p whole h = absurd (let k = h in cc)
  block_of-filled key side total (v ∷ values) p whole h =
      let low = least v values / N.unit in
      let high = greatest v values / N.unit in
      elim (Bool-cases (not (length (v ∷ values) == total) || not (v % N.unit == 0))) [
        | inl other ↦ absurd (nil-ne p (rw other at h))
        | inr passed ↦
            elim (Bool-cases
              (not (N.nunique (v ∷ values) == total) || not (high - low + 1 == total))) [
                | inl other ↦ absurd (nil-ne p (rw (passed, other) at h))
                | inr filled_up ↦
                    let long : length (v ∷ values) ≡ total = ==→eq _ _ (ground arith) in
                    let distinct : N.nunique (v ∷ values) ≡ total = ==→eq _ _ (ground arith) in
                    let wide : high - low + 1 ≡ total = ==→eq _ _ (ground arith) in
                    (
                      low,
                      high,
                      sym (head-eq (rw (passed, filled_up) at h)),
                      long,
                      filled v values whole (counts (v ∷ values) (distinct ∙ sym long))
                          (long ∙ sym wide),
                    )
              ]
      ]

  -- Rows whose keys are whole numbers and that are reported as a block have every number of the
  -- block as a key: there is no gap between the two ends that the report names, which has as many
  -- rows as the frame.
  pub analyse_row_set-IsFilled :
      (columns : List Text) (rows : List (Row N.Cell)) (key side : Text) (p : Pattern)
      → AreWhole N.unit (numeric_values N (map (λ r. r key) rows))
      → analyse_row_set N columns rows (key ∷ []) side ≡ p ∷ []
      → (low high : ℕ) × (p ≡ block N key side (length rows) low high)
        × (length (numeric_values N (map (λ r. r key) rows)) ≡ length rows)
        × IsFilled N.unit low high (numeric_values N (map (λ r. r key) rows))
  unfolding analyse_row_set
  analyse_row_set-IsFilled columns rows key side p whole h =
      elim (Bool-cases (ltb (length rows) 3)) [
        | inl few ↦ absurd (nil-ne p (rw few at h))
        | inr many ↦ elim (Bool-cases (exists (text_eq key) columns)) [
          | inl known ↦ block_of-filled key side (length rows) _ p whole (rw (many, known) at h)
          | inr unknown ↦ absurd (nil-ne p (rw (many, unknown) at h))
        ]
      ]

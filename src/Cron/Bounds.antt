-- ===== src/Cron/Bounds.antt =====
-- A schedule that parses holds only values of its fields, and no empty set.
use mathlib.Core.Path.{subst}
use mathlib.Core.Option.{some-injective}
use datarecon_ai_community_e.Prelude.{
  ℕ, zero, suc, ◌+◌, ◌-◌, ◌≤◌, ◌<◌, ◌≡◌, ◌≢◌, some, List, [], ◌∷◌, ◌++◌, ltb, arith, Bool-cases,
  Option-cases, ltb→lt, inl, inr, All, All-append, All-imp, ok, raise_if, >>=-eq-ok, OnOk,
  OnOk-bind, OnOk-eq,
}
use datarecon_ai_community_e.PyText.{
  Text, Unicode, ℤ, pos, text_eq, is_empty, casefold, strip, split_on,
}
use datarecon_ai_community_e.Cron.{
  Field, minute, hour, day_of_month, month, day_of_week, low, high, contains, empty_entry,
  CronSchedule, find, names_of, union, range, range_from, in_bounds, to_int, to_value, bounds_of,
  step_and_rest, parse_piece, parse_pieces, parse_field, non_empty, parse_parts, parse,
}

abbrev pub InField : Field → ℕ → Type 0
InField f v = (low f ≤ v) × (v ≤ high f)

find-All {ℓ κ} :
    {V : Type ℓ} (P : V → Type κ) (k : Text) (m : List (Text × V)) {v : V}
    → All (λ e. P (e.1)) m
    → find k m ≡ some v
    → P v
find-All P k [] h e = cc
find-All P k ((j, w) ∷ m) h e = elim (Bool-cases (text_eq j k)) [
  | inl same ↦ subst P (some-injective _ _ (rw same at e)) h.0
  | inr other ↦ find-All P k m h.1 (rw other at e)
]

names_of-InField : (f : Field) → All (λ e. InField f (e.1)) (names_of f)
unfolding names_of
names_of-InField minute = tt
names_of-InField hour = tt
names_of-InField day_of_month = tt
names_of-InField month = omega arith
names_of-InField day_of_week = omega arith

low-le-high : (f : Field) → low f ≤ high f
low-le-high minute = omega arith
low-le-high hour = omega arith
low-le-high day_of_month = omega arith
low-le-high month = omega arith
low-le-high day_of_week = omega arith

in_bounds-InField : (f : Field) (n : ℤ) (v : ℕ) → in_bounds f n ≡ ok v → InField f v
unfolding in_bounds
in_bounds-InField day_of_week (pos n) v h = ground arith
in_bounds-InField f n v h = ground arith

range_from-All :
    (left start stop step : ℕ)
    → All (λ v. (start ≤ v) × (v < stop)) (range_from left start stop step)
unfolding range_from
range_from-All zero start stop step = tt
range_from-All (suc left) start stop step = elim (Bool-cases (ltb start stop)) [
  | inl more ↦ rw more (
    (omega arith, ltb→lt start stop more),
    All-imp (λ v. (start + step ≤ v) × (v < stop)) (λ v. (start ≤ v) × (v < stop))
        (λ v h. (omega arith, h.1)) _ (range_from-All left (start + step) stop step),
  )
  | inr over ↦ rw over tt
]

module _ (P : ℕ → Type 0) where
  union-All : (xs ys : List ℕ) → All P xs → All P ys → All P (union xs ys)
  unfolding union
  union-All xs [] h k = h
  union-All xs (y ∷ ys) h k = elim (Bool-cases (contains xs y)) [
    | inl old ↦ rw old (union-All xs ys h k.1)
    | inr new ↦ rw new (union-All (xs ++ y ∷ []) ys (All-append P xs (y ∷ []) h (k.0, tt)) k.1)
  ]

pub non_empty-eq-ok :
    (f : Field) (part : Text) (values result : List ℕ)
    → non_empty f part values ≡ ok result
    → (values ≡ result) × (result ≢ [])
non_empty-eq-ok f part [] result h = cc
non_empty-eq-ok f part (v ∷ values) result h = (cc, cc)

module _ (u : Unicode) (f : Field) where
  to_value-InField : (t : Text) (v : ℕ) → to_value u f t ≡ ok v → InField f v
  unfolding to_value
  to_value-InField t v h = elim (Option-cases (find (casefold u (strip t)) (names_of f))) [
    | inl none_such ↦
        let (n, _, ranged) =
          >>=-eq-ok (to_int u f t) (in_bounds f) (rw (none_such, to_value) at h) in
        in_bounds-InField f n v ranged
    | inr (w, named) ↦
        let e : w ≡ v = (let e' = rw (named, to_value) at h in cc) in
        subst (InField f) e (find-All (InField f) _ (names_of f) (names_of-InField f) named)
  ]

  bounds_of-InField :
      (piece : Text) (b : ℕ × ℕ)
      → bounds_of u f piece ≡ ok b
      → (low f ≤ b.0) × (b.0 ≤ b.1) × (b.1 ≤ high f)
  unfolding bounds_of
  bounds_of-InField piece b h = grind (arith, to_value-InField, low-le-high)

  range-InField :
      (start end step : ℕ)
      → low f ≤ start
      → end ≤ high f
      → All (InField f) (range start (end + 1) step)
  unfolding range
  range-InField start end step h k =
      All-imp (λ v. (start ≤ v) × (v < end + 1)) (InField f) (λ v r. (omega arith, omega arith)) _
        (range_from-All (end + 1 - start) start (end + 1) step)

  parse_piece-InField :
      (piece : Text) (values : List ℕ) → parse_piece u f piece ≡ ok values → All (InField f) values
  unfolding parse_piece
  parse_piece-InField piece values h =
      let (_, _, h₁) = >>=-eq-ok (raise_if (is_empty (strip piece)) (empty_entry f)) _ h in
      let ((step, rest), _, h₂) = >>=-eq-ok (step_and_rest u f (strip piece)) _ h₁ in
      let ((start, end), bounded, h₃) = >>=-eq-ok (bounds_of u f rest) _ h₂ in
      let b = bounds_of-InField rest (start, end) bounded in
      let e : range start (end + 1) step ≡ values = cc in
      subst (All (InField f)) e (range-InField start end step b.0 b.2)

  parse_pieces-InField :
      (pieces : List Text) (values result : List ℕ)
      → All (InField f) values
      → parse_pieces u f values pieces ≡ ok result
      → All (InField f) result
  unfolding parse_pieces
  parse_pieces-InField [] values result a h =
      let e : values ≡ result = cc in subst (All (InField f)) e a
  parse_pieces-InField (piece ∷ pieces) values result a h =
      let (more, parsed, h') = >>=-eq-ok (parse_piece u f piece) _ h in
      parse_pieces-InField pieces (union values more) result
        (union-All (InField f) values more a (parse_piece-InField piece more parsed)) h'

  parse_field-InField :
      (part : Text) (values : List ℕ)
      → parse_field u f part ≡ ok values
      → All (InField f) values × (values ≢ [])
  unfolding parse_field
  parse_field-InField part values h =
      let (found, parsed, kept) = >>=-eq-ok (parse_pieces u f [] (split_on b',' part)) _ h in
      let (same, filled) = non_empty-eq-ok f part found values kept in
      (
        subst (All (InField f)) same (parse_pieces-InField (split_on b',' part) [] found tt parsed),
        filled,
      )

-- Each set of the schedule has a value, and only values of its field.
pub record IsBounded (s : CronSchedule) : Type 0 where
  pub minutes : All (InField minute) s.minutes × (s.minutes ≢ [])
  pub hours : All (InField hour) s.hours × (s.hours ≢ [])
  pub days_of_month : All (InField day_of_month) s.days_of_month × (s.days_of_month ≢ [])
  pub months : All (InField month) s.months × (s.months ≢ [])
  pub days_of_week : All (InField day_of_week) s.days_of_week × (s.days_of_week ≢ [])

module _ (u : Unicode) where
  parse_parts-IsBounded :
      (raw : Text) (parts : List Text) → OnOk IsBounded (parse_parts u raw parts)
  unfolding parse_parts
  parse_parts-IsBounded raw (a ∷ b ∷ c ∷ d ∷ e ∷ []) =
      OnOk-bind IsBounded (parse_field u minute a) _ λ m hm.
        OnOk-bind IsBounded (parse_field u hour b) _ λ h hh.
          OnOk-bind IsBounded (parse_field u day_of_month c) _ λ dm hdm.
            OnOk-bind IsBounded (parse_field u month d) _ λ mo hmo.
              OnOk-bind IsBounded (parse_field u day_of_week e) _ λ dw hdw. record {
                minutes = parse_field-InField u minute a m hm;
                hours = parse_field-InField u hour b h hh;
                days_of_month = parse_field-InField u day_of_month c dm hdm;
                months = parse_field-InField u month d mo hmo;
                days_of_week = parse_field-InField u day_of_week e dw hdw;
              }
  parse_parts-IsBounded raw parts = tt

-- A cron expression that parses gives a schedule in which every set has a value, and holds only
-- values in the range of its field.
pub parse-IsBounded :
    (u : Unicode) (expression : Text) (s : CronSchedule) → parse u expression ≡ ok s → IsBounded s
unfolding parse
parse-IsBounded u expression s h = elim (Bool-cases (is_empty (strip expression))) [
  | inl blank ↦ let e = rw (blank, parse) at h in cc
  | inr given ↦ OnOk-eq IsBounded _ (parse_parts-IsBounded u _ _) (rw (given, parse) at h)
]

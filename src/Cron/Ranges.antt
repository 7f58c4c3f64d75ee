-- ===== src/Cron/Ranges.antt =====
-- What `range`, the union of sets and the comma list of a field hold.
use native.Mathlib.Nat.{mod-eq_of_lt, mod-eq-sub-mod}
use datarecon_ai_community_e.Prelude.{
  ℕ, zero, suc, ◌+◌, ◌-◌, ◌%◌, ◌≤◌, ◌<◌, ◌≡◌, refl, ap, Bool, true, false, ◌&&◌, ◌||◌, List, [],
  ◌∷◌, ◌++◌, ltb, ◌==◌, exists, arith, Bool-cases, inl, inr, ◌↔◌, Result, ok, err, >>=-eq-ok, ◌∙◌,
}
use datarecon_ai_community_e.PyText.{Text, Unicode, split_on, strip, is_empty}
use datarecon_ai_community_e.Cron.Bounds.{non_empty-eq-ok}
use datarecon_ai_community_e.Cron.{
  Field, CronError, contains, union, range, range_from, parse_piece, parse_pieces, parse_field,
  step_and_rest, bounds_of,
}

-- v is start, start + step, … below stop
abbrev pub InRange : ℕ → ℕ → ℕ → ℕ → Type 0
InRange start stop step v = (start ≤ v) × (v < stop) × ((v - start) % step ≡ 0)

contains-range_from :
    (left start stop step v : ℕ)
    → contains (range_from (suc left) start stop step) v
      ≡ (ltb start stop && ((start == v) || contains (range_from left (start + step) stop step) v))
unfolding range_from
contains-range_from left start stop step v = elim (Bool-cases (ltb start stop)) [
  | inl more ↦ rw more (ground arith)
  | inr over ↦ rw over
]

mod_later : (start step v : ℕ) → start + step ≤ v → (v - start) % step ≡ (v - (start + step)) % step
mod_later start step v h =
    mod-eq-sub-mod (omega arith)
    ∙ ap (λ (d : ℕ). d % step) (let e : v - start - step ≡ v - (start + step) = omega arith in e)

mod_first : (start step v : ℕ) → start ≤ v → v < start + step → (v - start) % step ≡ 0 → v ≡ start
mod_first start step v h lt e =
    let small : (v - start) % step ≡ v - start = mod-eq_of_lt (omega arith) in omega arith

range_from_sound :
    (left start stop step v : ℕ)
    → 0 < step
    → contains (range_from left start stop step) v ≡ true
    → InRange start stop step v
range_from_sound zero start stop step v h m = unfold range_from in cc
range_from_sound (suc left) start stop step v h m =
    let e = contains-range_from left start stop step v in
    let ih = range_from_sound left (start + step) stop step v h in
    elim (Bool-cases (start == v)) [
      | inl here ↦ ground (arith, mod-eq_of_lt {n = 0} {m = step})
      | inr later ↦ ground (arith, mod_later start step v)
    ]

range_from_complete :
    (left start stop step v : ℕ)
    → 0 < step
    → stop ≤ start + left
    → InRange start stop step v
    → contains (range_from left start stop step) v ≡ true
range_from_complete zero start stop step v h fuel r = absurd (omega arith)
range_from_complete (suc left) start stop step v h fuel r = ground (
  arith,
  contains-range_from left start stop step v,
  mod_later start step v,
  mod_first start step v,
  range_from_complete left (start + step) stop step v,
)

contains-append :
    (xs ys : List ℕ) (v : ℕ) → contains (xs ++ ys) v ≡ (contains xs v || contains ys v)
contains-append [] ys v = refl
contains-append (x ∷ xs) ys v = ground (arith, contains-append xs ys v)

pub contains-union :
    (xs ys : List ℕ) (v : ℕ) → contains (union xs ys) v ≡ (contains xs v || contains ys v)
unfolding union
contains-union xs [] v = ground arith
contains-union xs (y ∷ ys) v = ground (
  arith,
  contains-union xs ys v,
  contains-union (xs ++ y ∷ []) ys v,
  contains-append xs (y ∷ []) v,
)

-- `range(start, stop, step)` for a positive step holds exactly start, start + step, … below stop.
pub contains-range :
    (start stop step v : ℕ)
    → 0 < step
    → (contains (range start stop step) v ≡ true) ↔ InRange start stop step v
unfolding range
contains-range start stop step v h = (
  range_from_sound (stop - start) start stop step v h,
  range_from_complete (stop - start) start stop step v h (omega arith),
)

module _ (u : Unicode) (f : Field) where
  step_pos : (piece rest : Text) (step : ℕ) → step_and_rest u f piece ≡ ok (step, rest) → 0 < step
  unfolding step_and_rest
  step_pos piece rest step h = grind arith

  -- A piece that is not blank, whose step (after the slash, else 1) and whose ends parse, gives
  -- exactly the values from its first to its last that lie a multiple of the step from the first.
  pub parse_piece_lem :
      (piece rest : Text) (step start end : ℕ)
      → is_empty (strip piece) ≡ false
      → step_and_rest u f (strip piece) ≡ ok (step, rest)
      → bounds_of u f rest ≡ ok (start, end)
      → (values : List ℕ) × (parse_piece u f piece ≡ ok values)
        × ((v : ℕ) → (contains values v ≡ true) ↔ InRange start (end + 1) step v)
  unfolding parse_piece
  parse_piece_lem piece rest step start end given stepped bounded = (
    range start (end + 1) step,
    rw (given, stepped, bounded),
    λ v. contains-range start (end + 1) step v (step_pos (strip piece) rest step stepped),
  )

  -- The piece parses, and its values have `v`.
  abbrev pub fires : Text → ℕ → Bool
  fires piece v = elim (parse_piece u f piece) [ ok values ↦ contains values v | err _ ↦ false ]

  fired_by :
      (parsed : Result CronError (List ℕ)) (values : List ℕ) (v : ℕ)
      → parsed ≡ ok values
      → elim parsed as (λ _. Bool) [ ok w ↦ contains w v | err _ ↦ false ] ≡ contains values v
  fired_by parsed values v e = rw e

  one_more :
      (piece : Text) (pieces : List Text) (values more : List ℕ) (v : ℕ)
      → parse_piece u f piece ≡ ok more
      → (contains (union values more) v || exists (λ p. fires p v) pieces)
        ≡ (contains values v || exists (λ p. fires p v) (piece ∷ pieces))
  one_more piece pieces values more v parsed =
      let fired : fires piece v ≡ contains more v = fired_by _ more v parsed in
      rw (contains-union values more v) (ground arith)

  contains-parse_pieces :
      (pieces : List Text) (values result : List ℕ) (v : ℕ)
      → parse_pieces u f values pieces ≡ ok result
      → contains result v ≡ (contains values v || exists (λ piece. fires piece v) pieces)
  unfolding parse_pieces
  contains-parse_pieces [] values result v h =
      let e : values ≡ result = cc in rw (← e) (ground arith)
  contains-parse_pieces (piece ∷ pieces) values result v h =
      let (more, parsed, h') = >>=-eq-ok (parse_piece u f piece) _ h in
      contains-parse_pieces pieces (union values more) result v h'
      ∙ one_more piece pieces values more v parsed

  -- Where a field parses, a value is in its set exactly when one of its comma-separated pieces
  -- has it.
  pub contains-parse_field :
      (part : Text) (values : List ℕ) (v : ℕ)
      → parse_field u f part ≡ ok values
      → contains values v ≡ exists (λ piece. fires piece v) (split_on b',' part)
  unfolding parse_field
  contains-parse_field part values v h =
      let (found, parsed, kept) = >>=-eq-ok (parse_pieces u f [] (split_on b',' part)) _ h in
      let same = non_empty-eq-ok f part found values kept in
      rw (← same.0) (contains-parse_pieces (split_on b',' part) [] found v parsed)

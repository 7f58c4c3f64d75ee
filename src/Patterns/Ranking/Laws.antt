-- ===== src/Patterns/Ranking/Laws.antt =====
-- About the sort of the patterns in `analyse_mismatches`.
use datarecon_ai_community_e.Prelude.{
  ltb, ◌≤◌, if◌then◌else◌, ℕ, ◌≡◌, refl, Bool, true, false, List, [], ◌∷◌, All, All-imp, arith,
  Bool-cases, inl, inr,
}
use datarecon_ai_community_e.PyText.{Text}
use datarecon_ai_community_e.Suites.Store.{text_le}
use datarecon_ai_community_e.Engine.Pandas.{count}
use datarecon_ai_community_e.Patterns.Series.{Kind, column_concentration}
use datarecon_ai_community_e.Patterns.Ranking.{
  specificity_rank, Pattern, ranks_before, insert_ranked, ranked, column_or_blank,
}

text_le_total : (s t : Text) → text_le s t ≡ false → text_le t s ≡ true
unfolding text_le
text_le_total [] t h = cc
text_le_total (x ∷ s) [] h = refl
text_le_total (x ∷ s) (y ∷ t) h = ground (arith, text_le_total s t)

text_le_trans : (r s t : Text) → text_le r s ≡ true → text_le s t ≡ true → text_le r t ≡ true
unfolding text_le
text_le_trans [] s t h k = refl
text_le_trans (x ∷ r) [] t h k = cc
text_le_trans (x ∷ r) (y ∷ s) [] h k = cc
text_le_trans (x ∷ r) (y ∷ s) (z ∷ t) h k = ground (arith, text_le_trans r s t)

ranks_before_total : (p q : Pattern) → ranks_before p q ≡ false → ranks_before q p ≡ true
unfolding ranks_before
ranks_before_total p q h =
    ground (arith, text_le_total (column_or_blank p.column) (column_or_blank q.column))

-- The ladder of `ranks_before`, of counts, ranks and the test of the names.
abbrev ladder : (a b r s : ℕ) → Bool → Bool
ladder a b r s t =
    if ltb b a
    then true
    else if ltb a b
    then false
    else if ltb r s
    then true
    else if ltb s r
    then false
    else t

ladder_trans :
    (a b c r s q : ℕ) (t v w : Bool)
    → (t ≡ true → v ≡ true → w ≡ true)
    → ladder a b r s t ≡ true
    → ladder b c s q v ≡ true
    → ladder a c r q w ≡ true
ladder_trans a b c r s q t v w f h k = ground arith

ranks_before_trans :
    (p q r : Pattern) → ranks_before p q ≡ true → ranks_before q r ≡ true → ranks_before p r ≡ true
unfolding ranks_before
ranks_before_trans p q r h k =
    ladder_trans p.covered q.covered r.covered (specificity_rank p) (specificity_rank q)
      (specificity_rank r) _ _ _
      (text_le_trans (column_or_blank p.column) (column_or_blank q.column)
        (column_or_blank r.column))
      h k

-- Every pattern passes the test against all that follow it.
abbrev IsSorted : List Pattern → Type 0
IsSorted [] = Unit
IsSorted (p ∷ ps) = All (λ q. ranks_before p q ≡ true) ps × IsSorted ps

abbrev pub is_concentration : Kind → Bool
is_concentration column_concentration = true
is_concentration _ = false

-- What may stand before what: more rows first, of equally many an explanation before the
-- concentration, and of two that are equal in that the names in their order.
abbrev pub Outranks : Pattern → Pattern → Type 0
Outranks p q =
    (q.covered ≤ p.covered)
    × (q.covered ≡ p.covered → is_concentration p.kind ≡ true → is_concentration q.kind ≡ true)
    × (q.covered ≡ p.covered
        → is_concentration p.kind ≡ is_concentration q.kind
        → text_le (column_or_blank p.column) (column_or_blank q.column) ≡ true)

abbrev pub IsRanked : List Pattern → Type 0
IsRanked [] = Unit
IsRanked (p ∷ ps) = All (Outranks p) ps × IsRanked ps

rank_lem : (p : Pattern) → specificity_rank p ≡ (if is_concentration p.kind then 1 else 0)
rank_lem p = by_kind p.kind
  where
    by_kind :
        (k : Kind)
        → elim k as (λ _. ℕ) [ column_concentration ↦ 1 | _ ↦ 0 ]
          ≡ (if is_concentration k then 1 else 0)
    by_kind column_concentration = refl
    by_kind _ = refl

before-Outranks : (p q : Pattern) → ranks_before p q ≡ true → Outranks p q
unfolding ranks_before
before-Outranks p q h =
    let kp = rank_lem p in
    let kq = rank_lem q in (ground (arith, kp, kq), ground (arith, kp, kq), ground (arith, kp, kq))

sorted-IsRanked : (ps : List Pattern) → IsSorted ps → IsRanked ps
sorted-IsRanked [] h = tt
sorted-IsRanked (p ∷ ps) h =
    (All-imp _ _ (λ q k. before-Outranks p q k) ps h.0, sorted-IsRanked ps h.1)

All-insert_ranked :
    (r p : Pattern) (ps : List Pattern)
    → ranks_before r p ≡ true
    → All (λ q. ranks_before r q ≡ true) ps
    → All (λ q. ranks_before r q ≡ true) (insert_ranked p ps)
unfolding insert_ranked
All-insert_ranked r p [] h k = (h, tt)
All-insert_ranked r p (q ∷ qs) h k = elim (Bool-cases (ranks_before p q)) [
  | inl first ↦ rw first (h, k)
  | inr later ↦ rw later (k.0, All-insert_ranked r p qs h k.1)
]

insert_ranked-IsSorted :
    (p : Pattern) (ps : List Pattern) → IsSorted ps → IsSorted (insert_ranked p ps)
unfolding insert_ranked
insert_ranked-IsSorted p [] h = (tt, tt)
insert_ranked-IsSorted p (q ∷ qs) h = elim (Bool-cases (ranks_before p q)) [
  | inl first ↦ rw first ((first, All-imp _ _ (λ r k. ranks_before_trans p q r first k) qs h.0), h)
  | inr later ↦
      rw later (
        All-insert_ranked q p qs (ranks_before_total p q later) h.0,
        insert_ranked-IsSorted p qs h.1,
      )
]

ranked-IsSorted : (ps : List Pattern) → IsSorted (ranked ps)
unfolding ranked
ranked-IsSorted [] = tt
ranked-IsSorted (p ∷ ps) = insert_ranked-IsSorted p (ranked ps) (ranked-IsSorted ps)

pub ranked-IsRanked : (ps : List Pattern) → IsRanked (ranked ps)
ranked-IsRanked ps = sorted-IsRanked (ranked ps) (ranked-IsSorted ps)

count-insert_ranked :
    (t : Pattern → Bool) (p : Pattern) (ps : List Pattern)
    → count t (insert_ranked p ps) ≡ count t (p ∷ ps)
unfolding insert_ranked
count-insert_ranked t p [] = refl
count-insert_ranked t p (q ∷ qs) = ground (arith, count-insert_ranked t p qs)

pub count-ranked : (t : Pattern → Bool) (ps : List Pattern) → count t (ranked ps) ≡ count t ps
unfolding ranked
count-ranked t [] = refl
count-ranked t (p ∷ ps) = ground (arith, count-insert_ranked t p (ranked ps), count-ranked t ps)

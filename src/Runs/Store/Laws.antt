-- ===== src/Runs/Store/Laws.antt =====
-- What the lists of runs hold, and in which order.
use datarecon_ai_community_e.Prelude.{
  ℕ, zero, suc, ◌≤◌, ◌≡◌, Bool, true, Option, List, [], ◌∷◌, select, take, length, leb, All, arith,
  Bool-cases, inl, inr,
}
use datarecon_ai_community_e.PyText.{Text}
use datarecon_ai_community_e.Domain.{ValidationRun, ValidationModule}
use datarecon_ai_community_e.Runs.Store.{insert_newest, newest_first, is_listed, list_filtered}

All-select_self : {A : Type 0} (p : A → Bool) (xs : List A) → All (λ x. p x ≡ true) (select p xs)
All-select_self p [] = tt
All-select_self p (x ∷ xs) = elim (Bool-cases (p x)) [
  | inl holds ↦ rw holds (holds, All-select_self p xs)
  | inr fails ↦ rw fails (All-select_self p xs)
]

All-take : {A : Type 0} (P : A → Type 0) (n : ℕ) (xs : List A) → All P xs → All P (take n xs)
All-take P zero xs h = tt
All-take P (suc n) [] h = tt
All-take P (suc n) (x ∷ xs) h = (h.0, All-take P n xs h.1)

length-take : {A : Type 0} (n : ℕ) (xs : List A) → length (take n xs) ≤ n
length-take zero xs = omega arith
length-take (suc n) [] = omega arith
length-take (suc n) (x ∷ xs) = omega (arith, length-take n xs)

All-insert_newest :
    (P : ValidationRun → Type 0) (r : ValidationRun) (rows : List ValidationRun)
    → P r
    → All P rows
    → All P (insert_newest r rows)
unfolding insert_newest
All-insert_newest P r [] h a = (h, tt)
All-insert_newest P r (s ∷ rows) h a = elim (Bool-cases (leb s.started_at r.started_at)) [
  | inl newer ↦ rw newer (h, a)
  | inr older ↦ rw older (a.0, All-insert_newest P r rows h a.1)
]

All-newest_first :
    (P : ValidationRun → Type 0) (table : List ValidationRun)
    → All P table
    → All P (newest_first table)
unfolding newest_first
All-newest_first P [] a = tt
All-newest_first P (r ∷ table) a =
    All-insert_newest P r (newest_first table) a.0 (All-newest_first P table a.1)

-- No run started after the one before it.
abbrev pub IsNewestFirst : List ValidationRun → Type 0
IsNewestFirst [] = Unit
IsNewestFirst (r ∷ rows) = All (λ s. s.started_at ≤ r.started_at) rows × IsNewestFirst rows

insert_newest-IsNewestFirst :
    (r : ValidationRun) (rows : List ValidationRun)
    → IsNewestFirst rows
    → IsNewestFirst (insert_newest r rows)
unfolding insert_newest
insert_newest-IsNewestFirst r [] h = (tt, tt)
insert_newest-IsNewestFirst r (s ∷ rows) h = elim (Bool-cases (leb s.started_at r.started_at)) [
  | inl newer ↦
      let n : s.started_at ≤ r.started_at = ground arith in rw newer ((n, below n rows h.0), h)
  | inr older ↦
      let o : r.started_at ≤ s.started_at = ground arith in
      rw older (
        All-insert_newest (λ t. t.started_at ≤ s.started_at) r rows o h.0,
        insert_newest-IsNewestFirst r rows h.1,
      )
]
  where
    below :
        {a b : ℕ}
        → a ≤ b
        → (rows : List ValidationRun) → All (λ t. t.started_at ≤ a) rows
        → All (λ t. t.started_at ≤ b) rows
    below h [] a = tt
    below h (t ∷ rows) a = (omega (arith, a.0), below h rows a.1)

newest_first-IsNewestFirst : (table : List ValidationRun) → IsNewestFirst (newest_first table)
unfolding newest_first
newest_first-IsNewestFirst [] = tt
newest_first-IsNewestFirst (r ∷ table) =
    insert_newest-IsNewestFirst r (newest_first table) (newest_first-IsNewestFirst table)

take-IsNewestFirst :
    (n : ℕ) (rows : List ValidationRun) → IsNewestFirst rows → IsNewestFirst (take n rows)
take-IsNewestFirst zero rows h = tt
take-IsNewestFirst (suc n) [] h = tt
take-IsNewestFirst (suc n) (r ∷ rows) h = (All-take _ n rows h.0, take-IsNewestFirst n rows h.1)

-- A filtered list has at most `limit` runs, the newest first, and each passes the filter.
pub list_filtered_lem :
    (project_id : Option Text) (m : Option ValidationModule) (suite_id : Option Text) (limit : ℕ)
    (include_archived : Bool) (table : List ValidationRun)
    → (length (list_filtered project_id m suite_id limit include_archived table) ≤ limit)
      × IsNewestFirst (list_filtered project_id m suite_id limit include_archived table)
      × All
          (λ r. is_listed project_id m suite_id include_archived r ≡ true)
          (list_filtered project_id m suite_id limit include_archived table)
unfolding list_filtered
list_filtered_lem project_id m suite_id limit include_archived table =
    let kept = select (is_listed project_id m suite_id include_archived) table in
    (
      length-take limit (newest_first kept),
      take-IsNewestFirst limit (newest_first kept) (newest_first-IsNewestFirst kept),
      All-take _ limit (newest_first kept) (
          All-newest_first (λ r. is_listed project_id m suite_id include_archived r ≡ true) kept
            (All-select_self (is_listed project_id m suite_id include_archived) table)),
    )

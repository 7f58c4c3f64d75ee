-- ===== src/Referential/Tests.antt =====
-- Orders that refer to customers, with cells that are optional numbers.
use datarecon_ai_community_e.Prelude.{
  ℕ, ◌≡◌, refl, Bool, true, false, not, Option, none, some, List, [], ◌∷◌, if◌then◌else◌, select,
  exists, ◌==◌, ok, arith, ok-injective, round_ratio,
}
use datarecon_ai_community_e.PyText.{Text, text, ascii, text_eq, casefold}
use datarecon_ai_community_e.PyText.Dict.{get, set_default}
use datarecon_ai_community_e.ColumnMatching.{resolve_all, resolve_names, canonical_map, add_columns}
use datarecon_ai_community_e.Engine.Pandas.{Row, same_key}
use datarecon_ai_community_e.Referential.{
  JoinPandas, JoinLaws, Table, Orphans, find_orphans, join_orphans,
}
use datarecon_ai_community_e.Referential.Laws.{IsCounted, join_orphans-IsCounted}

abbrev Cell : Type 0
Cell = Option ℕ

abbrev cell_eq : Cell → Cell → Bool
cell_eq none none = true
cell_eq (some a) (some b) = a == b
cell_eq _ _ = false

-- Of the rows with one key the last stays.
abbrev last_of_each : List Text → List (Row Cell) → List (Row Cell)
last_of_each keys [] = []
last_of_each keys (r ∷ rows) =
    let rest = last_of_each keys rows in
    if exists (same_key cell_eq keys r) rows then rest else r ∷ rest

abbrev cells : JoinPandas
cells = record {
  Cell = Cell;
  is_na = λ c. elim c [ none ↦ true | some _ ↦ false ];
  key_equal = cell_eq;
  drop_duplicates = last_of_each;
  left_only_rows =
      λ keys left right. ok (select (λ l. not (exists (same_key cell_eq keys l) right)) left);
}

cell_sym : (a b : Cell) → cell_eq a b ≡ true → cell_eq b a ≡ true
cell_sym none none h = refl
cell_sym (some a) (some b) h = ground arith
cell_sym none (some b) h = cc
cell_sym (some a) none h = cc

cell_na : (a b : Cell) → cell_eq a b ≡ true → cells.is_na a ≡ cells.is_na b
cell_na none none h = refl
cell_na (some a) (some b) h = refl
cell_na none (some b) h = cc
cell_na (some a) none h = cc

exists_like :
    (keys : List Text) (p : Row Cell → Bool) (r : Row Cell) (rows : List (Row Cell))
    → ((a b : Row Cell) → same_key cell_eq keys a b ≡ true → p a ≡ p b)
    → exists (same_key cell_eq keys r) rows ≡ true
    → p r ≡ true
    → exists p rows ≡ true
exists_like keys p r [] c h k = cc
exists_like keys p r (s ∷ rows) c h k = ground (arith, c r s, exists_like keys p r rows c)

exists-last_of_each :
    (keys : List Text) (rows : List (Row Cell)) (p : Row Cell → Bool)
    → ((a b : Row Cell) → same_key cell_eq keys a b ≡ true → p a ≡ p b)
    → exists p (last_of_each keys rows) ≡ exists p rows
exists-last_of_each keys [] p c = refl
exists-last_of_each keys (r ∷ rows) p c =
    ground (arith, exists_like keys p r rows c, exists-last_of_each keys rows p c)

cells-JoinLaws : JoinLaws cells
cells-JoinLaws = record {
  key_sym = cell_sym;
  key_trans = λ a b c h k. ground arith;
  key_na = cell_na;
  drop_duplicates_lem = exists-last_of_each;
  left_only_lem = λ keys left right found h. let e = ok-injective h in rw (← e) refl;
}

-- A row with one named cell.
abbrev one : Text → Cell → Row Cell
one name c column = if text_eq column name then c else none

abbrev orders : Table Cell
orders = record {
  columns = text "ORDER" ∷ text "CUSTOMER_ID" ∷ [];
  rows =
      one (text "CUSTOMER_ID") (some 1)
      ∷ one (text "CUSTOMER_ID") none
      ∷ one (text "CUSTOMER_ID") (some 7)
      ∷ one (text "CUSTOMER_ID") (some 7)
      ∷ [];
}

abbrev customers : Table Cell
customers = record {
  columns = text "ID" ∷ [];
  rows =
      one (text "ID") (some 1)
      ∷ one (text "ID") (some 2)
      ∷ one (text "ID") (some 1)
      ∷ one (text "ID") none
      ∷ [];
}

abbrev found_orphans : Orphans Cell
found_orphans = record {
  child_rows = 4;
  checked_rows = 3;
  null_key_rows = 1;
  orphan_rows = 2;
  orphan_percent = 666667;
  distinct_orphan_keys = 1;
  orphans = one (text "CUSTOMER_ID") (some 7) ∷ [];
}

joined :
    join_orphans ascii cells
      (λ e. [])
      (text "CUSTOMER_ID" ∷ [])
      (text "ID" ∷ [])
      1
      orders.rows
      customers.rows
    ≡ ok found_orphans
unfolding join_orphans text_eq round_ratio
joined = refl

-- The request may spell the columns in another case.
resolved :
    find_orphans ascii cells (λ e. []) orders customers (text "customer_id" ∷ []) (text "id" ∷ []) 1
    ≡ ok found_orphans
unfolding find_orphans join_orphans text_eq round_ratio resolve_all resolve_names canonical_map
    add_columns get set_default casefold
resolved = refl

join_orphans-IsCounted_example :
    IsCounted cells
      (text "CUSTOMER_ID" ∷ [])
      (text "ID" ∷ [])
      orders.rows
      customers.rows
      found_orphans
join_orphans-IsCounted_example =
    join_orphans-IsCounted ascii cells cells-JoinLaws (λ e. []) (text "CUSTOMER_ID" ∷ [])
      (text "ID" ∷ []) refl refl 1 orders.rows customers.rows found_orphans joined

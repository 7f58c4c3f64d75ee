-- ===== src/Projects/Laws.antt =====
-- The default project stays, and no suite is without its project.
use datarecon_ai_community_e.Prelude.{
  ℕ, ◌≡◌, refl, Bool, true, false, not, ◌||◌, some, List, [], ◌∷◌, ◌++◌, map, if◌then◌else◌, select,
  exists, All, All-imp, arith, Bool-cases, inl, inr, OnOk, OnOk-bind, OnOk-eq, ok, raise_if,
}
use datarecon_ai_community_e.PyText.{Text, text_eq, strip, is_empty}
use datarecon_ai_community_e.PyText.Laws.{text_eq_iff, text_eq_refl}
use datarecon_ai_community_e.Domain.{TestSuite}
use datarecon_ai_community_e.Projects.{
  Project, Tables, is_project, has_name, add_project, write_project, rewritten, name_elsewhere,
  create_project, update_project, delete_project, default_project_id, stored, is_taken, get_by_name,
  find_by_id, name_required,
}

-- There is a project with the id.
abbrev pub IsKnown : List Project → Text → Type 0
IsKnown ps i = exists (is_project i) ps ≡ true

IsKnown-appended :
    (i : Text) (p : Project) (ps : List Project) → IsKnown ps i → IsKnown (ps ++ p ∷ []) i
IsKnown-appended i p [] h = cc
IsKnown-appended i p (q ∷ ps) h = ground (arith, IsKnown-appended i p ps)

IsKnown-rewritten :
    (i : Text) (p : Project) (ps : List Project)
    → IsKnown ps i
    → IsKnown (map (λ row. if is_project p.project_id row then rewritten p row else row) ps) i
IsKnown-rewritten i p [] h = cc
IsKnown-rewritten i p (q ∷ ps) h = ground (arith, IsKnown-rewritten i p ps)

IsKnown-elsewhere :
    (i j : Text) (ps : List Project)
    → text_eq i j ≡ false
    → IsKnown ps i
    → IsKnown (select (λ p. not (is_project j p)) ps) i
IsKnown-elsewhere i j [] ne h = cc
IsKnown-elsewhere i j (q ∷ ps) ne h = ground (
  arith,
  text_eq_iff q.project_id i,
  text_eq_iff q.project_id j,
  text_eq_iff i j,
  text_eq_refl i,
  IsKnown-elsewhere i j ps,
)

select_all :
    (i : Text) (ps : List Project)
    → exists (is_project i) ps ≡ false
    → select (λ p. not (is_project i p)) ps ≡ ps
select_all i [] h = refl
select_all i (p ∷ ps) h = ground (arith, select_all i ps)

found_added :
    (p : Project) (ps : List Project)
    → exists (λ q. is_project p.project_id q || has_name p.name q) ps ≡ false
    → (get_by_name p.name (ps ++ p ∷ []) ≡ some p)
      × (find_by_id p.project_id (ps ++ p ∷ []) ≡ some p)
unfolding get_by_name find_by_id
found_added p [] h = (rw (text_eq_refl p.name) refl, rw (text_eq_refl p.project_id) refl)
found_added p (q ∷ ps) h = ground (arith, found_added p ps)

module _ {Json : Type 0} where
  -- The default project is there, and every suite's project is.
  pub record IsSound (st : Tables Json) : Type 0 where
    pub default_known : IsKnown st.projects default_project_id
    pub suites_known : All (λ (s : TestSuite Json). IsKnown st.projects s.project_id) st.suites

  transported :
      (st : Tables Json) (ps : List Project)
      → ((i : Text) → IsKnown st.projects i → IsKnown ps i)
      → IsSound st
      → IsSound (record st { projects = ps })
  transported st ps keep h = record {
    default_known = keep _ h.default_known;
    suites_known = All-imp _ _ (λ s k. keep s.project_id k) st.suites h.suites_known;
  }

  added-IsSound :
      (p : Project) (st : Tables Json)
      → IsSound st
      → OnOk
          (λ (r : Project × Tables Json). IsSound (r.1))
          (stored p st (add_project p st.projects))
  unfolding add_project
  added-IsSound p st h =
      elim (Bool-cases (exists (λ q. is_project p.project_id q || has_name p.name q) st.projects)) [
        | inl clashes ↦ rw clashes tt
        | inr free ↦ rw free (transported st _ (λ i. IsKnown-appended i p st.projects) h)
      ]

  written-IsSound :
      (p : Project) (st : Tables Json)
      → IsSound st
      → OnOk
          (λ (r : Project × Tables Json). IsSound (r.1))
          (stored p st (write_project p st.projects))
  unfolding write_project
  written-IsSound p st h = elim (Bool-cases (name_elsewhere p st.projects)) [
    | inl clashes ↦ rw clashes tt
    | inr free ↦ rw free (transported st _ (λ i. IsKnown-rewritten i p st.projects) h)
  ]

  create_project-IsSound :
      (new_id : Text) (now : ℕ) (name description : Text) (st : Tables Json)
      → IsSound st
      → OnOk
          (λ (r : Project × Tables Json). IsSound (r.1))
          (create_project new_id now name description st)
  unfolding create_project
  create_project-IsSound new_id now name description st h =
      let Q = λ (r : Project × Tables Json). IsSound (r.1) in
      OnOk-bind Q (raise_if (is_empty (strip name)) name_required) _ λ _ _.
        OnOk-bind Q (raise_if (is_taken (get_by_name (strip name) st.projects)) _) _
          λ _ _. added-IsSound _ st h

  update_project-IsSound :
      (now : ℕ) (p : Project) (st : Tables Json)
      → IsSound st
      → OnOk (λ (r : Project × Tables Json). IsSound (r.1)) (update_project now p st)
  unfolding update_project
  update_project-IsSound now p st h =
      OnOk-bind (λ (r : Project × Tables Json). IsSound (r.1))
        (raise_if (is_empty (strip p.name)) name_required) _ λ _ _. written-IsSound _ st h

  -- The suites that are left belong to projects that are left.
  left-IsKnown :
      (i : Text) (ps : List Project) (suites : List (TestSuite Json))
      → All (λ (s : TestSuite Json). IsKnown ps s.project_id) suites
      → All
          (λ (s : TestSuite Json). IsKnown (select (λ p. not (is_project i p)) ps) s.project_id)
          (select (λ s. not (text_eq s.project_id i)) suites)
  left-IsKnown i ps [] h = tt
  left-IsKnown i ps (s ∷ suites) h = elim (Bool-cases (text_eq s.project_id i)) [
    | inl gone ↦ rw gone (left-IsKnown i ps suites h.1)
    | inr kept ↦
        rw kept (IsKnown-elsewhere s.project_id i ps kept h.0, left-IsKnown i ps suites h.1)
  ]

  delete_project-IsSound :
      (i : Text) (st : Tables Json)
      → IsSound st
      → OnOk (λ (r : Bool × Tables Json). IsSound (r.1)) (delete_project i st)
  unfolding delete_project
  delete_project-IsSound i st h = elim (Bool-cases (text_eq i default_project_id)) [
    | inl default ↦ rw (default, delete_project) tt
    | inr other ↦
        rw (other, delete_project)
          (elim (Bool-cases (exists (is_project i) st.projects)) [
            | inl there ↦ rw there record {
              default_known =
                  IsKnown-elsewhere default_project_id i st.projects
                    (ground
                      (arith, text_eq_iff i default_project_id, text_eq_iff default_project_id i))
                    h.default_known;
              suites_known = left-IsKnown i st.projects st.suites h.suites_known;
            }
            | inr absent ↦
                rw (absent, select_all i st.projects absent)
                  record { default_known = h.default_known; suites_known = h.suites_known }
          ])
  ]

  -- One successful call of the service.
  pub data Change (st : Tables Json) : Tables Json → Type 0 where
    create :
        {st' : Tables Json} (new_id : Text) (now : ℕ) (name description : Text) (p : Project)
        → create_project new_id now name description st ≡ ok (p, st')
        → Change st st'
    edit :
        {st' : Tables Json} (now : ℕ) (p q : Project)
        → update_project now p st ≡ ok (q, st')
        → Change st st'
    remove :
        {st' : Tables Json} (i : Text) (found : Bool)
        → delete_project i st ≡ ok (found, st')
        → Change st st'

  -- Creating, changing and deleting projects keeps the default project, and every suite that is
  -- left belongs to a project that is left, where both held before.
  pub Change-IsSound : {st st' : Tables Json} → IsSound st → Change st st' → IsSound st'
  Change-IsSound {st} h (create i now name d p done) =
      OnOk-eq (λ (r : Project × Tables Json). IsSound (r.1)) _
        (create_project-IsSound i now name d st h) done
  Change-IsSound {st} h (edit now p q done) =
      OnOk-eq (λ (r : Project × Tables Json). IsSound (r.1)) _ (update_project-IsSound now p st h)
        done
  Change-IsSound {st} h (remove i found done) =
      OnOk-eq (λ (r : Bool × Tables Json). IsSound (r.1)) _ (delete_project-IsSound i st h) done

  stored_found :
      (p : Project) (st : Tables Json)
      → OnOk
          (λ (r : Project × Tables Json).
            (get_by_name p.name r.1.projects ≡ some r.0)
            × (find_by_id p.project_id r.1.projects ≡ some r.0))
          (stored p st (add_project p st.projects))
  unfolding add_project
  stored_found p st =
      elim (Bool-cases (exists (λ q. is_project p.project_id q || has_name p.name q) st.projects)) [
        | inl clashes ↦ rw clashes tt
        | inr free ↦ rw free (found_added p st.projects free)
      ]

  -- A project that was created is found again, by its name without the blanks around it and by its
  -- new id.
  pub create_project_lem :
      (new_id : Text) (now : ℕ) (name description : Text) (st st' : Tables Json) (p : Project)
      → create_project new_id now name description st ≡ ok (p, st')
      → (get_by_name (strip name) st'.projects ≡ some p) × (find_by_id new_id st'.projects ≡ some p)
  unfolding create_project
  create_project_lem new_id now name description st st' p done =
      let Q = λ (r : Project × Tables Json).
        (get_by_name (strip name) r.1.projects ≡ some r.0)
        × (find_by_id new_id r.1.projects ≡ some r.0) in
      OnOk-eq Q (create_project new_id now name description st)
        (OnOk-bind Q (raise_if (is_empty (strip name)) name_required) _ λ _ _.
          OnOk-bind Q (raise_if (is_taken (get_by_name (strip name) st.projects)) _) _
            λ _ _. stored_found _ st)
        done

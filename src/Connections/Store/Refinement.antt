-- ===== src/Connections/Store/Refinement.antt =====
-- The table of connections, and a map from ids to connections.
use datarecon_ai_community_e.Prelude.{
  ℕ, ◌≡◌, refl, false, Option, none, some, List, if◌then◌else◌, ok, exists, ◌||◌, Bool-cases, inl,
  inr, ok-injective, some-injective, >>=-eq-ok, ap,
}
use mathlib.Core.Path.{subst}
use datarecon_ai_community_e.PyText.{Text, text_eq}
use datarecon_ai_community_e.Connections.{Connection}
use datarecon_ai_community_e.Connections.Store.{
  ConnectionRow, row_to_entity, entity_to_params, updated_row, is_connection, is_named,
  on_connection, used_once_more, tested_row, read, get_by_id, add, write, delete, increment_usage,
  record_test_result, named_elsewhere,
}
use datarecon_ai_community_e.Connections.Store.Laws.{
  kept, overwritten, used, tested, mapped, params-read, updated-read, used-read, tested-read,
  first_row-on_connection, first_row-select, first_row-append,
}

-- The calls that change the table.
pub data Command : Type 0 where
  add_connection write_connection : Connection → Command
  delete_connection use_connection : Text → Command
  test_connection : ℕ → Text → Text → Command

-- What a call leaves in the table; `none` is the IntegrityError.
abbrev pub run_command : Command → List ConnectionRow → Option (List ConnectionRow)
run_command (add_connection c) table = add c table
run_command (write_connection c) table = write c table
run_command (delete_connection i) table = some ((delete i table).1)
run_command (use_connection i) table = some (increment_usage i table)
run_command (test_connection now i status) table = some (record_test_result now i status table)

-- The abstract state: for each id the connection that a reader gets.
abbrev pub Directory : Type 0
Directory = Text → Option Connection

-- What the same call does to a directory.
abbrev pub run_spec : Command → Directory → Directory
run_spec (add_connection c) m k = if text_eq c.connection_id k then some (kept c) else m k
run_spec (write_connection c) m k =
    if text_eq c.connection_id k then mapped (overwritten c) (m k) else m k
run_spec (delete_connection i) m k = if text_eq i k then none else m k
run_spec (use_connection i) m k = if text_eq i k then mapped used (m k) else m k
run_spec (test_connection now i status) m k =
    if text_eq i k then mapped (tested now status) (m k) else m k

-- Reading by id answers as the directory does, and never raises.
abbrev pub Represents : List ConnectionRow → Directory → Type 0
Represents table m = (k : Text) → get_by_id k table ≡ ok (m k)

-- A change of the row that was read is one of what is read.
mapped-read :
    (f : ConnectionRow → ConnectionRow) (g : Connection → Connection)
    → ((row : ConnectionRow) (old : Connection)
        → row_to_entity row ≡ ok old
        → row_to_entity (f row) ≡ ok (g old))
    → (row : Option ConnectionRow) (found : Option Connection) → read row ≡ ok found
    → read (mapped f row) ≡ ok (mapped g found)
mapped-read f g reads none none h = refl
mapped-read f g reads none (some c) h = cc
mapped-read f g reads (some row) found h =
    let (old, e, same) = >>=-eq-ok (row_to_entity row) _ h in
    rw (reads row old e) (ap (λ o. ok (mapped g o)) (ok-injective same))

module _ (table : List ConnectionRow) (m : Directory) (represents : Represents table m) where
  on_connection-Represents :
      (f : ConnectionRow → ConnectionRow) (g : Connection → Connection) (i : Text)
      → ((row : ConnectionRow) → (f row).connection_id ≡ row.connection_id)
      → ((row : ConnectionRow) (old : Connection)
          → row_to_entity row ≡ ok old
          → row_to_entity (f row) ≡ ok (g old))
      → Represents (on_connection f i table) (λ k. if text_eq i k then mapped g (m k) else m k)
  unfolding get_by_id
  on_connection-Represents f g i keep reads k = elim (Bool-cases (text_eq i k)) [
    | inl same ↦
        rw (first_row-on_connection f keep i k table, same)
          (mapped-read f g reads _ _ (represents k))
    | inr other ↦ rw (first_row-on_connection f keep i k table, other) (represents k)
  ]

  added-Represents :
      (c : Connection)
      → exists (λ row. is_connection c.connection_id row || is_named c.connection_name row) table
        ≡ false
      → (table' : List ConnectionRow) → add c table ≡ some table'
      → Represents table' (run_spec (add_connection c) m)
  unfolding get_by_id add entity_to_params
  added-Represents c free table' h =
      subst (λ t. Represents t (run_spec (add_connection c) m)) (some-injective (rw free at h))
        (λ k.
          rw (first_row-append c.connection_name (entity_to_params c) k table free)
            (elim (Bool-cases (text_eq c.connection_id k)) [
              | inl same ↦ rw (same, params-read c) refl
              | inr other ↦ rw other (represents k)
            ]))

  -- Where the table represents a directory and a call returns, the table that it leaves represents
  -- what the same call makes of the directory: reading any id answers as that does, and never raises.
  pub run_command-Represents :
      (command : Command) (table' : List ConnectionRow)
      → run_command command table ≡ some table'
      → Represents table' (run_spec command m)
  unfolding get_by_id add write delete increment_usage record_test_result updated_row
      entity_to_params
  run_command-Represents (add_connection c) table' h =
      elim (Bool-cases (
        exists (λ row. is_connection c.connection_id row || is_named c.connection_name row)
          table)) [
            | inl clash ↦ absurd (let k = rw clash at h in cc)
            | inr free ↦ added-Represents c free table' h
          ]
  run_command-Represents (write_connection c) table' h =
      elim (Bool-cases (named_elsewhere c table)) [
        | inl clash ↦ absurd (let k = rw clash at h in cc)
        | inr free ↦
            subst (λ t. Represents t (run_spec (write_connection c) m))
              (some-injective (rw free at h))
              (on_connection-Represents (updated_row c) (overwritten c) c.connection_id
                (λ row. refl) (λ row old e. updated-read row old e c))
      ]
  run_command-Represents (delete_connection i) table' h =
      subst (λ t. Represents t (run_spec (delete_connection i) m)) (some-injective h)
        (λ k. rw (first_row-select i k table) (elim (Bool-cases (text_eq i k)) [
          | inl same ↦ rw same refl
          | inr other ↦ rw other (represents k)
        ]))
  run_command-Represents (use_connection i) table' h =
      subst (λ t. Represents t (run_spec (use_connection i) m)) (some-injective h)
        (on_connection-Represents used_once_more used i (λ row. refl)
          (λ row old e. used-read row old e))
  run_command-Represents (test_connection now i status) table' h =
      subst (λ t. Represents t (run_spec (test_connection now i status) m)) (some-injective h)
        (on_connection-Represents (tested_row now status) (tested now status) i (λ row. refl)
          (λ row old e. tested-read row old e now status))

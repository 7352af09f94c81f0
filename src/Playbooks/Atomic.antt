-- ===== src/Playbooks/Atomic.antt =====
-- The transactions of `create_playbook` and `update_playbook` of
-- backend/app/services/playbooks.py: all of an edit or nothing of it.

use forjd.Playbooks.Edits.{
  is_empty_update, breaks_not_null, max_version, update_playbook_row, is_playbook, is_of,
  runs_before, actions_of, replace_actions, update_found, update_playbook, Edit, create, change,
  edit,
}
use forjd.Playbooks.Catalogue.{
  PlaybookRow, ActionRow, Catalogue, ActionIn, Updates, result_unrecorded, Edited, edited, refused,
  PlaybookReply, note, is_invalid, has_action, with_action, action_row, insert_actions, ids_of,
  World, attempted, attempted-elim, commit_edit, create_playbook,
}
use forjd.Prelude.{
  ℕ, suc, String, ◌≡◌, refl, ◌≢◌, inl, inr, Bool, true, false, not, ◌||◌, Option, none, some, List,
  [], ◌∷◌, ◌++◌, leb, string_eq, nat_eq, Bool-cases, select, find, contains, All, update_row,
  All-of-mem, map-mem, mem-of-select, mem-of-sort_by, mem-of-find, append-mem, mem-append_last,
}
use mathlib.Core.List.{Memᴰ}

-- Of an edit that is answered the row and the actions of the answer are in the tables; nothing of one
-- that is refused is, unless only the audit event of its result was not recorded.
abbrev pub IsAtomic : Catalogue → Catalogue × Edited PlaybookReply → Type 0
IsAtomic c (later, edited reply) =
    Memᴰ reply.playbook later.playbooks × All (λ a. Memᴰ a later.actions) reply.actions
IsAtomic c (later, refused r) =
    r ≢ result_unrecorded → (later.playbooks ≡ c.playbooks) × (later.actions ≡ c.actions)

abbrev pub HasSameTables : Catalogue → Catalogue → Type 0
HasSameTables a b = (a.playbooks ≡ b.playbooks) × (a.actions ≡ b.actions)

abbrev pub recorded_world : World → World
recorded_world world = record world { result_recorded = true }

-- The same call, with the audit event of its result recorded.
abbrev pub with_result : Edit → Edit
with_result (create world now id new_id request) =
    create (recorded_world world) now id new_id request
with_result (change world now new_id tenant_id playbook_id u) =
    change (recorded_world world) now new_id tenant_id playbook_id u

-- The rows that were inserted are in the table.
abbrev HasInserted : List ActionRow → Edited (List ActionRow × List ActionRow) → Type 0
HasInserted table (refused r) = Unit
HasInserted table (edited (rows, after)) =
    All (λ a. Memᴰ a after) rows × ((a : ActionRow) → Memᴰ a table → Memᴰ a after)

with_action-HasInserted :
    (row : ActionRow) (table : List ActionRow) (e : Edited (List ActionRow × List ActionRow))
    → HasInserted (table ++ row ∷ []) e
    → HasInserted table (with_action row e)
with_action-HasInserted row table (refused r) h = tt
with_action-HasInserted row table (edited (rows, after)) h =
    ((h.1 row (mem-append_last row table), h.0), λ a m. h.1 a (append-mem table (row ∷ []) m))

insert_actions-HasInserted :
    (configured : Option (List (String × String))) (new_id : ℕ → ℕ) (playbook_id index : ℕ)
    (actions : List ActionIn) (table : List ActionRow)
    → HasInserted table (insert_actions configured new_id playbook_id index actions table)
unfolding insert_actions
insert_actions-HasInserted configured new_id playbook_id index [] table = (tt, λ a m. m)
insert_actions-HasInserted configured new_id playbook_id index (a ∷ rest) table =
    let row = action_row (new_id index) playbook_id index a in
    elim (Bool-cases (is_invalid configured a.action_type a.configuration)) [
      | inl e ↦ rw e tt
      | inr e ↦ elim (Bool-cases (has_action (new_id index) table)) [
        | inl taken ↦ rw (e, taken) tt
        | inr free ↦
            rw (e, free)
              (with_action-HasInserted row table _ (
                insert_actions-HasInserted configured new_id playbook_id (suc index) rest
                  (table ++ row ∷ [])))
      ]
    ]

mem-of-actions_of :
    (playbook_id : ℕ) (a : ActionRow) (table : List ActionRow)
    → Memᴰ a (actions_of playbook_id table)
    → Memᴰ a table
unfolding actions_of
mem-of-actions_of playbook_id a table m =
    mem-of-select (is_of playbook_id) table (mem-of-sort_by runs_before _ m)

-- The rows of the answer are in the table.
abbrev HasRows : Edited (List ActionRow × List ActionRow) → Type 0
HasRows (refused r) = Unit
HasRows (edited (rows, after)) = All (λ a. Memᴰ a after) rows

HasInserted-HasRows :
    (table : List ActionRow) (e : Edited (List ActionRow × List ActionRow))
    → HasInserted table e
    → HasRows e
HasInserted-HasRows table (refused r) h = tt
HasInserted-HasRows table (edited (rows, after)) h = h.0

replace_actions-HasRows :
    (configured : Option (List (String × String))) (new_id : ℕ → ℕ) (playbook_id : ℕ)
    (actions : Option (List ActionIn)) (table : List ActionRow)
    → HasRows (replace_actions configured new_id playbook_id actions table)
unfolding replace_actions
replace_actions-HasRows configured new_id playbook_id none table =
    All-of-mem (λ a. Memᴰ a table) (actions_of playbook_id table)
      (λ a m. mem-of-actions_of playbook_id a table m)
replace_actions-HasRows configured new_id playbook_id (some actions) table =
    let kept = select (λ a. not (is_of playbook_id a)) table in
    HasInserted-HasRows kept (insert_actions configured new_id playbook_id 0 actions kept)
      (insert_actions-HasInserted configured new_id playbook_id 0 actions kept)

commit-IsAtomic :
    (recorded : Bool) (begun action : String) (tenant_id : ℕ) (resource_id : Option ℕ)
    (row : PlaybookRow) (playbooks : List PlaybookRow) (c : Catalogue)
    (e : Edited (List ActionRow × List ActionRow))
    → Memᴰ row playbooks
    → HasRows e
    → IsAtomic c (commit_edit recorded action row playbooks (note begun tenant_id resource_id c) e)
commit-IsAtomic recorded begun action tenant_id resource_id row playbooks c (refused r) m h =
    λ other. (refl, refl)
commit-IsAtomic true begun action tenant_id resource_id row playbooks c (edited (rows, after)) m h =
    (m, h)
commit-IsAtomic false begun action tenant_id resource_id row playbooks c (edited (rows, after)) m
      h =
    λ other. absurd (other refl)

commit-tables :
    (recorded : Bool) (action : String) (row : PlaybookRow) (playbooks : List PlaybookRow)
    (c : Catalogue) (e : Edited (List ActionRow × List ActionRow))
    → HasSameTables
        (commit_edit recorded action row playbooks c e).0
        (commit_edit true action row playbooks c e).0
commit-tables recorded action row playbooks c (refused r) = (refl, refl)
commit-tables true action row playbooks c (edited (rows, after)) = (refl, refl)
commit-tables false action row playbooks c (edited (rows, after)) = (refl, refl)

found-tables :
    (c : Catalogue) (world : World) (now : ℕ) (new_id : ℕ → ℕ) (tenant_id playbook_id : ℕ)
    (u : Updates) (o : Option PlaybookRow)
    → HasSameTables
        (update_found world now new_id tenant_id playbook_id u c o).0
        (update_found (recorded_world world) now new_id tenant_id playbook_id u c o).0
unfolding update_found
found-tables c world now new_id tenant_id playbook_id u none = (refl, refl)
found-tables c world now new_id tenant_id playbook_id u (some q) =
    elim (Bool-cases (breaks_not_null u || leb max_version q.version)) [
      | inl e ↦ rw e (refl, refl)
      | inr e ↦ rw e (
          commit-tables world.result_recorded _ _ _ c
            (replace_actions world.configured new_id playbook_id u.actions c.actions))
    ]

attempted-tables :
    (recorded : Bool) (c : Catalogue) (a b : Catalogue × Edited PlaybookReply)
    → HasSameTables a.0 b.0
    → HasSameTables (attempted recorded c a).0 (attempted recorded c b).0
attempted-tables true c a b h = h
attempted-tables false c a b h = (refl, refl)

edit-tables : (e : Edit) (c : Catalogue) → HasSameTables (edit e c).0 (edit (with_result e) c).0
unfolding edit create_playbook update_playbook
edit-tables (create world now id new_id request) c =
    attempted-tables world.attempt_recorded c _ _
      (elim (Bool-cases (contains (ids_of c.playbooks) id)) [
        | inl e ↦ rw e (refl, refl)
        | inr e ↦ rw e (
            commit-tables world.result_recorded _ _ _ _
              (insert_actions world.configured new_id id 0 request.actions c.actions))
      ])
edit-tables (change world now new_id tenant_id playbook_id u) c =
    elim (Bool-cases (is_empty_update u)) [
      | inl e ↦ rw e (refl, refl)
      | inr e ↦
          let noted = note "playbook.update_attempt" tenant_id (some playbook_id) c in
          let found = find (is_playbook tenant_id playbook_id) c.playbooks in
          rw e (
            attempted-tables world.attempt_recorded c
              (update_found world now new_id tenant_id playbook_id u noted found)
              (update_found (recorded_world world) now new_id tenant_id playbook_id u noted found)
              (found-tables noted world now new_id tenant_id playbook_id u found))
    ]

found-IsAtomic :
    (c : Catalogue) (world : World) (now : ℕ) (new_id : ℕ → ℕ) (tenant_id playbook_id : ℕ)
    (u : Updates) (o : Option PlaybookRow)
    → find (is_playbook tenant_id playbook_id) c.playbooks ≡ o
    → IsAtomic c (
        update_found world now new_id tenant_id playbook_id u
          (note "playbook.update_attempt" tenant_id (some playbook_id) c)
          o)
unfolding update_found
found-IsAtomic c world now new_id tenant_id playbook_id u none f = λ other. (refl, refl)
found-IsAtomic c world now new_id tenant_id playbook_id u (some q) f =
    let named = is_playbook tenant_id playbook_id in
    let (inside, found) = mem-of-find named c.playbooks f in
    let moved = map-mem (update_row named (update_playbook_row now u)) inside in
    elim (Bool-cases (breaks_not_null u || leb max_version q.version)) [
      | inl e ↦ rw e (λ other. (refl, refl))
      | inr e ↦ rw e (
          commit-IsAtomic _ _ _ _ _ _ _ c
            (replace_actions world.configured new_id playbook_id u.actions c.actions)
            (rw found at moved)
            (replace_actions-HasRows world.configured new_id playbook_id u.actions c.actions))
    ]

stored_or_untouched : (e : Edit) (c : Catalogue) → IsAtomic c (edit e c)
unfolding edit create_playbook update_playbook
stored_or_untouched (create world now id new_id request) c =
    let inserted = insert_actions world.configured new_id id 0 request.actions c.actions in
    attempted-elim (IsAtomic c) world.attempt_recorded c _ (λ other. (refl, refl))
      (elim (Bool-cases (contains (ids_of c.playbooks) id)) [
        | inl e ↦ rw e (λ other. (refl, refl))
        | inr e ↦ rw e (
            commit-IsAtomic _ _ _ _ _ _ _ c inserted (mem-append_last _ c.playbooks) (
              HasInserted-HasRows c.actions inserted (
                insert_actions-HasInserted world.configured new_id id 0 request.actions c.actions)))
      ])
stored_or_untouched (change world now new_id tenant_id playbook_id u) c =
    elim (Bool-cases (is_empty_update u)) [
      | inl e ↦ rw e (λ other. (refl, refl))
      | inr e ↦ rw e (
          attempted-elim (IsAtomic c) world.attempt_recorded c _ (λ other. (refl, refl))
            (found-IsAtomic c world now new_id tenant_id playbook_id u _ refl))
    ]

-- After a `create_playbook` or `update_playbook` that is answered, the row of the answer and each of
-- its actions are in the tables. One that is refused leaves both tables as they were, whether a check
-- refuses it, the database in the transaction, or the audit of the attempt; only where the audit of
-- the result fails, which comes after the transaction, the tables are those of the edit that was made.
pub edit-IsAtomic :
    (e : Edit) (c : Catalogue)
    → IsAtomic c (edit e c) × HasSameTables (edit e c).0 (edit (with_result e) c).0
edit-IsAtomic e c = (stored_or_untouched e c, edit-tables e c)

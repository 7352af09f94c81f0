-- ===== src/Playbooks/Keyed.antt =====
-- The primary key of `playbooks` under `create_playbook` and `update_playbook` of
-- backend/app/services/playbooks.py.

use forjd.Playbooks.Edits.{
  is_empty_update, breaks_not_null, max_version, update_playbook_row, is_playbook, replace_actions,
  update_found, update_playbook, Edit, create, change, edit,
}
use forjd.Playbooks.Catalogue.{
  PlaybookRow, ActionRow, Catalogue, Updates, Edited, edited, refused, note, insert_actions, ids_of,
  created_row, World, attempted-elim, commit_edit, create_playbook,
}
use forjd.Prelude.{
  ℕ, String, ◌≡◌, refl, sym, subst, inl, inr, Bool, true, false, ◌||◌, Option, none, some, List, [],
  ◌∷◌, ◌++◌, leb, string_eq, nat_eq, Bool-cases, contains, update_row, map-map_keep, Distinct,
  Distinct-append,
}
use mathlib.Core.List.{map-append}

commit-IsKeyed :
    (recorded : Bool) (begun action : String) (tenant_id : ℕ) (resource_id : Option ℕ)
    (row : PlaybookRow) (playbooks : List PlaybookRow) (c : Catalogue)
    (e : Edited (List ActionRow × List ActionRow))
    → Distinct (ids_of c.playbooks)
    → Distinct (ids_of playbooks)
    → Distinct (
        ids_of
          (commit_edit recorded action row playbooks
            (note begun tenant_id resource_id c)
            e).0.playbooks)
commit-IsKeyed recorded begun action tenant_id resource_id row playbooks c (refused r) old new = old
commit-IsKeyed true begun action tenant_id resource_id row playbooks c (edited (rows, after)) old
      new =
    new
commit-IsKeyed false begun action tenant_id resource_id row playbooks c (edited (rows, after)) old
      new =
    new

updated-same_id :
    (now tenant_id playbook_id : ℕ) (u : Updates) (r : PlaybookRow)
    → (update_row (is_playbook tenant_id playbook_id) (update_playbook_row now u) r).id ≡ r.id
unfolding update_playbook_row
updated-same_id now tenant_id playbook_id u r =
    elim (Bool-cases (is_playbook tenant_id playbook_id r)) [
      | inl e ↦ rw e refl
      | inr e ↦ rw e refl
    ]

found-IsKeyed :
    (c : Catalogue) (world : World) (now : ℕ) (new_id : ℕ → ℕ) (tenant_id playbook_id : ℕ)
    (u : Updates) (o : Option PlaybookRow)
    → Distinct (ids_of c.playbooks)
    → Distinct (
        ids_of
          (update_found world now new_id tenant_id playbook_id u
            (note "playbook.update_attempt" tenant_id (some playbook_id) c)
            o).0.playbooks)
unfolding update_found
found-IsKeyed c world now new_id tenant_id playbook_id u none d = d
found-IsKeyed c world now new_id tenant_id playbook_id u (some q) d =
    elim (Bool-cases (breaks_not_null u || leb max_version q.version)) [
      | inl e ↦ rw e d
      | inr e ↦ rw e (
          commit-IsKeyed _ _ _ _ _ _ _ c
            (replace_actions world.configured new_id playbook_id u.actions c.actions) d
            (subst Distinct
              (sym (
                map-map_keep (λ r. r.id) _ (updated-same_id now tenant_id playbook_id u)
                  c.playbooks))
              d))
    ]

-- `PRIMARY KEY` of the table.
pub edit-IsKeyed :
    (e : Edit) (c : Catalogue)
    → Distinct (ids_of c.playbooks)
    → Distinct (ids_of (edit e c).0.playbooks)
unfolding edit create_playbook update_playbook
edit-IsKeyed (create world now id new_id request) c d =
    attempted-elim (λ q. Distinct (ids_of q.0.playbooks)) world.attempt_recorded c _ d
      (elim (Bool-cases (contains (ids_of c.playbooks) id)) [
        | inl e ↦ rw e d
        | inr e ↦ rw e (
            commit-IsKeyed world.result_recorded "playbook.create_attempt" "playbook.create"
              request.tenant_id none (created_row now id request)
              (c.playbooks ++ created_row now id request ∷ []) c
              (insert_actions world.configured new_id id 0 request.actions c.actions) d
              (rw map-append (Distinct-append (ids_of c.playbooks) id d e)))
      ])
edit-IsKeyed (change world now new_id tenant_id playbook_id u) c d =
    elim (Bool-cases (is_empty_update u)) [
      | inl e ↦ rw e d
      | inr e ↦ rw e (
          attempted-elim (λ q. Distinct (ids_of q.0.playbooks)) world.attempt_recorded c _ d
            (found-IsKeyed c world now new_id tenant_id playbook_id u _ d))
    ]

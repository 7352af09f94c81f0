-- ===== src/Playbooks/Apart.antt =====
-- What an edit of one playbook leaves of the actions of another one: `update_playbook` and
-- `create_playbook` of backend/app/services/playbooks.py.
use forjd.Playbooks.Edits.{is_playbook, is_of, replace_actions}
use forjd.Playbooks.Catalogue.{
  PlaybookRow, ActionRow, ActionIn, Edited, edited, refused, is_invalid, has_action, with_action,
  action_row, insert_actions, ids_of,
}
use forjd.Prelude.{
  ℕ, suc, String, ◌≡◌, refl, ap, ◌∙◌, inl, inr, true, false, not, Option, none, some, List, [], ◌∷◌,
  ◌++◌, arith, string_eq, nat_eq, ◌==◌, Bool-cases, select, contains, Distinct, contains-mem,
  select-mem, mem-select,
}
use mathlib.Core.List.{Memᴰ}

-- A select by another playbook does not see the rows of this one.
abbrev pub Sees : ℕ → List ActionRow → Edited (List ActionRow × List ActionRow) → Type 0
Sees id table (refused r) = Unit
Sees id table (edited (rows, after)) = select (is_of id) after ≡ select (is_of id) table

with_action-Sees :
    (id : ℕ) (row : ActionRow) (table : List ActionRow)
    (e : Edited (List ActionRow × List ActionRow))
    → Sees id table e
    → Sees id table (with_action row e)
with_action-Sees id row table (refused r) h = tt
with_action-Sees id row table (edited (rows, after)) h = h

select-append_other :
    (id : ℕ) (row : ActionRow) (table : List ActionRow)
    → is_of id row ≡ false
    → select (is_of id) (table ++ row ∷ []) ≡ select (is_of id) table
select-append_other id row [] h = rw h refl
select-append_other id row (a ∷ rest) h = ground (arith, select-append_other id row rest)

Sees-trans :
    (id : ℕ) (between table : List ActionRow) (e : Edited (List ActionRow × List ActionRow))
    → select (is_of id) between ≡ select (is_of id) table
    → Sees id between e
    → Sees id table e
Sees-trans id between table (refused r) same h = tt
Sees-trans id between table (edited (rows, after)) same h = h ∙ same

pub insert_actions-Sees :
    (id : ℕ) (configured : Option (List (String × String))) (new_id : ℕ → ℕ) (playbook_id index : ℕ)
    (actions : List ActionIn) (table : List ActionRow)
    → (playbook_id == id) ≡ false
    → Sees id table (insert_actions configured new_id playbook_id index actions table)
unfolding insert_actions
insert_actions-Sees id configured new_id playbook_id index [] table other = refl
insert_actions-Sees id configured new_id playbook_id index (a ∷ rest) table other =
    let row = action_row (new_id index) playbook_id index a in
    elim (Bool-cases (is_invalid configured a.action_type a.configuration)) [
      | inl e ↦ rw e tt
      | inr e ↦ elim (Bool-cases (has_action (new_id index) table)) [
        | inl taken ↦ rw (e, taken) tt
        | inr free ↦
            rw (e, free)
              (with_action-Sees id row table _ (
                Sees-trans id (table ++ row ∷ []) table _ (select-append_other id row table other) (
                  insert_actions-Sees id configured new_id playbook_id (suc index) rest
                    (table ++ row ∷ []) other)))
      ]
    ]

select-delete_other :
    (id playbook_id : ℕ) (table : List ActionRow)
    → (playbook_id == id) ≡ false
    → select (is_of id) (select (λ a. not (is_of playbook_id a)) table) ≡ select (is_of id) table
select-delete_other id playbook_id [] other = refl
select-delete_other id playbook_id (a ∷ rest) other =
    ground (arith, select-delete_other id playbook_id rest)

pub replace_actions-Sees :
    (id : ℕ) (configured : Option (List (String × String))) (new_id : ℕ → ℕ) (playbook_id : ℕ)
    (actions : Option (List ActionIn)) (table : List ActionRow)
    → (playbook_id == id) ≡ false
    → Sees id table (replace_actions configured new_id playbook_id actions table)
unfolding replace_actions
replace_actions-Sees id configured new_id playbook_id none table other = refl
replace_actions-Sees id configured new_id playbook_id (some actions) table other =
    Sees-trans id _ table _ (select-delete_other id playbook_id table other)
      (insert_actions-Sees id configured new_id playbook_id 0 actions _ other)

-- With unique ids, a row that an UPDATE passes over has another id than the row it finds.
pub passed_over :
    (tenant_id playbook_id : ℕ) (p q : PlaybookRow) (rows : List PlaybookRow)
    → Distinct (ids_of rows)
    → Memᴰ p rows
    → Memᴰ q rows
    → is_playbook tenant_id playbook_id q ≡ true
    → is_playbook tenant_id playbook_id p ≡ false
    → (playbook_id == p.id) ≡ false
passed_over tenant_id playbook_id p q rows d m n found passed =
    let named = is_playbook tenant_id playbook_id in
    let inside : contains (ids_of (select named rows)) q.id ≡ true =
      contains-mem (λ r. r.id) (mem-select named found n) in
    ground (
      arith,
      ap (contains (ids_of (select named rows))) {x = q.id} {y = p.id},
      select-mem (λ r. r.id) named d m,
      inside,
    )

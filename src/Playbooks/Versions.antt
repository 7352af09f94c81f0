-- ===== src/Playbooks/Versions.antt =====
-- The versions of playbooks under `create_playbook` and `update_playbook` of
-- backend/app/services/playbooks.py.
use forjd.Playbooks.Keyed.{edit-IsKeyed}
use forjd.Playbooks.Apart.{Sees, insert_actions-Sees, replace_actions-Sees, passed_over}
use forjd.Playbooks.Edits.{
  is_empty_update, breaks_not_null, max_version, update_playbook_row, is_playbook, is_of,
  runs_before, actions_of, replace_actions, update_found, update_playbook, raw_action,
  plan_snapshot, Edit, create, change, edit, edits,
}
use forjd.Playbooks.Catalogue.{
  PlaybookRow, ActionRow, Catalogue, CreateRequest, Updates, Edited, edited, refused, note,
  insert_actions, ids_of, World, attempted-elim, commit_edit, create_playbook,
}
use forjd.Playbooks.Plan.{entries}
use forjd.Prelude.{
  ℕ, ◌+◌, ◌≤◌, String, ◌≡◌, refl, sym, subst, ap, ◌∙◌, inl, inr, Bool, true, false, ◌||◌, Option,
  none, some, List, [], ◌∷◌, map, arith, leb, string_eq, nat_eq, ◌==◌, Bool-cases, select, find,
  contains, update_row, Distinct, contains-mem, map-mem, sort_by, mem-of-find, append-mem,
}
use mathlib.Core.List.{Memᴰ}

update_playbook_row-bumps :
    (now : ℕ) (u : Updates) (p : PlaybookRow)
    → ((update_playbook_row now u p).id ≡ p.id)
      × ((update_playbook_row now u p).version ≡ p.version + 1)
unfolding update_playbook_row
update_playbook_row-bumps now u p = (refl, refl)

-- What a later catalogue has of a playbook.
pub record IsLater (text_of_id : ℕ → String) (p : PlaybookRow) (c later : Catalogue) : Type 0 where
  pub row : PlaybookRow
  pub present : Memᴰ row later.playbooks
  pub same_id : row.id ≡ p.id
  pub grows : p.version ≤ row.version
  pub pinned :
      row.version ≡ p.version
      → (row ≡ p) × (plan_snapshot text_of_id p.id later ≡ plan_snapshot text_of_id p.id c)

module _ (text_of_id : ℕ → String) where
  -- Where neither the row nor its actions are changed.
  unchanged :
      (p : PlaybookRow) (c later : Catalogue)
      → Memᴰ p later.playbooks
      → select (is_of p.id) later.actions ≡ select (is_of p.id) c.actions
      → IsLater text_of_id p c later
  unfolding plan_snapshot actions_of
  unchanged p c later present same = record {
    row = p;
    present = present;
    same_id = refl;
    grows = ground arith;
    pinned = λ e.
        (refl, ap (λ rows. entries (map (raw_action text_of_id) (sort_by runs_before rows))) same);
  }

  IsLater-trans :
      (p : PlaybookRow) (a b c : Catalogue)
      → (h : IsLater text_of_id p a b) → IsLater text_of_id h.row b c
      → IsLater text_of_id p a c
  IsLater-trans p a b c h k = record {
    row = k.row;
    present = k.present;
    same_id = k.same_id ∙ h.same_id;
    grows = ground (arith, h.grows, k.grows);
    pinned = λ e.
        let old : h.row.version ≡ p.version = ground (arith, h.grows, k.grows) in
        let new : k.row.version ≡ h.row.version = e ∙ sym old in
        let (first_row, first_plan) = h.pinned old in
        let (second_row, second_plan) = k.pinned new in
        (
          second_row ∙ first_row,
          subst (λ id. plan_snapshot text_of_id id c ≡ plan_snapshot text_of_id id b) h.same_id
                second_plan
              ∙ first_plan,
        );
  }

  -- A commit that keeps the row of the playbook and does not touch its actions.
  commit-keeps :
      (recorded : Bool) (p : PlaybookRow) (begun action : String) (tenant_id : ℕ)
      (resource_id : Option ℕ) (row : PlaybookRow) (playbooks : List PlaybookRow) (c : Catalogue)
      (e : Edited (List ActionRow × List ActionRow))
      → Memᴰ p c.playbooks
      → Memᴰ p playbooks
      → Sees p.id c.actions e
      → IsLater text_of_id p c
          (commit_edit recorded action row playbooks (note begun tenant_id resource_id c) e).0
  commit-keeps recorded p begun action tenant_id resource_id row playbooks c (refused r) old new h =
      unchanged p c _ old refl
  commit-keeps true p begun action tenant_id resource_id row playbooks c (edited (rows, after)) old
        new h =
      unchanged p c _ new h
  commit-keeps false p begun action tenant_id resource_id row playbooks c (edited (rows, after)) old
        new h =
      unchanged p c _ new h

  raised :
      (p q : PlaybookRow) (c later : Catalogue)
      → Memᴰ q later.playbooks
      → (q.id ≡ p.id) × (q.version ≡ p.version + 1)
      → IsLater text_of_id p c later
  raised p q c later new h = record {
    row = q;
    present = new;
    same_id = h.0;
    grows = ground arith;
    pinned = λ e. ground (arith, e, h.1);
  }

  -- A commit that raises the version of the playbook.
  commit-raises :
      (recorded : Bool) (p q : PlaybookRow) (begun action : String) (tenant_id : ℕ)
      (resource_id : Option ℕ) (row : PlaybookRow) (playbooks : List PlaybookRow) (c : Catalogue)
      (e : Edited (List ActionRow × List ActionRow))
      → Memᴰ p c.playbooks
      → Memᴰ q playbooks
      → (q.id ≡ p.id) × (q.version ≡ p.version + 1)
      → IsLater text_of_id p c
          (commit_edit recorded action row playbooks (note begun tenant_id resource_id c) e).0
  commit-raises recorded p q begun action tenant_id resource_id row playbooks c (refused r) old new
        h =
      unchanged p c _ old refl
  commit-raises true p q begun action tenant_id resource_id row playbooks c (edited (rows, after))
        old new h =
      raised p q c _ new h
  commit-raises false p q begun action tenant_id resource_id row playbooks c (edited (rows, after))
        old new h =
      raised p q c _ new h

  create-IsLater :
      (p : PlaybookRow) (c : Catalogue) (world : World) (now id : ℕ) (new_id : ℕ → ℕ)
      (request : CreateRequest)
      → Memᴰ p c.playbooks
      → IsLater text_of_id p c (create_playbook world now id new_id request c).0
  unfolding create_playbook
  create-IsLater p c world now id new_id request m =
      attempted-elim (λ q. IsLater text_of_id p c q.0) world.attempt_recorded c _
        (unchanged p c c m refl)
        (elim (Bool-cases (contains (ids_of c.playbooks) id)) [
          | inl e ↦ rw e (unchanged p c _ m refl)
          | inr e ↦
              let inside : contains (ids_of c.playbooks) p.id ≡ true = contains-mem (λ r. r.id) m in
              let other : (id == p.id) ≡ false =
                ground (arith, ap (contains (ids_of c.playbooks)) {x = id} {y = p.id}, e) in
              rw e (
                commit-keeps _ p _ _ _ _ _ _ c
                  (insert_actions world.configured new_id id 0 request.actions c.actions) m
                  (append-mem c.playbooks _ m)
                  (insert_actions-Sees p.id world.configured new_id id 0 request.actions c.actions
                    other))
        ])

  found-IsLater :
      (p : PlaybookRow) (c : Catalogue) (world : World) (now : ℕ) (new_id : ℕ → ℕ)
      (tenant_id playbook_id : ℕ) (u : Updates) (o : Option PlaybookRow)
      → Distinct (ids_of c.playbooks)
      → Memᴰ p c.playbooks
      → find (is_playbook tenant_id playbook_id) c.playbooks ≡ o
      → IsLater text_of_id p c
          (update_found world now new_id tenant_id playbook_id u
            (note "playbook.update_attempt" tenant_id (some playbook_id) c)
            o).0
  unfolding update_found
  found-IsLater p c world now new_id tenant_id playbook_id u none d m f = unchanged p c _ m refl
  found-IsLater p c world now new_id tenant_id playbook_id u (some q) d m f =
      let named = is_playbook tenant_id playbook_id in
      let replaced = replace_actions world.configured new_id playbook_id u.actions c.actions in
      let moved = map-mem (update_row named (update_playbook_row now u)) m in
      elim (Bool-cases (breaks_not_null u || leb max_version q.version)) [
        | inl e ↦ rw e (unchanged p c _ m refl)
        | inr e ↦ rw e (elim (Bool-cases (named p)) [
          | inl hit ↦
              commit-raises _ p (update_playbook_row now u p) _ _ _ _ _ _ c replaced m
                (rw hit at moved) (update_playbook_row-bumps now u p)
          | inr passed ↦
              let (inside, found) = mem-of-find named c.playbooks f in
              commit-keeps _ p _ _ _ _ _ _ c replaced m (rw passed at moved) (
                replace_actions-Sees p.id world.configured new_id playbook_id u.actions c.actions
                  (passed_over tenant_id playbook_id p q c.playbooks d m inside found passed))
        ])
      ]

  edit-IsLater :
      (p : PlaybookRow) (e : Edit) (c : Catalogue)
      → Distinct (ids_of c.playbooks)
      → Memᴰ p c.playbooks
      → IsLater text_of_id p c (edit e c).0
  unfolding edit update_playbook
  edit-IsLater p (create world now id new_id request) c d m =
      create-IsLater p c world now id new_id request m
  edit-IsLater p (change world now new_id tenant_id playbook_id u) c d m =
      elim (Bool-cases (is_empty_update u)) [
        | inl e ↦ rw e (unchanged p c c m refl)
        | inr e ↦ rw e (
            attempted-elim (λ q. IsLater text_of_id p c q.0) world.attempt_recorded c _
              (unchanged p c c m refl)
              (found-IsLater p c world now new_id tenant_id playbook_id u _ d m refl))
      ]

-- After every sequence of `create_playbook` and `update_playbook` on a catalogue without a repeated
-- id, each playbook is still there, its version has not become smaller, and if it has the same
-- version it has the same row, and `execute_playbook` selects the same action plan for it.
pub version_pins_plan :
    (text_of_id : ℕ → String) (p : PlaybookRow) (history : List Edit) (c : Catalogue)
    → Distinct (ids_of c.playbooks)
    → Memᴰ p c.playbooks
    → IsLater text_of_id p c (edits history c)
unfolding edits
version_pins_plan text_of_id p [] c d m = unchanged text_of_id p c c m refl
version_pins_plan text_of_id p (e ∷ rest) c d m =
    let step = edit-IsLater text_of_id p e c d m in
    IsLater-trans text_of_id p c (edit e c).0 (edits rest (edit e c).0) step
      (version_pins_plan text_of_id step.row rest (edit e c).0 (edit-IsKeyed e c d) step.present)

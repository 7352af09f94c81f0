-- ===== src/Playbooks/Replays.antt =====
-- Repeated and refused requests.
use forjd.Playbooks.Requests.{Request}
use forjd.Prelude.{
  ℕ, ◌≡◌, refl, ◌∙◌, inl, inr, List, [], ◌∷◌, map, string_eq, nat_eq, Bool-cases, any,
}
use forjd.Playbooks.Results.{PlanEntry, is_webhook, has_result, holds_lease}
use forjd.Playbooks.Runs.{
  Store, record_required, Delivery, execute_all, initial_lease, attempt_webhook, with_row,
  run_action, run_actions,
}
use forjd.Playbooks.Rounds.{
  run_action_existing, run_action_webhook, run_action_other, run_actions_nil, run_actions_go_on,
  run_actions_break,
}

abbrev pub run_ids : Store → List ℕ
run_ids store = map (λ run. run.id) store.runs

attempt_webhook-runs :
    (tenant_id run_id : ℕ) (d : Delivery) (store : Store)
    → (attempt_webhook tenant_id run_id d store).0.runs ≡ store.runs
unfolding attempt_webhook
attempt_webhook-runs tenant_id run_id d store =
    elim (Bool-cases
      (any (holds_lease (initial_lease run_id d)) (execute_all d.meanwhile store.results))) [
        | inl e ↦ rw e refl
        | inr e ↦ rw e refl
      ]

run_action-runs :
    (tenant_id run_id : ℕ) (a : PlanEntry) (d : Delivery) (store : Store)
    → (run_action tenant_id run_id a d store).0.runs ≡ store.runs
run_action-runs tenant_id run_id a d store =
    elim (Bool-cases (has_result run_id a.key store.results)) [
      | inl e ↦ rw (run_action_existing tenant_id run_id a d store e) refl
      | inr e ↦ elim (Bool-cases (is_webhook a.action_type)) [
        | inl w ↦
            rw (run_action_webhook tenant_id run_id a d store e w)
              (attempt_webhook-runs tenant_id run_id d (with_row run_id a d store))
        | inr w ↦ rw (run_action_other tenant_id run_id a d store e w) refl
      ]
    ]

pub run_actions-runs :
    (tenant_id run_id : ℕ) (deliver : PlanEntry → Delivery) (plan : List PlanEntry) (store : Store)
    → (run_actions tenant_id run_id deliver plan store).runs ≡ store.runs
run_actions-runs tenant_id run_id deliver [] store =
    rw (run_actions_nil tenant_id run_id deliver store) refl
run_actions-runs tenant_id run_id deliver (a ∷ rest) store =
    let round = run_action tenant_id run_id a (deliver a) store in
    let same = run_action-runs tenant_id run_id a (deliver a) store in
    elim (Bool-cases round.1) [
      | inl e ↦
          rw (run_actions_go_on tenant_id run_id deliver a rest store e)
            (run_actions-runs tenant_id run_id deliver rest round.0 ∙ same)
      | inr e ↦ rw (run_actions_break tenant_id run_id deliver a rest store e) same
    ]

-- The attempt that is audited.
abbrev pub noted : Request → Store → Store
noted request store =
    record_required "playbook.run_attempt" request.tenant_id request.playbook_id store

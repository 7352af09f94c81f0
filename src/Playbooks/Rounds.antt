-- ===== src/Playbooks/Rounds.antt =====
-- The rounds of the loop of `_execute_run_actions`, one equation for each branch.
use forjd.Prelude.{ℕ, ◌≡◌, refl, inl, inr, Bool, true, false, List, [], ◌∷◌, arith, Bool-cases, any}
use forjd.Playbooks.Delivery.{webhook_max_attempts, durable_webhook_outcome}
use forjd.Playbooks.Results.{
  PlanEntry, has_succeeded, is_webhook, has_result, has_succeeded_at, holds_lease,
}
use forjd.Playbooks.Table.{outcome_for, persist, execute}
use forjd.Playbooks.Runs.{
  Store, record_required, Delivery, execute_all, initial_lease, attempt_webhook, with_row,
  run_action, go_on_if, run_actions,
}

pub attempt_results :
    (tenant_id run_id : ℕ) (d : Delivery) (store : Store)
    → (attempt_webhook tenant_id run_id d store).0.results
      ≡ execute
          (persist d.finished_at (initial_lease run_id d) d.exchange)
          (execute_all d.meanwhile store.results)
unfolding attempt_webhook
attempt_results tenant_id run_id d store =
    elim (Bool-cases
      (any (holds_lease (initial_lease run_id d)) (execute_all d.meanwhile store.results))) [
        | inl e ↦ rw e refl
        | inr e ↦ rw e refl
      ]

pub attempt-success :
    (tenant_id run_id : ℕ) (d : Delivery) (store : Store)
    → (attempt_webhook tenant_id run_id d store).1 ≡ true
    → (any (holds_lease (initial_lease run_id d)) (execute_all d.meanwhile store.results) ≡ true)
      × (has_succeeded
            (durable_webhook_outcome (outcome_for d.exchange) 1 webhook_max_attempts).status
          ≡ true)
unfolding attempt_webhook
attempt-success tenant_id run_id d store h = (ground arith, ground arith)

module _ (tenant_id run_id : ℕ) (a : PlanEntry) (d : Delivery) (store : Store) where
  pub run_action_existing :
      has_result run_id a.key store.results ≡ true
      → run_action tenant_id run_id a d store ≡ (store, has_succeeded_at run_id a.key store.results)
  unfolding run_action
  run_action_existing e = rw e refl

  pub run_action_webhook :
      has_result run_id a.key store.results ≡ false
      → is_webhook a.action_type ≡ true
      → run_action tenant_id run_id a d store
        ≡ attempt_webhook tenant_id run_id d (with_row run_id a d store)
  unfolding run_action
  run_action_webhook e w = rw (e, w) refl

  pub run_action_other :
      has_result run_id a.key store.results ≡ false
      → is_webhook a.action_type ≡ false
      → run_action tenant_id run_id a d store ≡ (
        record_required "playbook.action_result" tenant_id d.result_id (with_row run_id a d store),
        false,
      )
  unfolding run_action
  run_action_other e w = rw (e, w) refl

go_on :
    (round : Store × Bool) (rest : Store → Store)
    → round.1 ≡ true
    → go_on_if round rest ≡ rest round.0
unfolding go_on_if
go_on (after, on) rest e = ground arith

stop :
    (round : Store × Bool) (rest : Store → Store) → round.1 ≡ false → go_on_if round rest ≡ round.0
unfolding go_on_if
stop (after, on) rest e = ground arith

pub run_actions_nil :
    (tenant_id run_id : ℕ) (deliver : PlanEntry → Delivery) (store : Store)
    → run_actions tenant_id run_id deliver [] store ≡ store
unfolding run_actions
run_actions_nil tenant_id run_id deliver store = refl

module _ (tenant_id run_id : ℕ) (deliver : PlanEntry → Delivery) (a : PlanEntry)
    (rest : List PlanEntry) (store : Store) where
  pub run_actions_go_on :
      (run_action tenant_id run_id a (deliver a) store).1 ≡ true
      → run_actions tenant_id run_id deliver (a ∷ rest) store
        ≡ run_actions tenant_id run_id deliver rest
            (run_action tenant_id run_id a (deliver a) store).0
  unfolding run_actions
  run_actions_go_on e = go_on (run_action tenant_id run_id a (deliver a) store) _ e

  pub run_actions_break :
      (run_action tenant_id run_id a (deliver a) store).1 ≡ false
      → run_actions tenant_id run_id deliver (a ∷ rest) store
        ≡ (run_action tenant_id run_id a (deliver a) store).0
  unfolding run_actions
  run_actions_break e = stop (run_action tenant_id run_id a (deliver a) store) _ e

-- ===== src/Playbooks/Progress.antt =====
-- A run of webhooks that are all delivered succeeds.
use forjd.Playbooks.Execution.{round-IsAdvanced}
use forjd.Playbooks.Rounds.{attempt_results, run_action_webhook, run_actions_nil, run_actions_go_on}
use forjd.Playbooks.Quiet.{IsFresh, IsReady}
use forjd.Playbooks.Sequence.{has_result-execute, has_result-insert}
use forjd.Playbooks.Plan.{HasDistinctKeys}
use mathlib.Core.List.{append-nil}
use forjd.Prelude.{
  ℕ, ◌≡◌, refl, ◌∙◌, true, false, List, [], ◌∷◌, ◌++◌, arith, string_eq, nat_eq, ◌==◌, any,
  any-append, All, Distinct,
}
use forjd.Playbooks.Delivery.{webhook_max_attempts, Outcome, durable_webhook_outcome}
use forjd.Playbooks.Results.{
  PlanEntry, ActionResult, has_succeeded, is_webhook, initial_result, is_for, has_result,
  has_succeeded_at, insert_result, Lease, holds_lease,
}
use forjd.Playbooks.Table.{outcome_for, ids}
use forjd.Playbooks.Runs.{
  Store, Delivery, execute_all, initial_lease, attempt_webhook, with_row, run_action, run_actions,
}

-- The exchange of an action succeeds, with nobody else at the table.
pub record IsDeliveredAt (deliver : PlanEntry → Delivery) (a : PlanEntry) : Type 0 where
  pub webhook : is_webhook a.action_type ≡ true
  pub alone : (deliver a).meanwhile ≡ []
  pub delivered : has_succeeded (outcome_for (deliver a).exchange).status ≡ true

durable-succeeded :
    (o : Outcome) (attempt max_attempts : ℕ)
    → has_succeeded o.status ≡ true
    → has_succeeded (durable_webhook_outcome o attempt max_attempts).status ≡ true
unfolding durable_webhook_outcome
durable-succeeded o attempt max_attempts h = ground arith

module _ (tenant_id run_id : ℕ) (deliver : PlanEntry → Delivery) where
  row_holds_lease :
      (a : PlanEntry)
      → is_webhook a.action_type ≡ true
      → holds_lease (initial_lease run_id (deliver a)) (
          initial_result
            (deliver a).started_at
            (deliver a).result_id
            (deliver a).lease_owner
            run_id
            a)
        ≡ true
  unfolding holds_lease initial_result
  row_holds_lease a h = ground arith

  with_row-results :
      (a : PlanEntry) (store : Store)
      → has_result run_id a.key store.results ≡ false
      → (with_row run_id a (deliver a) store).results
        ≡ store.results
          ++ initial_result
              (deliver a).started_at
              (deliver a).result_id
              (deliver a).lease_owner
              run_id
              a
            ∷ []
  unfolding insert_result initial_result
  with_row-results a store e = rw e refl

  inserted_holds_lease :
      (a : PlanEntry) (store : Store)
      → is_webhook a.action_type ≡ true
      → has_result run_id a.key store.results ≡ false
      → any
          (holds_lease (initial_lease run_id (deliver a)))
          (with_row run_id a (deliver a) store).results
        ≡ true
  inserted_holds_lease a store w e =
      let lease : Lease = initial_lease run_id (deliver a) in
      rw (with_row-results a store e, any-append (holds_lease lease))
        (ground (arith, row_holds_lease a w))

  attempt_goes_on :
      (d : Delivery) (store : Store)
      → d.meanwhile ≡ []
      → any (holds_lease (initial_lease run_id d)) store.results ≡ true
      → has_succeeded
          (durable_webhook_outcome (outcome_for d.exchange) 1 webhook_max_attempts).status
        ≡ true
      → (attempt_webhook tenant_id run_id d store).1 ≡ true
  unfolding attempt_webhook execute_all
  attempt_goes_on d store alone held ok = rw (alone, held, ok) refl

  goes_on :
      (a : PlanEntry) (store : Store)
      → IsDeliveredAt deliver a
      → has_result run_id a.key store.results ≡ false
      → (run_action tenant_id run_id a (deliver a) store).1 ≡ true
  goes_on a store h e = rw (run_action_webhook tenant_id run_id a (deliver a) store e h.webhook) (
      attempt_goes_on (deliver a) (with_row run_id a (deliver a) store) h.alone
        (inserted_holds_lease a store h.webhook e)
        (durable-succeeded (outcome_for (deliver a).exchange) 1 webhook_max_attempts h.delivered))

  other_row :
      (a b : PlanEntry)
      → (a.key == b.key) ≡ false
      → is_for run_id b.key (
          initial_result
            (deliver a).started_at
            (deliver a).result_id
            (deliver a).lease_owner
            run_id
            a)
        ≡ false
  unfolding initial_result
  other_row a b h = ground arith

  still_vacant :
      (a b : PlanEntry) (store : Store)
      → IsDeliveredAt deliver a
      → (a.key == b.key) ≡ false
      → has_result run_id a.key store.results ≡ false
      → has_result run_id b.key store.results ≡ false
      → has_result run_id b.key (run_action tenant_id run_id a (deliver a) store).0.results ≡ false
  unfolding execute_all
  still_vacant a b store h other e vacant =
      let d : Delivery = deliver a in
      let row : ActionResult = initial_result d.started_at d.result_id d.lease_owner run_id a in
      rw
        (
          run_action_webhook tenant_id run_id a d store e h.webhook,
          attempt_results tenant_id run_id d (with_row run_id a d store),
          h.alone,
          has_result-execute run_id b.key,
        )
        (has_result-insert run_id b.key row store.results (other_row a b other) ∙ vacant)

  All-still_vacant :
      (a : PlanEntry) (store : Store) (rest : List PlanEntry)
      → IsDeliveredAt deliver a
      → has_result run_id a.key store.results ≡ false
      → All (λ b. (a.key == b.key) ≡ false) rest
      → All (λ b. has_result run_id b.key store.results ≡ false) rest
      → All
          (λ b.
            has_result run_id b.key (run_action tenant_id run_id a (deliver a) store).0.results
            ≡ false)
          rest
  All-still_vacant a store [] h e others vacant = tt
  All-still_vacant a store (b ∷ rest) h e others vacant = (
    still_vacant a b store h others.0 e vacant.0,
    All-still_vacant a store rest h e others.1 vacant.1,
  )

  module _ (plan : List PlanEntry) where
    completes :
        (done rest : List PlanEntry) (store : Store)
        → IsReady run_id plan deliver done rest store.results
        → All (IsDeliveredAt deliver) rest
        → All (λ b. has_result run_id b.key store.results ≡ false) rest
        → HasDistinctKeys rest
        → All
            (λ b.
              has_succeeded_at run_id b.key
                (run_actions tenant_id run_id deliver rest store).results
              ≡ true)
            plan
    completes done [] store h delivered vacant distinct =
        rw (run_actions_nil tenant_id run_id deliver store, h.split, append-nil) h.succeeded_before
    completes done (a ∷ rest) store h delivered vacant distinct =
        let e = goes_on a store delivered.0 vacant.0 in
        let advanced = round-IsAdvanced run_id plan deliver tenant_id done rest a store h in
        rw (run_actions_go_on tenant_id run_id deliver a rest store e) (
          completes (done ++ a ∷ []) rest (run_action tenant_id run_id a (deliver a) store).0
            (advanced.ready e) delivered.1
            (All-still_vacant a store rest delivered.0 vacant.0 distinct.0 vacant.1) distinct.1)

    -- A run that has no results yet and whose actions are webhooks that are all delivered has
    -- succeeded at every action when the loop ends; the plan has distinct keys, the ids of new rows
    -- are fresh, the table has its primary key and nobody else works on it.
    pub delivered_run_succeeds :
        (store : Store)
        → Distinct (ids store.results)
        → IsFresh run_id plan deliver plan store.results
        → HasDistinctKeys plan
        → All (λ b. has_result run_id b.key store.results ≡ false) plan
        → All (IsDeliveredAt deliver) plan
        → All
            (λ b.
              has_succeeded_at run_id b.key
                (run_actions tenant_id run_id deliver plan store).results
              ≡ true)
            plan
    delivered_run_succeeds store keyed fresh distinct vacant delivered =
        completes [] plan store
          (record { split = refl; succeeded_before = tt; keyed = keyed; fresh = fresh }) delivered
          vacant distinct

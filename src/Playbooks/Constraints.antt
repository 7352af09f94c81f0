-- ===== src/Playbooks/Constraints.antt =====
-- The CHECK constraints of playbook_action_results as an invariant, and the rows that are final.
use mathlib.Core.List.{Memᴰ}
use forjd.Prelude.{
  ℕ, ◌≤◌, ◌≡◌, inl, inr, true, false, List, [], ◌∷◌, arith, string_eq, nat_eq, Bool-cases, is_none,
  contains, All, All-append, Distinct, mem-All, All-map_mem,
}
use forjd.Playbooks.Results.{
  PlanEntry, ActionResult, Results, is_running, is_retry_scheduled, is_webhook, initial_result,
  has_result, insert_result, is_due, claim_retry,
}
use forjd.Playbooks.Table.{
  Statement, persist, claim_due, finalize, ack, retry, claimed_ids, step_row, execute, ids, Step,
  statement, start, start_elsewhere, Reach, here, next,
}
use forjd.Playbooks.Sequence.{claimed_is_due}
use forjd.Playbooks.Ordering.{insert-keyed}
use forjd.Playbooks.Quiet.{ids-execute}

-- `playbook_action_results_retry_contract`
pub record IsValidResult (r : ActionResult) : Type 0 where
  pub max_bound : r.max_attempts ≤ 10
  pub attempt_bounds : (1 ≤ r.attempt) × (r.attempt ≤ r.max_attempts)
  pub webhooks_retry : is_retry_scheduled r.status ≡ true → is_webhook r.action_type ≡ true
  pub lease_shape : is_none r.lease_owner ≡ is_none r.lease_expires_at
  pub scheduled : is_retry_scheduled r.status ≡ true → is_none r.next_attempt_at ≡ false
  -- not a constraint of the table: only webhooks run
  pub webhooks_run : is_running r.status ≡ true → is_webhook r.action_type ≡ true

initial-IsValidResult :
    (now id lease_owner run_id : ℕ) (action : PlanEntry)
    → IsValidResult (initial_result now id lease_owner run_id action)
unfolding initial_result
initial-IsValidResult now id lease_owner run_id action = ground arith

claim_retry-IsValidResult :
    (now worker : ℕ) (r : ActionResult)
    → is_due now r ≡ true
    → IsValidResult r
    → IsValidResult (claim_retry now worker r)
unfolding is_due claim_retry
claim_retry-IsValidResult now worker r due v = ground arith

step_row-IsValidResult :
    (s : Statement) {r : ActionResult} {t : Results}
    → Distinct (ids t)
    → Memᴰ r t
    → IsValidResult r
    → IsValidResult (step_row s t r)
unfolding step_row
step_row-IsValidResult (claim_due now worker batch_size locked) {r} {t} keyed m v =
    elim (Bool-cases (contains (claimed_ids now batch_size locked t) r.id)) [
      | inl e ↦ rw e (
          claim_retry-IsValidResult now worker r
            (claimed_is_due now worker batch_size locked keyed m e) v)
      | inr e ↦ rw e v
    ]
step_row-IsValidResult (persist now lease x) keyed m v = ground arith
step_row-IsValidResult (finalize now) keyed m v = ground arith
step_row-IsValidResult (ack now run_id result_id ok reference metadata) keyed m v = ground arith
step_row-IsValidResult (retry now run_id result_id) keyed m v = ground arith

insert-All :
    (P : ActionResult → Type 0) (r : ActionResult) (t : Results)
    → P r
    → All P t
    → All P (insert_result r t)
unfolding insert_result
insert-All P r t p h = elim (Bool-cases (has_result r.run_id r.action_plan_key t)) [
  | inl e ↦ rw e h
  | inr e ↦ rw e (All-append P t (r ∷ []) h (p, tt))
]

pub record IsKept (t : Results) : Type 0 where
  pub keyed : Distinct (ids t)
  pub valid : All IsValidResult t

module _ (run_id : ℕ) (plan : List PlanEntry) where
  insert-IsKept :
      (now id lease_owner run : ℕ) (action : PlanEntry) (t : Results)
      → contains (ids t) id ≡ false
      → IsKept t
      → IsKept (insert_result (initial_result now id lease_owner run action) t)
  unfolding initial_result
  insert-IsKept now id lease_owner run action t fresh h =
      let r : ActionResult = initial_result now id lease_owner run action in
      record {
        keyed = insert-keyed run_id r t h.keyed fresh;
        valid =
            insert-All IsValidResult r t (initial-IsValidResult now id lease_owner run action)
              h.valid;
      }

  execute-IsKept : (s : Statement) (t : Results) → IsKept t → IsKept (execute s t)
  unfolding execute
  execute-IsKept s t h = record {
    keyed = rw (ids-execute s t) h.keyed;
    valid =
        All-map_mem IsValidResult (step_row s t) t
          (λ r m. step_row-IsValidResult s h.keyed m (mem-All IsValidResult h.valid m));
  }

  Step-IsKept : {t u : Results} → Step run_id plan t u → IsKept t → IsKept u
  Step-IsKept {t} (statement s e) h = rw e (execute-IsKept s t h)
  Step-IsKept {t} (start done rest action now id lease_owner split succeeded fresh e) h =
      rw e (insert-IsKept now id lease_owner run_id action t fresh h)
  Step-IsKept {t} (start_elsewhere other now id lease_owner action differs fresh e) h =
      rw e (insert-IsKept now id lease_owner other action t fresh h)

  -- Every history of handlers and workers keeps the CHECK constraints of the action results: at
  -- least one and at most max_attempts attempts, at most ten, a lease owner exactly where there is a
  -- lease expiry, and retries scheduled for webhooks alone, with a time; only webhooks run.
  pub Reach-IsKept : {t u : Results} → Reach run_id plan t u → IsKept t → IsKept u
  Reach-IsKept here h = h
  Reach-IsKept (next r s) h = Step-IsKept s (Reach-IsKept r h)

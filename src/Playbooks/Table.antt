-- ===== src/Playbooks/Table.antt =====
-- Statements on the results table, and the tables that interleaved handlers and workers can reach.
use forjd.Prelude.{
  ℕ, String, ◌≡◌, ◌≢◌, Bool, true, false, not, ◌&&◌, Option, none, some, List, ◌∷◌, ◌++◌, map, leb,
  string_eq, nat_eq, take, select, contains, All, update_row, then_by, sort_by,
}
use forjd.Playbooks.Delivery.{
  Metadata, Outcome, Signing, Transport, Configuration, run_webhook, durable_webhook_outcome,
}
use forjd.Playbooks.Results.{
  PlanEntry, ActionResult, Results, initial_result, has_succeeded_at, insert_result, Lease,
  holds_lease, persist_outcome, is_due, claim_retry, is_exhausted, finalize_expired,
  may_acknowledge, acknowledge, may_retry, queue_retry,
}

-- One call of `_run_webhook`.
pub record Exchange : Type 0 where
  pub configured : Option (List (String × String))
  pub send : Signing → Transport
  pub configuration : Configuration

abbrev pub outcome_for : Exchange → Outcome
outcome_for x = run_webhook x.configured x.send x.configuration

pub data Statement : Type 0 where
  persist : ℕ → Lease → Exchange → Statement
  claim_due : ℕ → ℕ → ℕ → List ℕ → Statement
  finalize : ℕ → Statement
  ack : ℕ → ℕ → ℕ → Bool → Option String → Metadata → Statement
  retry : ℕ → ℕ → ℕ → Statement

abbrev when_due : ActionResult → ℕ
when_due r = elim r.next_attempt_at [
  | some at ↦ at
  | none ↦ elim r.lease_expires_at [ some at ↦ at | none ↦ 0 ]
]

-- `ORDER BY COALESCE(next_attempt_at, lease_expires_at), created_at, id`; a due row has one of both.
unfoldable pub comes_before : ActionResult → ActionResult → Bool
unfolding then_by
comes_before a b =
    then_by (when_due a) (when_due b) (then_by a.created_at b.created_at (leb a.id b.id))

-- The rows that `_claim_due_webhook_retries` picks, past those that others have locked.
unfoldable pub claimed_ids : ℕ → ℕ → List ℕ → Results → List ℕ
unfolding is_due sort_by comes_before
claimed_ids now batch_size locked table =
    map (λ r. r.id)
      (take batch_size
        (sort_by comes_before (select (λ r. is_due now r && not (contains locked r.id)) table)))

unfoldable pub step_row : Statement → Results → ActionResult → ActionResult
unfolding holds_lease persist_outcome claim_retry is_exhausted finalize_expired may_acknowledge
    acknowledge may_retry queue_retry durable_webhook_outcome
step_row (persist now lease exchange) table = update_row (holds_lease lease) (
    persist_outcome now
      (durable_webhook_outcome (outcome_for exchange) lease.attempt lease.max_attempts))
step_row (claim_due now worker batch_size locked) table =
    update_row (λ r. contains (claimed_ids now batch_size locked table) r.id)
      (claim_retry now worker)
step_row (finalize now) table = update_row (is_exhausted now) (finalize_expired now)
step_row (ack now run_id result_id ok external_reference metadata) table =
    update_row (may_acknowledge run_id result_id) (acknowledge now ok external_reference metadata)
step_row (retry now run_id result_id) table =
    update_row (may_retry run_id result_id) (queue_retry now)

unfoldable pub execute : Statement → Results → Results
execute s table = map (step_row s table) table

abbrev pub ids : Results → List ℕ
ids = map (λ r. r.id)

-- A step on the table of a run with a frozen plan, by any handler or worker. The first action of a
-- plan may be started at any time, and a later one by a handler that found every earlier one
-- succeeded. The ids of new rows, from `uuid4`, are fresh.
pub data Step (run_id : ℕ) (plan : List PlanEntry) (t u : Results) : Type 0 where
  statement : (s : Statement) → u ≡ execute s t → Step run_id plan t u
  start :
      (done rest : List PlanEntry) (action : PlanEntry) (now id lease_owner : ℕ)
      → plan ≡ done ++ action ∷ rest
      → All (λ a. has_succeeded_at run_id a.key t ≡ true) done
      → contains (ids t) id ≡ false
      → u ≡ insert_result (initial_result now id lease_owner run_id action) t
      → Step run_id plan t u
  -- another run's handler
  start_elsewhere :
      (other now id lease_owner : ℕ) (action : PlanEntry)
      → other ≢ run_id
      → contains (ids t) id ≡ false
      → u ≡ insert_result (initial_result now id lease_owner other action) t
      → Step run_id plan t u

pub data Reach (run_id : ℕ) (plan : List PlanEntry) (t : Results) : Results → Type 0 where
  here : Reach run_id plan t t
  next : {u v : Results} → Reach run_id plan t u → Step run_id plan u v → Reach run_id plan t v

-- ===== src/Processing/Constraints.antt =====
-- The CHECK constraints of backend/sql/024_durable_ingest_processing.sql as an invariant of the rows.
use mathlib.Core.List.{Memᴰ}
use forjd.Prelude.{
  ℕ, ◌≤◌, ◌<◌, String, ◌≡◌, refl, ap, ◌∙◌, inl, inr, Bool, true, not, ◌||◌, Option, List, [], ◌∷◌,
  map, arith, string_eq, nat_eq, Bool-cases, is_none, contains, All, update_row, map-map_keep,
  mem-All, All-map_mem,
}
use forjd.Processing.Batch.{
  BatchStatus, is_queued, is_running, is_retry_scheduled, is_completed, Receipt, Summary, Batch,
  may_wake, wake, has_expired_lease, recover, is_due, start_attempt, holds_fence, extend_lease,
  complete, record_failure,
}
use forjd.Processing.Ledger.{
  Ledger, Claim, claimed_ids, Fence, holds, Statement, wake_batches, recover_leases, claim,
  heartbeat, persist_completion, persist_failure, step_row, execute, run,
}
use forjd.Processing.Claim.{IsKeyed, claimed_is_due}

abbrev pub is_waiting : BatchStatus → Bool
is_waiting s = is_queued s || is_retry_scheduled s

pub record IsValid (b : Batch) : Type 0 where
  -- `ingest_processing_attempt_bounds`
  pub max_bounds : (1 ≤ b.max_attempts) × (b.max_attempts ≤ 100)
  pub attempt_bound : b.attempts ≤ b.max_attempts
  -- `ingest_processing_lease_shape`
  pub owner_shape : is_none b.lease_owner ≡ not (is_running b.status)
  pub expiry_shape : is_none b.lease_expires_at ≡ not (is_running b.status)
  -- `ingest_processing_completion_shape`
  pub completion_shape : is_none b.completed_at ≡ not (is_completed b.status)
  -- not a constraint of the table: a row that waits can still be claimed
  pub claimable : is_waiting b.status ≡ true → b.attempts < b.max_attempts

pub due_is_waiting :
    (now : ℕ) (batch_ids : Option (List ℕ)) (b : Batch)
    → is_due now batch_ids b ≡ true
    → is_waiting b.status ≡ true
unfolding is_due
due_is_waiting now batch_ids b h = ground arith

module _ {b : Batch} (v : IsValid b) where
  wake-IsValid :
      (now : ℕ) (batch_ids : List ℕ) (revive : Bool)
      → IsValid (update_row (may_wake batch_ids) (wake now revive) b)
  unfolding may_wake wake
  wake-IsValid now batch_ids revive = ground arith

  recover-IsValid : (now : ℕ) → IsValid (update_row (has_expired_lease now) (recover now) b)
  unfolding has_expired_lease recover
  recover-IsValid now = ground arith

  start_attempt-IsValid :
      (now worker_id : ℕ) → is_waiting b.status ≡ true → IsValid (start_attempt now worker_id b)
  unfolding start_attempt
  start_attempt-IsValid now worker_id h = ground arith

  fenced-IsValid :
      (f : Fence) (change : Batch → Batch)
      → (is_running b.status ≡ true → IsValid (change b))
      → IsValid (update_row (holds f) change b)
  unfolding holds_fence
  fenced-IsValid f change h = elim (Bool-cases (holds f b)) [
    | inl e ↦ rw e (h (ground arith))
    | inr e ↦ rw e v
  ]

  extend_lease-IsValid : (now : ℕ) → is_running b.status ≡ true → IsValid (extend_lease now b)
  unfolding extend_lease
  extend_lease-IsValid now h = ground arith

  complete-IsValid :
      (now : ℕ) (summary : Summary) → is_running b.status ≡ true → IsValid (complete now summary b)
  unfolding complete
  complete-IsValid now summary h = ground arith

  record_failure-IsValid :
      (now attempt : ℕ) (error_class error : String)
      → is_running b.status ≡ true
      → IsValid (record_failure now attempt error_class error b)
  unfolding record_failure
  record_failure-IsValid now attempt error_class error h = ground arith

  claim-IsValid :
      (c : Claim) (ledger : Ledger)
      → IsKeyed ledger
      → Memᴰ b ledger
      → IsValid (
          update_row
            (λ r. contains (claimed_ids c ledger) r.id)
            (start_attempt c.now c.worker_id)
            b)
  claim-IsValid c ledger keyed m = elim (Bool-cases (contains (claimed_ids c ledger) b.id)) [
    | inl e ↦ rw e (
        start_attempt-IsValid c.now c.worker_id
          (due_is_waiting c.now c.batch_ids b (claimed_is_due c keyed m e).0))
    | inr e ↦ rw e v
  ]

  step_row-IsValid :
      (s : Statement) (ledger : Ledger)
      → IsKeyed ledger
      → Memᴰ b ledger
      → IsValid (step_row s ledger b)
  unfolding step_row
  step_row-IsValid (wake_batches now batch_ids revive) ledger keyed m =
      wake-IsValid now batch_ids revive
  step_row-IsValid (recover_leases now) ledger keyed m = recover-IsValid now
  step_row-IsValid (claim c) ledger keyed m = claim-IsValid c ledger keyed m
  step_row-IsValid (heartbeat now f) ledger keyed m =
      fenced-IsValid f (extend_lease now) (extend_lease-IsValid now)
  step_row-IsValid (persist_completion now f summary) ledger keyed m =
      fenced-IsValid f (complete now summary) (complete-IsValid now summary)
  step_row-IsValid (persist_failure now f error_class error) ledger keyed m =
      fenced-IsValid f (record_failure now f.attempt error_class error)
        (record_failure-IsValid now f.attempt error_class error)

-- Every column of the receipt survives every statement.
pub receipt-step_row :
    (s : Statement) (ledger : Ledger) (b : Batch) → (step_row s ledger b).receipt ≡ b.receipt
unfolding step_row
receipt-step_row s ledger b = ground arith

pub execute-receipts :
    (s : Statement) (ledger : Ledger)
    → map (λ b. b.receipt) (execute s ledger) ≡ map (λ b. b.receipt) ledger
unfolding execute
execute-receipts s ledger =
    map-map_keep (λ b. b.receipt) (step_row s ledger) (receipt-step_row s ledger) ledger

pub record IsSound (ledger : Ledger) : Type 0 where
  pub keyed : IsKeyed ledger
  pub valid : All IsValid ledger

pub execute-IsSound :
    (s : Statement) {ledger : Ledger} → IsSound ledger → IsSound (execute s ledger)
unfolding execute
execute-IsSound s {ledger} h = record {
  keyed =
      rw
        (map-map_keep (λ b. b.id) (step_row s ledger)
          (λ b. ap (λ (r : Receipt). r.id) (receipt-step_row s ledger b)) ledger)
        h.keyed;
  valid =
      All-map_mem IsValid (step_row s ledger) ledger
        (λ b m. step_row-IsValid (mem-All IsValid h.valid m) s ledger h.keyed m);
}

-- Every history of statements keeps them.
pub run-IsSound :
    (history : List Statement) {ledger : Ledger} → IsSound ledger → IsSound (run history ledger)
unfolding run
run-IsSound [] h = h
run-IsSound (s ∷ history) h = run-IsSound history (execute-IsSound s h)

pub run-receipts :
    (history : List Statement) (ledger : Ledger)
    → map (λ b. b.receipt) (run history ledger) ≡ map (λ b. b.receipt) ledger
unfolding run
run-receipts [] ledger = refl
run-receipts (s ∷ history) ledger =
    run-receipts history (execute s ledger) ∙ execute-receipts s ledger

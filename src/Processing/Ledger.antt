-- ===== src/Processing/Ledger.antt =====
-- The table as a list of rows, the statements as steps on it, and histories of statements. A history
-- interleaves the statements of any number of workers and requests in any order.
use forjd.Prelude.{
  ℕ, min, max, String, Bool, not, ◌&&◌, Option, List, [], ◌∷◌, map, leb, string_eq, nat_eq, ◌==◌,
  take, select, contains, update_row, count_where, then_by, sort_by,
}
use forjd.Processing.Batch.{
  Summary, Batch, may_wake, wake, has_expired_lease, recover, is_due, start_attempt, holds_fence,
  extend_lease, complete, record_failure,
}

abbrev pub Ledger : Type 0
Ledger = List Batch

-- `ORDER BY created_at, acceptance_id, group_ordinal, id`
unfoldable pub comes_before : Batch → Batch → Bool
unfolding then_by
comes_before a b = then_by a.created_at b.created_at (
    then_by a.acceptance_id b.acceptance_id
      (then_by a.group_ordinal b.group_ordinal (leb a.id b.id)))

-- `limit` of `_claim_processing_batches`.
abbrev pub clamp_batch_size : ℕ → ℕ
clamp_batch_size batch_size = max 1 (min batch_size 100)

-- The rows that `_claim_processing_batches` picks. `locked` holds the ids of the rows that other
-- transactions have locked, which `FOR UPDATE SKIP LOCKED` passes over before the `LIMIT`.
unfoldable pub candidates : ℕ → ℕ → Option (List ℕ) → List ℕ → Ledger → Ledger
unfolding is_due sort_by
candidates now batch_size batch_ids locked ledger = take (clamp_batch_size batch_size) (
    sort_by comes_before
      (select (λ b. is_due now batch_ids b && not (contains locked b.id)) ledger))

abbrev pub ids : Ledger → List ℕ
ids = map (λ b. b.id)

-- What `claim` needs beside the ledger.
pub record Claim : Type 0 where
  pub now : ℕ
  pub worker_id : ℕ
  pub batch_size : ℕ
  pub batch_ids : Option (List ℕ)
  pub locked : List ℕ

unfoldable pub claimed_ids : Claim → Ledger → List ℕ
unfolding candidates
claimed_ids c ledger = ids (candidates c.now c.batch_size c.batch_ids c.locked ledger)

-- A worker's fence: the row, the worker and the attempt that it was given.
pub record Fence : Type 0 where
  pub batch_id : ℕ
  pub worker_id : ℕ
  pub attempt : ℕ

abbrev pub holds : Fence → Batch → Bool
holds f = holds_fence f.batch_id f.worker_id f.attempt

pub data Statement : Type 0 where
  wake_batches : ℕ → List ℕ → Bool → Statement
  recover_leases : ℕ → Statement
  claim : Claim → Statement
  heartbeat : ℕ → Fence → Statement
  persist_completion : ℕ → Fence → Summary → Statement
  persist_failure : ℕ → Fence → String → String → Statement

-- What a statement does to one row; only `claim` looks at the other rows.
unfoldable pub step_row : Statement → Ledger → Batch → Batch
unfolding may_wake wake has_expired_lease recover start_attempt holds_fence extend_lease complete
    record_failure
step_row (wake_batches now batch_ids revive) ledger =
    update_row (may_wake batch_ids) (wake now revive)
step_row (recover_leases now) ledger = update_row (has_expired_lease now) (recover now)
step_row (claim c) ledger =
    update_row (λ b. contains (claimed_ids c ledger) b.id) (start_attempt c.now c.worker_id)
step_row (heartbeat now f) ledger = update_row (holds f) (extend_lease now)
step_row (persist_completion now f summary) ledger = update_row (holds f) (complete now summary)
step_row (persist_failure now f error_class error) ledger =
    update_row (holds f) (record_failure now f.attempt error_class error)

unfoldable pub execute : Statement → Ledger → Ledger
execute s ledger = map (step_row s ledger) ledger

-- The ledger after a history of statements.
unfoldable pub run : List Statement → Ledger → Ledger
run [] ledger = ledger
run (s ∷ history) ledger = run history (execute s ledger)

-- `UPDATE 1`: the test by which a worker learns that its fence held.
unfoldable pub fence_held : Fence → Ledger → Bool
unfolding count_where holds_fence
fence_held f ledger = count_where (holds f) ledger == 1

-- `RETURNING batch.*`
unfoldable pub returned : Claim → Ledger → Ledger
returned c ledger = select (λ b. contains (claimed_ids c ledger) b.id) (execute (claim c) ledger)

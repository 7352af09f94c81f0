-- ===== src/Processing/Batch.antt =====
-- One row of `ingest_processing_batches` (backend/sql/024_durable_ingest_processing.sql), and what
-- each statement of backend/app/services/ingest_processing.py tests and writes in a row.
-- Timestamps are seconds and identifiers are numbers; `NOW()` is an argument.
use forjd.Prelude.{
  ℕ, ◌+◌, ◌-◌, ◌*◌, ◌^◌, min, String, Bool, true, false, ◌&&◌, ◌||◌, Option, none, some, List, ltb,
  leb, string_eq, nat_eq, ◌==◌, if◌then◌else◌, is_none, coalesce, contains, first_chars,
}

pub data BatchStatus : Type 0 where
  queued running retry_scheduled completed failed : BatchStatus

abbrev pub is_queued : BatchStatus → Bool
is_queued queued = true
is_queued _ = false

abbrev pub is_running : BatchStatus → Bool
is_running running = true
is_running _ = false

abbrev pub is_retry_scheduled : BatchStatus → Bool
is_retry_scheduled retry_scheduled = true
is_retry_scheduled _ = false

abbrev pub is_completed : BatchStatus → Bool
is_completed completed = true
is_completed _ = false

abbrev pub is_failed : BatchStatus → Bool
is_failed failed = true
is_failed _ = false

-- One entry of the `events` snapshot: the routing metadata that processing may see.
pub record Event : Type 0 where
  pub event_id : ℕ
  pub tenant_id : ℕ
  pub cipher_len : ℕ
  pub created_at : Option ℕ

-- The columns that a receipt never changes.
pub record Receipt : Type 0 where
  pub id : ℕ
  pub acceptance_id : ℕ
  pub group_ordinal : ℕ
  pub dedupe_key : String
  pub requested_by : ℕ
  pub workflow_id : String
  pub workflow_version : ℕ
  pub workflow_hash : String
  pub workflow_snapshot : String
  pub projection_name : String
  pub projection_version : ℕ
  pub content_type : String
  pub event_type : Option String
  pub events : List Event
  pub event_ids : List ℕ
  pub tenant_ids : List ℕ
  pub max_attempts : ℕ
  pub created_at : ℕ

-- `result_summary` of a completed batch.
pub record Summary : Type 0 where
  pub count : ℕ
  pub anomaly_count : ℕ
  pub written : ℕ

pub record Batch : Type 0 where
  pub receipt : Receipt
  pub open receipt use *
  pub status : BatchStatus
  pub attempts : ℕ
  pub next_attempt_at : ℕ
  pub last_attempt_at : Option ℕ
  pub lease_owner : Option ℕ
  pub lease_expires_at : Option ℕ
  pub error_class : Option String
  pub error : Option String
  pub result_summary : Option Summary
  pub updated_at : ℕ
  pub completed_at : Option ℕ

abbrev pub lease_seconds : ℕ
lease_seconds = 300

abbrev pub default_max_attempts : ℕ
default_max_attempts = 10

-- `wake_processing_batches`: the WHERE clause.
unfoldable pub may_wake : List ℕ → Batch → Bool
may_wake batch_ids b =
    contains batch_ids b.id
    && (is_queued b.status || is_retry_scheduled b.status || is_failed b.status)

-- `wake_processing_batches`: the SET clause.
unfoldable pub wake : ℕ → Bool → Batch → Batch
wake now revive_failed b =
    let revived = is_failed b.status && revive_failed in
    record b {
      status = if revived then queued else b.status;
      attempts = if revived then 0 else b.attempts;
      next_attempt_at =
          if is_queued b.status || is_retry_scheduled b.status || revived
          then now
          else b.next_attempt_at;
      error_class = if revived then none else b.error_class;
      error = if revived then none else b.error;
      updated_at = now;
    }

-- `lease_expires_at <= NOW()`, which no row without a lease passes.
abbrev pub lease_expired : ℕ → Option ℕ → Bool
lease_expired now none = false
lease_expired now (some expires) = leb expires now

-- `_recover_expired_processing_leases`
unfoldable pub has_expired_lease : ℕ → Batch → Bool
has_expired_lease now b = is_running b.status && lease_expired now b.lease_expires_at

unfoldable pub recover : ℕ → Batch → Batch
recover now b = record b {
  status = if leb b.max_attempts b.attempts then failed else retry_scheduled;
  next_attempt_at = now;
  lease_owner = none;
  lease_expires_at = none;
  error_class = coalesce b.error_class "WorkerLeaseExpired";
  error = coalesce b.error "processing worker lease expired";
  updated_at = now;
}

-- `_claim_processing_batches`: the WHERE clause of `candidates`.
unfoldable pub is_due : ℕ → Option (List ℕ) → Batch → Bool
is_due now batch_ids b =
    (is_queued b.status || is_retry_scheduled b.status)
    && ltb b.attempts b.max_attempts
    && leb b.next_attempt_at now
    && (is_none b.lease_expires_at || lease_expired now b.lease_expires_at)
    && elim batch_ids [ none ↦ true | some ids ↦ contains ids b.id ]

-- `_claim_processing_batches`: the SET clause.
unfoldable pub start_attempt : ℕ → ℕ → Batch → Batch
start_attempt now worker_id b = record b {
  status = running;
  attempts = b.attempts + 1;
  last_attempt_at = some now;
  lease_owner = some worker_id;
  lease_expires_at = some (now + lease_seconds);
  error_class = none;
  error = none;
  updated_at = now;
}

abbrev pub is_owner : ℕ → Option ℕ → Bool
is_owner worker_id none = false
is_owner worker_id (some owner) = owner == worker_id

-- The fence of every write by a worker: `id = … AND status = 'running' AND lease_owner = … AND
-- attempts = …`, with the attempt that the worker was given when it claimed the row.
unfoldable pub holds_fence : ℕ → ℕ → ℕ → Batch → Bool
holds_fence batch_id worker_id attempt b =
    b.id == batch_id
    && is_running b.status
    && is_owner worker_id b.lease_owner
    && b.attempts == attempt

-- The three fenced writes: the heartbeat, the completion and the failure.
unfoldable pub extend_lease : ℕ → Batch → Batch
extend_lease now b = record b { lease_expires_at = some (now + lease_seconds); updated_at = now }

unfoldable pub complete : ℕ → Summary → Batch → Batch
complete now summary b = record b {
  status = completed;
  result_summary = some summary;
  completed_at = some now;
  lease_owner = none;
  lease_expires_at = none;
  error_class = none;
  error = none;
  updated_at = now;
}

-- `_failure_delay_seconds`; `max(0, attempts - 1)` is the truncated subtraction.
unfoldable pub failure_delay_seconds : ℕ → ℕ
failure_delay_seconds attempts = min 3600 (30 * 2 ^ min (attempts - 1) 7)

-- `attempt` is the number in the claimed row, from which the delay is computed.
unfoldable pub record_failure : ℕ → ℕ → String → String → Batch → Batch
unfolding first_chars
record_failure now attempt error_class error b = record b {
  status = if leb b.max_attempts b.attempts then failed else retry_scheduled;
  next_attempt_at = now + failure_delay_seconds attempt;
  lease_owner = none;
  lease_expires_at = none;
  error_class = some (first_chars 128 error_class);
  error = some (first_chars 2000 error);
  updated_at = now;
}

-- ===== src/Playbooks/Results.antt =====
-- The rows of `playbook_action_results` (backend/sql/020_headless_siem_soar.sql) and the statements
-- of backend/app/services/playbooks.py on them.
use forjd.Prelude.{
  ℕ, ◌+◌, String, Bool, true, false, not, ◌&&◌, ◌||◌, Option, none, some, List, [], ◌∷◌, ◌++◌, ltb,
  leb, string_eq, nat_eq, ◌==◌, if◌then◌else◌, is_none, coalesce, any, contains,
}
use forjd.Playbooks.Delivery.{
  ActionStatus, running, retry_scheduled, awaiting_ack, succeeded, failed, unsupported, flag, text,
  Metadata, put, webhook_max_attempts, webhook_lease_seconds, Configuration, Durable, has_failed,
}

-- An entry of a run's frozen action plan, as `_normalize_action_plan` leaves it.
pub record PlanEntry : Type 0 where
  pub key : String
  pub playbook_action_id : Option String
  pub action_type : String
  pub configuration : Configuration
  pub sort_order : ℕ

pub record ActionResult : Type 0 where
  pub id : ℕ
  pub run_id : ℕ
  pub action_plan_key : String
  pub action_type : String
  pub configuration_snapshot : Configuration
  pub status : ActionStatus
  pub attempt : ℕ
  pub max_attempts : ℕ
  pub status_code : Option ℕ
  pub error_code : Option String
  pub external_reference : Option String
  pub metadata : Metadata
  pub next_attempt_at : Option ℕ
  pub last_attempt_at : Option ℕ
  pub lease_owner : Option ℕ
  pub lease_expires_at : Option ℕ
  pub created_at : ℕ
  pub completed_at : Option ℕ

abbrev pub Results : Type 0
Results = List ActionResult

abbrev pub is_running : ActionStatus → Bool
is_running running = true
is_running _ = false

abbrev pub is_retry_scheduled : ActionStatus → Bool
is_retry_scheduled retry_scheduled = true
is_retry_scheduled _ = false

abbrev pub is_awaiting_ack : ActionStatus → Bool
is_awaiting_ack awaiting_ack = true
is_awaiting_ack _ = false

abbrev pub has_succeeded : ActionStatus → Bool
has_succeeded succeeded = true
has_succeeded _ = false

abbrev pub is_terminal : ActionStatus → Bool
is_terminal succeeded = true
is_terminal failed = true
is_terminal unsupported = true
is_terminal _ = false

abbrev pub is_webhook : String → Bool
is_webhook action_type = action_type == "webhook"

-- `_CONTROL_PLANE_ACTIONS`
abbrev pub is_control_plane : String → Bool
is_control_plane action_type =
    contains ("email_alert" ∷ "block_ip" ∷ "revoke_api_key" ∷ []) action_type

abbrev pub is_past : ℕ → Option ℕ → Bool
is_past now none = false
is_past now (some at) = leb at now

-- The row that `_execute_run_actions` inserts for an action.
unfoldable pub initial_result : ℕ → ℕ → ℕ → ℕ → PlanEntry → ActionResult
initial_result now id lease_owner run_id action =
    let webhook = is_webhook action.action_type in
    let control = is_control_plane action.action_type in
    record {
      id = id;
      run_id = run_id;
      action_plan_key = action.key;
      action_type = action.action_type;
      configuration_snapshot = action.configuration;
      status = if webhook then running else if control then awaiting_ack else unsupported;
      attempt = 1;
      max_attempts = if webhook then webhook_max_attempts else 1;
      status_code = none;
      error_code = none;
      external_reference = none;
      metadata =
          if webhook
          then []
          else if control
          then ("reason", text "control_plane_ack_required") ∷ []
          else [];
      next_attempt_at = none;
      last_attempt_at = if webhook then some now else none;
      lease_owner = if webhook then some lease_owner else none;
      lease_expires_at = if webhook then some (now + webhook_lease_seconds) else none;
      created_at = now;
      completed_at = if webhook || control then none else some now;
    }

abbrev pub is_for : ℕ → String → ActionResult → Bool
is_for run_id key r = r.run_id == run_id && r.action_plan_key == key

-- Whether the run has a row for the plan key.
unfoldable pub has_result : ℕ → String → Results → Bool
has_result run_id key = any (is_for run_id key)

-- Whether the row of the plan key has succeeded.
unfoldable pub has_succeeded_at : ℕ → String → Results → Bool
has_succeeded_at run_id key = any (λ r. is_for run_id key r && has_succeeded r.status)

-- `INSERT … ON CONFLICT (run_id, action_plan_key) DO NOTHING`
unfoldable pub insert_result : ActionResult → Results → Results
unfolding has_result
insert_result r table =
    if has_result r.run_id r.action_plan_key table then table else table ++ r ∷ []

-- What the holder of a lease passes to `_persist_webhook_outcome`.
pub record Lease : Type 0 where
  pub result_id : ℕ
  pub run_id : ℕ
  pub owner : ℕ
  pub attempt : ℕ
  pub max_attempts : ℕ

unfoldable pub holds_lease : Lease → ActionResult → Bool
holds_lease l r =
    r.id == l.result_id
    && r.run_id == l.run_id
    && elim r.lease_owner [ none ↦ false | some owner ↦ owner == l.owner ]
    && is_running r.status

unfoldable pub persist_outcome : ℕ → Durable → ActionResult → ActionResult
persist_outcome now durable r = record r {
  status = durable.status;
  status_code = durable.status_code;
  error_code = durable.error_code;
  metadata = durable.metadata;
  next_attempt_at =
      if is_retry_scheduled durable.status
      then some (now + elim durable.retry_after_seconds [ none ↦ 0 | some delay ↦ delay ])
      else none;
  lease_owner = none;
  lease_expires_at = none;
  completed_at = if is_terminal durable.status then some now else none;
}

-- The WHERE clause of `due` in `_claim_due_webhook_retries`.
unfoldable pub is_due : ℕ → ActionResult → Bool
is_due now r =
    is_webhook r.action_type
    && ltb r.attempt r.max_attempts
    && ((is_retry_scheduled r.status
          && is_past now r.next_attempt_at
          && (is_none r.lease_expires_at || is_past now r.lease_expires_at))
        || (is_running r.status
            && not (is_none r.lease_expires_at)
            && is_past now r.lease_expires_at))

unfoldable pub claim_retry : ℕ → ℕ → ActionResult → ActionResult
claim_retry now worker r = record r {
  status = running;
  attempt = r.attempt + 1;
  last_attempt_at = some now;
  next_attempt_at = none;
  lease_owner = some worker;
  lease_expires_at = some (now + webhook_lease_seconds);
  completed_at = none;
}

-- `_finalize_expired_retry_leases`
unfoldable pub is_exhausted : ℕ → ActionResult → Bool
is_exhausted now r =
    is_webhook r.action_type
    && is_running r.status
    && leb r.max_attempts r.attempt
    && not (is_none r.lease_expires_at)
    && is_past now r.lease_expires_at

unfoldable pub finalize_expired : ℕ → ActionResult → ActionResult
unfolding put
finalize_expired now r = record r {
  status = failed;
  error_code = coalesce r.error_code "retry_lease_expired";
  metadata =
      put "delivery_outcome_unknown" (flag true) (put "retry_exhausted" (flag true) r.metadata);
  next_attempt_at = none;
  lease_owner = none;
  lease_expires_at = none;
  completed_at = some now;
}

-- The UPDATE of `acknowledge_action`.
unfoldable pub may_acknowledge : ℕ → ℕ → ActionResult → Bool
may_acknowledge run_id result_id r =
    r.id == result_id
    && r.run_id == run_id
    && is_awaiting_ack r.status
    && is_control_plane r.action_type

unfoldable pub acknowledge : ℕ → Bool → Option String → Metadata → ActionResult → ActionResult
acknowledge now ok external_reference metadata r = record r {
  status = if ok then succeeded else failed;
  external_reference = external_reference;
  metadata = metadata;
  completed_at = some now;
}

-- The UPDATE of `retry_action`.
unfoldable pub may_retry : ℕ → ℕ → ActionResult → Bool
may_retry run_id result_id r =
    r.id == result_id
    && r.run_id == run_id
    && is_webhook r.action_type
    && (has_failed r.status || is_retry_scheduled r.status)
    && ltb r.attempt r.max_attempts

unfoldable pub queue_retry : ℕ → ActionResult → ActionResult
queue_retry now r = record r {
  status = retry_scheduled;
  next_attempt_at = some now;
  lease_owner = none;
  lease_expires_at = none;
  completed_at = none;
}

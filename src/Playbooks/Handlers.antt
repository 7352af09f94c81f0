-- ===== src/Playbooks/Handlers.antt =====
-- `acknowledge_action` and `retry_action` of backend/app/services/playbooks.py, past `_authorize` and
-- `ensure_playbook_schema`.
use forjd.Prelude.{
  ℕ, String, Bool, true, false, not, ◌&&◌, Option, none, some, leb, string_eq, nat_eq, ◌==◌,
  if◌then◌else◌, any, find,
}
use forjd.Playbooks.Delivery.{ActionStatus, succeeded, failed, Metadata}
use forjd.Playbooks.Results.{
  PlanEntry, ActionResult, is_running, is_awaiting_ack, has_succeeded, is_webhook, is_control_plane,
  may_acknowledge, may_retry,
}
use forjd.Playbooks.Table.{ack, retry, execute}
use forjd.Playbooks.Runs.{
  Run, Store, Answer, answered, not_found, conflict, record_required, is_run, refresh_run_status,
  Delivery, execute_run_actions,
}
use forjd.Playbooks.Requests.{same_object, same_text_option, Reply, fetch_run, then_fetch}

abbrev pub is_result : ℕ → ℕ → ActionResult → Bool
is_result run_id result_id r = r.id == result_id && r.run_id == run_id

abbrev pub same_status : ActionStatus → ActionStatus → Bool
same_status succeeded succeeded = true
same_status failed failed = true
same_status _ _ = false

-- What a caller passes to `acknowledge_action`.
pub record Decision : Type 0 where
  pub ok : Bool
  pub external_reference : Option String
  pub metadata : Metadata

-- `exact_replay`
unfoldable pub is_exact_replay : Decision → ActionResult → Bool
unfolding same_object
is_exact_replay decision r =
    is_control_plane r.action_type
    && same_status r.status (if decision.ok then succeeded else failed)
    && same_text_option r.external_reference decision.external_reference
    && same_object r.metadata decision.metadata

-- The last part of `acknowledge_action`.
unfoldable pub after_decision :
    ℕ → (PlanEntry → Delivery) → ℕ → Run → Bool → Bool → Store → Store × Answer Reply
unfolding execute_run_actions refresh_run_status fetch_run
after_decision now deliver tenant_id run ok duplicate store =
    then_fetch tenant_id run.id duplicate (
      if ok
      then execute_run_actions now tenant_id run.id run.playbook_id deliver store
      else (refresh_run_status now tenant_id run.id store, answered tt))

abbrev pub unknown_result : String
unknown_result = "action result not found"

abbrev pub other_decision : String
other_decision = "acknowledgement conflicts with the action's durable decision"

-- Where the UPDATE found no row: the read of the row, and the check of the replay.
unfoldable pub acknowledge_again :
    ℕ
    → (PlanEntry → Delivery)
    → ℕ
    → Run
    → Decision
    → Store
    → Option ActionResult
    → Store × Answer Reply
unfolding after_decision is_exact_replay
acknowledge_again now deliver tenant_id run decision store none = (store, not_found unknown_result)
acknowledge_again now deliver tenant_id run decision store (some current) =
    if is_exact_replay decision current
    then after_decision now deliver tenant_id run decision.ok true store
    else (store, conflict other_decision)

abbrev pub decide : ℕ → ℕ → ℕ → ℕ → Decision → Store → Store
decide now tenant_id run_id result_id decision store =
    record_required "playbook.action_ack" tenant_id result_id (record store {
      results =
          execute
            (ack now run_id result_id decision.ok decision.external_reference decision.metadata)
            store.results;
    })

unfoldable pub acknowledge_in :
    ℕ → (PlanEntry → Delivery) → ℕ → ℕ → Decision → Store → Option Run → Store × Answer Reply
unfolding after_decision may_acknowledge execute acknowledge_again
acknowledge_in now deliver tenant_id result_id decision store none =
    (store, not_found unknown_result)
acknowledge_in now deliver tenant_id result_id decision store (some run) =
    if any (may_acknowledge run.id result_id) store.results
    then after_decision now deliver tenant_id run decision.ok false
        (decide now tenant_id run.id result_id decision store)
    else acknowledge_again now deliver tenant_id run decision store
        (find (is_result run.id result_id) store.results)

-- `acknowledge_action`
unfoldable pub acknowledge_action :
    ℕ → (PlanEntry → Delivery) → ℕ → ℕ → ℕ → Decision → Store → Store × Answer Reply
unfolding acknowledge_in
acknowledge_action now deliver tenant_id run_id result_id decision store =
    acknowledge_in now deliver tenant_id result_id decision store
      (find (is_run tenant_id run_id) store.runs)

-- The refusal of `retry_action`.
unfoldable pub retry_refusal : ActionResult → String
retry_refusal r =
    if not (is_webhook r.action_type)
    then "control-plane actions must use acknowledgement, not retry"
    else if is_running r.status
    then "action in running state cannot be retried"
    else if has_succeeded r.status
    then "action in succeeded state cannot be retried"
    else if is_awaiting_ack r.status
    then "action in awaiting_ack state cannot be retried"
    else if leb r.max_attempts r.attempt
    then "action retry attempts are exhausted"
    else "action is not eligible for retry"

unfoldable pub refuse_retry : Store → Option ActionResult → Store × Answer Run
unfolding retry_refusal
refuse_retry store none = (store, not_found unknown_result)
refuse_retry store (some current) = (store, conflict (retry_refusal current))

unfoldable pub retry_in : ℕ → ℕ → ℕ → Store → Option Run → Store × Answer Run
unfolding may_retry execute refresh_run_status fetch_run refuse_retry
retry_in now tenant_id result_id store none = (store, not_found unknown_result)
retry_in now tenant_id result_id store (some run) =
    if any (may_retry run.id result_id) store.results
    then (let queued = record_required "playbook.action_retry_requested" tenant_id result_id (
          refresh_run_status now tenant_id run.id
            (record store { results = execute (retry now run.id result_id) store.results })) in
        (queued, fetch_run tenant_id run.id queued))
    else refuse_retry store (find (is_result run.id result_id) store.results)

abbrev pub retry_noted : ℕ → ℕ → Store → Store
retry_noted tenant_id result_id store =
    record_required "playbook.action_retry_request_attempt" tenant_id result_id store

-- `retry_action`
unfoldable pub retry_action : ℕ → ℕ → ℕ → ℕ → Store → Store × Answer Run
unfolding retry_in
retry_action now tenant_id run_id result_id store =
    retry_in now tenant_id result_id (retry_noted tenant_id result_id store)
      (find (is_run tenant_id run_id) store.runs)

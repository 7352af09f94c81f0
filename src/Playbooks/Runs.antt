-- ===== src/Playbooks/Runs.antt =====
-- Runs and the execution of their actions: `_execute_run_actions`, `_persist_webhook_outcome` and
-- `_refresh_run_status` of backend/app/services/playbooks.py. The calls are past `_authorize`.
use forjd.Prelude.{
  ℕ, String, Bool, true, false, ◌&&◌, Option, none, some, List, [], ◌∷◌, ◌++◌, map, string_eq,
  nat_eq, ◌==◌, if◌then◌else◌, coalesce, select, any, all, find, update,
}
use forjd.Playbooks.Delivery.{
  ActionStatus, unsupported, Metadata, webhook_max_attempts, has_failed, durable_webhook_outcome,
}
use forjd.Playbooks.Results.{
  PlanEntry, Results, is_running, is_retry_scheduled, is_awaiting_ack, has_succeeded, is_webhook,
  initial_result, has_result, has_succeeded_at, insert_result, Lease, holds_lease,
}
use forjd.Playbooks.Plan.{Snapshot, normalize_action_plan}
use forjd.Playbooks.Table.{Exchange, outcome_for, Statement, persist, execute}

pub data RunStatus : Type 0 where
  run_running retrying run_awaiting_ack run_succeeded run_unsupported run_failed partial : RunStatus

pub record Run : Type 0 where
  pub id : ℕ
  pub tenant_id : ℕ
  pub playbook_id : ℕ
  pub source_signal_id : Option ℕ
  pub idempotency_key : String
  pub trigger_source : String
  pub trigger_context : Metadata
  pub action_plan_snapshot : Snapshot
  pub status : RunStatus
  pub updated_at : ℕ
  pub completed_at : Option ℕ

pub record AuditEvent : Type 0 where
  pub action : String
  pub tenant_id : ℕ
  pub resource_id : ℕ

pub record Playbook : Type 0 where
  pub id : ℕ
  pub tenant_id : ℕ
  pub is_active : Bool
  pub actions : Snapshot

-- The tables that the handlers read and write.
pub record Store : Type 0 where
  pub playbooks : List Playbook
  pub runs : List Run
  pub results : Results
  pub audit : List AuditEvent

-- What a handler returns or raises; the statements before a raise are committed.
pub data Answer (A : Type 0) : Type 0 where
  answered : A → Answer A
  not_found : String → Answer A
  conflict : String → Answer A

-- `audit.record_required`
abbrev pub record_required : String → ℕ → ℕ → Store → Store
record_required action tenant_id resource_id store = record store {
  audit =
      store.audit
      ++ record { action = action; tenant_id = tenant_id; resource_id = resource_id } ∷ [];
}

abbrev is_unsupported : ActionStatus → Bool
is_unsupported unsupported = true
is_unsupported _ = false

-- `summarize_action_statuses`
unfoldable pub summarize_action_statuses : List ActionStatus → RunStatus
summarize_action_statuses [] = run_succeeded
summarize_action_statuses (s ∷ rest) =
    let statuses = s ∷ rest in
    if any is_running statuses
    then run_running
    else if any is_retry_scheduled statuses
    then retrying
    else if any is_awaiting_ack statuses
    then run_awaiting_ack
    else if all has_succeeded statuses
    then run_succeeded
    else if all is_unsupported statuses
    then run_unsupported
    else if all has_failed statuses
    then run_failed
    else partial

abbrev pub is_open : RunStatus → Bool
is_open run_running = true
is_open retrying = true
is_open run_awaiting_ack = true
is_open _ = false

-- `WHERE run.id = … AND run.tenant_id = …`
abbrev pub is_run : ℕ → ℕ → Run → Bool
is_run tenant_id run_id run = run.id == run_id && run.tenant_id == tenant_id

abbrev pub statuses_of : ℕ → Results → List ActionStatus
statuses_of run_id table = map (λ r. r.status) (select (λ r. r.run_id == run_id) table)

-- The summary of a run's actions; the JOIN finds none for another tenant's run.
unfoldable pub run_status : ℕ → ℕ → Store → RunStatus
unfolding summarize_action_statuses
run_status tenant_id run_id store =
    summarize_action_statuses
      (if any (is_run tenant_id run_id) store.runs then statuses_of run_id store.results else [])

unfoldable pub refresh_run : ℕ → ℕ → ℕ → Store → Run → Run
unfolding run_status
refresh_run now tenant_id run_id store run =
    let s = run_status tenant_id run_id store in
    record run {
      status = s;
      updated_at = now;
      completed_at = if is_open s then none else coalesce run.completed_at now;
    }

-- `_refresh_run_status`
unfoldable pub refresh_run_status : ℕ → ℕ → ℕ → Store → Store
unfolding refresh_run
refresh_run_status now tenant_id run_id store = record store {
  runs = update (is_run tenant_id run_id) (refresh_run now tenant_id run_id store) store.runs;
}

-- What the surroundings give for one action: the ids from `uuid4`, the clock before and after the
-- exchange, the exchange, and the statements of others that the table takes in the meantime.
pub record Delivery : Type 0 where
  pub result_id : ℕ
  pub lease_owner : ℕ
  pub started_at : ℕ
  pub finished_at : ℕ
  pub exchange : Exchange
  pub meanwhile : List Statement

unfoldable pub execute_all : List Statement → Results → Results
execute_all [] table = table
execute_all (s ∷ rest) table = execute_all rest (execute s table)

-- The status and whether the lease was still held, with the store after it.
-- `_persist_webhook_outcome`
unfoldable pub persist_webhook_outcome :
    ℕ → ℕ → String → Lease → Exchange → Store → Store × ActionStatus × Bool
unfolding execute holds_lease durable_webhook_outcome
persist_webhook_outcome now tenant_id audit_action lease exchange store =
    let durable = durable_webhook_outcome (outcome_for exchange) lease.attempt lease.max_attempts in
    let persisted = any (holds_lease lease) store.results in
    let updated = record store { results = execute (persist now lease exchange) store.results } in
    (
      if persisted then record_required audit_action tenant_id lease.result_id updated else updated,
      durable.status,
      persisted,
    )

abbrev pub initial_lease : ℕ → Delivery → Lease
initial_lease run_id d = record {
  result_id = d.result_id;
  run_id = run_id;
  owner = d.lease_owner;
  attempt = 1;
  max_attempts = webhook_max_attempts;
}

-- The initial webhook attempt of a row that was just inserted: the store, and whether to go on.
unfoldable pub attempt_webhook : ℕ → ℕ → Delivery → Store → Store × Bool
unfolding persist_webhook_outcome execute_all
attempt_webhook tenant_id run_id d store =
    let noted = record_required "playbook.action_attempt" tenant_id d.result_id store in
    let (after, status, persisted) =
      persist_webhook_outcome d.finished_at tenant_id "playbook.action_result"
        (initial_lease run_id d) d.exchange
        (record noted { results = execute_all d.meanwhile noted.results }) in
    (after, persisted && has_succeeded status)

abbrev pub with_row : ℕ → PlanEntry → Delivery → Store → Store
with_row run_id action d store = record store {
  results =
      insert_result (initial_result d.started_at d.result_id d.lease_owner run_id action)
        store.results;
}

-- One round of the loop of `_execute_run_actions`.
unfoldable pub run_action : ℕ → ℕ → PlanEntry → Delivery → Store → Store × Bool
unfolding has_result has_succeeded_at initial_result insert_result attempt_webhook
run_action tenant_id run_id action d store =
    if has_result run_id action.key store.results
    then (store, has_succeeded_at run_id action.key store.results)
    else let inserted = with_row run_id action d store in
      if is_webhook action.action_type
      then attempt_webhook tenant_id run_id d inserted
      else (record_required "playbook.action_result" tenant_id d.result_id inserted, false)

-- `break`, or the rest of the loop
unfoldable pub go_on_if : Store × Bool → (Store → Store) → Store
go_on_if (after, true) rest = rest after
go_on_if (after, false) rest = after

-- The loop of `_execute_run_actions`.
unfoldable pub run_actions : ℕ → ℕ → (PlanEntry → Delivery) → List PlanEntry → Store → Store
unfolding run_action go_on_if
run_actions tenant_id run_id deliver [] store = store
run_actions tenant_id run_id deliver (action ∷ rest) store =
    go_on_if (run_action tenant_id run_id action (deliver action) store)
      (run_actions tenant_id run_id deliver rest)

abbrev pub invalid_plan : String
invalid_plan = "playbook action plan is invalid"

-- The part of `_execute_run_actions` past the plan, where `none` is an invalid one.
unfoldable pub execute_plan :
    ℕ → ℕ → ℕ → (PlanEntry → Delivery) → Store → Option (List PlanEntry) → Store × Answer Unit
unfolding run_actions refresh_run_status
execute_plan now tenant_id run_id deliver store none = (store, conflict invalid_plan)
execute_plan now tenant_id run_id deliver store (some plan) = (
  refresh_run_status now tenant_id run_id (run_actions tenant_id run_id deliver plan store),
  answered tt,
)

-- The part past the lookup of the run.
unfoldable pub execute_found :
    ℕ → ℕ → ℕ → (PlanEntry → Delivery) → Store → Option Run → Store × Answer Unit
unfolding execute_plan normalize_action_plan
execute_found now tenant_id run_id deliver store none = (store, not_found "playbook run not found")
execute_found now tenant_id run_id deliver store (some run) =
    execute_plan now tenant_id run_id deliver store (normalize_action_plan run.action_plan_snapshot)

-- `_execute_run_actions`
unfoldable pub execute_run_actions :
    ℕ → ℕ → ℕ → ℕ → (PlanEntry → Delivery) → Store → Store × Answer Unit
unfolding execute_found
execute_run_actions now tenant_id run_id playbook_id deliver store =
    execute_found now tenant_id run_id deliver store
      (find (λ run. is_run tenant_id run_id run && run.playbook_id == playbook_id) store.runs)

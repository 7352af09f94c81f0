-- ===== src/Playbooks/Samples.antt =====
-- Small runs, tables and requests for the tests.
use forjd.Playbooks.Requests.{Request}
use forjd.Prelude.{true, false, none, some, List, [], ◌∷◌, string_eq, nat_eq, ◌==◌, if◌then◌else◌}
use forjd.Playbooks.Delivery.{ActionStatus, number, absent, unsigned, response, Configuration}
use forjd.Playbooks.Results.{PlanEntry, ActionResult, Results}
use forjd.Playbooks.Plan.{no_id, other_text, RawAction, object, entries, stored}
use forjd.Playbooks.Table.{Exchange}
use forjd.Playbooks.Runs.{run_running, run_succeeded, Run, Playbook, Store, Delivery}
use forjd.Playbooks.Handlers.{Decision}

abbrev pub hook : Configuration
hook = record { url = "https://example.com/hook"; secret_ref = unsigned }

abbrev pub first_action : PlanEntry
first_action = record {
  key = "notify";
  playbook_action_id = none;
  action_type = "webhook";
  configuration = hook;
  sort_order = 0;
}

abbrev pub second_action : PlanEntry
second_action = record {
  key = "ticket";
  playbook_action_id = none;
  action_type = "webhook";
  configuration = hook;
  sort_order = 7;
}

abbrev pub two_actions : List PlanEntry
two_actions = first_action ∷ second_action ∷ []

abbrev pub accepted : Exchange
accepted = record { configured = none; send = λ _. response 204 absent; configuration = hook }

abbrev pub deliver : PlanEntry → Delivery
deliver a = record {
  result_id = if a.key == "notify" then 11 else 12;
  lease_owner = 70;
  started_at = 1000;
  finished_at = 1002;
  exchange = accepted;
  meanwhile = [];
}

abbrev pub raw_actions : List RawAction
raw_actions =
    object "webhook" (some "notify") no_id none hook
    ∷ object "webhook" none (other_text "ticket") (some 7) hook
    ∷ []

abbrev pub a_run : Run
a_run = record {
  id = 1;
  tenant_id = 5;
  playbook_id = 9;
  source_signal_id = none;
  idempotency_key = "alert-1";
  trigger_source = "manual";
  trigger_context = ("severity", number 3) ∷ [];
  action_plan_snapshot = stored two_actions;
  status = run_running;
  updated_at = 1000;
  completed_at = none;
}

abbrev pub a_playbook : Playbook
a_playbook = record { id = 9; tenant_id = 5; is_active = true; actions = entries raw_actions }

abbrev pub store_of : Results → Store
store_of results = record {
  playbooks = a_playbook ∷ [];
  runs = a_run ∷ [];
  results = results;
  audit = [];
}

-- A run that is open and has no action yet, and one that has ended.
abbrev pub closed_store : Store
closed_store = record (store_of []) {
  runs = a_run ∷ record a_run { id = 2; status = run_succeeded; completed_at = some 1000 } ∷ [];
}

-- An e-mail alert that waits for its acknowledgement, and one that was refused.
abbrev pub alert : ActionStatus → ActionResult
alert status = record {
  id = 21;
  run_id = 1;
  action_plan_key = "mail";
  action_type = "email_alert";
  configuration_snapshot = hook;
  status = status;
  attempt = 1;
  max_attempts = 1;
  status_code = none;
  error_code = none;
  external_reference = none;
  metadata = [];
  next_attempt_at = none;
  last_attempt_at = none;
  lease_owner = none;
  lease_expires_at = none;
  created_at = 900;
  completed_at = none;
}

abbrev pub a_request : Request
a_request = record {
  tenant_id = 5;
  playbook_id = 9;
  idempotency_key = "alert-1";
  context = ("severity", number 3) ∷ [];
  trigger_source = "manual";
  source_signal_id = none;
}

abbrev pub refusal : Decision
refusal = record { ok = false; external_reference = none; metadata = [] }

-- ===== src/Playbooks/Requests.antt =====
-- `execute_playbook` of backend/app/services/playbooks.py and the resumption of an existing run, past
-- `_authorize` and `ensure_playbook_schema`.
use forjd.Prelude.{
  ℕ, String, Bool, true, false, not, ◌&&◌, Option, none, some, List, [], ◌∷◌, ◌++◌, string_eq,
  nat_eq, ◌==◌, if◌then◌else◌, any, all, find,
}
use forjd.Playbooks.Delivery.{Value, flag, number, text, Metadata}
use forjd.Playbooks.Results.{PlanEntry}
use forjd.Playbooks.Plan.{normalize_action_plan, stored}
use forjd.Playbooks.Runs.{
  run_running, Run, Store, Answer, answered, not_found, conflict, record_required, is_run, Delivery,
  invalid_plan, execute_run_actions,
}

abbrev pub same_value : Value → Value → Bool
same_value (flag a) (flag b) = if a then b else not b
same_value (number a) (number b) = a == b
same_value (text a) (text b) = a == b
same_value _ _ = false

unfoldable pub has_entry : String → Value → Metadata → Bool
has_entry key value = any (λ entry. entry.0 == key && same_value entry.1 value)

-- `==` of two dictionaries: the order of the keys does not count.
unfoldable pub same_object : Metadata → Metadata → Bool
unfolding has_entry
same_object a b =
    all (λ entry. has_entry entry.0 entry.1 b) a && all (λ entry. has_entry entry.0 entry.1 a) b

abbrev pub same_option : Option ℕ → Option ℕ → Bool
same_option none none = true
same_option (some a) (some b) = a == b
same_option _ _ = false

abbrev pub same_text_option : Option String → Option String → Bool
same_text_option none none = true
same_text_option (some a) (some b) = a == b
same_text_option _ _ = false

-- What a caller asks `execute_playbook` for.
pub record Request : Type 0 where
  pub tenant_id : ℕ
  pub playbook_id : ℕ
  pub idempotency_key : String
  pub context : Metadata
  pub trigger_source : String
  pub source_signal_id : Option ℕ

-- The run of an answer, and its `duplicate` or `ack_duplicate`.
pub record Reply : Type 0 where
  pub run : Run
  pub duplicate : Bool

-- `_fetch_run`
unfoldable pub fetch_run : ℕ → ℕ → Store → Answer Run
fetch_run tenant_id run_id store = elim (find (is_run tenant_id run_id) store.runs) [
  | none ↦ not_found "playbook run not found"
  | some run ↦
      if any (λ p. p.id == run.playbook_id) store.playbooks
      then answered run
      else not_found "playbook run not found"
]

abbrev pub with_duplicate : Bool → Answer Run → Answer Reply
with_duplicate duplicate (answered run) = answered (record { run = run; duplicate = duplicate })
with_duplicate duplicate (not_found detail) = not_found detail
with_duplicate duplicate (conflict detail) = conflict detail

-- The run after a step that may raise.
abbrev pub then_fetch : ℕ → ℕ → Bool → Store × Answer Unit → Store × Answer Reply
then_fetch tenant_id run_id duplicate (store, answered _) =
    (store, with_duplicate duplicate (fetch_run tenant_id run_id store))
then_fetch tenant_id run_id duplicate (store, not_found detail) = (store, not_found detail)
then_fetch tenant_id run_id duplicate (store, conflict detail) = (store, conflict detail)

abbrev pub same_request : Request → Run → Bool
same_request request run =
    same_object run.trigger_context request.context
    && run.trigger_source == request.trigger_source
    && same_option run.source_signal_id request.source_signal_id

-- `_resume_existing_run`
unfoldable pub resume_existing_run :
    ℕ → (PlanEntry → Delivery) → Request → Run → Store → Store × Answer Reply
unfolding execute_run_actions fetch_run same_object
resume_existing_run now deliver request existing store =
    if not (existing.playbook_id == request.playbook_id)
    then (store, conflict "idempotency key is already used by a different playbook")
    else if not (same_request request existing)
    then (store, conflict "idempotency key was already used with a different playbook request")
    else then_fetch request.tenant_id existing.id true
        (execute_run_actions now request.tenant_id existing.id request.playbook_id deliver store)

-- `WHERE tenant_id = … AND idempotency_key = …`
abbrev pub has_key : Request → Run → Bool
has_key request run =
    run.tenant_id == request.tenant_id && run.idempotency_key == request.idempotency_key

-- `_find_existing_run`
abbrev pub find_existing_run : Request → Store → Option Run
find_existing_run request store = find (has_key request) store.runs

unfoldable pub new_run : ℕ → ℕ → Request → List PlanEntry → Run
new_run now id request plan = record {
  id = id;
  tenant_id = request.tenant_id;
  playbook_id = request.playbook_id;
  source_signal_id = request.source_signal_id;
  idempotency_key = request.idempotency_key;
  trigger_source = request.trigger_source;
  trigger_context = request.context;
  action_plan_snapshot = stored plan;
  status = run_running;
  updated_at = now;
  completed_at = none;
}

abbrev note_if_answered : String → ℕ → ℕ → Store × Answer Reply → Store × Answer Reply
note_if_answered action tenant_id resource_id (store, answered reply) =
    (record_required action tenant_id resource_id store, answered reply)
note_if_answered action tenant_id resource_id (store, answer) = (store, answer)

-- From `INSERT INTO playbook_runs … ON CONFLICT DO NOTHING` on.
unfoldable pub insert_run :
    ℕ → ℕ → (PlanEntry → Delivery) → Request → List PlanEntry → Store → Store × Answer Reply
unfolding resume_existing_run execute_run_actions fetch_run new_run
insert_run now id deliver request plan store = elim (find_existing_run request store) [
  | some existing ↦ resume_existing_run now deliver request existing store
  | none ↦ note_if_answered "playbook.run" request.tenant_id id (
      then_fetch request.tenant_id id false (
        execute_run_actions now request.tenant_id id request.playbook_id deliver (
          record_required "playbook.run_started" request.tenant_id id
            (record store { runs = store.runs ++ new_run now id request plan ∷ [] }))))
]

-- Where the key is new: the playbook, its plan and the insertion of the run.
unfoldable pub start_run :
    ℕ → ℕ → (PlanEntry → Delivery) → List Run → Request → Store → Store × Answer Reply
unfolding insert_run normalize_action_plan
start_run now id deliver raced request store =
    elim (find (λ p. p.id == request.playbook_id && p.tenant_id == request.tenant_id)
      store.playbooks) [
        | none ↦ (store, not_found "playbook not found")
        | some playbook ↦
            if not playbook.is_active
            then (store, conflict "playbook is inactive")
            else elim (normalize_action_plan playbook.actions) [
              | none ↦ (store, conflict invalid_plan)
              | some plan ↦
                  insert_run now id deliver request plan
                    (record store { runs = store.runs ++ raced })
            ]
      ]

unfoldable pub resume_or_start :
    ℕ → ℕ → (PlanEntry → Delivery) → List Run → Request → Store → Option Run → Store × Answer Reply
unfolding resume_existing_run start_run
resume_or_start now id deliver raced request store (some existing) =
    resume_existing_run now deliver request existing store
resume_or_start now id deliver raced request store none =
    start_run now id deliver raced request store

-- `execute_playbook`; `raced` are the runs that others insert after the lookup of the key.
unfoldable pub execute_playbook :
    ℕ → ℕ → (PlanEntry → Delivery) → List Run → Request → Store → Store × Answer Reply
unfolding resume_or_start
execute_playbook now id deliver raced request store =
    let noted =
      record_required "playbook.run_attempt" request.tenant_id request.playbook_id store in
    resume_or_start now id deliver raced request noted (find_existing_run request noted)

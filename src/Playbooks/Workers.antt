-- ===== src/Playbooks/Workers.antt =====
-- The workers of backend/app/services/playbooks.py: `tick_playbook_retries` and
-- `tick_playbook_continuations`.
use forjd.Prelude.{
  ℕ, ◌+◌, min, max, Bool, true, false, not, ◌&&◌, Option, none, some, List, [], ◌∷◌, leb, string_eq,
  nat_eq, ◌==◌, if◌then◌else◌, length, take, select, any, find, then_by, sort_by,
}
use forjd.Playbooks.Delivery.{ActionStatus, running, retry_scheduled, awaiting_ack, succeeded}
use forjd.Playbooks.Results.{
  PlanEntry, ActionResult, Results, has_succeeded, Lease, claim_retry, is_exhausted,
}
use forjd.Playbooks.Table.{Exchange, Statement, claim_due, finalize, claimed_ids, execute}
use forjd.Playbooks.Runs.{
  Run, Store, Answer, answered, not_found, conflict, record_required, is_open, refresh_run_status,
  Delivery, execute_all, persist_webhook_outcome, execute_run_actions,
}

pub record RetryCounts : Type 0 where
  pub claimed : ℕ
  pub succeeded_count : ℕ
  pub rescheduled : ℕ
  pub failed_count : ℕ
  pub lease_lost : ℕ
  pub exhausted : ℕ

-- What the surroundings give for one claim: the clock, the rows that others have locked, the
-- exchange, the statements of others during it, and the deliveries of the actions that follow.
pub record Round : Type 0 where
  pub claimed_at : ℕ
  pub locked : List ℕ
  pub exchange : Exchange
  pub meanwhile : List Statement
  pub finished_at : ℕ
  pub deliver : PlanEntry → Delivery

abbrev find_by_id : ℕ → List Run → Option Run
find_by_id id = find (λ run. run.id == id)

-- The tenant of the run of a result.
abbrev tenant_of : ActionResult → Store → ℕ
tenant_of r store = elim (find_by_id r.run_id store.runs) [ none ↦ 0 | some run ↦ run.tenant_id ]

-- The loop over the rows that `_finalize_expired_retry_leases` returns.
unfoldable pub note_exhausted : ℕ → List ActionResult → Store → Store
unfolding refresh_run_status
note_exhausted now [] store = store
note_exhausted now (r ∷ rest) store = note_exhausted now rest (
    refresh_run_status now (tenant_of r store) r.run_id
      (record_required "playbook.action_retry_exhausted" (tenant_of r store) r.id store))

-- `JOIN playbook_runs AS run ON run.id = result.run_id`, and `RETURNING` of the claimed row.
unfoldable pub claimed_row : ℕ → ℕ → List ℕ → Store → Option (ActionResult × Run)
unfolding claimed_ids
claimed_row now worker locked store = elim (claimed_ids now 1 locked store.results) [
  | [] ↦ none
  | id ∷ rest ↦ elim (find (λ r. r.id == id) store.results) [
    | none ↦ none
    | some r ↦ elim (find_by_id r.run_id store.runs) [
      | none ↦ none
      | some run ↦ some (claim_retry now worker r, run)
    ]
  ]
]

abbrev pub count_outcome : ActionStatus → RetryCounts → RetryCounts
count_outcome succeeded counts = record counts { succeeded_count = counts.succeeded_count + 1 }
count_outcome retry_scheduled counts = record counts { rescheduled = counts.rescheduled + 1 }
count_outcome _ counts = record counts { failed_count = counts.failed_count + 1 }

abbrev pub retry_lease : ℕ → ActionResult → Lease
retry_lease worker r = record {
  result_id = r.id;
  run_id = r.run_id;
  owner = worker;
  attempt = r.attempt;
  max_attempts = r.max_attempts;
}

-- What follows a persisted outcome.
unfoldable pub follow_up : Round → Run → ActionStatus → Store → Store × Answer Unit
unfolding execute_run_actions refresh_run_status
follow_up round run status store =
    if has_succeeded status
    then execute_run_actions round.finished_at run.tenant_id run.id run.playbook_id round.deliver
        store
    else (refresh_run_status round.finished_at run.tenant_id run.id store, answered tt)

abbrev pub with_counts : RetryCounts → Store × Answer Unit → Store × Answer RetryCounts
with_counts counts (store, answered _) = (store, answered counts)
with_counts counts (store, not_found detail) = (store, not_found detail)
with_counts counts (store, conflict detail) = (store, conflict detail)

-- From `if not durable["persisted"]` on.
unfoldable pub settle_retry :
    Round → Run → RetryCounts → Store × ActionStatus × Bool → Store × Answer RetryCounts
unfolding follow_up
settle_retry round run counts (after, status, true) =
    with_counts (count_outcome status counts) (follow_up round run status after)
settle_retry round run counts (after, status, false) =
    (after, answered (record counts { lease_lost = counts.lease_lost + 1 }))

abbrev pub attempt_retry : ℕ → Round → ActionResult → Run → Store → Store × ActionStatus × Bool
attempt_retry worker round r run store =
    let noted = record_required "playbook.action_attempt" run.tenant_id r.id store in
    persist_webhook_outcome round.finished_at run.tenant_id "playbook.action_retry"
      (retry_lease worker r) round.exchange
      (record noted { results = execute_all round.meanwhile noted.results })

-- One delivery of a claimed row.
unfoldable pub deliver_retry :
    ℕ → Round → ActionResult → Run → RetryCounts → Store → Store × Answer RetryCounts
unfolding persist_webhook_outcome execute_all settle_retry
deliver_retry worker round r run counts store =
    settle_retry round run counts (attempt_retry worker round r run store)

abbrev pub with_claim : ℕ → Round → Store → Store
with_claim worker round store = record store {
  results = execute (claim_due round.claimed_at worker 1 round.locked) store.results;
}

abbrev pub go_on_with :
    Store × Answer RetryCounts
    → (RetryCounts → Store → Store × Answer RetryCounts)
    → Store × Answer RetryCounts
go_on_with (store, answered counts) rest = rest counts store
go_on_with (store, answer) rest = (store, answer)

-- `break` where nothing was claimed, and else the delivery and the rest of the loop.
unfoldable pub retry_claimed :
    ℕ
    → Round
    → RetryCounts
    → Store
    → (RetryCounts → Store → Store × Answer RetryCounts)
    → Option (ActionResult × Run)
    → Store × Answer RetryCounts
unfolding deliver_retry execute
retry_claimed worker round counts store rest none = (store, answered counts)
retry_claimed worker round counts store rest (some (r, run)) =
    go_on_with
      (deliver_retry worker round r run (record counts { claimed = counts.claimed + 1 })
        (with_claim worker round store))
      rest

-- The loop of `tick_playbook_retries`: each row is claimed right before its delivery.
unfoldable pub retry_loop : ℕ → List Round → RetryCounts → Store → Store × Answer RetryCounts
unfolding claimed_row retry_claimed
retry_loop worker [] counts store = (store, answered counts)
retry_loop worker (round ∷ rounds) counts store =
    retry_claimed worker round counts store (retry_loop worker rounds)
      (claimed_row round.claimed_at worker round.locked store)

-- `max(1, min(int(batch_size), 200))`
abbrev pub clamp : ℕ → ℕ
clamp batch_size = max 1 (min batch_size 200)

abbrev pub counts_from : ℕ → RetryCounts
counts_from exhausted = record {
  claimed = 0;
  succeeded_count = 0;
  rescheduled = 0;
  failed_count = 0;
  lease_lost = 0;
  exhausted = exhausted;
}

abbrev pub with_finalized : ℕ → Store → Store
with_finalized now store =
    note_exhausted now (select (is_exhausted now) store.results)
      (record store { results = execute (finalize now) store.results })

-- `tick_playbook_retries`; a round for each turn of the loop that the batch size allows.
unfoldable pub tick_playbook_retries : ℕ → ℕ → ℕ → List Round → Store → Store × Answer RetryCounts
unfolding note_exhausted retry_loop execute is_exhausted
tick_playbook_retries now worker batch_size rounds store =
    retry_loop worker (take (clamp batch_size) rounds)
      (counts_from (length (select (is_exhausted now) store.results))) (with_finalized now store)

pub record ContinuationCounts : Type 0 where
  pub eligible : ℕ
  pub resumed : ℕ
  pub failed_runs : ℕ

abbrev pub holds_baton : ActionStatus → Bool
holds_baton running = true
holds_baton retry_scheduled = true
holds_baton awaiting_ack = true
holds_baton _ = false

-- The WHERE clause: an open run without an action that is under way.
unfoldable pub is_eligible : Results → Run → Bool
is_eligible table run =
    is_open run.status && not (any (λ r. r.run_id == run.id && holds_baton r.status) table)

-- `ORDER BY run.updated_at, run.id`
unfoldable pub run_before : Run → Run → Bool
unfolding then_by
run_before a b = then_by a.updated_at b.updated_at (leb a.id b.id)

unfoldable pub eligible_runs : ℕ → Store → List Run
unfolding is_eligible run_before sort_by
eligible_runs batch_size store =
    take (clamp batch_size) (sort_by run_before (select (is_eligible store.results) store.runs))

abbrev pub count_resumed : Store × Answer Unit → ContinuationCounts → ContinuationCounts
count_resumed (_, answered _) counts = record counts { resumed = counts.resumed + 1 }
count_resumed (_, _) counts = record counts { failed_runs = counts.failed_runs + 1 }

-- The loop over the eligible runs, an error of one counted and passed over.
unfoldable pub resume_all :
    ℕ
    → (ℕ → PlanEntry → Delivery)
    → List Run
    → ContinuationCounts
    → Store
    → Store × ContinuationCounts
unfolding execute_run_actions
resume_all now deliver [] counts store = (store, counts)
resume_all now deliver (run ∷ rest) counts store =
    let resumed =
      execute_run_actions now run.tenant_id run.id run.playbook_id (deliver run.id) store in
    resume_all now deliver rest (count_resumed resumed counts) resumed.0

-- `tick_playbook_continuations`
unfoldable pub tick_playbook_continuations :
    ℕ → ℕ → (ℕ → PlanEntry → Delivery) → Store → Store × ContinuationCounts
unfolding eligible_runs resume_all
tick_playbook_continuations now batch_size deliver store =
    let runs = eligible_runs batch_size store in
    resume_all now deliver runs (record { eligible = length runs; resumed = 0; failed_runs = 0 })
      store

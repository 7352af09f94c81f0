-- ===== src/Processing/Worker.antt =====
-- The worker of backend/app/services/ingest_processing.py: `_validated_claim`,
-- `_process_claimed_batch`, `_persist_processing_failure` and `tick_ingest_processing`.
use forjd.Prelude.{
  ℕ, String, Bool, true, false, not, ◌&&◌, Option, none, some, List, [], ◌∷◌, map, string_eq,
  nat_eq, ◌==◌, if◌then◌else◌, take, all,
}
use forjd.Processing.Batch.{Event, Receipt, Summary, Batch}
use forjd.Processing.Ledger.{
  Ledger, clamp_batch_size, Claim, Fence, Statement, recover_leases, claim, persist_completion,
  persist_failure, execute, run, fence_held, returned,
}

-- What `WorkflowDefinition` reads from a snapshot, as far as the claim is checked against it.
pub record Workflow : Type 0 where
  pub id : String
  pub version : ℕ
  pub projection_name : String
  pub projection_version : ℕ

-- The two library calls on a snapshot: its hash, and its validation.
pub record Snapshots : Type 0 where
  pub hash : String → String
  pub read : String → Option Workflow

-- What the worker uses of the projections: the operations of backend/app/services/projections.py on
-- a state of theirs. `upsert` raises on a result outside the tenant or the events of the batch.
pub record Projections (P : Type 0) : Type 0 where
  pub upsert : Receipt → List Event → P → Option (P × ℕ)
  pub resolve_dead_letters : Receipt → List Event → P → P
  pub advance_checkpoint : Receipt → List Event → P → P
  pub enqueue_dead_letters : Receipt → List Event → String → String → P → P

abbrev matches_receipt : Workflow → Receipt → Bool
matches_receipt w r =
    w.id == r.workflow_id
    && w.version == r.workflow_version
    && w.projection_name == r.projection_name
    && w.projection_version == r.projection_version

same_numbers : List ℕ → List ℕ → Bool
same_numbers [] [] = true
same_numbers (a ∷ left) (b ∷ right) = a == b && same_numbers left right
same_numbers _ _ = false

-- The set of the tenants has one element, and is that of the events.
has_one_tenant : List ℕ → List Event → Bool
has_one_tenant [] events = false
has_one_tenant (t ∷ rest) [] = false
has_one_tenant (t ∷ rest) events =
    all (λ other. other == t) rest && all (λ e. e.tenant_id == t) events

-- `_validated_claim`
unfoldable pub validated_claim : Snapshots → Receipt → Option (List Event)
unfolding same_numbers has_one_tenant
validated_claim snapshots r =
    if not (snapshots.hash r.workflow_snapshot == r.workflow_hash)
    then none
    else elim (snapshots.read r.workflow_snapshot) [
      | none ↦ none
      | some w ↦
          if matches_receipt w r
            && same_numbers (map (λ e. e.event_id) r.events) r.event_ids
            && has_one_tenant r.tenant_ids r.events
          then some r.events
          else none
    ]

-- How `run_ingest_flow` ended, and whether the heartbeat had lost the lease by then.
pub data Flow : Type 0 where
  raised : String → String → Flow
  unsuccessful : String → Flow
  successful : Summary → Flow

pub record Work : Type 0 where
  pub now : ℕ
  pub flow : Flow
  pub lease_lost : Bool

pub data Outcome : Type 0 where
  completed_with : ℕ → Outcome
  failed_with : Outcome
  not_persisted : Outcome

-- One turn of the loop of `tick_ingest_processing`: what others do before the claim and while the
-- workflow runs, the claim, and the work.
pub record Turn : Type 0 where
  pub before : List Statement
  pub claimed_at : ℕ
  pub locked : List ℕ
  pub meanwhile : List Statement
  pub work : Work

abbrev fence_of_row : ℕ → Batch → Fence
fence_of_row worker_id b = record {
  batch_id = b.receipt.id;
  worker_id = worker_id;
  attempt = b.attempts;
}

-- `_claim_processing_batches` with a batch size of one.
abbrev pub claim_one : ℕ → Turn → Claim
claim_one owner turn = record {
  now = turn.claimed_at;
  worker_id = owner;
  batch_size = 1;
  batch_ids = none;
  locked = turn.locked;
}

module _ {P : Type 0} (snapshots : Snapshots) (projections : Projections P) where
  -- The end of the transaction: `none` rolls it back. The fenced UPDATE is the last statement and finds
  -- a row exactly where the fence holds, so that the test can stand first.
  unfoldable pub commit :
      ℕ
      → Fence
      → Receipt
      → List Event
      → Summary
      → Ledger
      → Option (P × ℕ)
      → Option ((Ledger × P) × ℕ)
  unfolding execute fence_held
  commit now fence r events summary ledger none = none
  commit now fence r events summary ledger (some (upserted, written)) =
      if fence_held fence ledger
      then some (
        (
          execute (persist_completion now fence (record summary { written = written })) ledger,
          projections.advance_checkpoint r events
              (projections.resolve_dead_letters r events upserted),
        ),
        written,
      )
      else none

  -- The transaction that writes the projections and completes the batch.
  unfoldable pub complete_in_transaction :
      ℕ → Fence → Receipt → List Event → Summary → Ledger × P → Option ((Ledger × P) × ℕ)
  unfolding commit
  complete_in_transaction now fence r events summary (ledger, p) =
      commit now fence r events summary ledger (projections.upsert r events p)

  -- `_persist_processing_failure`; where the fenced UPDATE, the last statement, finds no row, the
  -- transaction is rolled back and it raises, so that the test can stand first.
  unfoldable pub persist_processing_failure :
      ℕ → Fence → Receipt → String → String → Ledger × P → (Ledger × P) × Outcome
  unfolding execute fence_held
  persist_processing_failure now fence r error_class error (ledger, p) =
      if fence_held fence ledger
      then (
        (
          execute (persist_failure now fence error_class error) ledger,
          projections.enqueue_dead_letters r r.events error_class error p,
        ),
        failed_with,
      )
      else ((ledger, p), not_persisted)

  unfoldable pub finish :
      ℕ → Fence → Receipt → Ledger × P → Option ((Ledger × P) × ℕ) → (Ledger × P) × Outcome
  unfolding persist_processing_failure
  finish now fence r world (some (after, written)) = (after, completed_with written)
  finish now fence r world none =
      persist_processing_failure now fence r "RuntimeError" "ingest processing was rolled back"
        world

  -- From the end of the workflow on, with the flag that the heartbeat sets.
  unfoldable pub process_flow :
      Flow → Bool → ℕ → Fence → Receipt → List Event → Ledger × P → (Ledger × P) × Outcome
  unfolding finish complete_in_transaction
  process_flow (raised error_class error) lost now fence r events world =
      persist_processing_failure now fence r error_class error world
  process_flow (unsuccessful error) lost now fence r events world =
      persist_processing_failure now fence r "RuntimeError" error world
  process_flow (successful summary) true now fence r events world =
      persist_processing_failure now fence r "RuntimeError" "ingest processing lease was lost" world
  process_flow (successful summary) false now fence r events world =
      finish now fence r world (complete_in_transaction now fence r events summary world)

  unfoldable pub process_claim :
      Work → Fence → Receipt → Ledger × P → Option (List Event) → (Ledger × P) × Outcome
  unfolding process_flow persist_processing_failure
  process_claim work fence r world none =
      persist_processing_failure work.now fence r "RuntimeError" "stored receipt is invalid" world
  process_claim work fence r world (some events) =
      process_flow work.flow work.lease_lost work.now fence r events world

  -- `_process_claimed_batch`
  unfoldable pub process_claimed_batch :
      Work → Fence → Receipt → Ledger × P → (Ledger × P) × Outcome
  unfolding process_claim validated_claim
  process_claimed_batch work fence r world =
      process_claim work fence r world (validated_claim snapshots r)

  unfoldable pub work_on : ℕ → Turn → Ledger × P → Ledger → (Ledger × P) × List Outcome
  unfolding process_claimed_batch run
  work_on owner turn world [] = (world, [])
  work_on owner turn (ledger, p) (row ∷ rest) =
      let (after, outcome) =
        process_claimed_batch turn.work (fence_of_row owner row) row.receipt
          (run turn.meanwhile ledger, p) in
      (after, outcome ∷ [])

  -- The claim of at most one row, and its processing; no row ends the loop.
  unfoldable pub turn_of : ℕ → Turn → Ledger × P → (Ledger × P) × List Outcome
  unfolding work_on returned execute run
  turn_of owner turn (ledger, p) =
      let claimable = run turn.before ledger in
      work_on owner turn (execute (claim (claim_one owner turn)) claimable, p)
        (returned (claim_one owner turn) claimable)

  abbrev pub go_on :
      (Ledger × P) × List Outcome
      → (Ledger × P → (Ledger × P) × List Outcome)
      → (Ledger × P) × List Outcome
  go_on (world, []) rest = (world, [])
  go_on (world, o ∷ os) rest = let (after, outcomes) = rest world in (after, o ∷ outcomes)

  unfoldable pub tick_loop : ℕ → List Turn → Ledger × P → (Ledger × P) × List Outcome
  unfolding turn_of
  tick_loop owner [] world = (world, [])
  tick_loop owner (turn ∷ turns) world = go_on (turn_of owner turn world) (tick_loop owner turns)

  -- `tick_ingest_processing` without a list of ids: the recovery, and one turn for each row that the
  -- batch size allows.
  unfoldable pub tick_ingest_processing :
      ℕ → ℕ → ℕ → List Turn → Ledger × P → (Ledger × P) × List Outcome
  unfolding tick_loop execute
  tick_ingest_processing now owner batch_size turns (ledger, p) =
      tick_loop owner (take (clamp_batch_size batch_size) turns)
        (execute (recover_leases now) ledger, p)

-- ===== src/Processing/Stored.antt =====
-- The projections that `_process_claimed_batch` writes: the operations of
-- backend/app/services/projections.py as an instance of the worker's interface.
use forjd.Prelude.{
  ℕ, String, ◌≡◌, refl, inl, inr, Bool, true, false, Option, none, some, List, [], ◌∷◌, map, arith,
  string_eq, nat_eq, ◌==◌, Bool-cases, select,
}
use forjd.Projections.Checkpoints.{Checkpoints, advance_checkpoint_from_meta}
use forjd.Projections.Results.{
  StreamResult, Identity, StoredResult, is_expected, Scope, upsert_stream_results,
}
use forjd.Projections.Scope.{of_tenant, upsert-of_tenant}
use forjd.Projections.DeadLetters.{
  DeadLetter, enqueue_projection_dlq, resolve_projection_dlq_for_events,
}
use forjd.Processing.Batch.{Event, Receipt, Summary}
use forjd.Processing.Ledger.{Ledger, Fence, fence_held}
use forjd.Processing.Worker.{
  Snapshots, Projections, validated_claim, Flow, raised, unsuccessful, successful, Work, Outcome,
  commit, complete_in_transaction, persist_processing_failure, finish, process_flow, process_claim,
  process_claimed_batch,
}

pub record ProjectionStore : Type 0 where
  pub results : List StoredResult
  pub checkpoints : Checkpoints
  pub dead_letters : List DeadLetter

-- What the processing of one batch brings: the clock, the output of the engine, the digests and the
-- times of the stored events.
pub record Engine : Type 0 where
  pub now : ℕ
  pub output : List StreamResult
  pub digest : String → ℕ → String → Identity → String
  pub dedupe : Option ℕ → String → String → ℕ → String
  pub stored_at : ℕ → Option ℕ

abbrev ids_of : ℕ → List Event → List ℕ
ids_of tenant_id events = map (λ e. e.event_id) (select (λ e. e.tenant_id == tenant_id) events)

abbrev pub tenants_of : List Event → List ℕ
tenants_of = map (λ e. e.tenant_id)

abbrev pub scope_of : Receipt → List Event → Scope
scope_of r events = record {
  projection_version = r.projection_version;
  aggregate_event_ids = λ tenant_id. ids_of tenant_id events;
  expected_tenant_ids = tenants_of events;
  expected_event_ids = map (λ e. e.event_id) events;
}

abbrev pub with_results :
    ProjectionStore → Option (List StoredResult × ℕ) → Option (ProjectionStore × ℕ)
with_results p none = none
with_results p (some (results, written)) = some (record p { results = results }, written)

-- Every event of a batch is of its one tenant.
abbrev tenant_of : List Event → ℕ
tenant_of [] = 0
tenant_of (e ∷ rest) = e.tenant_id

abbrev enqueue_all :
    Engine → Receipt → String → String → List Event → List DeadLetter → List DeadLetter
enqueue_all engine r error_class error [] letters = letters
enqueue_all engine r error_class error (e ∷ rest) letters =
    enqueue_all engine r error_class error rest (
      enqueue_projection_dlq engine.dedupe engine.now
        (record {
          tenant_id = e.tenant_id;
          source_event_id = some e.event_id;
          workflow_id = r.workflow_id;
          projection_name = r.projection_name;
          projection_version = r.projection_version;
          error = error;
          error_class = error_class;
        })
        letters)

unfoldable pub stored_projections : Engine → Projections ProjectionStore
unfolding upsert_stream_results advance_checkpoint_from_meta resolve_projection_dlq_for_events
    enqueue_projection_dlq
stored_projections engine = record {
  upsert = λ r events p.
      with_results p
        (upsert_stream_results engine.digest (scope_of r events) engine.output p.results);
  resolve_dead_letters = λ r events p. record p {
    dead_letters =
        resolve_projection_dlq_for_events engine.now
          (record {
            tenant_id = tenant_of events;
            source_event_ids = map (λ e. e.event_id) events;
            workflow_id = r.workflow_id;
            projection_name = r.projection_name;
            projection_version = r.projection_version;
          })
          p.dead_letters;
  };
  advance_checkpoint = λ r events p. record p {
    checkpoints =
        advance_checkpoint_from_meta engine.stored_at
          (record {
            tenant_id = tenant_of events;
            projection_name = r.projection_name;
            workflow_id = r.workflow_id;
          })
          (map
            (λ e. record {
              tenant_id = e.tenant_id;
              event_id = e.event_id;
              created_at = e.created_at;
            })
            events)
          p.checkpoints;
  };
  enqueue_dead_letters = λ r events error_class error p. record p {
    dead_letters = enqueue_all engine r error_class error events p.dead_letters;
  };
}

-- The results of a tenant.
abbrev pub of_store : ℕ → ProjectionStore → List StoredResult
of_store t p = of_tenant t p.results

module _ (snapshots : Snapshots) (engine : Engine) (t : ℕ) where
  abbrev KeepsTenant : ProjectionStore → (Ledger × ProjectionStore) × Outcome → Type 0
  KeepsTenant p (world, outcome) = of_store t world.1 ≡ of_store t p

  failure-KeepsTenant :
      (now : ℕ) (fence : Fence) (r : Receipt) (error_class error : String)
      → (ledger : Ledger) (p : ProjectionStore)
      → KeepsTenant p (
          persist_processing_failure snapshots
            (stored_projections engine)
            now
            fence
            r
            error_class
            error
            (ledger, p))
  unfolding persist_processing_failure stored_projections
  failure-KeepsTenant now fence r error_class error ledger p =
      elim (Bool-cases (fence_held fence ledger)) [ inl e ↦ rw e refl | inr e ↦ rw e refl ]

  -- An upsert that does not raise.
  abbrev Upserted : ProjectionStore → Option (ProjectionStore × ℕ) → Type 0
  Upserted p none = Unit
  Upserted p (some (q, written)) = of_store t q ≡ of_store t p

  finish-KeepsTenant :
      (now : ℕ) (fence : Fence) (r : Receipt) (events : List Event) (summary : Summary)
      → (ledger : Ledger) (p : ProjectionStore) (o : Option (ProjectionStore × ℕ)) → Upserted p o
      → KeepsTenant p (
          finish snapshots
            (stored_projections engine)
            now
            fence
            r
            (ledger, p)
            (commit snapshots (stored_projections engine) now fence r events summary ledger o))
  unfolding finish commit stored_projections
  finish-KeepsTenant now fence r events summary ledger p none h =
      failure-KeepsTenant now fence r "RuntimeError" _ ledger p
  finish-KeepsTenant now fence r events summary ledger p (some (q, written)) h =
      elim (Bool-cases (fence_held fence ledger)) [
        | inl e ↦ rw e h
        | inr e ↦ rw e (failure-KeepsTenant now fence r "RuntimeError" _ ledger p)
      ]

  with_results-Upserted :
      (p : ProjectionStore) (o : Option (List StoredResult × ℕ))
      → ((after : List StoredResult) (written : ℕ)
          → o ≡ some (after, written)
          → of_tenant t after ≡ of_tenant t p.results)
      → Upserted p (with_results p o)
  with_results-Upserted p none h = tt
  with_results-Upserted p (some (after, written)) h = h after written refl

  upsert-Upserted :
      (r : Receipt) (events : List Event) (p : ProjectionStore)
      → is_expected (tenants_of events) t ≡ false
      → Upserted p (
          with_results p
            (upsert_stream_results engine.digest (scope_of r events) engine.output p.results))
  upsert-Upserted r events p other = with_results-Upserted p _ (λ after written e.
      upsert-of_tenant engine.digest (scope_of r events) t engine.output p.results after written
        other e)

  flow-KeepsTenant :
      (flow : Flow) (flag : Bool) (now : ℕ) (fence : Fence) (r : Receipt) (events : List Event)
      → (ledger : Ledger) (p : ProjectionStore) → is_expected (tenants_of events) t ≡ false
      → KeepsTenant p (
          process_flow snapshots
            (stored_projections engine)
            flow
            flag
            now
            fence
            r
            events
            (ledger, p))
  unfolding process_flow complete_in_transaction stored_projections
  flow-KeepsTenant (raised error_class error) flag now fence r events ledger p other =
      failure-KeepsTenant now fence r error_class error ledger p
  flow-KeepsTenant (unsuccessful error) flag now fence r events ledger p other =
      failure-KeepsTenant now fence r "RuntimeError" error ledger p
  flow-KeepsTenant (successful summary) true now fence r events ledger p other =
      failure-KeepsTenant now fence r "RuntimeError" _ ledger p
  flow-KeepsTenant (successful summary) false now fence r events ledger p other =
      finish-KeepsTenant now fence r events summary ledger p _ (upsert-Upserted r events p other)

  claim-KeepsTenant :
      (work : Work) (fence : Fence) (r : Receipt) (ledger : Ledger) (p : ProjectionStore)
      → (o : Option (List Event))
      → ((events : List Event) → o ≡ some events → is_expected (tenants_of events) t ≡ false)
      → KeepsTenant p
          (process_claim snapshots (stored_projections engine) work fence r (ledger, p) o)
  unfolding process_claim
  claim-KeepsTenant work fence r ledger p none h =
      failure-KeepsTenant work.now fence r "RuntimeError" _ ledger p
  claim-KeepsTenant work fence r ledger p (some events) h =
      flow-KeepsTenant work.flow work.lease_lost work.now fence r events ledger p (h events refl)

  valid_events :
      (r : Receipt) (events : List Event)
      → validated_claim snapshots r ≡ some events
      → events ≡ r.events
  unfolding validated_claim
  valid_events r events e = ground arith

  -- Processing a batch that has events, however its workflow ends and whatever the engine returns,
  -- leaves the results of every tenant without an event in it as they were.
  pub batch_keeps_tenants :
      (work : Work) (fence : Fence) (r : Receipt) (ledger : Ledger) (p : ProjectionStore)
      → is_expected (tenants_of r.events) t ≡ false
      → of_store t
          (process_claimed_batch snapshots (stored_projections engine) work fence r (ledger, p)).0.1
        ≡ of_store t p
  unfolding process_claimed_batch
  batch_keeps_tenants work fence r ledger p other =
      claim-KeepsTenant work fence r ledger p (validated_claim snapshots r)
        (λ events e. rw (valid_events r events e) other)

-- ===== src/Projections/Examples.antt =====
-- Runs of the projection store on one tenant's batch.
use forjd.Projections.OneOpen.{HasOneOpen, dead_letters-HasOneOpen}
use forjd.Projections.DeadLetters.{
  Failure, enqueue_projection_dlq, Success, resolve_projection_dlq_for_events,
}
use forjd.Prelude.{
  ℕ, String, ◌≡◌, refl, Option, none, some, List, [], ◌∷◌, map, arith, All, count_where,
}
use forjd.Projections.Checkpoints.{Key, Checkpoints, MetaRow, counted, advance_checkpoint_from_meta}
use forjd.Projections.Advance.{IsPast, position, from_meta_forward}
use forjd.Projections.Results.{
  StreamResult, Identity, StoredResult, Scope, stored_of, upsert_stream_results,
}
use forjd.Projections.Scope.{of_tenant, upsert-of_tenant}

abbrev sealed : Key
sealed = record { tenant_id = 5; projection_name = "sealed.default"; workflow_id = "default" }

-- The newer event stands first in the request.
abbrev two_events : List MetaRow
two_events =
    record { tenant_id = 5; event_id = 41; created_at = some 200 }
    ∷ record { tenant_id = 5; event_id = 40; created_at = none }
    ∷ []

abbrev at_fifty : Checkpoints
at_fifty = record { key = sealed; last = some (record { created_at = 50; event_id = 7 }) } ∷ []

newest_wins :
    position sealed (advance_checkpoint_from_meta (λ _. some 100) sealed two_events at_fifty)
    ≡ some (record { created_at = 200; event_id = 41 })
unfolding advance_checkpoint_from_meta position
newest_wins = refl

from_meta_forward_example :
    ((j : Key)
      → IsPast
          (position j at_fifty)
          (position j (advance_checkpoint_from_meta (λ _. some 100) sealed two_events at_fifty)))
    × All
        (λ row. IsPast (counted (λ _. some 100) 5 row) (
          position sealed
            (advance_checkpoint_from_meta (λ _. some 100) sealed two_events at_fifty)))
        two_events
from_meta_forward_example = from_meta_forward (λ _. some 100) sealed two_events at_fifty

abbrev batch_scope : Scope
batch_scope = record {
  projection_version = 1;
  aggregate_event_ids = λ _. 41 ∷ 40 ∷ [];
  expected_tenant_ids = 5 ∷ [];
  expected_event_ids = 40 ∷ 41 ∷ [];
}

abbrev result_for : ℕ → StreamResult
result_for tenant_id = record {
  tenant_id = some tenant_id;
  source_event_id = some 40;
  projection_name = "sealed.default";
  workflow_id = "default";
  kind = "transform";
  detector = "rate";
  rule_id = "";
  content = "{}";
}

abbrev other_result : StoredResult
other_result = record {
  tenant_id = 6;
  projection_name = "sealed.default";
  projection_version = 1;
  result_key = "k";
  source_event_id = none;
  kind = "rollup";
  workflow_id = "default";
  content = "{}";
}

abbrev constant_digest : String → ℕ → String → Identity → String
constant_digest _ _ _ _ = "d"

crossing_raises :
    upsert_stream_results constant_digest batch_scope (result_for 5 ∷ result_for 6 ∷ []) [] ≡ none
unfolding upsert_stream_results
crossing_raises = refl

abbrev written_rows : List StoredResult
written_rows = other_result ∷ stored_of constant_digest batch_scope 5 (result_for 5) ∷ []

upsert-of_tenant_example : of_tenant 6 written_rows ≡ of_tenant 6 (other_result ∷ [])
unfolding upsert_stream_results
upsert-of_tenant_example =
    upsert-of_tenant constant_digest batch_scope 6 (result_for 5 ∷ []) (other_result ∷ [])
      written_rows 1 refl refl

abbrev a_failure : Failure
a_failure = record {
  tenant_id = 5;
  source_event_id = some 40;
  workflow_id = "default";
  projection_name = "sealed.default";
  projection_version = 1;
  error = "boom";
  error_class = "RuntimeError";
}

abbrev a_success : Success
a_success = record {
  tenant_id = 5;
  source_event_ids = 40 ∷ [];
  workflow_id = "default";
  projection_name = "sealed.default";
  projection_version = 1;
}

abbrev dedupe : Option ℕ → String → String → ℕ → String
dedupe _ workflow_id _ _ = workflow_id

-- A second failure of the event updates its letter.
fails_twice :
    map
      (λ d. d.next_attempt_at)
      (enqueue_projection_dlq dedupe 200 a_failure (enqueue_projection_dlq dedupe 100 a_failure []))
    ≡ 100 ∷ []
unfolding enqueue_projection_dlq
fails_twice = refl

dead_letters-HasOneOpen_example :
    HasOneOpen (enqueue_projection_dlq dedupe 100 a_failure [])
    × HasOneOpen (resolve_projection_dlq_for_events 100 a_success [])
unfolding count_where
dead_letters-HasOneOpen_example =
    dead_letters-HasOneOpen dedupe 100 a_failure a_success [] (λ _ _. omega arith)

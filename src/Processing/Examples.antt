-- ===== src/Processing/Examples.antt =====
-- Runs of the ledger on two batches.
use forjd.Processing.Registry.{
  is_hash, IsRegistered, receipts, MeetsConstraints, run-MeetsConstraints,
}
use forjd.Processing.Stored.{
  ProjectionStore, Engine, stored_projections, of_store, batch_keeps_tenants,
}
use forjd.Processing.Outcomes.{IsProcessed, lost_fence_writes_nothing, batch-IsProcessed}
use forjd.Processing.Worker.{
  Snapshots, Projections, successful, Work, failed_with, not_persisted, Turn, process_claimed_batch,
}
use mathlib.Core.List.{Memᴰ}
use forjd.Prelude.{
  ℕ, ◌+◌, ◌≤◌, min, max, String, ◌≡◌, refl, true, false, none, some, List, [], ◌∷◌, ◌++◌, map,
  arith, eq_iff, string_eq, nat_eq, ◌==◌, if◌then◌else◌, length,
}
use forjd.Processing.Batch.{
  queued, running, completed, Receipt, Summary, Batch, default_max_attempts, failure_delay_seconds,
}
use forjd.Processing.Ledger.{
  Ledger, comes_before, candidates, Claim, claimed_ids, Fence, Statement, wake_batches,
  recover_leases, claim, heartbeat, step_row, execute, run, fence_held,
}
use forjd.Processing.Constraints.{IsSound}
use forjd.Processing.Fences.{IsShutOut, lost_lease-IsShutOut, past_attempt-IsShutOut}
use forjd.Processing.Attempts.{attempts_begun, attempts_begun-le, completed_is_final}
use forjd.Processing.Order.{IsOlder, claim_oldest_first}
use forjd.Processing.Returned.{fence_of}

abbrev hash_of_a : String
hash_of_a = "0123456789abcdef0123456789abcdef0123456789abcdef0123456789abcdef"

abbrev hash_of_b : String
hash_of_b = "fedcba9876543210fedcba9876543210fedcba9876543210fedcba9876543210"

abbrev receipt_at : ℕ → ℕ → Receipt
receipt_at id created_at = record {
  id = id;
  acceptance_id = 5;
  group_ordinal = id;
  dedupe_key = if id == 1 then hash_of_a else hash_of_b;
  requested_by = 9;
  workflow_id = "default_sealed";
  workflow_version = 1;
  workflow_hash = hash_of_a;
  workflow_snapshot = "{}";
  projection_name = "sealed.default";
  projection_version = 1;
  content_type = "application/json";
  event_type = none;
  events =
      record { event_id = id; tenant_id = 1; cipher_len = 64; created_at = some created_at } ∷ [];
  event_ids = id ∷ [];
  tenant_ids = 1 ∷ [];
  max_attempts = default_max_attempts;
  created_at = created_at;
}

abbrev fresh : ℕ → ℕ → Batch
fresh id created_at = record {
  receipt = receipt_at id created_at;
  status = queued;
  attempts = 0;
  next_attempt_at = created_at;
  last_attempt_at = none;
  lease_owner = none;
  lease_expires_at = none;
  error_class = none;
  error = none;
  result_summary = none;
  updated_at = created_at;
  completed_at = none;
}

-- The younger batch stands first in the table.
abbrev two_batches : Ledger
two_batches = fresh 2 110 ∷ fresh 1 100 ∷ []

two_batches-IsSound : IsSound two_batches
two_batches-IsSound = ground arith

abbrev claim_by : ℕ → ℕ → Claim
claim_by worker_id now = record {
  now = now;
  worker_id = worker_id;
  batch_size = 1;
  batch_ids = none;
  locked = [];
}

abbrev nothing_found : Summary
nothing_found = record { count = 0; anomaly_count = 0; written = 0 }

-- Worker 7 claims, its lease expires, and worker 8 claims the same batch.
abbrev takeover : List Statement
takeover = claim (claim_by 7 120) ∷ recover_leases 420 ∷ claim (claim_by 8 421) ∷ []

abbrev fence_of_7 : Fence
fence_of_7 = record { batch_id = 1; worker_id = 7; attempt = 1 }

abbrev taken_over : Ledger
taken_over = run takeover two_batches

oldest_is_claimed : claimed_ids (claim_by 7 120) two_batches ≡ 1 ∷ []
unfolding claimed_ids comes_before
oldest_is_claimed = refl

taken_over_attempts : map (λ b. b.attempts) taken_over ≡ 0 ∷ 2 ∷ []
unfolding run execute step_row claimed_ids comes_before
taken_over_attempts = refl

late_completion_fails : fence_held fence_of_7 taken_over ≡ false
unfolding run execute step_row claimed_ids fence_held comes_before
late_completion_fails = refl

receipt-IsRegistered :
    (id created_at : ℕ)
    → is_hash (receipt_at id created_at).dedupe_key ≡ true
    → IsRegistered (receipt_at id created_at)
receipt-IsRegistered id created_at h = record {
  versions = (omega arith, omega arith);
  hashes = (h, refl);
  event_bounds = (omega arith, omega arith);
  every_id = refl;
  one_tenant = refl;
  tenant_integrity = (refl, tt);
}

two_batches-MeetsConstraints : MeetsConstraints two_batches
two_batches-MeetsConstraints = record {
  sound = two_batches-IsSound;
  registry = record {
    registered = (receipt-IsRegistered 2 110 refl, (receipt-IsRegistered 1 100 refl, tt));
    one_key = ((λ e. ground (arith, e, eq_iff hash_of_b hash_of_a), tt), (tt, tt));
    one_group = ((λ e. ground (arith, e), tt), (tt, tt));
  };
}

run-MeetsConstraints_example :
    MeetsConstraints taken_over × (receipts taken_over ≡ receipts two_batches)
run-MeetsConstraints_example = run-MeetsConstraints takeover two_batches-MeetsConstraints

lost_lease-IsShutOut_example :
    IsShutOut fence_of_7
      (run (heartbeat 500 (fence_of 8 (fresh 1 100)) ∷ recover_leases 900 ∷ []) taken_over)
unfolding run execute step_row claimed_ids comes_before
lost_lease-IsShutOut_example =
    lost_lease-IsShutOut fence_of_7
      (heartbeat 500 (fence_of 8 (fresh 1 100)) ∷ recover_leases 900 ∷ []) taken_over (ground arith)
      (tt, (tt, tt))

past_attempt-IsShutOut_example :
    IsShutOut fence_of_7 (run (recover_leases 900 ∷ claim (claim_by 7 901) ∷ []) taken_over)
unfolding run execute step_row claimed_ids comes_before
past_attempt-IsShutOut_example =
    past_attempt-IsShutOut fence_of_7 (recover_leases 900 ∷ claim (claim_by 7 901) ∷ []) taken_over
      (ground arith) (refl, (refl, tt))

attempts_begun-le_example : 0 + attempts_begun 1 takeover two_batches ≤ 10
attempts_begun-le_example =
    attempts_begun-le takeover (fresh 1 100) two_batches two_batches-IsSound
      (Memᴰ.tail (Memᴰ.head refl)) (refl, (refl, (refl, tt)))

abbrev done : Batch
done = record (fresh 1 100) {
  status = completed;
  attempts = 1;
  result_summary = some nothing_found;
  completed_at = some 130;
}

done-IsSound : IsSound (done ∷ [])
done-IsSound = ground arith

completed_is_final_example :
    Memᴰ done (run (wake_batches 200 (1 ∷ []) true ∷ claim (claim_by 8 201) ∷ []) (done ∷ []))
completed_is_final_example =
    completed_is_final (wake_batches 200 (1 ∷ []) true ∷ claim (claim_by 8 201) ∷ []) done-IsSound
      (Memᴰ.head refl) refl

claim_oldest_first_example :
    (length (claimed_ids (claim_by 7 120) two_batches) ≡ max 1 (min 1 100))
    × ((a : Batch) → Memᴰ a (candidates 120 1 none [] two_batches) → IsOlder a (fresh 2 110))
unfolding candidates claimed_ids comes_before
claim_oldest_first_example =
    claim_oldest_first (claim_by 7 120) {ledger = two_batches} (Memᴰ.head refl) refl refl refl

abbrev claimed_row : Batch
claimed_row = record (fresh 1 100) {
  status = running;
  attempts = 1;
  last_attempt_at = some 120;
  lease_owner = some 7;
  lease_expires_at = some 420;
}

delays : map failure_delay_seconds (1 ∷ 2 ∷ 7 ∷ 8 ∷ 9 ∷ []) ≡ 30 ∷ 60 ∷ 1920 ∷ 3600 ∷ 3600 ∷ []
unfolding failure_delay_seconds
delays = refl

-- Projections that keep the ids of the events whose results are written.
abbrev kept_ids : Projections (List ℕ)
kept_ids = record {
  upsert = λ r events p. some (map (λ e. e.event_id) events ++ p, 1);
  resolve_dead_letters = λ r events p. p;
  advance_checkpoint = λ r events p. p;
  enqueue_dead_letters = λ r events error_class error p. p;
}

abbrev snapshots : Snapshots
snapshots = record {
  hash = λ _. hash_of_a;
  read = λ _. some (record {
    id = "default_sealed";
    version = 1;
    projection_name = "sealed.default";
    projection_version = 1;
  });
}

abbrev one_event : Receipt
one_event = record (receipt_at 1 100) {
  events = record { event_id = 40; tenant_id = 1; cipher_len = 64; created_at = some 99 } ∷ [];
  event_ids = 40 ∷ [];
}

abbrev one_running : Ledger
one_running =
    record (fresh 1 100) {
      receipt = one_event;
      status = running;
      attempts = 1;
      lease_owner = some 7;
      lease_expires_at = some 500;
    }
    ∷ []

abbrev fence_of_8 : Fence
fence_of_8 = record { batch_id = 1; worker_id = 8; attempt = 1 }

abbrev good_work : Work
good_work = record {
  now = 210;
  flow = successful (record { count = 1; anomaly_count = 0; written = 0 });
  lease_lost = false;
}

-- The holder of the lease completes the batch and writes its event.
holder_completes :
    (process_claimed_batch snapshots kept_ids good_work fence_of_7 one_event (one_running, [])).0.1
    ≡ 40 ∷ []
unfolding process_claimed_batch
holder_completes = refl

lost_fence_writes_nothing_example :
    process_claimed_batch snapshots kept_ids good_work fence_of_8 one_event (one_running, [])
    ≡ ((one_running, []), not_persisted)
unfolding fence_held
lost_fence_writes_nothing_example =
    lost_fence_writes_nothing snapshots kept_ids good_work fence_of_8 one_event one_running [] refl

batch-IsProcessed_example :
    IsProcessed 210 fence_of_7 one_running
      (process_claimed_batch snapshots kept_ids good_work fence_of_7 one_event
        (one_running, [])).0.0
      (process_claimed_batch snapshots kept_ids good_work fence_of_7 one_event (one_running, [])).1
batch-IsProcessed_example =
    batch-IsProcessed snapshots kept_ids good_work fence_of_7 one_event one_running []

abbrev a_turn : Turn
a_turn = record { before = []; claimed_at = 200; locked = []; meanwhile = []; work = good_work }

-- The engine names a tenant that is not of the batch.
abbrev crossing : Engine
crossing = record {
  now = 210;
  output =
      record {
        tenant_id = some 2;
        source_event_id = some 40;
        projection_name = "sealed.default";
        workflow_id = "default_sealed";
        kind = "transform";
        detector = "rate";
        rule_id = "";
        content = "{}";
      }
      ∷ [];
  digest = λ _ _ _ _. "d";
  dedupe = λ _ _ _ _. "k";
  stored_at = λ _. none;
}

abbrev no_results : ProjectionStore
no_results = record { results = []; checkpoints = []; dead_letters = [] }

batch_keeps_tenants_example :
    of_store 2
      (process_claimed_batch snapshots
        (stored_projections crossing)
        good_work
        fence_of_7
        one_event
        (one_running, no_results)).0.1
    ≡ of_store 2 no_results
batch_keeps_tenants_example =
    batch_keeps_tenants snapshots crossing 2 good_work fence_of_7 one_event one_running no_results
      refl

crossing_fails :
    (process_claimed_batch snapshots
      (stored_projections crossing)
      good_work
      fence_of_7
      one_event
      (one_running, no_results)).1
    ≡ failed_with
unfolding process_claimed_batch stored_projections
crossing_fails = refl

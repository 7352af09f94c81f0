-- ===== src/Processing/Fences.antt =====
-- A worker whose lease is gone cannot write: the fence of `_heartbeat_processing_lease`,
-- `_process_claimed_batch` and `_persist_processing_failure` over whole histories.
use forjd.Prelude.{
  ℕ, ◌≤◌, ◌<◌, String, ◌≡◌, refl, ap, ap₂, ◌⊎◌, Bool, false, List, [], ◌∷◌, arith, nat_eq,
  string_eq, contains, All, update, count_where, All-map,
}
use forjd.Processing.Batch.{
  is_running, Summary, Batch, is_owner, holds_fence, extend_lease, complete, record_failure,
}
use forjd.Processing.Ledger.{
  Ledger, claimed_ids, Fence, holds, Statement, wake_batches, claim, heartbeat, persist_completion,
  persist_failure, step_row, execute, run, fence_held,
}

-- What the three fenced statements of a fence do to a ledger where no row holds it.
pub record IsShutOut (f : Fence) (ledger : Ledger) : Type 0 where
  pub told : fence_held f ledger ≡ false
  pub heartbeat_ignored : (now : ℕ) → execute (heartbeat now f) ledger ≡ ledger
  pub completion_ignored :
      (now : ℕ) (summary : Summary) → execute (persist_completion now f summary) ledger ≡ ledger
  pub failure_ignored :
      (now : ℕ) (error_class error : String)
      → execute (persist_failure now f error_class error) ledger ≡ ledger

count_where-none :
    (f : Fence) (ledger : Ledger)
    → All (λ b. holds f b ≡ false) ledger
    → count_where (holds f) ledger ≡ 0
unfolding count_where
count_where-none f [] h = refl
count_where-none f (b ∷ rest) h = ground (arith, count_where-none f rest h.1)

update-none :
    (f : Fence) (change : Batch → Batch) (ledger : Ledger)
    → All (λ b. holds f b ≡ false) ledger
    → update (holds f) change ledger ≡ ledger
update-none f change [] h = refl
update-none f change (b ∷ rest) h = ap₂ ◌∷◌ (rw h.0) (update-none f change rest h.1)

none_holds-IsShutOut :
    (f : Fence) (ledger : Ledger) → All (λ b. holds f b ≡ false) ledger → IsShutOut f ledger
unfolding fence_held execute step_row
none_holds-IsShutOut f ledger h = record {
  told = rw (count_where-none f ledger h);
  heartbeat_ignored = λ now. update-none f (extend_lease now) ledger h;
  completion_ignored = λ now summary. update-none f (complete now summary) ledger h;
  failure_ignored = λ now e s. update-none f (record_failure now f.attempt e s) ledger h;
}

-- No statement gives the fence's worker a lease on the fence's row again.
abbrev pub Spares : Fence → Statement → Ledger → Type 0
Spares f (claim c) ledger =
    c.worker_id ≡ f.worker_id → contains (claimed_ids c ledger) f.batch_id ≡ false
Spares f _ ledger = Unit

abbrev pub SparesAll : Fence → List Statement → Ledger → Type 0
SparesAll f [] ledger = Unit
SparesAll f (s ∷ history) ledger = Spares f s ledger × SparesAll f history (execute s ledger)

-- The fence's row is not leased to its worker.
abbrev pub IsNotLessee : Fence → Batch → Type 0
IsNotLessee f b = b.id ≡ f.batch_id → is_owner f.worker_id b.lease_owner ≡ false

step_row-IsNotLessee :
    (f : Fence) (s : Statement) (ledger : Ledger) (b : Batch)
    → Spares f s ledger
    → IsNotLessee f b
    → IsNotLessee f (step_row s ledger b)
unfolding step_row
step_row-IsNotLessee f (claim c) ledger b spares h same =
    ground (arith, h, ap (contains (claimed_ids c ledger)) {x = b.id} {y = f.batch_id})
step_row-IsNotLessee f (wake_batches now batch_ids revive) ledger b spares h same =
    ground (arith, h)
step_row-IsNotLessee f _ ledger b spares h same = ground (arith, h)

run-IsNotLessee :
    (f : Fence) (history : List Statement) (ledger : Ledger)
    → SparesAll f history ledger
    → All (IsNotLessee f) ledger
    → All (IsNotLessee f) (run history ledger)
unfolding run execute
run-IsNotLessee f [] ledger spares h = h
run-IsNotLessee f (s ∷ history) ledger spares h =
    run-IsNotLessee f history (execute s ledger) spares.1 (
      All-map (IsNotLessee f) (step_row s ledger)
        (λ b hb. step_row-IsNotLessee f s ledger b spares.0 hb) ledger h)

IsNotLessee-holds : (f : Fence) (b : Batch) → IsNotLessee f b → holds f b ≡ false
unfolding holds_fence
IsNotLessee-holds f b h = ground (arith, h)

All-imp {ℓ κ ι} :
    {A : Type ℓ} (P : A → Type κ) (Q : A → Type ι)
    → ((a : A) → P a → Q a)
    → (l : List A) → All P l
    → All Q l
All-imp P Q f [] h = tt
All-imp P Q f (x ∷ rest) h = (f x h.0, All-imp P Q f rest h.1)

-- A worker to which the row is not leased is shut out, after any history of statements of any
-- workers that does not lease the row to it again, reviving wake-ups included.
pub lost_lease-IsShutOut :
    (f : Fence) (history : List Statement) (ledger : Ledger)
    → All (IsNotLessee f) ledger
    → SparesAll f history ledger
    → IsShutOut f (run history ledger)
lost_lease-IsShutOut f history ledger h spares = none_holds-IsShutOut f (run history ledger) (
    All-imp (IsNotLessee f) (λ b. holds f b ≡ false) (IsNotLessee-holds f) (run history ledger)
      (run-IsNotLessee f history ledger spares h))

-- The attempt of the fence is over: a later one has begun, or this one was given back.
abbrev pub IsPast : Fence → Batch → Type 0
IsPast f b =
    b.id ≡ f.batch_id
    → (f.attempt < b.attempts) ⊎ ((f.attempt ≤ b.attempts) × (is_running b.status ≡ false))

abbrev pub revives : Statement → Bool
revives (wake_batches now batch_ids revive) = revive
revives _ = false

step_row-IsPast :
    (f : Fence) (s : Statement) (ledger : Ledger) (b : Batch)
    → revives s ≡ false
    → IsPast f b
    → IsPast f (step_row s ledger b)
unfolding step_row
step_row-IsPast f s ledger b still h same = ground (arith, h)

run-IsPast :
    (f : Fence) (history : List Statement) (ledger : Ledger)
    → All (λ s. revives s ≡ false) history
    → All (IsPast f) ledger
    → All (IsPast f) (run history ledger)
unfolding run execute
run-IsPast f [] ledger still h = h
run-IsPast f (s ∷ history) ledger still h = run-IsPast f history (execute s ledger) still.1 (
    All-map (IsPast f) (step_row s ledger) (λ b hb. step_row-IsPast f s ledger b still.0 hb) ledger
      h)

IsPast-holds : (f : Fence) (b : Batch) → IsPast f b → holds f b ≡ false
unfolding holds_fence
IsPast-holds f b h = ground (arith, h)

-- A fence whose attempt is over is shut out for good, also if the same worker has claimed the row
-- again, as long as no client retry revives a failed row, which starts the count of attempts anew.
pub past_attempt-IsShutOut :
    (f : Fence) (history : List Statement) (ledger : Ledger)
    → All (IsPast f) ledger
    → All (λ s. revives s ≡ false) history
    → IsShutOut f (run history ledger)
past_attempt-IsShutOut f history ledger h still = none_holds-IsShutOut f (run history ledger) (
    All-imp (IsPast f) (λ b. holds f b ≡ false) (IsPast-holds f) (run history ledger)
      (run-IsPast f history ledger still h))

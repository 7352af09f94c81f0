-- ===== src/Processing/Returned.antt =====
-- What a worker holds when `_claim_processing_batches` returns, and when it may try again.
use mathlib.Core.List.{Memᴰ}
use forjd.Prelude.{
  ℕ, zero, suc, ◌+◌, ◌-◌, ◌*◌, ◌≤◌, ◌<◌, min, ◌≡◌, refl, sym, ap, ◌∙◌, inl, inr, true, some, map,
  arith, nat_eq, string_eq, Bool-cases, contains, passes-of-select, mem-of-select, mem-of-map,
  count_where-one,
}
use forjd.Processing.Batch.{is_running, Batch, start_attempt, holds_fence, failure_delay_seconds}
use forjd.Processing.Ledger.{
  Ledger, Claim, claimed_ids, Fence, holds, claim, step_row, execute, fence_held, returned,
}
use forjd.Processing.Constraints.{IsSound, execute-IsSound}

-- The fence that a worker writes with: the row and the attempt as it was returned.
abbrev pub fence_of : ℕ → Batch → Fence
fence_of worker_id row = record { batch_id = row.id; worker_id = worker_id; attempt = row.attempts }

pub record IsLeasedTo (worker_id now : ℕ) (row : Batch) : Type 0 where
  pub is_run : is_running row.status ≡ true
  pub owned : row.lease_owner ≡ some worker_id
  pub expires : row.lease_expires_at ≡ some (now + 300)

start_attempt-IsLeasedTo :
    (now worker_id : ℕ) (b : Batch) → IsLeasedTo worker_id now (start_attempt now worker_id b)
unfolding start_attempt
start_attempt-IsLeasedTo now worker_id b = record { is_run = refl; owned = refl; expires = refl }

claimed-IsLeasedTo :
    (c : Claim) (ledger : Ledger) (b : Batch)
    → contains (claimed_ids c ledger) (step_row (claim c) ledger b).id ≡ true
    → IsLeasedTo c.worker_id c.now (step_row (claim c) ledger b)
unfolding step_row
claimed-IsLeasedTo c ledger b named = elim (Bool-cases (contains (claimed_ids c ledger) b.id)) [
  | inl e ↦ rw e (start_attempt-IsLeasedTo c.now c.worker_id b)
  | inr e ↦ ground arith
]

returned-IsLeasedTo :
    (c : Claim) {row : Batch} (ledger : Ledger)
    → Memᴰ row (returned c ledger)
    → IsLeasedTo c.worker_id c.now row
unfolding returned execute
returned-IsLeasedTo c ledger m =
    let names = λ (b : Batch). contains (claimed_ids c ledger) b.id in
    let table = map (step_row (claim c) ledger) ledger in
    let (b, _, e) = mem-of-map (step_row (claim c) ledger) ledger (mem-of-select names table m) in
    rw e (claimed-IsLeasedTo c ledger b (sym (ap names e) ∙ passes-of-select names table m))

holds-fence_of :
    (now worker_id : ℕ) (row : Batch)
    → IsLeasedTo worker_id now row
    → holds (fence_of worker_id row) row ≡ true
unfolding holds_fence
holds-fence_of now worker_id row l = ground arith

holds-id : (f : Fence) (b : Batch) → holds f b ≡ true → b.id ≡ f.batch_id
unfolding holds_fence
holds-id f b h = ground arith

-- Each row that a claim returns is running, leased to the claimant for 300 seconds, and its fence
-- holds in the table, so that a completion or a failure written at once is accepted.
pub returned-fence_held :
    (c : Claim) {row : Batch} (ledger : Ledger)
    → IsSound ledger
    → Memᴰ row (returned c ledger)
    → IsLeasedTo c.worker_id c.now row
      × (fence_held (fence_of c.worker_id row) (execute (claim c) ledger) ≡ true)
unfolding fence_held returned
returned-fence_held c {row} ledger sound m =
    let leased = returned-IsLeasedTo c ledger m in
    let one =
      count_where-one (λ b. b.id) (holds (fence_of c.worker_id row)) row.id
        (holds-id (fence_of c.worker_id row)) (execute-IsSound (claim c) sound).keyed
        (mem-of-select (λ b. contains (claimed_ids c ledger) b.id) (execute (claim c) ledger) m)
        (holds-fence_of c.now c.worker_id row leased) in
    (leased, rw one)

abbrev eight_and : ℕ → ℕ
eight_and n = suc (suc (suc (suc (suc (suc (suc (suc n)))))))

late : (n : ℕ) → min (eight_and n - 1) 7 ≡ 7
late n = omega arith

later : (n : ℕ) → min (eight_and n + 1 - 1) 7 ≡ 7
later n = omega arith

-- The delay doubles from 30 seconds with each attempt up to the seventh, never shrinks, and stays
-- within an hour.
pub failure_delay_schedule :
    (attempts : ℕ)
    → (30 ≤ failure_delay_seconds attempts)
      × (failure_delay_seconds attempts ≤ 3600)
      × (failure_delay_seconds attempts ≤ failure_delay_seconds (attempts + 1))
      × (1 ≤ attempts
          → attempts < 7
          → failure_delay_seconds (attempts + 1) ≡ 2 * failure_delay_seconds attempts)
unfolding failure_delay_seconds
failure_delay_schedule zero = omega arith
failure_delay_schedule (suc zero) = omega arith
failure_delay_schedule (suc (suc zero)) = omega arith
failure_delay_schedule (suc (suc (suc zero))) = omega arith
failure_delay_schedule (suc (suc (suc (suc zero)))) = omega arith
failure_delay_schedule (suc (suc (suc (suc (suc zero))))) = omega arith
failure_delay_schedule (suc (suc (suc (suc (suc (suc zero)))))) = omega arith
failure_delay_schedule (suc (suc (suc (suc (suc (suc (suc zero))))))) = omega arith
failure_delay_schedule (suc (suc (suc (suc (suc (suc (suc (suc n)))))))) =
    rw (late n, later n) (omega arith)

-- ===== src/Processing/Attempts.antt =====
-- Rows over whole histories: a completed row is final, and the attempts of a row are bounded.
use mathlib.Core.List.{Memᴰ}
use forjd.Prelude.{
  ℕ, suc, ◌+◌, ◌≤◌, ◌≡◌, inl, inr, Bool, true, false, List, [], ◌∷◌, arith, nat_eq, string_eq,
  if◌then◌else◌, Bool-cases, contains, All, mem-All, map-mem,
}
use forjd.Processing.Batch.{is_completed, Batch}
use forjd.Processing.Ledger.{Ledger, claimed_ids, Statement, claim, step_row, execute, run}
use forjd.Processing.Claim.{IsKeyed, claimed_is_due}
use forjd.Processing.Constraints.{
  IsValid, due_is_waiting, receipt-step_row, IsSound, execute-IsSound,
}
use forjd.Processing.Fences.{revives}

execute-mem :
    (s : Statement) {b : Batch} {ledger : Ledger}
    → Memᴰ b ledger
    → Memᴰ (step_row s ledger b) (execute s ledger)
unfolding execute
execute-mem s {ledger} m = map-mem (step_row s ledger) m

-- Whether a statement gives the row a new attempt.
abbrev pub begins_attempt : ℕ → Statement → Ledger → Bool
begins_attempt batch_id (claim c) ledger = contains (claimed_ids c ledger) batch_id
begins_attempt batch_id _ ledger = false

-- How often a history gives the row a new attempt.
abbrev pub attempts_begun : ℕ → List Statement → Ledger → ℕ
attempts_begun batch_id [] ledger = 0
attempts_begun batch_id (s ∷ history) ledger =
    let rest = attempts_begun batch_id history (execute s ledger) in
    if begins_attempt batch_id s ledger then suc rest else rest

attempts-step_row :
    (s : Statement) (ledger : Ledger) (b : Batch)
    → revives s ≡ false
    → (step_row s ledger b).attempts
      ≡ (if begins_attempt b.id s ledger then suc b.attempts else b.attempts)
unfolding step_row
attempts-step_row s ledger b still = ground arith

id-step_row : (s : Statement) (ledger : Ledger) (b : Batch) → (step_row s ledger b).id ≡ b.id
unfolding step_row
id-step_row s ledger b = ground arith

-- Between two client retries a row is attempted at most `max_attempts` times, whatever the workers
-- do and however often leases expire: the attempts counted so far and those that the history
-- begins stay within the bound.
pub attempts_begun-le :
    (history : List Statement) (b : Batch) (ledger : Ledger)
    → IsSound ledger
    → Memᴰ b ledger
    → All (λ s. revives s ≡ false) history
    → b.attempts + attempts_begun b.id history ledger ≤ b.max_attempts
attempts_begun-le [] b ledger sound m still =
    omega (arith, (mem-All IsValid sound.valid m).attempt_bound)
attempts_begun-le (s ∷ history) b ledger sound m still =
    let later =
      attempts_begun-le history (step_row s ledger b) (execute s ledger) (execute-IsSound s sound)
        (execute-mem s m) still.1 in
    ground (arith, attempts-step_row s ledger b still.0, rw (receipt-step_row s ledger b) at later)

completed-step_row :
    (s : Statement) {b : Batch} {ledger : Ledger}
    → IsKeyed ledger
    → Memᴰ b ledger
    → is_completed b.status ≡ true
    → step_row s ledger b ≡ b
unfolding step_row
completed-step_row (claim c) {b} {ledger} keyed m done =
    elim (Bool-cases (contains (claimed_ids c ledger) b.id)) [
      | inl e ↦
          let (due, _) = claimed_is_due c keyed m e in
          ground (arith, due_is_waiting c.now c.batch_ids b due)
      | inr e ↦ rw e
    ]
completed-step_row s keyed m done = ground arith

-- A completed row is final: no history of statements changes any of its columns, client retries
-- that revive failed rows included.
pub completed_is_final :
    (history : List Statement) {b : Batch} {ledger : Ledger}
    → IsSound ledger
    → Memᴰ b ledger
    → is_completed b.status ≡ true
    → Memᴰ b (run history ledger)
unfolding run
completed_is_final [] sound m done = m
completed_is_final (s ∷ history) {ledger} sound m done =
    completed_is_final history (execute-IsSound s sound)
      (rw (completed-step_row s sound.keyed m done) at (execute-mem s m)) done

-- ===== src/Playbooks/Continuations.antt =====
-- Which runs the continuation worker resumes, and what it reports.
use mathlib.Core.List.{Memᴰ}
use forjd.Playbooks.Delivery.{running, retry_scheduled, awaiting_ack}
use forjd.Prelude.{
  ℕ, ◌≡◌, ◌⊎◌, inl, inr, Bool, true, List, [], ◌∷◌, string_eq, nat_eq, Bool-cases, select, All,
}
use forjd.Playbooks.Results.{ActionResult, Results}
use forjd.Playbooks.Runs.{run_succeeded, run_unsupported, run_failed, partial, Run, Delivery}

All-select : (p : Run → Bool) (l : List Run) → All (λ run. p run ≡ true) (select p l)
All-select p [] = tt
All-select p (x ∷ rest) = elim (Bool-cases (p x)) [
  | inl e ↦ rw e (e, All-select p rest)
  | inr e ↦ rw e (All-select p rest)
]

-- A run that has ended.
abbrev pub IsClosed : Run → Type 0
IsClosed run =
    (run.status ≡ run_succeeded)
    ⊎ (run.status ≡ run_unsupported)
    ⊎ (run.status ≡ run_failed)
    ⊎ (run.status ≡ partial)

-- A run with an action that runs, waits for a retry or waits for an acknowledgement.
abbrev pub IsBusy : ℕ → Results → Type 0
IsBusy run_id table =
    (r : ActionResult) × Memᴰ r table
    × (r.run_id ≡ run_id)
    × ((r.status ≡ running) ⊎ (r.status ≡ retry_scheduled) ⊎ (r.status ≡ awaiting_ack))

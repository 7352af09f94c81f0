-- ===== src/Processing/Outcomes.antt =====
-- What the processing of a claimed batch leaves.
use forjd.Prelude.{
  ℕ, String, ◌≡◌, refl, ap, ◌∙◌, inl, inr, Bool, true, false, Option, none, some, List, Bool-cases,
}
use forjd.Processing.Batch.{Event, Receipt, Summary}
use forjd.Processing.Ledger.{
  Ledger, Fence, persist_completion, persist_failure, execute, fence_held,
}
use forjd.Processing.Worker.{
  Snapshots, Projections, validated_claim, Flow, raised, unsuccessful, successful, Work, Outcome,
  completed_with, failed_with, not_persisted, commit, complete_in_transaction,
  persist_processing_failure, finish, process_flow, process_claim, process_claimed_batch,
}

-- What an outcome says of the ledger before and after the processing.
abbrev pub IsProcessed : ℕ → Fence → Ledger → Ledger → Outcome → Type 0
IsProcessed now fence ledger after (completed_with written) =
    (fence_held fence ledger ≡ true)
    × ((summary : Summary) × (summary.written ≡ written)
        × (after ≡ execute (persist_completion now fence summary) ledger))
IsProcessed now fence ledger after failed_with =
    (fence_held fence ledger ≡ true)
    × ((error_class error : String) × (after
          ≡ execute (persist_failure now fence error_class error) ledger))
IsProcessed now fence ledger after not_persisted =
    (fence_held fence ledger ≡ false) × (after ≡ ledger)

module _ {P : Type 0} (snapshots : Snapshots) (projections : Projections P) where
  failure_lost :
      (now : ℕ) (fence : Fence) (r : Receipt) (error_class error : String) (ledger : Ledger) (p : P)
      → fence_held fence ledger ≡ false
      → persist_processing_failure snapshots projections now fence r error_class error (ledger, p)
        ≡ ((ledger, p), not_persisted)
  unfolding persist_processing_failure
  failure_lost now fence r error_class error ledger p h = rw h refl

  commit_lost :
      (now : ℕ) (fence : Fence) (r : Receipt) (events : List Event) (summary : Summary)
      → (ledger : Ledger) (written : Option (P × ℕ)) → fence_held fence ledger ≡ false
      → commit snapshots projections now fence r events summary ledger written ≡ none
  unfolding commit
  commit_lost now fence r events summary ledger none h = refl
  commit_lost now fence r events summary ledger (some (upserted, written)) h = rw h refl

  completion_lost :
      (now : ℕ) (fence : Fence) (r : Receipt) (events : List Event) (summary : Summary)
      → (ledger : Ledger) (p : P) → fence_held fence ledger ≡ false
      → complete_in_transaction snapshots projections now fence r events summary (ledger, p) ≡ none
  unfolding complete_in_transaction
  completion_lost now fence r events summary ledger p h =
      commit_lost now fence r events summary ledger (projections.upsert r events p) h

  flow_lost :
      (flow : Flow) (flag : Bool) (now : ℕ) (fence : Fence) (r : Receipt) (events : List Event)
      → (ledger : Ledger) (p : P) → fence_held fence ledger ≡ false
      → process_flow snapshots projections flow flag now fence r events (ledger, p)
        ≡ ((ledger, p), not_persisted)
  unfolding process_flow finish
  flow_lost (raised error_class error) flag now fence r events ledger p h =
      failure_lost now fence r error_class error ledger p h
  flow_lost (unsuccessful error) flag now fence r events ledger p h =
      failure_lost now fence r "RuntimeError" error ledger p h
  flow_lost (successful summary) true now fence r events ledger p h =
      failure_lost now fence r "RuntimeError" _ ledger p h
  flow_lost (successful summary) false now fence r events ledger p h =
      ap (finish snapshots projections now fence r (ledger, p))
        (completion_lost now fence r events summary ledger p h)
      ∙ failure_lost now fence r "RuntimeError" _ ledger p h

  claim_lost :
      (work : Work) (fence : Fence) (r : Receipt) (ledger : Ledger) (p : P)
      → (events : Option (List Event)) → fence_held fence ledger ≡ false
      → process_claim snapshots projections work fence r (ledger, p) events
        ≡ ((ledger, p), not_persisted)
  unfolding process_claim
  claim_lost work fence r ledger p none h =
      failure_lost work.now fence r "RuntimeError" _ ledger p h
  claim_lost work fence r ledger p (some events) h =
      flow_lost work.flow work.lease_lost work.now fence r events ledger p h

  -- A worker whose fence no longer holds writes nothing at all: neither projections nor dead letters
  -- nor checkpoints nor the ledger, however its workflow ended.
  pub lost_fence_writes_nothing :
      (work : Work) (fence : Fence) (r : Receipt) (ledger : Ledger) (p : P)
      → fence_held fence ledger ≡ false
      → process_claimed_batch snapshots projections work fence r (ledger, p)
        ≡ ((ledger, p), not_persisted)
  unfolding process_claimed_batch
  lost_fence_writes_nothing work fence r ledger p h =
      claim_lost work fence r ledger p (validated_claim snapshots r) h

  abbrev IsProcessedBy : ℕ → Fence → Ledger → (Ledger × P) × Outcome → Type 0
  IsProcessedBy now fence ledger (world, outcome) = IsProcessed now fence ledger world.0 outcome

  failure-IsProcessed :
      (now : ℕ) (fence : Fence) (r : Receipt) (error_class error : String) (ledger : Ledger) (p : P)
      → IsProcessedBy now fence ledger (
          persist_processing_failure snapshots projections now fence r error_class error
            (ledger, p))
  unfolding persist_processing_failure
  failure-IsProcessed now fence r error_class error ledger p =
      elim (Bool-cases (fence_held fence ledger)) [
        | inl e ↦ rw e (e, (error_class, error, refl))
        | inr e ↦ rw e (e, refl)
      ]

  finish-IsProcessed :
      (now : ℕ) (fence : Fence) (r : Receipt) (events : List Event) (summary : Summary)
      → (ledger : Ledger) (p : P) (written : Option (P × ℕ))
      → IsProcessedBy now fence ledger (
          finish snapshots projections now fence r
            (ledger, p)
            (commit snapshots projections now fence r events summary ledger written))
  unfolding finish commit
  finish-IsProcessed now fence r events summary ledger p none =
      failure-IsProcessed now fence r "RuntimeError" _ ledger p
  finish-IsProcessed now fence r events summary ledger p (some (upserted, written)) =
      elim (Bool-cases (fence_held fence ledger)) [
        | inl e ↦ rw e (e, (record summary { written = written }, refl, refl))
        | inr e ↦ rw e (failure-IsProcessed now fence r "RuntimeError" _ ledger p)
      ]

  flow-IsProcessed :
      (flow : Flow) (flag : Bool) (now : ℕ) (fence : Fence) (r : Receipt) (events : List Event)
      → (ledger : Ledger) (p : P)
      → IsProcessedBy now fence ledger
          (process_flow snapshots projections flow flag now fence r events (ledger, p))
  unfolding process_flow complete_in_transaction
  flow-IsProcessed (raised error_class error) flag now fence r events ledger p =
      failure-IsProcessed now fence r error_class error ledger p
  flow-IsProcessed (unsuccessful error) flag now fence r events ledger p =
      failure-IsProcessed now fence r "RuntimeError" error ledger p
  flow-IsProcessed (successful summary) true now fence r events ledger p =
      failure-IsProcessed now fence r "RuntimeError" _ ledger p
  flow-IsProcessed (successful summary) false now fence r events ledger p =
      finish-IsProcessed now fence r events summary ledger p (projections.upsert r events p)

  claim-IsProcessed :
      (work : Work) (fence : Fence) (r : Receipt) (ledger : Ledger) (p : P)
      → (events : Option (List Event))
      → IsProcessedBy work.now fence ledger
          (process_claim snapshots projections work fence r (ledger, p) events)
  unfolding process_claim
  claim-IsProcessed work fence r ledger p none =
      failure-IsProcessed work.now fence r "RuntimeError" _ ledger p
  claim-IsProcessed work fence r ledger p (some events) =
      flow-IsProcessed work.flow work.lease_lost work.now fence r events ledger p

  -- The outcome of a claimed batch tells what became of it: it is reported as completed or failed
  -- exactly when the fence held and the ledger has the fenced completion or failure, and otherwise as
  -- not persisted, with the ledger as it was.
  pub batch-IsProcessed :
      (work : Work) (fence : Fence) (r : Receipt) (ledger : Ledger) (p : P)
      → IsProcessed work.now fence ledger
          (process_claimed_batch snapshots projections work fence r (ledger, p)).0.0
          (process_claimed_batch snapshots projections work fence r (ledger, p)).1
  unfolding process_claimed_batch
  batch-IsProcessed work fence r ledger p =
      claim-IsProcessed work fence r ledger p (validated_claim snapshots r)

-- ===== src/Processing/Tick.antt =====
-- The ticks of the processing worker.
use forjd.Prelude.{ℕ, List, [], ◌∷◌, take}
use forjd.Processing.Ledger.{
  Ledger, clamp_batch_size, Fence, recover_leases, claim, persist_completion, persist_failure, run,
}
use forjd.Processing.Constraints.{IsSound, execute-IsSound, run-IsSound}
use forjd.Processing.Worker.{
  Snapshots, Projections, Outcome, completed_with, failed_with, not_persisted, Turn, claim_one,
  work_on, turn_of, go_on, tick_loop, tick_ingest_processing,
}
use forjd.Processing.Outcomes.{IsProcessed, batch-IsProcessed}

IsProcessed-IsSound :
    (now : ℕ) (fence : Fence) (ledger after : Ledger) (outcome : Outcome)
    → IsProcessed now fence ledger after outcome
    → IsSound ledger
    → IsSound after
IsProcessed-IsSound now fence ledger after (completed_with written) (_, (summary, _, e)) h =
    rw e (execute-IsSound (persist_completion now fence summary) h)
IsProcessed-IsSound now fence ledger after failed_with (_, (error_class, error, e)) h =
    rw e (execute-IsSound (persist_failure now fence error_class error) h)
IsProcessed-IsSound now fence ledger after not_persisted (_, e) h = rw e h

module _ {P : Type 0} (snapshots : Snapshots) (projections : Projections P) where
  work_on-IsSound :
      (owner : ℕ) (turn : Turn) (ledger : Ledger) (p : P) (rows : Ledger)
      → IsSound ledger
      → IsSound (work_on snapshots projections owner turn (ledger, p) rows).0.0
  unfolding work_on
  work_on-IsSound owner turn ledger p [] h = h
  work_on-IsSound owner turn ledger p (row ∷ rest) h =
      IsProcessed-IsSound turn.work.now _ (run turn.meanwhile ledger) _ _
        (batch-IsProcessed snapshots projections turn.work _ row.receipt (run turn.meanwhile ledger)
          p)
        (run-IsSound turn.meanwhile h)

  turn_of-IsSound :
      (owner : ℕ) (turn : Turn) (ledger : Ledger) (p : P)
      → IsSound ledger
      → IsSound (turn_of snapshots projections owner turn (ledger, p)).0.0
  unfolding turn_of
  turn_of-IsSound owner turn ledger p h =
      work_on-IsSound owner turn _ p _
        (execute-IsSound (claim (claim_one owner turn)) (run-IsSound turn.before h))

  go_on-IsSound :
      (done : (Ledger × P) × List Outcome) (rest : Ledger × P → (Ledger × P) × List Outcome)
      → ((world : Ledger × P) → IsSound world.0 → IsSound (rest world).0.0)
      → IsSound done.0.0
      → IsSound (go_on snapshots projections done rest).0.0
  go_on-IsSound (world, []) rest h sound = sound
  go_on-IsSound (world, o ∷ os) rest h sound = h world sound

  loop-IsSound :
      (owner : ℕ) (turns : List Turn) (world : Ledger × P)
      → IsSound world.0
      → IsSound (tick_loop snapshots projections owner turns world).0.0
  unfolding tick_loop
  loop-IsSound owner [] world h = h
  loop-IsSound owner (turn ∷ turns) world h =
      go_on-IsSound (turn_of snapshots projections owner turn world)
        (tick_loop snapshots projections owner turns) (loop-IsSound owner turns)
        (turn_of-IsSound owner turn world.0 world.1 h)

  -- A tick of the worker keeps the constraints of the ledger, whatever the workflows return, whatever
  -- the projections do and whatever other workers and requests do in between.
  pub tick-IsSound :
      (now owner batch_size : ℕ) (turns : List Turn) (ledger : Ledger) (p : P)
      → IsSound ledger
      → IsSound
          (tick_ingest_processing snapshots projections now owner batch_size turns (ledger, p)).0.0
  unfolding tick_ingest_processing
  tick-IsSound now owner batch_size turns ledger p h =
      loop-IsSound owner (take (clamp_batch_size batch_size) turns) _
        (execute-IsSound (recover_leases now) h)

-- ===== src/Exports/Progress.antt =====
-- An attempt whose calls all return completes its job.
use forjd.Prelude.{
  ℕ, zero, suc, ◌+◌, ◌≡◌, refl, ap, ◌∙◌, Bool, true, false, Option, none, some, List, [], ◌∷◌,
  arith, string_eq, same_number_iff, nat_eq, ◌==◌,
}
use forjd.Exports.Jobs.{
  completed, is_running, ArtifactKey, same_key, has_key, Job, is_owner, may_claim, claim, may_clear,
  clear, plan, may_renew, renew, Artifact, complete,
}
use forjd.Exports.Attempts.{
  Stage, begun, cleaned, ready, keyed, planned, renewed, uploaded, Attempt, own_key, returns,
  Export, discard, Effect, advance, Event, claims, acts, keep_rest, new_attempt, handle, run,
}

same_refl : (n : ℕ) → (n == n) ≡ true
same_refl n = (same_number_iff n n).1 refl

same_key_refl : (key : ArtifactKey) → same_key key key ≡ true
same_key_refl key = ground (arith, same_refl key.attempt, same_refl key.owner)

module _ (now : ℕ) (artifact : Artifact) (deleting : Bool) where
  -- A state with one attempt, and what its call leaves.
  abbrev alone : Job → List ArtifactKey → Attempt → Export
  alone j stored a = record {
    clock = now;
    job = j;
    stored = stored;
    attempts = a ∷ [];
    deleting = deleting;
  }

  abbrev after : Effect → Export
  after effect = record {
    clock = now;
    job = effect.row;
    stored = effect.objects;
    attempts = keep_rest effect.rest [];
    deleting = deleting;
  }

  abbrev pub calls : ℕ → ℕ → List Event
  calls n zero = []
  calls n (suc m) = acts n returns artifact "" ∷ calls n m

  call_alone :
      (j : Job) (stored : List ArtifactKey) (a : Attempt)
      → handle (acts a.number returns artifact "") (alone j stored a)
        ≡ after (advance now artifact "" a j stored a.stage returns)
  unfolding handle
  call_alone j stored a = rw (same_refl a.number, same_refl a.number) refl

  idle :
      (n m : ℕ) (j : Job) (stored : List ArtifactKey)
      → run (calls n m) (after (record { row = j; objects = stored; rest = none }))
        ≡ after (record { row = j; objects = stored; rest = none })
  unfolding run handle
  idle n zero j stored = refl
  idle n (suc m) j stored = idle n m j stored

  abbrev Completes : ℕ → ℕ → Effect → Type 0
  Completes n m effect = (run (calls n m) (after effect)).job.status ≡ completed

  -- One call further.
  further :
      (m : ℕ) (j : Job) (stored : List ArtifactKey) (a : Attempt)
      → Completes a.number m (advance now artifact "" a j stored a.stage returns)
      → Completes a.number (suc m) (record { row = j; objects = stored; rest = some a })
  unfolding run
  further m j stored a h =
      ap (λ e. (run (calls a.number m) e).job.status) (call_alone j stored a) ∙ h

  module _ (m : ℕ) (a : Attempt) where
    at : Stage → Option ArtifactKey → Attempt
    at stage durable = record a { stage = stage; durable = durable; lease_lost = false }

    uploaded-Completes :
        (j : Job) (stored : List ArtifactKey) (durable : Option ArtifactKey)
        → is_owner j.lease_owner a.owner ≡ true
        → Completes a.number
            (suc m)
            (record { row = j; objects = stored; rest = some (at uploaded durable) })
    unfolding at complete
    uploaded-Completes j stored durable own = further m j stored (at uploaded durable) (
        rw own
          (ap (λ e. e.job.status) (idle a.number m (complete now (own_key a) artifact j) stored)))

    renewed-Completes :
        (j : Job) (stored : List ArtifactKey) (durable : Option ArtifactKey)
        → is_owner j.lease_owner a.owner ≡ true
        → Completes a.number
            (suc (suc m))
            (record { row = j; objects = stored; rest = some (at renewed durable) })
    unfolding at
    renewed-Completes j stored durable own =
        further (suc m) j stored (at renewed durable)
          (uploaded-Completes j (own_key a ∷ stored) durable own)

    planned-Completes :
        (j : Job) (stored : List ArtifactKey) (durable : Option ArtifactKey)
        → is_running j.status ≡ true
        → is_owner j.lease_owner a.owner ≡ true
        → Completes a.number
            (suc (suc (suc m)))
            (record { row = j; objects = stored; rest = some (at planned durable) })
    unfolding at renew may_renew
    planned-Completes j stored durable runs own =
        let may : may_renew a.owner j ≡ true = ground arith in
        further (suc (suc m)) j stored (at planned durable)
          (rw may (renewed-Completes (renew now j) stored durable own))

    keyed-Completes :
        (j : Job) (stored : List ArtifactKey) (durable : Option ArtifactKey)
        → is_running j.status ≡ true
        → is_owner j.lease_owner a.owner ≡ true
        → Completes a.number
            (suc (suc (suc (suc m))))
            (record { row = j; objects = stored; rest = some (at keyed durable) })
    unfolding at plan
    keyed-Completes j stored durable runs own =
        further (suc (suc (suc m))) j stored (at keyed durable)
          (rw own (planned-Completes (plan (own_key a) j) stored durable runs own))

    ready-Completes :
        (j : Job) (stored : List ArtifactKey) (durable : Option ArtifactKey)
        → is_running j.status ≡ true
        → is_owner j.lease_owner a.owner ≡ true
        → Completes a.number
            (suc (suc (suc (suc (suc m)))))
            (record { row = j; objects = stored; rest = some (at ready durable) })
    unfolding at
    ready-Completes j stored durable runs own =
        further (suc (suc (suc (suc m)))) j stored (at ready durable)
          (keyed-Completes j stored (some (own_key a)) runs own)

    cleaned-Completes :
        (j : Job) (stored : List ArtifactKey) (key : ArtifactKey)
        → is_running j.status ≡ true
        → is_owner j.lease_owner a.owner ≡ true
        → has_key j.object_key key ≡ true
        → Completes a.number
            (suc (suc (suc (suc (suc (suc m))))))
            (record { row = j; objects = stored; rest = some (at cleaned (some key)) })
    unfolding at clear may_clear
    cleaned-Completes j stored key runs own points =
        let may : may_clear a.owner key j ≡ true = ground arith in
        further (suc (suc (suc (suc (suc m))))) j stored (at cleaned (some key))
          (rw may (ready-Completes (clear j) stored none runs own))

  begun-Completes :
      (m : ℕ) (a : Attempt) (j : Job) (stored : List ArtifactKey) (pointer : Option ArtifactKey)
      → j.object_key ≡ pointer
      → is_running j.status ≡ true
      → is_owner j.lease_owner a.owner ≡ true
      → Completes a.number
          (suc (suc (suc (suc (suc (suc (suc m)))))))
          (record { row = j; objects = stored; rest = some (at m a begun pointer) })
  unfolding at
  begun-Completes m a j stored none points runs own =
      further (suc (suc (suc (suc (suc (suc m)))))) j stored (at m a begun none)
        (ready-Completes (suc m) a j stored none runs own)
  begun-Completes m a j stored (some key) points runs own =
      further (suc (suc (suc (suc (suc (suc m)))))) j stored (at m a begun (some key)) (
        cleaned-Completes m a j (discard key stored) key runs own
          (ap (λ p. has_key p key) points ∙ same_key_refl key))

  -- A job that is due for a claim is completed by the worker that claims it, after seven calls of
  -- `_process_claimed_job` that return, if no other attempt runs: the stale artifact, its pointer, the
  -- source and the rendering, the plan, the renewal, the upload and the completion.
  pub undisturbed_attempt_completes :
      (j : Job) (stored : List ArtifactKey) (owner : ℕ)
      → may_claim now j ≡ true
      → (run (claims owner ∷ calls (j.attempts + 1) 7) (record {
        clock = now;
        job = j;
        stored = stored;
        attempts = [];
        deleting = deleting;
      })).job.status
        ≡ completed
  unfolding run handle claim at
  undisturbed_attempt_completes j stored owner may = rw may (
      begun-Completes 0 (new_attempt owner j) (claim now owner j) stored j.object_key refl refl
        (same_refl owner))

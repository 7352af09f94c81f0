-- ===== src/Exports/Examples.antt =====
-- Runs of an export job.
use forjd.Exports.Progress.{calls, undisturbed_attempt_completes}
use forjd.Exports.Constraints.{is_allowed, exports_are_allowed}
use forjd.Prelude.{◌+◌, ◌≡◌, refl, true, false, List, [], ◌∷◌}
use forjd.Exports.Jobs.{completed, ArtifactKey, new_job, may_claim, Artifact}
use forjd.Exports.Attempts.{returns, Export, Event, passes, recovers, claims, acts, run, new_export}

abbrev pub csv_artifact : Artifact
csv_artifact = record { checksum = "c5"; size = 80; ttl_seconds = 3600 }

-- Worker 7 stalls before its upload, loses its lease to worker 8, which completes the job, and then goes
-- on: it uploads its own artifact, is refused the completion, and removes what it uploaded.
abbrev pub takeover : List Event
takeover =
    claims 7
    ∷ acts 1 returns csv_artifact ""
    ∷ acts 1 returns csv_artifact ""
    ∷ acts 1 returns csv_artifact ""
    ∷ acts 1 returns csv_artifact ""
    ∷ passes 400
    ∷ recovers
    ∷ claims 8
    ∷ acts 2 returns csv_artifact ""
    ∷ acts 2 returns csv_artifact ""
    ∷ acts 2 returns csv_artifact ""
    ∷ acts 2 returns csv_artifact ""
    ∷ acts 2 returns csv_artifact ""
    ∷ acts 2 returns csv_artifact ""
    ∷ acts 1 returns csv_artifact ""
    ∷ acts 2 returns csv_artifact ""
    ∷ acts 1 returns csv_artifact ""
    ∷ acts 1 returns csv_artifact ""
    ∷ []

abbrev pub second_key : ArtifactKey
second_key = record { attempt = 2; owner = 8 }

abbrev pub end : Export
end = run takeover (new_export 10 3)

taken_over : (end.job.status ≡ completed) × (end.stored ≡ second_key ∷ []) × (end.attempts ≡ [])
unfolding run new_export
taken_over = (refl, refl, refl)

exports_are_allowed_example : is_allowed 3 end.job ≡ true
exports_are_allowed_example = exports_are_allowed 10 3 takeover

undisturbed_attempt_completes_example :
    (run (claims 7 ∷ calls 10 csv_artifact false (0 + 1) 7) (new_export 10 3)).job.status
    ≡ completed
unfolding new_export may_claim
undisturbed_attempt_completes_example =
    undisturbed_attempt_completes 10 csv_artifact false (new_job 10 3) [] 7 refl

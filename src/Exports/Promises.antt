-- ===== src/Exports/Promises.antt =====
-- What `_job_dict` calls `download_ready` of a completed export.
use forjd.Prelude.{
  ℕ, ◌≡◌, refl, Bool, true, false, Option, none, some, List, arith, same_number_iff,
}
use forjd.Exports.Jobs.{is_completed, ArtifactKey, has_passed}
use forjd.Exports.Attempts.{Export, Event, run, new_export}
use forjd.Exports.Kept.{has, is_pointer_held}
use forjd.Exports.Held.{run-IsHeld, new_export-IsHeld}

held_pointer :
    (now n : ℕ) (expires_at : Option ℕ) (stored : List ArtifactKey) (deleting : Bool)
    (pointer : Option ArtifactKey)
    → is_pointer_held now n expires_at stored deleting pointer ≡ true
    → deleting ≡ false
    → has_passed now expires_at ≡ false
    → (key : ArtifactKey) × (pointer ≡ some key) × (key.attempt ≡ n) × (has stored key ≡ true)
held_pointer now n expires_at stored deleting none h kept fresh = cc
held_pointer now n expires_at stored deleting (some key) h kept fresh =
    (key, refl, ground (arith, same_number_iff key.attempt n), ground arith)

-- Whatever the workers, the expiry and their crashes and failures do to a job in any order, a
-- completed one points to an artifact of its last attempt that is stored, until the job expires or a
-- tenant asks for its deletion.
pub completed_is_downloadable :
    (now max_attempts : ℕ) (events : List Event)
    → let e = run events (new_export now max_attempts) in
      is_completed e.job.status ≡ true
      → e.deleting ≡ false
      → has_passed e.clock e.job.expires_at ≡ false
      → (key : ArtifactKey) × (e.job.object_key ≡ some key)
        × (key.attempt ≡ e.job.attempts)
        × (has e.stored key ≡ true)
completed_is_downloadable now max_attempts events c kept fresh =
    let e : Export = run events (new_export now max_attempts) in
    let held =
      run-IsHeld events (new_export now max_attempts) (new_export-IsHeld now max_attempts) in
    held_pointer e.clock e.job.attempts e.job.expires_at e.stored e.deleting e.job.object_key
      (ground (arith, held.1, c)) kept fresh

-- ===== src/Exports/Attempts.antt =====
-- Attempts at an export job: `_process_claimed_job` and its heartbeat as steps, with the claims, the
-- lease recovery, the expiry and the deletion that run between them, of backend/app/services/exports.py.
-- The state is that of one job: every statement names the row by its id, and every key names its job.
use forjd.Prelude.{
  ℕ, ◌+◌, String, Bool, true, false, not, ◌&&◌, Option, none, some, List, [], ◌∷◌, string_eq,
  nat_eq, ◌==◌, if◌then◌else◌, select, any, find,
}
use forjd.Exports.Jobs.{
  ArtifactKey, same_key, Job, is_owner, new_job, may_recover, recover, may_claim, claim, may_clear,
  clear, plan, may_renew, renew, Artifact, complete, record_failure, may_expire, expire, postpone,
}

-- How far an attempt is.
pub data Stage : Type 0 where
  begun cleaned ready keyed planned renewed uploaded discarding failing : Stage
  cleaned_up : Bool → Stage

-- A running `_process_claimed_job`: the attempt that it claimed, the variables
-- `durable_object_key` and `lease_lost`, and its place.
pub record Attempt : Type 0 where
  pub number : ℕ
  pub owner : ℕ
  pub durable : Option ArtifactKey
  pub lease_lost : Bool
  pub stage : Stage

-- `_artifact_key`, whose version is the attempt with its owner.
abbrev pub own_key : Attempt → ArtifactKey
own_key a = record { attempt = a.number; owner = a.owner }

-- What the next call of an attempt does: it returns, it raises without an effect, or it raises although
-- the object storage has done what was asked.
pub data Outcome : Type 0 where
  returns raises raises_late : Outcome

-- The row, the keys of the stored artifacts, the running attempts, and whether a tenant has asked for
-- the deletion of the job.
pub record Export : Type 0 where
  pub clock : ℕ
  pub job : Job
  pub stored : List ArtifactKey
  pub attempts : List Attempt
  pub deleting : Bool

-- `_delete_artifact`
unfoldable pub discard : ArtifactKey → List ArtifactKey → List ArtifactKey
discard key = select (λ k. not (same_key k key))

abbrev pub discard_pointer : Option ArtifactKey → List ArtifactKey → List ArtifactKey
discard_pointer none stored = stored
discard_pointer (some key) stored = discard key stored

-- What a call leaves of the row and the storage, and the attempt, unless it has ended.
pub record Effect : Type 0 where
  pub row : Job
  pub objects : List ArtifactKey
  pub rest : Option Attempt

abbrev to_failing : Attempt → Attempt
to_failing a = record a { stage = failing }

abbrev goes_on : Job → List ArtifactKey → Attempt → Effect
goes_on j stored a = record { row = j; objects = stored; rest = some a }

abbrev ends : Job → List ArtifactKey → Effect
ends j stored = record { row = j; objects = stored; rest = none }

-- `if durable_object_key:`, the deletion of the stale artifact.
abbrev pub clean : Attempt → Job → List ArtifactKey → Option ArtifactKey → Effect
clean a j stored none = goes_on j stored (record a { stage = ready })
clean a j stored (some key) = goes_on j (discard key stored) (record a { stage = cleaned })

-- The statement that clears the pointer.
abbrev pub clear_stale : Attempt → Job → List ArtifactKey → Option ArtifactKey → Effect
clear_stale a j stored none = goes_on j stored (record a { stage = ready })
clear_stale a j stored (some key) =
    if may_clear a.owner key j
    then goes_on (clear j) stored (record a { durable = none; stage = ready })
    else ends j stored

abbrev pub store_plan : Attempt → Job → List ArtifactKey → Effect
store_plan a j stored =
    if a.lease_lost
    then ends j stored
    else if is_owner j.lease_owner a.owner
    then goes_on (plan (own_key a) j) stored (record a { stage = planned })
    else ends j stored

abbrev pub renew_lease : ℕ → Attempt → Job → List ArtifactKey → Effect
renew_lease now a j stored =
    if may_renew a.owner j
    then if a.lease_lost
      then ends (renew now j) stored
      else goes_on (renew now j) stored (record a { stage = renewed })
    else ends j stored

abbrev pub finish : ℕ → Artifact → Attempt → Job → List ArtifactKey → Effect
finish now artifact a j stored =
    if is_owner j.lease_owner a.owner
    then ends (complete now (own_key a) artifact j) stored
    else goes_on j stored (record a { stage = discarding })

-- The cleanup of the exception handler.
abbrev pub clean_up : Outcome → Attempt → Job → List ArtifactKey → Option ArtifactKey → Effect
clean_up returns a j stored (some key) =
    goes_on j (discard key stored) (record a { stage = cleaned_up true })
clean_up raises_late a j stored (some key) =
    goes_on j (discard key stored) (record a { stage = cleaned_up false })
clean_up _ a j stored _ = goes_on j stored (record a { stage = cleaned_up false })

abbrev pub fail : ℕ → String → Bool → Attempt → Job → List ArtifactKey → Effect
fail now error_class cleanup_succeeded a j stored =
    if is_owner j.lease_owner a.owner
    then ends (record_failure now error_class cleanup_succeeded a.durable j) stored
    else ends j stored

-- The next call of an attempt, by its place.
abbrev pub advance :
    ℕ → Artifact → String → Attempt → Job → List ArtifactKey → Stage → Outcome → Effect
advance now artifact error_class a j stored begun returns = clean a j stored a.durable
advance now artifact error_class a j stored begun raises_late =
    goes_on j (discard_pointer a.durable stored) (to_failing a)
advance now artifact error_class a j stored cleaned returns = clear_stale a j stored a.durable
advance now artifact error_class a j stored ready returns =
    goes_on j stored (record a { durable = some (own_key a); stage = keyed })
advance now artifact error_class a j stored keyed returns = store_plan a j stored
advance now artifact error_class a j stored planned returns = renew_lease now a j stored
advance now artifact error_class a j stored renewed returns =
    goes_on j (own_key a ∷ stored) (record a { stage = uploaded })
advance now artifact error_class a j stored renewed raises_late =
    goes_on j (own_key a ∷ stored) (to_failing a)
advance now artifact error_class a j stored uploaded returns = finish now artifact a j stored
advance now artifact error_class a j stored discarding returns = ends j (discard (own_key a) stored)
advance now artifact error_class a j stored discarding raises_late =
    goes_on j (discard (own_key a) stored) (to_failing a)
advance now artifact error_class a j stored failing outcome = clean_up outcome a j stored a.durable
advance now artifact error_class a j stored (cleaned_up succeeded) returns =
    fail now error_class succeeded a j stored
advance now artifact error_class a j stored (cleaned_up succeeded) _ = ends j stored
advance now artifact error_class a j stored _ _ = goes_on j stored (to_failing a)

pub data Event : Type 0 where
  passes : ℕ → Event
  recovers : Event
  claims : ℕ → Event
  acts : ℕ → Outcome → Artifact → String → Event
  beats crashes : ℕ → Event
  expiry_deletes : Event
  expiry_updates expiry_postpones : ArtifactKey → Event
  deletes : Event

abbrev pub is_number : ℕ → Attempt → Bool
is_number n a = a.number == n

abbrev pub remove : ℕ → List Attempt → List Attempt
remove n = select (λ a. not (is_number n a))

abbrev pub keep_rest : Option Attempt → List Attempt → List Attempt
keep_rest none others = others
keep_rest (some a) others = a ∷ others

abbrev pub apply_effect : ℕ → Effect → Export → Export
apply_effect n effect e = record e {
  job = effect.row;
  stored = effect.objects;
  attempts = keep_rest effect.rest (remove n e.attempts);
}

abbrev pub act : ℕ → Outcome → Artifact → String → Export → Option Attempt → Export
act n outcome artifact error_class e none = e
act n outcome artifact error_class e (some a) =
    apply_effect n (advance e.clock artifact error_class a e.job e.stored a.stage outcome) e

abbrev pub beat : ℕ → Export → Option Attempt → Export
beat n e none = e
beat n e (some a) =
    if may_renew a.owner e.job
    then record e { job = renew e.clock e.job }
    else record e { attempts = (record a { lease_lost = true }) ∷ remove n e.attempts }

abbrev pub new_attempt : ℕ → Job → Attempt
new_attempt owner j = record {
  number = j.attempts + 1;
  owner = owner;
  durable = j.object_key;
  lease_lost = false;
  stage = begun;
}

-- `tick_export_jobs`: the recovery of leases.
abbrev pub recover_lease : Export → Export
recover_lease e = if may_recover e.clock e.job then record e { job = recover e.clock e.job } else e

-- `tick_export_jobs`: the claim, and the attempt that it starts. A worker runs its attempts one after the
-- other, so that it claims nothing while it has one.
abbrev pub claim_job : ℕ → Export → Export
claim_job owner e =
    if may_claim e.clock e.job && not (any (λ a. a.owner == owner) e.attempts)
    then record e {
      job = claim e.clock owner e.job;
      attempts = new_attempt owner e.job ∷ e.attempts;
    }
    else e

-- `_expire_artifacts`: the deletion of the artifact of a selected row.
abbrev pub delete_expired : Export → Export
delete_expired e =
    if may_expire e.clock e.job
    then record e { stored = discard_pointer e.job.object_key e.stored }
    else e

-- `delete_job`: the deletion of the artifact. The row goes next, which ends the history.
abbrev pub delete_artifact : Export → Export
delete_artifact e = record e { stored = discard_pointer e.job.object_key e.stored; deleting = true }

unfoldable pub handle : Event → Export → Export
unfolding may_recover recover may_claim claim may_clear clear plan may_renew renew complete
    record_failure may_expire expire postpone discard
handle (passes seconds) e = record e { clock = e.clock + seconds }
handle recovers e = recover_lease e
handle (claims owner) e = claim_job owner e
handle (acts n outcome artifact error_class) e =
    act n outcome artifact error_class e (find (is_number n) e.attempts)
handle (beats n) e = beat n e (find (is_number n) e.attempts)
handle (crashes n) e = record e { attempts = remove n e.attempts }
handle expiry_deletes e = delete_expired e
handle (expiry_updates key) e = record e { job = expire e.clock key e.job }
handle (expiry_postpones key) e = record e { job = postpone e.clock key e.job }
handle deletes e = delete_artifact e

unfoldable pub run : List Event → Export → Export
unfolding handle
run [] e = e
run (event ∷ events) e = run events (handle event e)

unfoldable pub new_export : ℕ → ℕ → Export
unfolding new_job
new_export now max_attempts = record {
  clock = now;
  job = new_job now max_attempts;
  stored = [];
  attempts = [];
  deleting = false;
}

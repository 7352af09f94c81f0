-- ===== src/Exports/Jobs.antt =====
-- One row of `export_jobs`, and what each statement of backend/app/services/exports.py tests and writes
-- in it. Timestamps are seconds, identifiers are numbers, and `now` is `NOW()`.
use forjd.Prelude.{
  ℕ, ◌+◌, ◌^◌, min, String, Bool, true, false, not, ◌&&◌, ◌||◌, Option, none, some, ltb, leb,
  string_eq, nat_eq, ◌==◌, if◌then◌else◌, is_none, coalesce,
}

pub data ExportStatus : Type 0 where
  queued running retry_scheduled completed failed expired : ExportStatus

abbrev pub is_running : ExportStatus → Bool
is_running running = true
is_running _ = false

abbrev pub is_waiting : ExportStatus → Bool
is_waiting queued = true
is_waiting retry_scheduled = true
is_waiting _ = false

abbrev pub is_completed : ExportStatus → Bool
is_completed completed = true
is_completed _ = false

abbrev pub is_failed : ExportStatus → Bool
is_failed failed = true
is_failed _ = false

-- The key of an artifact. All the keys of a job name it and are told apart by their version, which is
-- the attempt with the worker: `f"{attempts}-{owner}"`.
pub record ArtifactKey : Type 0 where
  pub attempt : ℕ
  pub owner : ℕ

abbrev pub same_key : ArtifactKey → ArtifactKey → Bool
same_key k l = k.attempt == l.attempt && k.owner == l.owner

abbrev pub has_key : Option ArtifactKey → ArtifactKey → Bool
has_key none k = false
has_key (some l) k = same_key l k

-- The columns of a row that change. `max_attempts` is `settings.EXPORT_MAX_ATTEMPTS` at its creation.
pub record Job : Type 0 where
  pub status : ExportStatus
  pub attempts : ℕ
  pub max_attempts : ℕ
  pub next_attempt_at : ℕ
  pub lease_owner : Option ℕ
  pub lease_expires_at : Option ℕ
  pub object_key : Option ArtifactKey
  pub checksum_sha256 : Option String
  pub byte_size : ℕ
  pub error : Option String
  pub completed_at : Option ℕ
  pub expires_at : Option ℕ

abbrev pub export_lease_seconds : ℕ
export_lease_seconds = 300

abbrev pub is_owner : Option ℕ → ℕ → Bool
is_owner none owner = false
is_owner (some o) owner = o == owner

-- `x <= NOW()`, which NULL does not pass, and `x IS NULL OR x <= NOW()`.
abbrev pub has_passed : ℕ → Option ℕ → Bool
has_passed now none = false
has_passed now (some t) = leb t now

abbrev pub no_lease : ℕ → Option ℕ → Bool
no_lease now t = is_none t || has_passed now t

-- `INSERT INTO export_jobs` of `create_export_job`.
unfoldable pub new_job : ℕ → ℕ → Job
new_job now max_attempts = record {
  status = queued;
  attempts = 0;
  max_attempts = max_attempts;
  next_attempt_at = now;
  lease_owner = none;
  lease_expires_at = none;
  object_key = none;
  checksum_sha256 = none;
  byte_size = 0;
  error = none;
  completed_at = none;
  expires_at = none;
}

-- `tick_export_jobs`: the leases that have run out.
unfoldable pub may_recover : ℕ → Job → Bool
may_recover now j = is_running j.status && no_lease now j.lease_expires_at

unfoldable pub recover : ℕ → Job → Job
recover now j =
    let exhausted = leb j.max_attempts j.attempts in
    record j {
      status = if exhausted then failed else retry_scheduled;
      next_attempt_at = now;
      lease_owner = none;
      lease_expires_at = none;
      error = coalesce j.error "WorkerLeaseExpired";
      completed_at = if exhausted then some now else j.completed_at;
    }

-- `tick_export_jobs`: the claim of a row.
unfoldable pub may_claim : ℕ → Job → Bool
may_claim now j =
    is_waiting j.status
    && ltb j.attempts j.max_attempts
    && leb j.next_attempt_at now
    && no_lease now j.lease_expires_at

unfoldable pub claim : ℕ → ℕ → Job → Job
claim now owner j = record j {
  status = running;
  lease_owner = some owner;
  lease_expires_at = some (now + export_lease_seconds);
  attempts = j.attempts + 1;
  error = none;
}

-- `_process_claimed_job`: the pointer to a stale artifact is cleared by the owner of the lease.
unfoldable pub may_clear : ℕ → ArtifactKey → Job → Bool
may_clear owner key j = is_owner j.lease_owner owner && has_key j.object_key key

unfoldable pub clear : Job → Job
clear j = record j { object_key = none }

-- `_process_claimed_job`: the key of the artifact is stored before the upload.
unfoldable pub plan : ArtifactKey → Job → Job
plan key j = record j { object_key = some key }

-- `_renew_export_lease`
unfoldable pub may_renew : ℕ → Job → Bool
may_renew owner j = is_running j.status && is_owner j.lease_owner owner

unfoldable pub renew : ℕ → Job → Job
renew now j = record j { lease_expires_at = some (now + export_lease_seconds) }

-- What is known of an uploaded artifact, and `settings.EXPORT_TTL_SECONDS`.
pub record Artifact : Type 0 where
  pub checksum : String
  pub size : ℕ
  pub ttl_seconds : ℕ

-- `_process_claimed_job`: the completion.
unfoldable pub complete : ℕ → ArtifactKey → Artifact → Job → Job
complete now key artifact j = record j {
  status = completed;
  object_key = some key;
  checksum_sha256 = some artifact.checksum;
  byte_size = artifact.size;
  completed_at = some now;
  expires_at = some (now + artifact.ttl_seconds);
  lease_owner = none;
  lease_expires_at = none;
  next_attempt_at = now;
  error = none;
}

-- The pointer that a failed attempt leaves: none where its artifact was deleted.
abbrev pub left_pointer : Bool → Option ArtifactKey → Option ArtifactKey → Option ArtifactKey
left_pointer false durable pointer = pointer
left_pointer true none pointer = pointer
left_pointer true (some key) pointer = if has_key pointer key then none else pointer

-- `_process_claimed_job`: the failure.
unfoldable pub record_failure : ℕ → String → Bool → Option ArtifactKey → Job → Job
record_failure now error_class cleanup_succeeded durable j =
    let exhausted = leb j.max_attempts j.attempts in
    record j {
      status = if exhausted then failed else retry_scheduled;
      error = some error_class;
      next_attempt_at = now + min 3600 (2 ^ min j.attempts 11);
      object_key = left_pointer cleanup_succeeded durable j.object_key;
      lease_owner = none;
      lease_expires_at = none;
      completed_at = if exhausted then some now else none;
    }

-- `_expire_artifacts`: the rows whose artifact goes.
unfoldable pub may_expire : ℕ → Job → Bool
may_expire now j =
    not (is_none j.object_key)
    && leb j.next_attempt_at now
    && ((is_completed j.status && has_passed now j.expires_at) || is_failed j.status)

-- `_expire_artifacts`: the two statements that follow the deletion.
unfoldable pub expire : ℕ → ArtifactKey → Job → Job
expire now key j =
    if is_completed j.status && has_passed now j.expires_at
    then record j { status = expired; object_key = none }
    else if is_failed j.status && has_key j.object_key key
    then record j { object_key = none }
    else j

-- `_expire_artifacts`: where the deletion fails, it is tried again in five minutes.
unfoldable pub postpone : ℕ → ArtifactKey → Job → Job
postpone now key j =
    if has_key j.object_key key then record j { next_attempt_at = now + 300 } else j

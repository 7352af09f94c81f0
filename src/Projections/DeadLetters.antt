-- ===== src/Projections/DeadLetters.antt =====
-- Dead letters: `enqueue_projection_dlq` and `resolve_projection_dlq_for_events` of
-- backend/app/services/projections.py.
use forjd.Prelude.{
  ℕ, min, String, Bool, false, ◌&&◌, ◌||◌, Option, none, some, List, [], ◌∷◌, ◌++◌, map, leb,
  string_eq, nat_eq, ◌==◌, if◌then◌else◌, is_none, any, contains, update_row, update,
}

pub record DeadLetter : Type 0 where
  pub tenant_id : ℕ
  pub dedupe_key : String
  pub source_event_id : Option ℕ
  pub workflow_id : String
  pub projection_name : String
  pub projection_version : ℕ
  pub error : String
  pub error_class : String
  pub next_attempt_at : ℕ
  pub locked_by : Option ℕ
  pub lease_expires_at : Option ℕ
  pub resolved_at : Option ℕ

-- The projection of an event that failed.
pub record Failure : Type 0 where
  pub tenant_id : ℕ
  pub source_event_id : Option ℕ
  pub workflow_id : String
  pub projection_name : String
  pub projection_version : ℕ
  pub error : String
  pub error_class : String

-- `(tenant_id, dedupe_key) WHERE resolved_at IS NULL`
abbrev pub is_open_for : ℕ → String → DeadLetter → Bool
is_open_for tenant_id dedupe_key d =
    is_none d.resolved_at && d.tenant_id == tenant_id && d.dedupe_key == dedupe_key

unfoldable pub new_letter : ℕ → String → Failure → DeadLetter
new_letter now dedupe_key f = record {
  tenant_id = f.tenant_id;
  dedupe_key = dedupe_key;
  source_event_id = f.source_event_id;
  workflow_id = f.workflow_id;
  projection_name = f.projection_name;
  projection_version = f.projection_version;
  error = f.error;
  error_class = f.error_class;
  next_attempt_at = now;
  locked_by = none;
  lease_expires_at = none;
  resolved_at = none;
}

unfoldable pub fail_again : ℕ → Failure → DeadLetter → DeadLetter
fail_again now f d = record d {
  error = f.error;
  error_class = f.error_class;
  next_attempt_at = min d.next_attempt_at now;
}

-- `enqueue_projection_dlq`; `dedupe` is the digest of `_dlq_dedupe_key`.
unfoldable pub enqueue_projection_dlq :
    (Option ℕ → String → String → ℕ → String) → ℕ → Failure → List DeadLetter → List DeadLetter
unfolding new_letter fail_again
enqueue_projection_dlq dedupe now f table =
    let key = dedupe f.source_event_id f.workflow_id f.projection_name f.projection_version in
    if any (is_open_for f.tenant_id key) table
    then map (update_row (is_open_for f.tenant_id key) (fail_again now f)) table
    else table ++ new_letter now key f ∷ []

-- The events whose live projection has succeeded.
pub record Success : Type 0 where
  pub tenant_id : ℕ
  pub source_event_ids : List ℕ
  pub workflow_id : String
  pub projection_name : String
  pub projection_version : ℕ

abbrev is_source_of : List ℕ → Option ℕ → Bool
is_source_of events none = false
is_source_of events (some event) = contains events event

abbrev lease_is_over : ℕ → Option ℕ → Bool
lease_is_over now none = false
lease_is_over now (some at) = leb at now

-- The WHERE clause: a replay that is leased keeps its letter.
unfoldable pub may_resolve : ℕ → Success → DeadLetter → Bool
may_resolve now s d =
    d.tenant_id == s.tenant_id
    && is_source_of s.source_event_ids d.source_event_id
    && d.workflow_id == s.workflow_id
    && d.projection_name == s.projection_name
    && d.projection_version == s.projection_version
    && is_none d.resolved_at
    && (is_none d.locked_by || lease_is_over now d.lease_expires_at)

abbrev pub resolve : ℕ → DeadLetter → DeadLetter
resolve now d = record d { resolved_at = some now; locked_by = none; lease_expires_at = none }

-- `resolve_projection_dlq_for_events`
unfoldable pub resolve_projection_dlq_for_events : ℕ → Success → List DeadLetter → List DeadLetter
unfolding may_resolve
resolve_projection_dlq_for_events now s = update (may_resolve now s) (resolve now)

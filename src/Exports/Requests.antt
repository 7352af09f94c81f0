-- ===== src/Exports/Requests.antt =====
-- What a caller asks of the export jobs: `create_export_job`, `get_job` and `create_download` of
-- backend/app/services/exports.py. `digest` is SHA-256 of the canonical JSON of the parameters.
use forjd.Prelude.{
  ℕ, ◌-◌, min, max, String, Bool, true, false, not, ◌&&◌, Option, none, some, List, [], ◌∷◌, ◌++◌,
  ltb, leb, string_eq, nat_eq, ◌==◌, if◌then◌else◌, find, first_chars,
}
use forjd.Access.Principals.{AuthUser, http_exception, Result, returned, raised, ◌>>=◌}
use forjd.Access.Tenancy.{Member, require_tenant_access}
use forjd.Exports.Jobs.{is_completed, ArtifactKey, Job, new_job}

pub data ExportFormat : Type 0 where
  csv json parquet pdf : ExportFormat

abbrev pub is_pdf : ExportFormat → Bool
is_pdf pdf = true
is_pdf _ = false

-- `_CONTENT_TYPES`
abbrev pub content_types : ExportFormat → String
content_types csv = "text/csv; charset=utf-8"
content_types json = "application/json"
content_types parquet = "application/vnd.apache.parquet"
content_types pdf = "application/pdf"

pub record Settings : Type 0 where
  pub is_production : Bool
  pub object_storage_configured : Bool
  pub export_max_attempts : ℕ

-- A request for an export. Its numbers are natural, since a negative one is bounded like 0.
pub record NewExport : Type 0 where
  pub idempotency_key : String
  pub format : ExportFormat
  pub source_kind : String
  pub limit : ℕ
  pub days : ℕ
  pub site_url : Option String

-- `filters`, and the parameters of `_request_fingerprint`.
pub record Filters : Type 0 where
  pub days : ℕ
  pub limit : ℕ
  pub site_url : String

pub record Parameters : Type 0 where
  pub format : ExportFormat
  pub source_kind : String
  pub filters : Filters

-- A row of `export_jobs`: what never changes, and the job.
pub record ExportRow : Type 0 where
  pub id : String
  pub tenant_id : String
  pub idempotency_key : String
  pub request_fingerprint : String
  pub parameters : Parameters
  pub content_type : String
  pub created_by_actor_id : String
  pub job : Job

pub record Created : Type 0 where
  pub duplicate : Bool
  pub row : ExportRow

abbrev text_of : Option String → String
text_of none = ""
text_of (some s) = s

unfoldable pub bounded : NewExport → Parameters
unfolding first_chars
bounded asked = record {
  format = asked.format;
  source_kind = asked.source_kind;
  filters = record {
    days = max 1 (min asked.days 90);
    limit = max 1 (min asked.limit 100000);
    site_url = first_chars 2048 (text_of asked.site_url);
  };
}

-- The checks of `create_export_job` before its INSERT.
unfoldable pub may_export :
    Settings → List Member → AuthUser → String → NewExport → Result Parameters
unfolding require_tenant_access bounded
may_export settings members principal tenant_id asked = do
  _ ←
      require_tenant_access members principal tenant_id (some ("owner" ∷ "admin" ∷ "member" ∷ []))
        (some ("exports:write" ∷ []))
  if settings.is_production && not settings.object_storage_configured
      then raised (http_exception 503 "durable export object storage is not configured")
      else if is_pdf asked.format && ltb 1000 (bounded asked).filters.limit
      then raised (http_exception 422 "PDF exports support at most 1000 rows")
      else returned (bounded asked)

-- The unique index `export_jobs_tenant_idempotency_idx`.
abbrev pub has_request_key : String → String → ExportRow → Bool
has_request_key tenant_id key row = row.tenant_id == tenant_id && row.idempotency_key == key

abbrev pub new_export_row :
    (Parameters → String)
    → Settings
    → ℕ
    → String
    → AuthUser
    → String
    → NewExport
    → Parameters
    → ExportRow
new_export_row digest settings now id principal tenant_id asked parameters = record {
  id = id;
  tenant_id = tenant_id;
  idempotency_key = asked.idempotency_key;
  request_fingerprint = digest parameters;
  parameters = parameters;
  content_type = content_types asked.format;
  created_by_actor_id = principal.user_id;
  job = new_job now settings.export_max_attempts;
}

-- `ON CONFLICT (tenant_id, idempotency_key) DO NOTHING`, and the row that is there.
abbrev pub insert_export :
    ExportRow → List ExportRow → Option ExportRow → List ExportRow × Result Created
insert_export new table none =
    (table ++ new ∷ [], returned (record { duplicate = false; row = new }))
insert_export new table (some row) = (
  table,
  if not (row.request_fingerprint == new.request_fingerprint)
      then raised
          (http_exception 409 "idempotency_key was already used with different export parameters")
      else returned (record { duplicate = true; row = row }),
)

abbrev pub create_allowed :
    (Parameters → String)
    → Settings
    → ℕ
    → String
    → AuthUser
    → String
    → NewExport
    → List ExportRow
    → Result Parameters
    → List ExportRow × Result Created
create_allowed digest settings now id principal tenant_id asked table (raised failure) =
    (table, raised failure)
create_allowed digest settings now id principal tenant_id asked table (returned parameters) =
    insert_export (new_export_row digest settings now id principal tenant_id asked parameters) table
      (find (has_request_key tenant_id asked.idempotency_key) table)

-- `create_export_job`
unfoldable pub create_export_job :
    (Parameters → String)
    → Settings
    → ℕ
    → String
    → List Member
    → AuthUser
    → String
    → NewExport
    → List ExportRow
    → List ExportRow × Result Created
unfolding may_export
create_export_job digest settings now id members principal tenant_id asked table =
    create_allowed digest settings now id principal tenant_id asked table
      (may_export settings members principal tenant_id asked)

abbrev pub is_export : String → String → ExportRow → Bool
is_export tenant_id id row = row.tenant_id == tenant_id && row.id == id

-- `get_job`
unfoldable pub get_job :
    List Member → AuthUser → String → String → List ExportRow → Result (Option ExportRow)
unfolding require_tenant_access
get_job members principal tenant_id id table = do
  _ ← require_tenant_access members principal tenant_id none (some ("exports:read" ∷ []))
  returned (find (is_export tenant_id id) table)

-- `DEFAULT_PRESIGN_SECONDS`
abbrev pub default_presign_seconds : ℕ
default_presign_seconds = 900

-- A presigned link: the object that it opens, and for how long.
pub record Download : Type 0 where
  pub key : ArtifactKey
  pub expires_in : ℕ
  pub checksum_sha256 : Option String
  pub byte_size : ℕ

abbrev pub presign : Settings → Job → ArtifactKey → ℕ → Result Download
presign settings j key seconds =
    if not settings.object_storage_configured
    then raised (http_exception 503 "signed export downloads require object storage")
    else returned (record {
      key = key;
      expires_in = seconds;
      checksum_sha256 = j.checksum_sha256;
      byte_size = j.byte_size;
    })

-- The seconds that are left, `int((expires_at - now).total_seconds())`, where 0 stands for less too.
abbrev pub presign_until : Settings → ℕ → Job → ArtifactKey → Option ℕ → Result Download
presign_until settings now j key none = presign settings j key default_presign_seconds
presign_until settings now j key (some expires_at) =
    if leb (expires_at - now) 0
    then raised (http_exception 410 "export artifact has expired")
    else presign settings j key (min (expires_at - now) default_presign_seconds)

abbrev pub ready_download : Settings → ℕ → Job → Option ArtifactKey → Result Download
ready_download settings now j none = raised (http_exception 409 "export artifact is not ready")
ready_download settings now j (some key) =
    if not (is_completed j.status)
    then raised (http_exception 409 "export artifact is not ready")
    else presign_until settings now j key j.expires_at

abbrev pub found_download : Settings → ℕ → Option ExportRow → Result Download
found_download settings now none = raised (http_exception 404 "export job not found")
found_download settings now (some row) = ready_download settings now row.job row.job.object_key

-- `create_download`
unfoldable pub create_download :
    Settings → ℕ → List Member → AuthUser → String → String → List ExportRow → Result Download
unfolding get_job
create_download settings now members principal tenant_id id table = do
  row ← get_job members principal tenant_id id table
  found_download settings now row

-- ===== src/Exports/RequestExamples.antt =====
-- Requests for exports and their downloads.
use forjd.Exports.Kept.{has}
use forjd.Exports.Creation.{creation_is_idempotent}
use forjd.Exports.Downloads.{link_opens_stored_artifact}
use forjd.Prelude.{
  ℕ, ◌+◌, ◌≤◌, String, ◌≡◌, refl, ◌≢◌, true, false, none, some, List, [], ◌∷◌, find,
}
use forjd.Access.Principals.{service, AuthUser, http_exception, Result, returned, raised}
use forjd.Exports.Jobs.{new_job}
use forjd.Exports.Attempts.{run, new_export}
use forjd.Exports.Requests.{
  csv, Settings, NewExport, Parameters, ExportRow, Created, bounded, may_export, has_request_key,
  create_export_job, Download, create_download,
}
use forjd.Exports.Examples.{takeover, second_key, end}

abbrev exporter : AuthUser
exporter = record {
  user_id = "a1";
  role = "service";
  kind = service;
  tenant_id = some "t1";
  subprocessor = none;
  scopes = "exports:read" ∷ "exports:write" ∷ [];
  opaque_token_prefix = none;
  opaque_token_hash = none;
}

abbrev settings : Settings
settings = record {
  is_production = true;
  object_storage_configured = true;
  export_max_attempts = 3;
}

abbrev asked : NewExport
asked = record {
  idempotency_key = "k1";
  format = csv;
  source_kind = "analytics";
  limit = 0;
  days = 400;
  site_url = none;
}

-- Another request that has the same bounds.
abbrev again : NewExport
again = record asked { limit = 1; days = 90; site_url = some "" }

abbrev digest : Parameters → String
digest p = p.source_kind

abbrev row : ExportRow
row = record {
  id = "e1";
  tenant_id = "t1";
  idempotency_key = "k1";
  request_fingerprint = "analytics";
  parameters = bounded asked;
  content_type = "text/csv; charset=utf-8";
  created_by_actor_id = "a1";
  job = new_job 10 3;
}

abbrev done : ExportRow
done = record row { job = end.job }

created :
    create_export_job digest settings 10 "e1" [] exporter "t1" asked []
    ≡ (row ∷ [], returned (record { duplicate = false; row = row }))
unfolding create_export_job new_job
created = refl

abbrev answer : Download
answer = record { key = second_key; expires_in = 900; checksum_sha256 = some "c5"; byte_size = 80 }

link : create_download settings 410 [] exporter "t1" "e1" (done ∷ []) ≡ returned answer
unfolding create_download run new_export
link = refl

link_opens_stored_artifact_example :
    (has end.stored second_key ≡ true)
    × (second_key.attempt ≡ end.job.attempts)
    × (900 ≤ 900)
    × ((t : ℕ) → end.job.expires_at ≡ some t → end.clock + 900 ≤ t)
unfolding run new_export
link_opens_stored_artifact_example =
    link_opens_stored_artifact 10 3 takeover settings [] exporter "t1" "e1" (done ∷ []) done answer
      refl refl refl link

allowed_again : may_export settings [] exporter "t1" again ≡ returned (bounded again)
unfolding may_export
allowed_again = refl

abbrev next : List ExportRow × Result Created
next = create_export_job digest settings 99 "e2" [] exporter "t1" again (done ∷ [])

creation_is_idempotent_example :
    (find (has_request_key "t1" "k1") (row ∷ []) ≡ some row)
    × (next.0 ≡ done ∷ [])
    × (bounded again ≡ bounded asked → next.1 ≡ returned (record { duplicate = true; row = done }))
    × (digest (bounded again) ≢ digest (bounded asked)
        → next.1
          ≡ raised (
              http_exception 409
                "idempotency_key was already used with different export parameters"))
creation_is_idempotent_example =
    creation_is_idempotent digest settings settings 10 99 "e1" "e2" [] [] exporter exporter "t1"
      asked again [] (row ∷ []) (done ∷ []) (record { duplicate = false; row = row }) done
      (bounded again) created refl refl refl allowed_again

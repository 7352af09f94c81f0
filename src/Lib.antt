-- ===== src/Lib.antt =====
-- Verification library of forjd, a headless security platform: a FastAPI service that stores sealed
-- security events, projects them through workflows, and reacts to them with playbooks.
--
-- The parts that are modelled, with the code that each stands for (paths from the repository's root):
--
-- - Processing: the ledger of accepted ingest batches, the table ingest_processing_batches of
--   backend/sql/024_durable_ingest_processing.sql and the statements on it in
--   backend/app/services/ingest_processing.py. Processing/Batch has a row, and one change with its
--   WHERE clause for each statement (`wake_processing_batches`, `_recover_expired_processing_leases`,
--   `_claim_processing_batches`, `_heartbeat_processing_lease`, `_process_claimed_batch`,
--   `_persist_processing_failure`); Processing/Ledger has the table, its statements and their
--   sequences; Processing/Worker has `_validated_claim`, `_process_claimed_batch` and
--   `tick_ingest_processing`, over an interface to the projections, which Processing/Stored fills
--   from the part Projections. Constraints, Registry, Fences, Attempts, Order,
--   Returned, Outcomes, Stored and Tick have the proofs.
-- - Playbooks: backend/app/services/playbooks.py. Playbooks/Delivery is one webhook attempt
--   (`_run_webhook` to `_durable_webhook_outcome`), Playbooks/Results the rows of
--   playbook_action_results and the statements on them, Playbooks/Plan and
--   Playbooks/Snapshots `_normalize_action_plan`, Playbooks/Catalogue `create_playbook` with
--   `_insert_actions`, Playbooks/Edits `update_playbook` and sequences of edits, Playbooks/Table the
--   step relation of interleaved handlers and workers, Playbooks/Runs the runs and
--   `_execute_run_actions`, Playbooks/Requests `execute_playbook`, Playbooks/Handlers
--   `acknowledge_action` and `retry_action`, Playbooks/Workers `tick_playbook_retries` and
--   `tick_playbook_continuations`. The other files of the folder have the proofs.
-- - Projections: backend/app/services/projections.py. Projections/Checkpoints is `advance_checkpoint`
--   and `advance_checkpoint_from_meta`, Projections/Results `upsert_stream_results`, over the digest
--   of `_projection_result_key`, Projections/DeadLetters `enqueue_projection_dlq` and
--   `resolve_projection_dlq_for_events`; Advance, Scope and OneOpen have the proofs.
-- - Access: who a caller is and what the caller may do. Access/Principals and Access/Bearer are
--   backend/app/core/auth.py (`AuthUser`, `_principal_from_claims`, `_authenticate_opaque_service`,
--   `_bind_jwt_service_principal`, `_authenticate_bearer`), over what the JWT library answers for a
--   token; Access/Tokens the shape of opaque tokens; Access/Tenancy `require_member`,
--   `require_tenant_access` and `create_tenant` of backend/app/services/tenants.py;
--   Access/Accounts and Access/Management backend/app/services/service_accounts.py, over the digest
--   of a token. Access/History has the histories of these operations; Granted, Closed, Revoked,
--   Refused, Created and Minted have the proofs.
-- - Exports: the durable export jobs of backend/app/services/exports.py. Exports/Jobs is a row of
--   export_jobs with each statement on it, Exports/Attempts `_process_claimed_job` as a state machine
--   with its heartbeat, its exception handler, the claims and the lease recovery of
--   `tick_export_jobs`, `_expire_artifacts` and `delete_job`, interleaved in any order over one job
--   and the object storage. Exports/Requests is `create_export_job`, `get_job` and `create_download`.
--   Kept, Fit, Sound, Calls, Rows and Held have the invariant, Promises, Constraints, Progress,
--   Downloads and Creation what follows.
-- - Status: the public status pages of backend/app/services/status.py. Status/Uptime is
--   `_merge_day_stats`, `_fill_uptime_history`, `_day_status` and `_uptime_from_day_stats`,
--   Status/Overall `_overall_status` and `_honest_overall_status` with the proofs about them, and
--   Status/Merged has the proofs about the uptime.
-- - Limits: the sliding window of backend/app/core/rate_limit.py, its script for Redis and what a
--   request gets (`_enforce_sliding_window`), in Limits/Window; Limits/Bound has the proofs.
--
-- Prelude passes on the library's names and has what the parts share: tests and `==`, tables as lists
-- of rows with UPDATE, primary keys, ORDER BY by insertion, predicates on all rows.
--
-- How the parts interact: the worker of Processing runs a workflow on a claimed batch and writes its
-- output through the Projections, in one transaction with the ledger. The playbook tables are written
-- by Playbooks alone. The limiter and the authentication of Access stand in front of the HTTP
-- interface, and every service asks `require_tenant_access` of Access before it works for a tenant.
--
-- State is passed explicitly. A table is a list of rows, and an UPDATE maps its change over the rows
-- that its WHERE clause selects; concurrency is a sequence of such statements, since the database
-- runs each atomically. The clock, `uuid4`, the rows that others have locked (SKIP LOCKED), the
-- answer of an HTTP request and what others do in between are arguments. Times are natural numbers,
-- of seconds or, in Limits, milliseconds; the integers of the code are unbounded or far from their bounds.
--
-- Loops are recursion on a list, so nothing needs fuel: a plan has at most 50 actions, and a tick of
-- the retry worker takes one round for each turn that its batch size allows, at most 200. An attempt at
-- an export is a sequence of calls, each a step of its own.
--
-- Of an export only one job is followed at a time, since every statement names its row and every key
-- names its job. A statement that raises is taken to have had no effect on the database, a call of
-- the object storage that raises may have had one, and the deletion of a row ends its history. The
-- loading of the source and the rendering of the file are one call, and so are the selection of an
-- expired export and the deletion of its artifact.
--
-- A transaction is one change: what its statements write is seen by no other, and an error rolls it
-- back. Where its last statement is the fenced UPDATE, the fence is tested first, which comes to the
-- same. Of Playbooks the audit events before and after an edit may fail on their own; elsewhere an
-- audit event is recorded with what it is about. A batch has one tenant, so that a checkpoint is
-- advanced for that tenant alone.
--
-- Not modelled: schema creation, authorization in front of the handlers of Playbooks, the text of
-- the requests (HTTP headers, the HMAC signature, the DNS checks of outbound requests), the reading
-- of JSON, dates and `Retry-After` texts, logging, and the other services. An action's configuration
-- is modelled by the two keys of webhooks, since the service reads no other. Of the audit trail the
-- action, the tenant and the resource of an event are kept; the digest of a run's request is left
-- out, since it is stored and never read. Still to come are, of Processing, the registration of
-- batches and a tick for given ids, of Playbooks, the matching and the list of playbooks, of Exports,
-- the list of jobs, the tick over the table and the rendering of the files, of Access, the listings,
-- and of Status, the editing of pages, services and incidents. Percentages are kept as fractions,
-- since floating-point numbers are not modelled.
pub mod Prelude
pub mod Processing
pub mod Projections
pub mod Playbooks
pub mod Access
pub mod Exports
pub mod Limits
pub mod Status

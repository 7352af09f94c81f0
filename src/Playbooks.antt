-- ===== src/Playbooks.antt =====
-- Security playbooks: backend/app/services/playbooks.py.
pub mod Delivery
pub mod Attempts
pub mod Results
pub mod Plan
pub mod Catalogue
pub mod Edits
pub mod Apart
pub mod Same
pub mod Atomic
pub mod Keyed
pub mod Versions
pub mod EditExamples
pub mod Snapshots
pub mod Table
pub mod Sequence
pub mod Ordering
pub mod Runs
pub mod Execution
pub mod Rounds
pub mod Quiet
pub mod Constraints
pub mod Finality
pub mod Requests
pub mod Handlers
pub mod Workers
pub mod Summary
pub mod Replays
pub mod Decisions
pub mod Counts
pub mod Progress
pub mod Resumed
pub mod Continuations
pub mod Samples
pub mod Examples
pub mod RequestExamples

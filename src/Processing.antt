-- ===== src/Processing.antt =====
-- The durable ingest processing ledger: backend/app/services/ingest_processing.py.
pub mod Batch
pub mod Ledger
pub mod Constraints
pub mod Registry
pub mod Claim
pub mod Fences
pub mod Attempts
pub mod Order
pub mod Returned
pub mod Examples
pub mod Worker
pub mod Outcomes
pub mod Tick
pub mod Stored

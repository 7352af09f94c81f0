-- ===== src/Exports.antt =====
-- Durable export jobs: backend/app/services/exports.py.
pub mod Jobs
pub mod Attempts
pub mod Kept
pub mod Fit
pub mod Sound
pub mod Calls
pub mod Rows
pub mod Constraints
pub mod Progress
pub mod Held
pub mod Promises
pub mod Requests
pub mod Downloads
pub mod Creation
pub mod Examples
pub mod RequestExamples

-- ===== src/Projections.antt =====
-- The projection store: backend/app/services/projections.py.
pub mod Checkpoints
pub mod Advance
pub mod Results
pub mod Scope
pub mod DeadLetters
pub mod OneOpen
pub mod Examples

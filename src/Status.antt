-- ===== src/Status.antt =====
-- Status pages: backend/app/services/status.py.
pub mod Uptime
pub mod Merged
pub mod Overall
pub mod Examples

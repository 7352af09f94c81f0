-- ===== src/Limits.antt =====
-- The rate limiter: backend/app/core/rate_limit.py.
pub mod Window
pub mod Bound
pub mod Examples

-- ===== src/Access.antt =====
-- Tenants, members, service accounts and the authentication of callers.
pub mod Principals
pub mod Tokens
pub mod Tenancy
pub mod Accounts
pub mod Management
pub mod Bearer
pub mod Granted
pub mod History
pub mod Closed
pub mod Revoked
pub mod Refused
pub mod Created
pub mod Minted
pub mod Examples

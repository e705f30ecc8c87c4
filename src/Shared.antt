-- ===== src/Shared.antt =====
-- The backend's shared kernel (src/litestar_backend/src/shared).
pub mod Errors
pub mod Json
pub mod Postgres
pub mod Sql
pub mod Members
pub mod Texts
pub mod Pagination
pub mod Transactions
pub mod Sessions
pub mod Outbox
pub mod Problems
pub mod Readiness

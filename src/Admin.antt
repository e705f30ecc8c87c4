-- ===== src/Admin.antt =====
-- The admin console of the backend (src/litestar_backend/src/admin): the log viewer.
pub mod Log

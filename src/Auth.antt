-- ===== src/Auth.antt =====
-- The auth context of the backend (src/litestar_backend/src/auth): tokens, API keys, users, and
-- who a request comes from.
pub mod Domain
pub mod Interfaces
pub mod Jwt
pub mod Denylist
pub mod UseCases
pub mod Resolvers
pub mod Facade
pub mod Http
pub mod Middleware
pub mod Revocation
pub mod Access
pub mod Login
pub mod Sql

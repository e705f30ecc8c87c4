-- ===== src/Media.antt =====
-- The media_example context (src/litestar_backend/src/media_example).
pub mod Video
pub mod Tables
pub mod Interfaces
pub mod Statements
pub mod Repo
pub mod Feed
pub mod Fingerprint
pub mod UseCases
pub mod UnitOfWork
pub mod Facade
pub mod Status
pub mod Upload
pub mod StatusConsumer
pub mod Deletion
pub mod Sweeper
pub mod Listing
pub mod Http

-- ===== src/Processing.antt =====
-- The media_processing context of the worker service
-- (src/event_microservice/src/media_processing).
pub mod Domain
pub mod Ports
pub mod UseCases
pub mod Entrypoints
pub mod Join
pub mod Fanout
pub mod Failure
pub mod Adapters

-- ===== src/Media/Status.antt =====
-- The status use cases (media_example/app/status_ucs.py) with the SQL ports and the live feed.
mod Reading
mod Quiet
pub mod Outcome

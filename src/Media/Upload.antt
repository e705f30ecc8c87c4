-- ===== src/Media/Upload.antt =====
-- Uploading a video with the SQL ports: POST /videos down to the tables. The children prove that
-- it is all or nothing, and that a retried request is replayed.
mod Script
mod Effect
pub mod Atomic

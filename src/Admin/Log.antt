-- ===== src/Admin/Log.antt =====
-- admin/log: reading, paging, following and exporting the JSONL log file.
pub mod Bytes
pub mod Source
pub mod Entry
pub mod Reader
pub mod Export
pub mod Facade

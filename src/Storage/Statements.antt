-- ===== src/Storage/Statements.antt =====
-- The SQL statements of whisper/sql and those that whisper/storage.py holds as text.
pub mod Jobs
pub mod Claims
pub mod Slots
pub mod Outbox

-- ===== src/Storage.antt =====
-- whisper/storage.py with the statements under whisper/sql: the durable queue.
pub mod Schema
mod Tests
pub mod Statements
pub mod Uploads
pub mod Attempts
pub mod Delivery
pub mod Validity
pub mod Steps
pub mod Capacity
pub mod Outbox
pub mod Fencing
pub mod Finality
pub mod Turn
pub mod Queueing
pub mod Idempotence
pub mod Requests
pub mod Retention
pub mod Retry
pub mod Redelivery

-- ===== src/Storage/Outbox.antt =====
-- RabbitMQ delivery loses no job: the transactional outbox of whisper/storage.py.
pub mod Rows
pub mod Operations
pub mod Broker
pub mod Runs
use transcriber.Prelude.{◌≡◌, Bool, true, ◌&&◌, ◌==◌, String, All, List}
use transcriber.Prelude.Table
use transcriber.Storage.Schema.{Job, Message, Database, is_waiting}

abbrev pub is_message : String → String → Message → Bool
is_message message id m = m.message_id == message && m.job_id == id

-- A job that waits or runs has the message that its dispatch_id names.
abbrev pub HasMessage : List Message → Job → Type 0
HasMessage outbox j =
    is_waiting j.status ≡ true → Table.exists (is_message j.dispatch_id j.job_id) outbox ≡ true

abbrev pub IsDispatched : Database → Type 0
IsDispatched db = All (HasMessage db.outbox) db.jobs

-- ===== src/Storage/Schema.antt =====
-- The tables of whisper/sql/migrations, and the records of whisper/storage.py.
--
-- Times are microseconds since some epoch, the resolution of TIMESTAMPTZ. A progress or a segment's
-- position, REAL in the table, is a whole number of thousandths.
use transcriber.Prelude.{ℕ, ◌*◌, Bool, true, false, String, Option, none, some, List, ltb}

pub data Status : Type 0 where
  accepted downloading queued running done failed : Status

pub record Segment : Type 0 where
  pub start : ℕ
  pub finish : ℕ
  pub text : String

-- A row of transcription_jobs.
pub record Job : Type 0 where
  pub job_id : String
  pub status : Status
  pub format : String
  pub preset : String
  pub language_override : String
  pub initial_prompt_override : String
  pub input_path : String
  pub result_path : String
  pub error : String
  pub progress_percent : ℕ
  pub attempts : ℕ
  pub max_attempts : ℕ
  pub lease_owner : String
  pub lease_expires_at : Option ℕ
  pub created_at : ℕ
  pub updated_at : ℕ
  pub started_at : Option ℕ
  pub finished_at : Option ℕ
  pub text : String
  pub segments : List Segment
  pub traceparent : String
  pub tracestate : String
  pub request_id : String
  pub retain_until_ack : Bool
  pub acknowledged_at : Option ℕ
  pub assigned_worker_id : String
  pub assigned_instance_id : String
  pub dispatch_id : String
  pub delivery_id : String

-- A row of worker_availability: one execution slot of a worker.
pub record Slot : Type 0 where
  pub worker_id : String
  pub instance_id : String
  pub ready_until : ℕ
  pub reported_at : ℕ
  pub demand_until : ℕ
  pub consumer_until : ℕ

-- A row of transcription_outbox.
pub record Message : Type 0 where
  pub message_id : String
  pub job_id : String
  pub available_at : ℕ
  pub published_at : Option ℕ

pub record Database : Type 0 where
  pub jobs : List Job
  pub slots : List Slot
  pub outbox : List Message

-- The readings of the database's clock in one transaction: NOW() stands still from its start,
-- clock_timestamp() is read by one statement.
pub record Clock : Type 0 where
  pub now : ℕ
  pub wall : ℕ

abbrev pub seconds : ℕ → ℕ
seconds n = n * 1000000

-- A value of WORKER_POLICIES, and the settings that the operations read.
pub record Policy : Type 0 where
  pub priority : ℕ
  pub max_concurrency : ℕ

pub data Backend : Type 0 where
  postgres rabbitmq : Backend

pub record Settings : Type 0 where
  pub lease_seconds : ℕ
  pub max_attempts : ℕ
  pub worker_policies : List (String × Policy)
  pub queue_backend : Backend
  pub demand_ttl_seconds : ℕ
  pub preferred_workers : List String
  pub availability_ttl_seconds : ℕ
  pub storage_root : String

-- The tests on the status column.
abbrev pub is_upload : Status → Bool
is_upload accepted = true
is_upload downloading = true
is_upload _ = false

abbrev pub is_waiting : Status → Bool
is_waiting queued = true
is_waiting running = true
is_waiting _ = false

abbrev pub is_running : Status → Bool
is_running running = true
is_running _ = false

abbrev pub is_queued : Status → Bool
is_queued queued = true
is_queued _ = false

abbrev pub is_terminal : Status → Bool
is_terminal done = true
is_terminal failed = true
is_terminal _ = false

-- `t > x` and `t < x` on a nullable time: a comparison with NULL selects no row.
abbrev pub after : Option ℕ → ℕ → Bool
after none x = false
after (some t) x = ltb x t

abbrev pub before : Option ℕ → ℕ → Bool
before none x = false
before (some t) x = ltb t x

-- `t IS NULL OR t < x`
abbrev pub null_or_before : Option ℕ → ℕ → Bool
null_or_before none x = true
null_or_before (some t) x = ltb t x

-- COALESCE(t, x)
abbrev pub coalesce : Option ℕ → ℕ → Option ℕ
coalesce none x = some x
coalesce (some t) x = some t

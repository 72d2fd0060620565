-- ===== src/Storage/Statements/Jobs.antt =====
-- The UPDATE statements on transcription_jobs that name one job, and those of the cleanup.
use transcriber.Prelude.{
  ℕ, ◌+◌, Bool, false, ◌&&◌, ◌||◌, not, String, Option, none, some, List, ◌==◌, ltb, leb, is_some,
  if◌then◌else◌,
}
use transcriber.Prelude.Table
use transcriber.Prelude.Table.{Update}
use transcriber.Storage.Schema.{
  Status, Job, Segment, Clock, queued, done, failed, seconds, is_upload, is_waiting, is_running,
  is_terminal, after, null_or_before, coalesce,
}

abbrev pub has_id : String → Job → Bool
has_id id j = j.job_id == id

-- `job_id = %s AND lease_owner = %s AND status = 'running' AND lease_expires_at > t`
abbrev pub owned_at : ℕ → String → String → Job → Bool
owned_at t id owner j =
    j.job_id == id
    && (j.lease_owner == owner && (is_running j.status && after j.lease_expires_at t))

-- `_update_status` of storage.py, at the status that it is called with
unfoldable pub set_status : Clock → String → Status → Update Job
set_status clock id status = record {
  rows = λ j. has_id id j && is_upload j.status;
  set = λ j. record j { status = status; updated_at = clock.now };
}

-- the statement of `mark_queued`
unfoldable pub queue : Clock → String → Update Job
queue clock id = record {
  rows = λ j. has_id id j && is_upload j.status;
  set = λ j. record j { status = queued; progress_percent = 0; error = ""; updated_at = clock.now };
}

-- upload_interrupted.sql
unfoldable pub upload_interrupted : Clock → String → Update Job
upload_interrupted clock id = record {
  rows = λ j. has_id id j && is_upload j.status;
  set = λ j. record j { error = "upload_interrupted"; updated_at = clock.now };
}

-- ack.sql
unfoldable pub ack : Clock → String → Update Job
ack clock id = record {
  rows = λ j. has_id id j && is_terminal j.status;
  set = λ j. record j {
    acknowledged_at = coalesce j.acknowledged_at clock.now;
    updated_at = clock.now;
  };
}

-- the statement of `cancel_job`
unfoldable pub cancel : Clock → String → Update Job
cancel clock id = record {
  rows = λ j. has_id id j && not (is_terminal j.status);
  set = λ j. record j {
    status = failed;
    error = "cancelled";
    progress_percent = 0;
    finished_at = some clock.now;
    lease_owner = "";
    lease_expires_at = none;
    updated_at = clock.now;
  };
}

-- heartbeat.sql
unfoldable pub heartbeat : Clock → ℕ → ℕ → String → String → Update Job
heartbeat clock lease_seconds progress id owner = record {
  rows = owned_at clock.wall id owner;
  set = λ j. record j {
    lease_expires_at = some (clock.wall + seconds lease_seconds);
    progress_percent = progress;
    updated_at = clock.now;
  };
}

-- complete.sql
unfoldable pub complete : Clock → String → List Segment → String → String → String → Update Job
complete clock text segments result_path id owner = record {
  rows = owned_at clock.now id owner;
  set = λ j. record j {
    status = done;
    text = text;
    segments = segments;
    result_path = result_path;
    progress_percent = 100000;
    error = "";
    lease_owner = "";
    lease_expires_at = none;
    finished_at = some clock.now;
    updated_at = clock.now;
  };
}

-- `%s AND attempts < max_attempts` of fail.sql
abbrev pub retries : Bool → Job → Bool
retries retryable j = retryable && ltb j.attempts j.max_attempts

-- fail.sql
unfoldable pub fail : Clock → Bool → String → String → String → Update Job
fail clock retryable error id owner = record {
  rows = λ j.
      j.job_id == id
      && (j.lease_owner == owner
          && ((is_running j.status && after j.lease_expires_at clock.now)
              || (owner == "" && is_upload j.status)));
  set = λ j. record j {
    status = if retries retryable j then queued else failed;
    error = error;
    progress_percent = 0;
    lease_owner = "";
    lease_expires_at = none;
    finished_at = if retries retryable j then none else some clock.now;
    updated_at = clock.now;
  };
}

-- reap.sql
unfoldable pub reap : Clock → Update Job
reap clock = record {
  rows = λ j.
      is_running j.status
      && (leb j.max_attempts j.attempts && null_or_before j.lease_expires_at clock.now);
  set = λ j. record j {
    status = failed;
    error = "attempts_exhausted";
    lease_owner = "";
    lease_expires_at = none;
    finished_at = some clock.now;
    updated_at = clock.now;
  };
}

-- `t < NOW() - ttl`, with the subtraction moved to the other side; NULL selects no row
abbrev pub older : Clock → ℕ → Option ℕ → Bool
older clock ttl none = false
older clock ttl (some t) = ltb (t + seconds ttl) clock.now

-- the WHERE of cleanup.sql
unfoldable pub is_expired : Clock → ℕ → Job → Bool
is_expired clock ttl j =
    is_some j.finished_at
    && ((not j.retain_until_ack && older clock ttl j.finished_at)
        || (j.retain_until_ack && (is_some j.acknowledged_at && older clock ttl j.acknowledged_at)))

-- queue_position.sql: the jobs that wait or run and are no younger than the job, which may be gone
unfoldable pub queue_position : String → List Job → ℕ
queue_position id jobs = elim (Table.find (has_id id) jobs) [
  | none ↦ 0
  | some j ↦ Table.count (λ q. is_waiting q.status && leb q.created_at j.created_at) jobs
]

-- ===== src/Storage/Tests/Retries.antt =====
-- A failed attempt of the running job.
use transcriber.Prelude.{◌+◌, none, ◌≡◌, refl, true, some, [], ◌∷◌, ◌++◌, ◌&&◌, ltb, if◌then◌else◌}
use transcriber.Storage.Schema.{Job, Message, queued, failed, seconds}
use transcriber.Storage.Uploads
use transcriber.Storage.Attempts
use transcriber.Storage.Attempts.{retry_delay}
use transcriber.Storage.Steps.Reachable.{Reach-IsValid}
use transcriber.Storage.Retry.{fail_job-owned}
use transcriber.Storage.Tests.{
  settings, at, running_job, running_row, running_reached, owned_running,
}

abbrev over : Job
over = record running_row {
  error = "error";
  progress_percent = 0;
  lease_owner = "";
  lease_expires_at = none;
  updated_at = 5;
}

abbrev message : Message
message = record {
  message_id = "m2";
  job_id = "j1";
  available_at = 5 + seconds (retry_delay running_row.attempts);
  published_at = none;
}

fail_job-owned_example :
    let again = true && ltb running_row.attempts running_row.max_attempts in
    let (db', accepted) =
      Attempts.fail_job settings (at 5) "m2" "j1" "w1/u1" "error" true running_job in
    (accepted ≡ true)
    × (Uploads.get_job "j1" db'
        ≡ some (
            if again
            then record over { status = queued; finished_at = none; dispatch_id = "m2" }
            else record over { status = failed; finished_at = some 5 }))
    × (db'.outbox ≡ (if again then running_job.outbox ++ message ∷ [] else running_job.outbox))
fail_job-owned_example =
    fail_job-owned settings (at 5) "m2" "j1" "w1/u1" "error" true running_job running_row refl
      (Reach-IsValid running_reached) owned_running

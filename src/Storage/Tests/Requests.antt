-- ===== src/Storage/Tests/Requests.antt =====
-- What clients of whisper/storage.py see: retried uploads, turns, cleanups and acknowledgements.
use transcriber.Prelude.{
  ℕ, ◌+◌, ◌≤◌, ◌<◌, ◌≡◌, ◌≢◌, refl, true, false, String, none, some, [], ◌∷◌, inl, inr, ◌⊎◌, eq_iff,
  arith,
}
use transcriber.Prelude.Table
use transcriber.Prelude.Results.{ok}
use transcriber.Prelude.Table.Keys.{In}
use transcriber.Storage.Schema.{
  Job, Database, Settings, postgres, running, done, queued, is_terminal, seconds,
}
use transcriber.Storage.Statements.Jobs
use transcriber.Storage.Statements.Claims
use transcriber.Storage.Statements.Slots
use transcriber.Storage.Statements.Outbox
use transcriber.Storage.Uploads
use transcriber.Storage.Uploads.{Upload, new_job, busy, reservation}
use transcriber.Storage.Attempts
use transcriber.Storage.Attempts.{ClaimedJob, ClaimClock, lease_token}
use transcriber.Storage.Delivery
use transcriber.Storage.Steps
use transcriber.Storage.Steps.{Reach, empty, start, acknowledge, download, interrupt}
use transcriber.Storage.Requests.Runs.{Lives, stay, next}
use transcriber.Storage.Steps.Reachable.{Reach-IsValid}
use transcriber.Storage.Idempotence.{reserve_again, reserve_excludes}
use transcriber.Storage.Turn.{claim_next_job-takes_oldest}
use transcriber.Storage.Retention.{cleanup-keeps_retained, cleanup-deletes_expired}
use transcriber.Storage.Tests.{
  settings, upload, at, hash, backed_by, running_row, finished_reached, finished_job,
}

request_is_named : ◌≢◌ {A = String} "request" ""
request_is_named e = cc ((eq_iff "request" "").1 e)

-- The first upload has begun to write its file and was cut off.
abbrev cut_off : Database
cut_off = Uploads.mark_upload_interrupted (at 3) "j1" (
    Uploads.mark_downloading (at 2) "j1"
      (Uploads.reserve_upload hash settings (at 1) "j1" upload empty []).0)

cut_off-Lives :
    Lives settings "j1" (Uploads.reserve_upload hash settings (at 1) "j1" upload empty []).0 cut_off
unfolding Uploads.mark_upload_interrupted Uploads.mark_downloading Uploads.reserve_upload
    Uploads.reserve_locked Uploads.create_job Uploads.upload_lookup Uploads.holds Table.find
    Table.count Table.update Jobs.set_status Jobs.upload_interrupted new_job
cut_off-Lives =
    next (next stay (download (at 2) "j1") (omega arith)) (interrupt (at 3) "j1") (omega arith)

reserve_again_example :
    let first = new_job settings (at 1) "j1" upload in
    ((Uploads.reserve_upload hash settings (at 1) "j1" upload empty []).1.1 ≡ reservation first)
    × (job : Job) × (Uploads.get_job "j1" cut_off ≡ some job)
    × (job.input_path ≡ first.input_path)
    × (Uploads.reserve_upload hash settings (at 4) "j2" upload cut_off []
        ≡ (cut_off, (hash "request" ∷ [], reservation job)))
reserve_again_example =
    reserve_again hash settings upload request_is_named (at 1) (at 4) "j1" "j2" empty cut_off [] []
      start (unfold Table.count in refl) (unfold Uploads.upload_lookup Table.find in refl)
      (unfold Uploads.holds in refl) cut_off-Lives (unfold Uploads.holds in refl)

abbrev other_upload : Upload
other_upload = record upload { format = "mp3" }

abbrev first_reservation : Uploads.UploadReservation
first_reservation = record {
  job = new_job settings (at 1) "j1" upload;
  input_path = "/data/jobs/j1/input.wav";
  needs_upload = true;
}

first_is_reserved :
    (Uploads.reserve_upload hash settings (at 1) "j1" upload empty []).1.1
    ≡ Uploads.reserved first_reservation
unfolding Uploads.reserve_upload Uploads.reserve_locked Uploads.create_job Uploads.upload_lookup
    Uploads.holds Table.find new_job
first_is_reserved = refl

reserve_excludes_example :
    let (db', (locks', _)) = Uploads.reserve_upload hash settings (at 1) "j1" upload empty [] in
    Uploads.reserve_upload hash settings (at 2) "j2" other_upload db' locks' ≡ (db', (locks', busy))
reserve_excludes_example =
    reserve_excludes hash settings upload request_is_named (at 1) (at 2) "j1" "j2" empty []
      other_upload first_reservation refl first_is_reserved

abbrev unranked : Settings
unranked = record (backed_by postgres) { worker_policies = [] }

abbrev waiting_row : Job
waiting_row = record (new_job unranked (at 1) "j1" upload) { status = queued }

abbrev younger_row : Job
younger_row = record (new_job unranked (at 2) "j2" upload) { status = queued; request_id = "" }

abbrev two_waiting : Database
two_waiting = record { jobs = younger_row ∷ waiting_row ∷ []; slots = []; outbox = [] }

abbrev claimed_at : ClaimClock
claimed_at = record { now = 3; requested = 3; selected = 3; leased = 3 }

claim_next_job-takes_oldest_example :
    (db' : Database) × (c : ClaimedJob) × (Attempts.claim_next_job unranked claimed_at "u1"
        (λ row. false)
        false
        "w1"
        "i1"
        two_waiting
      ≡ ok (db', some c))
    × (c.job.created_at ≤ waiting_row.created_at)
    × (c.job.status ≡ running)
    × (c.job.lease_owner ≡ lease_token "w1" "u1")
    × (c.job.lease_expires_at ≡ some (claimed_at.now + seconds unranked.lease_seconds))
claim_next_job-takes_oldest_example =
    claim_next_job-takes_oldest unranked claimed_at "u1" (λ row. false) false "w1" "i1" two_waiting
      waiting_row refl refl (unfold Claims.may_claim Claims.contains in refl) (inr (inl refl))
      (unfold new_job in refl) refl

abbrev finished_row : Job
finished_row = record running_row {
  status = done;
  text = "words";
  result_path = "/r";
  progress_percent = 100000;
  lease_owner = "";
  lease_expires_at = none;
  finished_at = some 5;
  updated_at = 5;
}

finished_rows : finished_job.jobs ≡ finished_row ∷ []
unfolding Table.count Table.find Table.update Table.exists Table.select new_job
    Uploads.reserve_upload Uploads.reserve_locked Uploads.create_job Uploads.upload_lookup
    Uploads.holds Uploads.unlock Uploads.enqueue Uploads.mark_queued Delivery.report_availability
    Delivery.register_consumer Delivery.begin_attempt Delivery.begin_row Delivery.start_attempt
    Attempts.complete_job Jobs.queue Jobs.complete Outbox.dispatch Outbox.outbox_insert
    Slots.policy_of Slots.report_availability Slots.cleanup_availability Slots.renew
    Slots.broker_admit Slots.occupied Slots.distinct Claims.contains Claims.broker_capacity
    Claims.broker_start
finished_rows = refl

finished_is_there : In finished_row finished_job.jobs
finished_is_there = rw finished_rows (inl refl)

cleanup-keeps_retained_example :
    In finished_row (Delivery.cleanup_expired_jobs (at 900000000) 1 finished_job).0.jobs
cleanup-keeps_retained_example =
    cleanup-keeps_retained (at 900000000) 1 finished_job finished_row finished_is_there
      (unfold new_job in refl) (unfold new_job in refl) refl

abbrev read_job : Database
read_job = (Uploads.acknowledge_job (at 6) "j1" finished_job).0

abbrev read_row : Job
read_row = record finished_row { acknowledged_at = some 6; updated_at = 6 }

read_is_deleted : In read_row (Delivery.cleanup_expired_jobs (at 900000000) 1 read_job).1
unfolding Delivery.cleanup_expired_jobs Uploads.acknowledge_job Jobs.ack Jobs.reap Jobs.is_expired
    Jobs.older Table.update Table.select new_job
read_is_deleted = rw finished_rows (inl refl)

read_reached : Reach settings read_job
read_reached = Steps.step finished_reached (acknowledge (at 6) "j1")

cleanup-deletes_expired_example :
    (is_terminal read_row.status ≡ true)
    × (((read_row.retain_until_ack ≡ false)
          × (t : ℕ) × (read_row.finished_at ≡ some t)
          × (t + seconds 1 < 900000000))
        ⊎ ((read_row.retain_until_ack ≡ true)
            × (t : ℕ) × (read_row.acknowledged_at ≡ some t)
            × (t + seconds 1 < 900000000)))
cleanup-deletes_expired_example =
    cleanup-deletes_expired (at 900000000) 1 read_job read_row (Reach-IsValid read_reached)
      read_is_deleted

found_finished : Uploads.get_job "j1" finished_job ≡ some finished_row
unfolding Uploads.get_job Table.find new_job
found_finished = rw finished_rows refl

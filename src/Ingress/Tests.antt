-- ===== src/Ingress/Tests.antt =====
-- An upload in two messages over a small volume, whole and interrupted.
mod Answers
use transcriber.Prelude.{
  ℕ, ◌+◌, ◌≤◌, ◌≡◌, ◌≢◌, refl, Bool, true, false, String, Option, none, some, List, [], ◌∷◌, eq_iff,
}
use transcriber.Prelude.Results.{ok, err}
use transcriber.Prelude.Table
use transcriber.Storage.Schema.{Job, Database, Clock, Settings, postgres, queued, downloading}
use transcriber.Storage.Statements.Jobs
use transcriber.Storage.Uploads
use transcriber.Storage.Uploads.{Upload, UploadReservation, new_job}
use transcriber.Storage.Validity.{IsValid}
use transcriber.Storage.Steps
use transcriber.Storage.Steps.{Reach, empty, reserve, download}
use transcriber.Storage.Steps.Reachable.{Reach-IsValid}
use transcriber.Admission
use transcriber.Admission.{UploadLimits, Volume}
use transcriber.WorkerAuth
use transcriber.Ingress
use transcriber.Ingress.{FirstChunk, Trace, upload_of, check_first, internal}
use transcriber.Ingress.Submit
use transcriber.Ingress.Submit.{
  System, Stream, Clocks, Draws, Shared, SubmitResponse, submit_reserved, submit, chunk,
}
use transcriber.Ingress.Uploaded.{IsWhole, byte_count, submit_reserved-IsWhole}
use transcriber.Ingress.Retried.{submit_reserved-retry}
use transcriber.Ingress.Released.{submit-locks}

abbrev pub settings : Settings
settings = record {
  lease_seconds = 900;
  max_attempts = 3;
  worker_policies = [];
  queue_backend = postgres;
  demand_ttl_seconds = 10;
  preferred_workers = [];
  availability_ttl_seconds = 90;
  storage_root = "/data/jobs";
}

abbrev pub at : ℕ → Clock
at t = record { now = t; wall = t }

abbrev limits : UploadLimits
limits = record {
  audio_bytes = 1000;
  storage_bytes = 100000;
  min_free_bytes = 5000;
  concurrent_uploads = 2;
}

abbrev system : System
system = record {
  parent = λ path. "/data/jobs/j1";
  glob_parts = λ folder v. [];
  unlink = λ path v. v;
  create = λ path v. (v, none);
  os_write = λ v path n. (v, n);
  replace = λ from to v. (v, none);
}

abbrev first : FirstChunk
first = record {
  format = "wav";
  options = none;
  request_id = "request";
  retain_until_ack = true;
  byte_size = 100;
}

abbrev stream_until : Bool → Stream
stream_until active = record {
  arrivals = chunk 200 ∷ [];
  is_active = active;
  flush = none;
  meanwhile = λ db. db;
}

abbrev trace : Trace
trace = record { traceparent = ""; tracestate = "" }

abbrev clocks : Clocks
clocks = record { reserve = at 1; download = at 2; settle = at 3 }

abbrev draws : Draws
draws = record { job = "j1"; part = "p"; token = "a.slot"; message = "m1" }

abbrev hash : String → ℕ
hash s = 7

abbrev idle : Shared
idle = record {
  db = empty;
  locks = [];
  volume = record { files = []; slots = []; f_frsize = 4096; free = 100000 };
}

-- The concrete run.
submitted :
    (submit system limits hash settings clocks draws trace (some first) (stream_until true) idle).1
    ≡ ok (record { job_id = "j1"; queue_position = 1 })
unfolding submit Submit.enter check_first Ingress.is_format Ingress.is_request_id
    WorkerAuth.all_codes Uploads.release_upload submit_reserved Submit.store_audio Submit.conclude
    Submit.finish Submit.receive Submit.write_file Submit.write_chunks Submit.publish_file
    Submit.unlink_all Submit.call_error Submit.abandon Submit.error_code Admission.upload
    Admission.active_uploads Admission.check_capacity Admission.allocation Admission.storage_bytes
    Admission.write Admission.finish_upload Table.count Table.find Table.update Table.select
    Uploads.mark_queued Uploads.mark_downloading Uploads.mark_upload_interrupted
    Uploads.reserve_upload Uploads.reserve_locked Uploads.create_job Uploads.upload_lookup
    Uploads.holds Uploads.unlock Uploads.queue_position Uploads.enqueue upload_of new_job Jobs.queue
    Jobs.set_status Jobs.upload_interrupted Jobs.queue_position
submitted = refl

abbrev upload : Upload
upload = upload_of trace first

abbrev job : Job
job = new_job settings (at 1) "j1" upload

abbrev new_reservation : UploadReservation
new_reservation = record { job = job; input_path = job.input_path; needs_upload = true }

abbrev reserved_upload : Shared
reserved_upload = record idle {
  db = (Uploads.reserve_upload hash settings (at 1) "j1" upload empty []).0;
  locks = 7 ∷ [];
}

downloading-IsValid : IsValid (Uploads.mark_downloading (at 2) "j1" reserved_upload.db).jobs
unfolding Table.count
downloading-IsValid = Reach-IsValid {settings = settings} (
    Steps.step (Steps.step Steps.start (reserve hash (at 1) "j1" upload [] refl))
      (download (at 2) "j1"))

answered :
    (submit_reserved system limits settings clocks draws new_reservation first
      (stream_until true)
      reserved_upload).1
    ≡ ok (record { job_id = "j1"; queue_position = 1 })
unfolding submit_reserved Submit.store_audio Submit.conclude Submit.finish Submit.receive
    Submit.write_file Submit.write_chunks Submit.publish_file Submit.unlink_all Submit.call_error
    Submit.abandon Submit.error_code Admission.upload Admission.active_uploads
    Admission.check_capacity Admission.allocation Admission.storage_bytes Admission.write
    Admission.finish_upload Table.count Table.find Table.update Table.select Uploads.mark_queued
    Uploads.mark_downloading Uploads.mark_upload_interrupted Uploads.reserve_upload
    Uploads.reserve_locked Uploads.create_job Uploads.upload_lookup Uploads.holds Uploads.unlock
    Uploads.queue_position Uploads.enqueue upload_of new_job Jobs.queue Jobs.set_status
    Jobs.upload_interrupted Jobs.queue_position
answered = refl

submit_reserved-IsWhole_example :
    let db =
      (submit_reserved system limits settings clocks draws new_reservation first
        (stream_until true)
        reserved_upload).0.db in
    IsWhole (chunk 200 ∷ [])
    × (100 + byte_count (chunk 200 ∷ []) ≤ 1000)
    × ◌≡◌ {A = Bool} true true
    × ◌≡◌ {A = Option Submit.Fault} none none
    × ◌≡◌ {A = String} "j1" "j1"
    × (1 ≡ Uploads.queue_position "j1" db)
    × (j : Job) × (Uploads.get_job "j1" db ≡ some j)
    × (j.status ≡ queued)
unfolding new_job
submit_reserved-IsWhole_example =
    submit_reserved-IsWhole system limits settings clocks draws new_reservation first
      (stream_until true) reserved_upload (record { job_id = "j1"; queue_position = 1 }) refl
      downloading-IsValid answered

-- The same upload, cut off after its messages.
interrupted :
    (submit_reserved system limits settings clocks draws new_reservation first
      (stream_until false)
      reserved_upload).1
    ≡ err internal
unfolding submit_reserved Submit.store_audio Submit.conclude Submit.finish Submit.receive
    Submit.write_file Submit.write_chunks Submit.publish_file Submit.unlink_all Submit.call_error
    Submit.abandon Submit.error_code Admission.upload Admission.active_uploads
    Admission.check_capacity Admission.allocation Admission.storage_bytes Admission.write
    Admission.finish_upload Table.count Table.find Table.update Table.select Uploads.mark_queued
    Uploads.mark_downloading Uploads.mark_upload_interrupted Uploads.reserve_upload
    Uploads.reserve_locked Uploads.create_job Uploads.upload_lookup Uploads.holds Uploads.unlock
    Uploads.queue_position Uploads.enqueue upload_of new_job Jobs.queue Jobs.set_status
    Jobs.upload_interrupted Jobs.queue_position
interrupted = refl

named : job.request_id ≢ ""
unfolding new_job upload_of
named e = cc

downloaded :
    Uploads.get_job "j1" (Uploads.mark_downloading (at 2) "j1" reserved_upload.db)
    ≡ some (record job { status = downloading; updated_at = 2 })
unfolding Uploads.get_job Submit.store_audio Submit.conclude Submit.finish Submit.receive
    Submit.write_file Submit.write_chunks Submit.publish_file Submit.unlink_all Submit.call_error
    Submit.abandon Submit.error_code Admission.upload Admission.active_uploads
    Admission.check_capacity Admission.allocation Admission.storage_bytes Admission.write
    Admission.finish_upload Table.count Table.find Table.update Table.select Uploads.mark_queued
    Uploads.mark_downloading Uploads.mark_upload_interrupted Uploads.reserve_upload
    Uploads.reserve_locked Uploads.create_job Uploads.upload_lookup Uploads.holds Uploads.unlock
    Uploads.queue_position Uploads.enqueue upload_of new_job Jobs.queue Jobs.set_status
    Jobs.upload_interrupted Jobs.queue_position
downloaded = refl

abbrev cut_off : Job
cut_off = record job { status = downloading; error = "upload_interrupted"; updated_at = 3 }

submit_reserved-retry_example :
    let db =
      (submit_reserved system limits settings clocks draws new_reservation first
        (stream_until false)
        reserved_upload).0.db in
    (Uploads.get_job "j1" db ≡ some cut_off)
    × (Uploads.reserve_upload hash settings (at 9) "j2" upload db [] ≡ (
      db,
      (
        hash upload.request_id ∷ [],
        Uploads.reserved
            (record { job = cut_off; input_path = job.input_path; needs_upload = true }),
      ),
    ))
unfolding new_job upload_of
submit_reserved-retry_example =
    submit_reserved-retry system limits settings hash clocks draws new_reservation first
      (stream_until false) reserved_upload (record job { status = downloading; updated_at = 2 })
      upload (at 9) "j2" [] refl named downloading-IsValid downloaded refl refl refl refl
      (unfold Uploads.holds in refl) interrupted

submit-locks_example :
    (submit system limits hash settings clocks draws trace
      (some first)
      (stream_until false)
      idle).0.locks
    ≡ []
submit-locks_example =
    submit-locks system limits settings hash clocks draws trace (some first) (stream_until false)
      idle

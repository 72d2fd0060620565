-- ===== src/Storage/Tests.antt =====
-- One job's life under concrete settings, and the theorems of whisper/storage.py at its states.
mod Requests
mod Retries
mod Redelivered
use transcriber.Prelude.{
  ℕ, ◌≡◌, ◌≢◌, refl, Bool, true, false, String, none, some, List, [], ◌∷◌, arith, inl, ◌⊎◌, eq_iff,
}
use transcriber.Prelude.Table
use transcriber.Prelude.Results.{ok}
use transcriber.Storage.Schema.{
  Job, Database, Clock, Settings, Backend, postgres, rabbitmq, queued, running, done,
}
use transcriber.Storage.Uploads
use transcriber.Storage.Uploads.{Upload, new_job}
use transcriber.Storage.Attempts
use transcriber.Storage.Delivery
use transcriber.Storage.Delivery.{Attempt, BeginClock}
use transcriber.Storage.Statements.Jobs
use transcriber.Storage.Statements.Jobs.{has_id}
use transcriber.Storage.Statements.Claims
use transcriber.Storage.Statements.Slots
use transcriber.Storage.Statements.Outbox
use transcriber.Storage.Validity.{IsValid}
use transcriber.Storage.Steps
use transcriber.Storage.Steps.{
  Reach, empty, reserve, queue, report, register, begin, complete, cancel,
}
use transcriber.Storage.Steps.Reachable.{Reach-IsValid}
use transcriber.Storage.Capacity
use transcriber.Storage.Capacity.{Run, IsWithin}
use transcriber.Storage.Capacity.Runs.{Run-IsWithin}
use transcriber.Storage.Outbox.{IsDispatched}
use transcriber.Storage.Outbox.Runs.{Reach-IsDispatched}
use transcriber.Storage.Finality.{Outcome, Shows}
use transcriber.Storage.Finality.Runs.{Step-Shows}
use transcriber.Storage.Fencing.{stale_token_refused}

abbrev pub backed_by : Backend → Settings
backed_by backend = record {
  lease_seconds = 900;
  max_attempts = 3;
  worker_policies = ("w1", record { priority = 10; max_concurrency = 1 }) ∷ [];
  queue_backend = backend;
  demand_ttl_seconds = 10;
  preferred_workers = [];
  availability_ttl_seconds = 90;
  storage_root = "/data/jobs";
}

abbrev pub settings : Settings
settings = backed_by rabbitmq

abbrev pub upload : Upload
upload = record {
  format = "wav";
  preset = "fast";
  language_override = "";
  initial_prompt_override = "";
  traceparent = "";
  tracestate = "";
  request_id = "request";
  retain_until_ack = true;
}

abbrev pub at : ℕ → Clock
at t = record { now = t; wall = t }

abbrev pub hash : String → ℕ
hash s = 7

abbrev pub attempt : Attempt
attempt = record {
  worker_id = "w1";
  instance_id = "i1";
  job_id = "j1";
  message_id = "m1";
  delivery_id = "d1";
}

abbrev pub begun_at : ℕ → BeginClock
begun_at t = record { now = t; found = t; counted = t; started_at = t }

abbrev pub accepted_job : Database
accepted_job = (Uploads.reserve_upload hash settings (at 1) "j1" upload empty []).0

abbrev pub queued_job : Database
queued_job = (Uploads.mark_queued settings (at 2) "m1" "j1" accepted_job).0

abbrev offered_job : Database
offered_job = (Delivery.report_availability settings (at 3) "w1" "i1" true queued_job).0

abbrev pub admitted_job : Database
admitted_job = (Delivery.register_consumer settings (at 3) "w1" "i1" offered_job).0

abbrev pub running_job : Database
running_job = (Delivery.begin_attempt settings (begun_at 4) "u1" attempt admitted_job).0

abbrev pub finished_job : Database
finished_job = (Attempts.complete_job (at 5) "j1" "w1/u1" "words" [] "/r" running_job).0

pub running_reached : Reach settings running_job
unfolding Table.count
running_reached =
    Steps.step
      (Steps.step
        (Steps.step
          (Steps.step (Steps.step Steps.start (reserve hash (at 1) "j1" upload [] refl))
            (queue (at 2) "m1" "j1"))
          (report (at 3) "w1" "i1" true))
        (register (at 3) "w1" "i1"))
      (begin (begun_at 4) "u1" attempt)

pub finished_reached : Reach settings finished_job
finished_reached = Steps.step running_reached (complete (at 5) "j1" "w1/u1" "words" [] "/r")

running_timed : Run settings 4 running_job
unfolding Table.count
running_timed =
    Capacity.step {t = 0}
      (Capacity.step {t = 0} {t' = 0}
        (Capacity.step {t = 0} {t' = 0}
          (Capacity.step {t = 0} {t' = 0}
            (Capacity.step {t = 0} {t' = 0} Capacity.start (reserve hash (at 1) "j1" upload [] refl)
              (omega arith))
            (queue (at 2) "m1" "j1") (omega arith))
          (report (at 3) "w1" "i1" true) (omega arith))
        (register (at 3) "w1" "i1") (omega arith))
      (begin (begun_at 4) "u1" attempt) (omega arith, omega arith, omega arith, refl)

abbrev pub running_row : Job
running_row = record (new_job settings (at 1) "j1" upload) {
  status = running;
  attempts = 1;
  lease_owner = "w1/u1";
  lease_expires_at = some 900000004;
  started_at = some 4;
  updated_at = 4;
  assigned_worker_id = "w1";
  assigned_instance_id = "i1";
  dispatch_id = "m1";
  delivery_id = "d1";
}

abbrev pub outcome : Outcome
outcome = record {
  status = done;
  text = "words";
  segments = [];
  result_path = "/r";
  error = "";
  finished_at = some 5;
}

Reach-IsValid_example : IsValid finished_job.jobs
Reach-IsValid_example = Reach-IsValid finished_reached

Run-IsWithin_example : IsWithin settings 4 running_job.jobs
Run-IsWithin_example = Run-IsWithin settings refl running_timed

Reach-IsDispatched_example : IsDispatched running_job
Reach-IsDispatched_example = Reach-IsDispatched refl running_reached

finished_result : Shows "j1" outcome finished_job.jobs
unfolding Table.count Table.find Table.update Table.exists Table.select new_job
    Uploads.reserve_upload Uploads.reserve_locked Uploads.create_job Uploads.upload_lookup
    Uploads.holds Uploads.unlock Uploads.enqueue Uploads.mark_queued Uploads.cancel_job
    Delivery.report_availability Delivery.register_consumer Delivery.begin_attempt
    Delivery.begin_row Delivery.start_attempt Attempts.complete_job Attempts.get_owned_job
    Jobs.queue Jobs.complete Outbox.dispatch Outbox.outbox_insert Slots.policy_of
    Slots.report_availability Slots.cleanup_availability Slots.renew Slots.broker_admit
    Slots.occupied Slots.distinct Claims.contains Claims.broker_capacity Claims.broker_start
finished_result = refl

abbrev cancelled : Database
cancelled = (Uploads.cancel_job (at 6) "j1" finished_job).0

Step-Shows_example :
    Shows "j1" outcome cancelled.jobs ⊎ (Table.count (has_id "j1") cancelled.jobs ≡ 0)
Step-Shows_example =
    Step-Shows "j1" outcome refl finished_reached finished_result (cancel (at 6) "j1")

pub owned_running : Attempts.get_owned_job (at 5) "j1" "w1/u1" running_job ≡ some running_row
unfolding Table.count Table.find Table.update Table.exists Table.select new_job
    Uploads.reserve_upload Uploads.reserve_locked Uploads.create_job Uploads.upload_lookup
    Uploads.holds Uploads.unlock Uploads.enqueue Uploads.mark_queued Uploads.cancel_job
    Delivery.report_availability Delivery.register_consumer Delivery.begin_attempt
    Delivery.begin_row Delivery.start_attempt Attempts.complete_job Attempts.get_owned_job
    Jobs.queue Jobs.complete Outbox.dispatch Outbox.outbox_insert Slots.policy_of
    Slots.report_availability Slots.cleanup_availability Slots.renew Slots.broker_admit
    Slots.occupied Slots.distinct Claims.contains Claims.broker_capacity Claims.broker_start
owned_running = refl

other_token : ◌≢◌ {A = String} "w1/u2" "w1/u1"
other_token e = cc ((eq_iff "w1/u2" "w1/u1").1 e)

stale_token_refused_example :
    (Attempts.complete_job (at 6) "j1" "w1/u2" "text" [] "/r" running_job ≡ (running_job, false))
    × (Attempts.heartbeat settings (at 6) "j1" "w1/u2" 0 running_job ≡ (running_job, false))
    × (Attempts.fail_job settings (at 6) "m2" "j1" "w1/u2" "error" true running_job
        ≡ (running_job, false))
stale_token_refused_example =
    stale_token_refused (at 5) "j1" "w1/u1" "w1/u2" running_job (Reach-IsValid running_reached)
      owned_running other_token settings (at 6) "m2" "text" "/r" "error" [] 0 true

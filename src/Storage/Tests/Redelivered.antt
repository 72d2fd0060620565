-- ===== src/Storage/Tests/Redelivered.antt =====
-- The message of the running job, delivered again.
use transcriber.Prelude.{◌≡◌, refl, some}
use transcriber.Prelude.Table
use transcriber.Storage.Statements.Jobs
use transcriber.Storage.Statements.Claims
use transcriber.Storage.Statements.Slots
use transcriber.Storage.Statements.Outbox
use transcriber.Storage.Uploads
use transcriber.Storage.Uploads.{new_job}
use transcriber.Storage.Attempts.{ClaimedJob}
use transcriber.Storage.Delivery
use transcriber.Storage.Delivery.{Attempt, started, busy}
use transcriber.Storage.Redelivery.{begin_attempt-again, begin_attempt-busy}
use transcriber.Storage.Tests.{settings, attempt, begun_at, admitted_job, running_job, running_row}

abbrev claimed : ClaimedJob
claimed = record { job = running_row; lease_owner = "w1/u1"; lease_expires_at = some 900000004 }

begun :
    Delivery.begin_attempt settings (begun_at 4) "u1" attempt admitted_job
    ≡ (running_job, started claimed)
unfolding Table.count Table.find Table.update Table.exists Table.select new_job
    Uploads.reserve_upload Uploads.reserve_locked Uploads.create_job Uploads.upload_lookup
    Uploads.holds Uploads.unlock Uploads.enqueue Uploads.mark_queued Delivery.report_availability
    Delivery.register_consumer Delivery.begin_attempt Delivery.begin_row Delivery.start_attempt
    Jobs.queue Outbox.dispatch Outbox.outbox_insert Slots.policy_of Slots.report_availability
    Slots.cleanup_availability Slots.renew Slots.broker_admit Slots.occupied Slots.distinct
    Claims.contains Claims.broker_capacity Claims.broker_start
begun = refl

begin_attempt-again_example :
    Delivery.begin_attempt settings (begun_at 5) "u2" attempt running_job
    ≡ (running_job, started claimed)
begin_attempt-again_example =
    begin_attempt-again settings (begun_at 4) (begun_at 5) "u1" "u2" attempt admitted_job
      running_job claimed begun refl

abbrev other_delivery : Attempt
other_delivery = record attempt { worker_id = "w2"; delivery_id = "d2" }

begin_attempt-busy_example :
    Delivery.begin_attempt settings (begun_at 5) "u2" other_delivery running_job
    ≡ (running_job, busy)
begin_attempt-busy_example =
    begin_attempt-busy settings (begun_at 4) (begun_at 5) "u1" "u2" attempt other_delivery
      admitted_job running_job claimed begun refl refl refl refl

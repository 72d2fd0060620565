-- ===== src/Storage/Steps/Reachable.antt =====
-- Every database that the service reaches is valid.
use transcriber.Prelude.{arith, not}
use transcriber.Prelude.Table
use transcriber.Storage.Schema.{Database, Settings, downloading}
use transcriber.Storage.Statements.Jobs
use transcriber.Storage.Statements.Outbox
use transcriber.Storage.Uploads
use transcriber.Storage.Attempts
use transcriber.Storage.Delivery
use transcriber.Storage.Steps.{
  Step, Reach, reserve, download, interrupt, queue, acknowledge, cancel, claim, heartbeat, complete,
  fail, begin, publish, register, report, clean_up, reconcile, start, step,
}
use transcriber.Storage.Validity.{IsValid}
use transcriber.Storage.Validity.Rows
use transcriber.Storage.Validity.Operations
use transcriber.Storage.Validity.Operations.{execute-IsValid, select-IsValid}
use transcriber.Storage.Validity.Attempts as AttemptsValidity

-- One step keeps the table of jobs valid.
pub Step-IsValid :
    (settings : Settings) (db : Database) {db' : Database}
    → Step settings db db'
    → IsValid db.jobs
    → IsValid db'.jobs
unfolding Uploads.mark_downloading Uploads.mark_upload_interrupted Uploads.acknowledge_job
    Uploads.cancel_job Attempts.heartbeat Attempts.complete_job Delivery.publish_next
    Delivery.register_consumer Delivery.report_availability Delivery.cleanup_expired_jobs
    Delivery.reconcile
Step-IsValid settings db (reserve hash clock uuid upload locks fresh) h =
    Operations.reserve_upload-IsValid hash settings clock uuid upload db locks fresh h
Step-IsValid settings db (download clock id) h =
    execute-IsValid (Jobs.set_status clock id downloading) db.jobs (Rows.downloading-Keeps clock id)
      h
Step-IsValid settings db (interrupt clock id) h =
    execute-IsValid (Jobs.upload_interrupted clock id) db.jobs (Rows.interrupted-Keeps clock id) h
Step-IsValid settings db (queue clock uuid id) h =
    Operations.mark_queued-IsValid settings clock uuid id db h
Step-IsValid settings db (acknowledge clock id) h =
    execute-IsValid (Jobs.ack clock id) db.jobs (Rows.ack-Keeps clock id) h
Step-IsValid settings db (cancel clock id) h =
    execute-IsValid (Jobs.cancel clock id) db.jobs (Rows.cancel-Keeps clock id) h
Step-IsValid settings db
      (claim clock uuid locked fallback worker instance {db' = db'} {claimed = c} e) h =
    AttemptsValidity.claim_next_job-IsValid settings clock uuid locked fallback worker instance db
      db' c e h
Step-IsValid settings db (heartbeat clock id owner progress) h =
    execute-IsValid (Jobs.heartbeat clock settings.lease_seconds progress id owner) db.jobs
      (Rows.heartbeat-Keeps clock settings.lease_seconds progress id owner) h
Step-IsValid settings db (complete clock id owner text segments path) h =
    execute-IsValid (Jobs.complete clock text segments path id owner) db.jobs
      (Rows.complete-Keeps clock text segments path id owner) h
Step-IsValid settings db (fail clock uuid id owner error retryable) h =
    AttemptsValidity.fail_job-IsValid settings clock uuid id owner error retryable db h
Step-IsValid settings db (begin clock uuid a) h =
    AttemptsValidity.begin_attempt-IsValid settings clock uuid a db h
Step-IsValid settings db (publish clock locked confirm) h = ground (arith, h)
Step-IsValid settings db (register clock worker instance) h = ground (arith, h)
Step-IsValid settings db (report clock worker instance ready) h = h
Step-IsValid settings db (clean_up clock ttl) h =
    select-IsValid (λ j. not (Jobs.is_expired clock ttl j))
      (Table.execute (Jobs.reap clock) db.jobs)
      (execute-IsValid (Jobs.reap clock) db.jobs (Rows.reap-Keeps clock) h)
Step-IsValid settings db (reconcile clock uuid) h =
    let fenced = Table.execute (Outbox.broker_reconcile clock) db.jobs in
    execute-IsValid (Outbox.broker_seed uuid) fenced (Rows.seed-Keeps uuid)
      (execute-IsValid (Outbox.broker_reconcile clock) db.jobs (Rows.reconcile-Keeps clock) h)

-- In every database that a run of the service reaches, whatever the interleaving of the operations
-- and whatever the clocks read, job IDs and non-empty request IDs are unique, and each row is
-- consistent: exactly the running jobs are leased, exactly the finished ones have a finish time,
-- only those are acknowledged, and no job has begun more attempts than its maximum.
pub Reach-IsValid : {settings : Settings} {db : Database} → Reach settings db → IsValid db.jobs
unfolding Table.count
Reach-IsValid start = record { rows = tt; ids = λ id. omega arith; requests = λ r ne. omega arith }
Reach-IsValid {settings} (step {db = before} reached s) =
    Step-IsValid settings before s (Reach-IsValid reached)

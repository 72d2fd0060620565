-- ===== src/Storage/Finality/Runs.antt =====
-- No step of a run changes the result of a finished job.
use transcriber.Prelude.{◌≡◌, true, String, arith, inl, ◌⊎◌}
use transcriber.Prelude.Table
use transcriber.Storage.Schema.{Database, Settings, downloading, is_terminal}
use transcriber.Storage.Statements.Jobs
use transcriber.Storage.Statements.Jobs.{has_id}
use transcriber.Storage.Statements.Outbox
use transcriber.Storage.Uploads
use transcriber.Storage.Attempts
use transcriber.Storage.Delivery
use transcriber.Storage.Validity.{IsValid}
use transcriber.Storage.Steps.{
  Step, Reach, reserve, download, interrupt, queue, acknowledge, cancel, claim, heartbeat, complete,
  fail, begin, publish, register, report, clean_up, reconcile,
}
use transcriber.Storage.Steps.Reachable.{Reach-IsValid}
use transcriber.Storage.Finality.{Outcome, Shows}
use transcriber.Storage.Finality.Rows as Settling
use transcriber.Storage.Finality.Rows.{execute-Shows}
use transcriber.Storage.Finality.Operations

module _ {settings : Settings} (id : String) (o : Outcome)
    (terminal : is_terminal o.status ≡ true) where
  keeps_or_drops :
      (db : Database) {db' : Database}
      → Step settings db db'
      → IsValid db.jobs
      → Shows id o db.jobs
      → Shows id o db'.jobs ⊎ (Table.count (has_id id) db'.jobs ≡ 0)
  unfolding Uploads.mark_downloading Uploads.mark_upload_interrupted Uploads.acknowledge_job
      Uploads.cancel_job Attempts.heartbeat Attempts.complete_job Delivery.publish_next
      Delivery.register_consumer Delivery.report_availability Delivery.reconcile
  keeps_or_drops db (reserve hash clock uuid upload locks fresh) valid h =
      inl (Operations.reserve-Shows settings id o terminal hash clock uuid upload db locks h)
  keeps_or_drops db (download clock key) valid h = inl (
      execute-Shows (Jobs.set_status clock key downloading) db.jobs id o
        (Settling.downloading-Settles clock key) terminal h)
  keeps_or_drops db (interrupt clock key) valid h = inl (
      execute-Shows (Jobs.upload_interrupted clock key) db.jobs id o
        (Settling.interrupted-Settles clock key) terminal h)
  keeps_or_drops db (queue clock uuid key) valid h =
      inl (Operations.mark_queued-Shows settings id o terminal clock uuid key db h)
  keeps_or_drops db (acknowledge clock key) valid h =
      inl (
        execute-Shows (Jobs.ack clock key) db.jobs id o (Settling.ack-Settles clock key) terminal h)
  keeps_or_drops db (cancel clock key) valid h = inl (
      execute-Shows (Jobs.cancel clock key) db.jobs id o (Settling.cancel-Settles clock key)
        terminal h)
  keeps_or_drops db (claim clock uuid locked fallback worker instance {db' = db'} {claimed = c} e)
        valid h =
      inl (
        Operations.claim_next_job-Shows settings id o terminal clock uuid locked fallback worker
          instance db db' c e valid h)
  keeps_or_drops db (heartbeat clock key owner progress) valid h = inl (
      execute-Shows (Jobs.heartbeat clock settings.lease_seconds progress key owner) db.jobs id o
        (Settling.heartbeat-Settles clock settings.lease_seconds progress key owner) terminal h)
  keeps_or_drops db (complete clock key owner text segments path) valid h = inl (
      execute-Shows (Jobs.complete clock text segments path key owner) db.jobs id o
        (Settling.complete-Settles clock text segments path key owner) terminal h)
  keeps_or_drops db (fail clock uuid key owner error retryable) valid h =
      inl
        (Operations.fail_job-Shows settings id o terminal clock uuid key owner error retryable db h)
  keeps_or_drops db (begin clock uuid a) valid h =
      inl (Operations.begin_attempt-Shows settings id o terminal clock uuid a db h)
  keeps_or_drops db (publish clock locked confirm) valid h = inl (ground (arith, h))
  keeps_or_drops db (register clock worker instance) valid h = inl (ground (arith, h))
  keeps_or_drops db (report clock worker instance ready) valid h = inl h
  keeps_or_drops db (clean_up clock ttl) valid h =
      Operations.cleanup-Shows settings id o terminal clock ttl db valid h
  keeps_or_drops db (reconcile clock uuid) valid h =
      let fenced = Table.execute (Outbox.broker_reconcile clock) db.jobs in
      inl (
        execute-Shows (Outbox.broker_seed uuid) fenced id o (Settling.seed-Settles uuid) terminal (
          execute-Shows (Outbox.broker_reconcile clock) db.jobs id o
            (Settling.reconcile-Settles clock) terminal h))

-- In a database that a run of the service reaches, if the job under an ID has finished, then after
-- any one step the job under that ID has the same status, text, segments, result path, error and
-- finish time, or no row has that ID.
pub Step-Shows :
    {settings : Settings} {db db' : Database} (id : String) (o : Outcome)
    → is_terminal o.status ≡ true
    → Reach settings db
    → Shows id o db.jobs
    → Step settings db db'
    → Shows id o db'.jobs ⊎ (Table.count (has_id id) db'.jobs ≡ 0)
Step-Shows {db = db} id o terminal reached h s =
    keeps_or_drops id o terminal db s (Reach-IsValid reached) h

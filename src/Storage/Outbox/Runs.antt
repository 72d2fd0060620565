-- ===== src/Storage/Outbox/Runs.antt =====
-- In RabbitMQ mode every step keeps a message for each job that waits or runs.
use transcriber.Prelude.{
  ℕ, ◌≡◌, refl, Bool, String, List, [], ◌∷◌, arith, All-append, Option-cases, inl, inr,
}
use transcriber.Prelude.Table
use transcriber.Prelude.Table.{Update}
use transcriber.Storage.Schema.{Message, Database, Clock, Settings, Segment, downloading, rabbitmq}
use transcriber.Storage.Statements.Jobs
use transcriber.Storage.Statements.Outbox as Statements
use transcriber.Storage.Uploads
use transcriber.Storage.Uploads.{Upload, new_job}
use transcriber.Storage.Attempts
use transcriber.Storage.Delivery
use transcriber.Storage.Validity.{IsValid}
use transcriber.Storage.Steps.{
  Step, Reach, reserve, download, interrupt, queue, acknowledge, cancel, claim, heartbeat, complete,
  fail, begin, publish, register, report, clean_up, reconcile, start, step,
}
use transcriber.Storage.Steps.Reachable.{Reach-IsValid}
use transcriber.Storage.Outbox.{is_message, HasMessage, IsDispatched}
use transcriber.Storage.Outbox.Rows.{
  KeepsMessage, execute-IsDispatched, exists-update, All-HasMessage_mono,
}
use transcriber.Storage.Outbox.Operations.{mark_queued-IsDispatched, fail_job-IsDispatched}
use transcriber.Storage.Outbox.Broker.{
  begin_attempt-IsDispatched, cleanup-IsDispatched, reconcile-IsDispatched,
}

downloading-KeepsMessage :
    (clock : Clock) (id : String) → KeepsMessage (Jobs.set_status clock id downloading)
unfolding Jobs.set_status
downloading-KeepsMessage clock id j sel waits = cc

interrupted-KeepsMessage :
    (clock : Clock) (id : String) → KeepsMessage (Jobs.upload_interrupted clock id)
unfolding Jobs.upload_interrupted
interrupted-KeepsMessage clock id j sel waits = (waits, refl, refl)

ack-KeepsMessage : (clock : Clock) (id : String) → KeepsMessage (Jobs.ack clock id)
unfolding Jobs.ack
ack-KeepsMessage clock id j sel waits = (waits, refl, refl)

cancel-KeepsMessage : (clock : Clock) (id : String) → KeepsMessage (Jobs.cancel clock id)
unfolding Jobs.cancel
cancel-KeepsMessage clock id j sel waits = cc

heartbeat-KeepsMessage :
    (clock : Clock) (secs progress : ℕ) (id owner : String)
    → KeepsMessage (Jobs.heartbeat clock secs progress id owner)
unfolding Jobs.heartbeat
heartbeat-KeepsMessage clock secs progress id owner j sel waits = (waits, refl, refl)

complete-KeepsMessage :
    (clock : Clock) (text : String) (segments : List Segment) (path id owner : String)
    → KeepsMessage (Jobs.complete clock text segments path id owner)
unfolding Jobs.complete
complete-KeepsMessage clock text segments path id owner j sel waits = cc

reserve-IsDispatched :
    (hash : String → ℕ) (settings : Settings) (clock : Clock) (uuid : String) (upload : Upload)
    (locks : List ℕ) (db : Database)
    → IsDispatched db
    → IsDispatched (Uploads.reserve_upload hash settings clock uuid upload db locks).0
unfolding Uploads.reserve_upload Uploads.reserve_locked Uploads.create_job new_job
reserve-IsDispatched hash settings clock uuid upload locks db h = ground (
  arith,
  h,
  All-append (HasMessage db.outbox) db.jobs (new_job settings clock uuid upload ∷ []) h
      ((λ waits. cc), tt),
)

publish-IsDispatched :
    (clock : Clock) (locked : String → Bool) (confirm : String → String → Bool) (db : Database)
    → IsDispatched db
    → IsDispatched (Delivery.publish_next clock locked confirm db).0
unfolding Delivery.publish_next Statements.outbox_published
publish-IsDispatched clock locked confirm db h =
    let marked = λ (m : Message).
      All-HasMessage_mono db.outbox
        (Table.execute (Statements.outbox_published clock m.message_id) db.outbox) db.jobs
        (λ j has.
          rw
            (exists-update (is_message j.dispatch_id j.job_id)
              (Statements.outbox_published clock m.message_id).rows
              (Statements.outbox_published clock m.message_id).set db.outbox (λ x. refl))
            has)
        h in
    elim (Option-cases (Statements.outbox_next clock locked db.outbox)) [
      | inl nothing ↦ rw (nothing, Delivery.publish_next) h
      | inr (m, due) ↦ rw (due, Delivery.publish_next) (ground (arith, marked m, h))
    ]

module _ {settings : Settings} (mode : settings.queue_backend ≡ rabbitmq) where
  Step-IsDispatched :
      (db : Database) {db' : Database}
      → Step settings db db'
      → IsValid db.jobs
      → IsDispatched db
      → IsDispatched db'
  unfolding Uploads.mark_downloading Uploads.mark_upload_interrupted Uploads.acknowledge_job
      Uploads.cancel_job Attempts.claim_next_job Attempts.heartbeat Attempts.complete_job
      Delivery.register_consumer Delivery.report_availability
  Step-IsDispatched db (reserve hash clock uuid upload locks fresh) valid h =
      reserve-IsDispatched hash settings clock uuid upload locks db h
  Step-IsDispatched db (download clock id) valid h =
      execute-IsDispatched (Jobs.set_status clock id downloading) db.outbox db.jobs
        (downloading-KeepsMessage clock id) h
  Step-IsDispatched db (interrupt clock id) valid h =
      execute-IsDispatched (Jobs.upload_interrupted clock id) db.outbox db.jobs
        (interrupted-KeepsMessage clock id) h
  Step-IsDispatched db (queue clock uuid id) valid h =
      mark_queued-IsDispatched settings clock uuid id db mode h
  Step-IsDispatched db (acknowledge clock id) valid h =
      execute-IsDispatched (Jobs.ack clock id) db.outbox db.jobs (ack-KeepsMessage clock id) h
  Step-IsDispatched db (cancel clock id) valid h =
      execute-IsDispatched (Jobs.cancel clock id) db.outbox db.jobs (cancel-KeepsMessage clock id) h
  Step-IsDispatched db (claim clock uuid locked fallback worker instance e) valid h =
      cc (rw mode at e)
  Step-IsDispatched db (heartbeat clock id owner progress) valid h =
      execute-IsDispatched (Jobs.heartbeat clock settings.lease_seconds progress id owner) db.outbox
        db.jobs (heartbeat-KeepsMessage clock settings.lease_seconds progress id owner) h
  Step-IsDispatched db (complete clock id owner text segments path) valid h =
      execute-IsDispatched (Jobs.complete clock text segments path id owner) db.outbox db.jobs
        (complete-KeepsMessage clock text segments path id owner) h
  Step-IsDispatched db (fail clock uuid id owner error retryable) valid h =
      fail_job-IsDispatched settings clock uuid id owner error retryable db mode valid h
  Step-IsDispatched db (begin clock uuid a) valid h =
      begin_attempt-IsDispatched settings clock uuid a db (valid.ids a.job_id) h
  Step-IsDispatched db (publish clock locked confirm) valid h =
      publish-IsDispatched clock locked confirm db h
  Step-IsDispatched db (register clock worker instance) valid h = ground (arith, h)
  Step-IsDispatched db (report clock worker instance ready) valid h = h
  Step-IsDispatched db (clean_up clock ttl) valid h = cleanup-IsDispatched clock ttl db h
  Step-IsDispatched db (reconcile clock uuid) valid h = reconcile-IsDispatched clock uuid db h

-- In RabbitMQ mode, in every database that a run of the service reaches from the empty one, each
-- job that is queued or running has an outbox message with its own job ID and its current
-- dispatch ID.
pub Reach-IsDispatched :
    {settings : Settings} {db : Database}
    → settings.queue_backend ≡ rabbitmq
    → Reach settings db
    → IsDispatched db
Reach-IsDispatched mode start = tt
Reach-IsDispatched mode (step {db = before} reached s) =
    Step-IsDispatched mode before s (Reach-IsValid reached) (Reach-IsDispatched mode reached)

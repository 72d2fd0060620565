-- ===== src/Storage/Capacity/Runs.antt =====
-- The limits hold along every run whose lock orders the clock's readings.
use transcriber.Prelude.{ℕ, ◌≡◌, refl, Bool, String, List, false, not, arith}
use transcriber.Prelude.Table
use transcriber.Storage.Schema.{Database, Clock, Settings, downloading}
use transcriber.Storage.Statements.Jobs
use transcriber.Storage.Statements.Outbox
use transcriber.Storage.Uploads
use transcriber.Storage.Uploads.{Upload, new_job}
use transcriber.Storage.Attempts
use transcriber.Storage.Delivery
use transcriber.Storage.Validity.{IsValid}
use transcriber.Storage.Steps.{
  Step, reserve, download, interrupt, queue, acknowledge, cancel, claim, heartbeat, complete, fail,
  begin, publish, register, report, clean_up, reconcile,
}
use transcriber.Storage.Steps.Reachable.{Step-IsValid, Reach-IsValid}
use transcriber.Storage.Steps
use transcriber.Storage.Capacity.{IsWithin, Timed, Run, start, step}
use transcriber.Storage.Capacity.Releases
use transcriber.Storage.Capacity.Releases.{
  IsWithin-later, execute-IsWithin, select-IsWithin, insert-IsWithin,
}
use transcriber.Storage.Capacity.Starts.{begin_attempt-IsWithin}
use transcriber.Storage.Capacity.Claims.{claim_next_job-IsWithin}

module _ (settings : Settings) (policies : Attempts.is_empty settings.worker_policies ≡ false)
    (t t' : ℕ) where
  reserve-IsWithin :
      (hash : String → ℕ) (clock : Clock) (uuid : String) (upload : Upload) (locks : List ℕ)
      (db : Database)
      → IsWithin settings t' db.jobs
      → IsWithin settings t'
          (Uploads.reserve_upload hash settings clock uuid upload db locks).0.jobs
  unfolding Uploads.reserve_upload Uploads.reserve_locked Uploads.create_job new_job
  reserve-IsWithin hash clock uuid upload locks db h = ground (
    arith,
    h,
    insert-IsWithin {settings = settings} t' db.jobs (new_job settings clock uuid upload) refl h,
  )

  mark_queued-IsWithin :
      (clock : Clock) (uuid id : String) (db : Database)
      → IsWithin settings t' db.jobs
      → IsWithin settings t' (Uploads.mark_queued settings clock uuid id db).0.jobs
  unfolding Uploads.mark_queued Uploads.enqueue
  mark_queued-IsWithin clock uuid id db h =
      let u = Jobs.queue clock id in
      let kept =
        execute-IsWithin {settings = settings} t' u db.jobs (Releases.queue-Releases t' clock id)
          h in
      ground (
        arith,
        kept,
        execute-IsWithin {settings = settings} t' (Outbox.dispatch uuid id)
            (Table.execute u db.jobs) (Releases.dispatch-Releases t' uuid id) kept,
      )

  fail_job-IsWithin :
      (clock : Clock) (uuid id owner error : String) (retryable : Bool) (db : Database)
      → IsWithin settings t' db.jobs
      → IsWithin settings t'
          (Attempts.fail_job settings clock uuid id owner error retryable db).0.jobs
  unfolding Attempts.fail_job Uploads.enqueue
  fail_job-IsWithin clock uuid id owner error retryable db h =
      let u = Jobs.fail clock retryable error id owner in
      let kept =
        execute-IsWithin {settings = settings} t' u db.jobs
          (Releases.fail-Releases t' clock retryable error id owner) h in
      ground (
        arith,
        kept,
        execute-IsWithin {settings = settings} t' (Outbox.dispatch uuid id)
            (Table.execute u db.jobs) (Releases.dispatch-Releases t' uuid id) kept,
      )

  Step-IsWithin :
      (db : Database) {db' : Database} (s : Step settings db db')
      → Timed t t' s
      → IsValid db.jobs
      → IsWithin settings t db.jobs
      → IsWithin settings t' db'.jobs
  unfolding Uploads.mark_downloading Uploads.mark_upload_interrupted Uploads.acknowledge_job
      Uploads.cancel_job Attempts.heartbeat Attempts.complete_job Delivery.publish_next
      Delivery.register_consumer Delivery.report_availability Delivery.cleanup_expired_jobs
      Delivery.reconcile
  Step-IsWithin db (reserve hash clock uuid upload locks fresh) le valid h =
      reserve-IsWithin hash clock uuid upload locks db
        (IsWithin-later {settings = settings} t t' db.jobs le h)
  Step-IsWithin db (download clock id) le valid h =
      execute-IsWithin {settings = settings} t' (Jobs.set_status clock id downloading) db.jobs
        (Releases.downloading-Releases t' clock id)
        (IsWithin-later {settings = settings} t t' db.jobs le h)
  Step-IsWithin db (interrupt clock id) le valid h =
      execute-IsWithin {settings = settings} t' (Jobs.upload_interrupted clock id) db.jobs
        (Releases.interrupted-Releases t' clock id)
        (IsWithin-later {settings = settings} t t' db.jobs le h)
  Step-IsWithin db (queue clock uuid id) le valid h =
      mark_queued-IsWithin clock uuid id db (IsWithin-later {settings = settings} t t' db.jobs le h)
  Step-IsWithin db (acknowledge clock id) le valid h =
      execute-IsWithin {settings = settings} t' (Jobs.ack clock id) db.jobs
        (Releases.ack-Releases t' clock id) (IsWithin-later {settings = settings} t t' db.jobs le h)
  Step-IsWithin db (cancel clock id) le valid h =
      execute-IsWithin {settings = settings} t' (Jobs.cancel clock id) db.jobs
        (Releases.cancel-Releases t' clock id)
        (IsWithin-later {settings = settings} t t' db.jobs le h)
  Step-IsWithin db (claim clock uuid locked fallback worker instance {db' = db'} {claimed = c} e)
        (le, le', same) valid h =
      rw same (
        claim_next_job-IsWithin settings t clock uuid locked fallback worker instance db db' c
          policies e le le' valid h)
  Step-IsWithin db (heartbeat clock id owner progress) (le, same) valid h = rw same (
      execute-IsWithin {settings = settings} clock.wall
        (Jobs.heartbeat clock settings.lease_seconds progress id owner) db.jobs
        (Releases.heartbeat-Releases clock settings.lease_seconds progress id owner)
        (IsWithin-later {settings = settings} t clock.wall db.jobs le h))
  Step-IsWithin db (complete clock id owner text segments path) le valid h =
      execute-IsWithin {settings = settings} t' (Jobs.complete clock text segments path id owner)
        db.jobs (Releases.complete-Releases t' clock text segments path id owner)
        (IsWithin-later {settings = settings} t t' db.jobs le h)
  Step-IsWithin db (fail clock uuid id owner error retryable) le valid h =
      fail_job-IsWithin clock uuid id owner error retryable db
        (IsWithin-later {settings = settings} t t' db.jobs le h)
  Step-IsWithin db (begin clock uuid a) (le, le', le'', same) valid h =
      rw same (
        begin_attempt-IsWithin settings t clock uuid a db (omega arith) le'' (valid.ids a.job_id) h)
  Step-IsWithin db (publish clock locked confirm) le valid h =
      ground (arith, IsWithin-later {settings = settings} t t' db.jobs le h)
  Step-IsWithin db (register clock worker instance) le valid h =
      ground (arith, IsWithin-later {settings = settings} t t' db.jobs le h)
  Step-IsWithin db (report clock worker instance ready) le valid h =
      IsWithin-later {settings = settings} t t' db.jobs le h
  Step-IsWithin db (clean_up clock ttl) le valid h =
      select-IsWithin {settings = settings} t' (λ j. not (Jobs.is_expired clock ttl j))
        (Table.execute (Jobs.reap clock) db.jobs)
        (execute-IsWithin {settings = settings} t' (Jobs.reap clock) db.jobs
          (Releases.reap-Releases t' clock)
          (IsWithin-later {settings = settings} t t' db.jobs le h))
  Step-IsWithin db (reconcile clock uuid) le valid h =
      let fenced = Table.execute (Outbox.broker_reconcile clock) db.jobs in
      execute-IsWithin {settings = settings} t' (Outbox.broker_seed uuid) fenced
        (Releases.seed-Releases t' uuid)
        (execute-IsWithin {settings = settings} t' (Outbox.broker_reconcile clock) db.jobs
          (Releases.reconcile-Releases t' clock)
          (IsWithin-later {settings = settings} t t' db.jobs le h))

Run-both :
    (settings : Settings)
    → Attempts.is_empty settings.worker_policies ≡ false
    → {t : ℕ} {db : Database} → Run settings t db
    → IsValid db.jobs × IsWithin settings t db.jobs
unfolding Table.count
Run-both settings policies start = (
  Reach-IsValid {settings = settings} Steps.start,
  record { pools = λ w p e. omega arith; slots = λ w i. omega arith },
)
Run-both settings policies (step {t = t} {t' = t'} {db = before} r s timed) =
    let (valid, within) = Run-both settings policies r in
    (
      Step-IsValid settings before s valid,
      Step-IsWithin settings policies t t' before s timed valid within,
    )

-- Under WORKER_POLICIES, along every run whose transactions read the clock in the order of the
-- scheduler's lock, each worker has at most `max_concurrency` attempts with a live lease, and
-- each slot at most one, in both queue backends and whatever heartbeats, expiries, cancellations
-- and retries fall between.
pub Run-IsWithin :
    (settings : Settings)
    → Attempts.is_empty settings.worker_policies ≡ false
    → {t : ℕ} {db : Database} → Run settings t db
    → IsWithin settings t db.jobs
Run-IsWithin settings policies r = (Run-both settings policies r).1

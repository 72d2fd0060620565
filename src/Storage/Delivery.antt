-- ===== src/Storage/Delivery.antt =====
-- The operations of `JobStore` behind RabbitMQ delivery, the reports of the workers' slots, the
-- cleanup, and whisper/reconcile.py.
use transcriber.Prelude.{
  ℕ, ◌-◌, Bool, true, ◌&&◌, ◌||◌, not, String, Option, none, some, List, ◌==◌, leb, eqb,
  if◌then◌else◌,
}
use transcriber.Prelude.Table
use transcriber.Storage.Schema.{
  Job, Message, Database, Clock, Policy, Settings, postgres, rabbitmq, is_waiting, is_running,
  is_terminal, after,
}
use transcriber.Storage.Statements.Jobs
use transcriber.Storage.Statements.Jobs.{has_id}
use transcriber.Storage.Statements.Claims
use transcriber.Storage.Statements.Claims.{Capacity}
use transcriber.Storage.Statements.Slots
use transcriber.Storage.Statements.Slots.{policy_of}
use transcriber.Storage.Statements.Outbox
use transcriber.Storage.Attempts.{ClaimedJob, claimed_row, lease_token, reading}

-- `publish_next` with a `publish` that confirms a message or raises: a raise rolls the transaction
-- back and goes on to the caller.
pub data Published : Type 0 where
  nothing_due confirmed raised : Published

unfoldable pub publish_next :
    Clock → (String → Bool) → (String → String → Bool) → Database → Database × Published
publish_next clock locked publish db = elim (Outbox.outbox_next clock locked db.outbox) [
  | none ↦ (db, nothing_due)
  | some m ↦
      if publish m.job_id m.message_id
      then (
        record db { outbox = Table.execute (Outbox.outbox_published clock m.message_id) db.outbox },
        confirmed,
      )
      else (db, raised)
]

-- `register_consumer`: the consumer's priority, if it is admitted
unfoldable pub register_consumer :
    Settings → Clock → String → String → Database → Database × Option ℕ
register_consumer settings clock worker instance db = elim settings.queue_backend [
  | postgres ↦ (db, none)
  | rabbitmq ↦ elim (policy_of settings.worker_policies worker) [
    | none ↦ (db, none)
    | some policy ↦
        if eqb policy.max_concurrency 0
        then (db, none)
        else (let statement =
              Slots.broker_admit clock worker instance policy.max_concurrency db.jobs db.slots in
            (
              record db { slots = Table.execute statement db.slots },
              if Table.exists statement.rows db.slots then some (10000 - policy.priority) else none,
            ))
  ]
]

pub data Disposition : Type 0 where
  discard busy : Disposition
  started : ClaimedJob → Disposition

-- The clock as the statements of one `begin_attempt` read it.
pub record BeginClock : Type 0 where
  pub now : ℕ
  pub found : ℕ
  pub counted : ℕ
  pub started_at : ℕ

-- The arguments of `begin_attempt`.
pub record Attempt : Type 0 where
  pub worker_id : String
  pub instance_id : String
  pub job_id : String
  pub message_id : String
  pub delivery_id : String

-- `row["delivery_id"] == delivery_id and row["assigned_worker_id"] == worker_id and ...`
abbrev pub is_same_delivery : Attempt → Job → Bool
is_same_delivery a row =
    row.delivery_id == a.delivery_id
    && (row.assigned_worker_id == a.worker_id && row.assigned_instance_id == a.instance_id)

-- `not capacity["ready"] or capacity["busy"] or capacity["active"] >= ...`
abbrev pub is_full : Policy → Capacity → Bool
is_full policy c = not c.ready || (c.busy || leb policy.max_concurrency c.active)

-- The end of `begin_attempt`, from the lookup of the policy.
unfoldable pub start_attempt :
    Settings → BeginClock → String → Attempt → Job → Database → Database × Disposition
start_attempt settings clock uuid a row db = elim (policy_of settings.worker_policies a.worker_id) [
  | none ↦ (db, busy)
  | some policy ↦
      if eqb policy.max_concurrency 0
        || is_full policy
            (Claims.broker_capacity clock.counted a.worker_id a.instance_id db.slots db.jobs)
      then (db, busy)
      else (let owner = lease_token a.worker_id uuid in
          let statement =
            Claims.broker_start (reading clock.now clock.started_at) owner settings.lease_seconds
              a.worker_id a.instance_id a.delivery_id a.job_id in
          (
            record db { jobs = Table.execute statement db.jobs },
            started (claimed_row owner (statement.set row)),
          ))
]

-- `begin_attempt` from the row that broker_job.sql has found
unfoldable pub begin_row :
    Settings → BeginClock → String → Attempt → Job → Database → Database × Disposition
begin_row settings clock uuid a row db =
    if not (row.dispatch_id == a.message_id) || is_terminal row.status
    then (db, discard)
    else if is_running row.status && after row.lease_expires_at clock.found
    then (db, if is_same_delivery a row then started (claimed_row row.lease_owner row) else busy)
    else if not (is_waiting row.status)
    then (db, discard)
    else if leb row.max_attempts row.attempts
    then (
      record db {
        jobs =
            Table.execute (Claims.broker_exhausted (reading clock.now clock.found) a.job_id)
              db.jobs;
      },
      discard,
    )
    else start_attempt settings clock uuid a row db

unfoldable pub begin_attempt :
    Settings → BeginClock → String → Attempt → Database → Database × Disposition
unfolding begin_row start_attempt
begin_attempt settings clock uuid a db = elim (Table.find (has_id a.job_id) db.jobs) [
  | none ↦ (db, discard)
  | some row ↦ begin_row settings clock uuid a row db
]

unfoldable pub report_availability :
    Settings → Clock → String → String → Bool → Database → Database × Bool
report_availability settings clock worker instance ready db =
    let ready_ttl = if ready then settings.availability_ttl_seconds else 0 in
    let demand_ttl = if ready then settings.demand_ttl_seconds else 0 in
    (
      record db {
        slots =
            Slots.report_availability clock worker instance ready_ttl demand_ttl
              (Slots.cleanup_availability clock db.slots);
      },
      true,
    )

-- ON DELETE CASCADE: a message goes with its job
unfoldable pub cascade : List Job → List Message → List Message
cascade jobs = Table.select (λ m. Table.exists (has_id m.job_id) jobs)

-- The database's part of `cleanup_expired_jobs`, with the deleted rows, whose files it removes next.
unfoldable pub cleanup_expired_jobs : Clock → ℕ → Database → Database × List Job
unfolding cascade
cleanup_expired_jobs clock ttl db =
    let reaped = Table.execute (Jobs.reap clock) db.jobs in
    let kept = Table.select (λ j. not (Jobs.is_expired clock ttl j)) reaped in
    (
      record db { jobs = kept; outbox = cascade kept db.outbox },
      Table.select (Jobs.is_expired clock ttl) reaped,
    )

-- `main` of whisper/reconcile.py after its check of the mode
unfoldable pub reconcile : Clock → (String → String) → Database → Database
reconcile clock uuid db =
    let fenced = Table.execute (Outbox.broker_reconcile clock) db.jobs in
    record db {
      jobs = Table.execute (Outbox.broker_seed uuid) fenced;
      outbox = Outbox.seed_outbox uuid fenced db.outbox;
    }

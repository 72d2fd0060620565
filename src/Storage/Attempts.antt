-- ===== src/Storage/Attempts.antt =====
-- The operations of `JobStore` that a worker's attempt goes through, in either queue backend.
use Prim.Native.String
use transcriber.Prelude.{
  ℕ, ◌^◌, min, Bool, true, false, String, Option, none, some, List, [], eqb, if◌then◌else◌,
}
use transcriber.Prelude.Results.{Result, ok, err}
use transcriber.Prelude.Table
use transcriber.Storage.Schema.{
  Job, Segment, Database, Clock, Settings, postgres, rabbitmq, is_queued,
}
use transcriber.Storage.Statements.Jobs
use transcriber.Storage.Statements.Jobs.{has_id, owned_at}
use transcriber.Storage.Statements.Claims
use transcriber.Storage.Statements.Slots
use transcriber.Storage.Uploads.{enqueue}

pub record ClaimedJob : Type 0 where
  pub job : Job
  pub lease_owner : String
  pub lease_expires_at : Option ℕ

-- `f"{worker_id}/{uuid.uuid4()}"`
abbrev pub lease_token : String → String → String
lease_token worker uuid = String.◌++◌ worker (String.◌++◌ "/" uuid)

abbrev pub claimed_row : String → Job → ClaimedJob
claimed_row owner row = record {
  job = row;
  lease_owner = owner;
  lease_expires_at = row.lease_expires_at;
}

-- The UPDATE of claim.sql and claim_slot.sql at their candidate, and the row that it returns.
unfoldable pub lease_candidate :
    Settings
    → Clock
    → ℕ
    → String
    → String
    → String
    → Option Job
    → Database
    → Database × Option ClaimedJob
lease_candidate settings clock t owner worker instance none db = (db, none)
lease_candidate settings clock t owner worker instance (some candidate) db =
    let set = Claims.lease clock t owner settings.lease_seconds worker instance in
    (
      record db { jobs = Table.update (has_id candidate.job_id) set db.jobs },
      some (claimed_row owner (set candidate)),
    )

-- The clock as the statements of one `claim_next_job` read it.
pub record ClaimClock : Type 0 where
  pub now : ℕ
  pub requested : ℕ
  pub selected : ℕ
  pub leased : ℕ

abbrev pub reading : ℕ → ℕ → Clock
reading now wall = record { now = now; wall = wall }

-- The branch of `claim_next_job` under WORKER_POLICIES.
unfoldable pub claim_by_policy :
    Settings
    → ClaimClock
    → String
    → (String → Bool)
    → String
    → String
    → Database
    → Database × Option ClaimedJob
unfolding lease_candidate
claim_by_policy settings clock owner locked worker instance db =
    let reaped = Table.execute (Jobs.reap (reading clock.now clock.now)) db.jobs in
    let slots =
      Table.execute
        (Slots.request_work (reading clock.now clock.requested) settings.demand_ttl_seconds worker
          instance)
        db.slots in
    let db' = record db { jobs = reaped; slots = slots } in
    if Slots.select_worker settings.worker_policies clock.selected worker instance reaped slots
    then (let reads = reading clock.now clock.leased in
        lease_candidate settings reads clock.leased owner worker instance
          (Claims.claim_slot_candidate reads locked reaped) db')
    else (db', none)

-- The branch without: preferred workers and a fallback.
unfoldable pub claim_by_preference :
    Settings
    → ClaimClock
    → String
    → (String → Bool)
    → Bool
    → String
    → String
    → Database
    → Database × Option ClaimedJob
unfolding lease_candidate
claim_by_preference settings clock owner locked fallback worker instance db =
    let reads = reading clock.now clock.now in
    let reaped = Table.execute (Jobs.reap reads) db.jobs in
    let db' = record db { jobs = reaped } in
    if Claims.may_claim clock.now fallback settings.preferred_workers worker instance db.slots
    then lease_candidate settings reads clock.now owner worker instance
        (Claims.claim_candidate reads locked reaped) db'
    else (db', none)

-- `raise ValueError("SQL claiming is disabled; use RabbitMQ consumers")`
pub data ClaimError : Type 0 where
  claiming_disabled : ClaimError

abbrev pub is_empty {ℓ} : {A : Type ℓ} → List A → Bool
is_empty [] = true
is_empty _ = false

unfoldable pub claim_next_job :
    Settings
    → ClaimClock
    → String
    → (String → Bool)
    → Bool
    → String
    → String
    → Database
    → Result ClaimError (Database × Option ClaimedJob)
unfolding claim_by_policy claim_by_preference
claim_next_job settings clock uuid locked fallback worker instance db =
    let owner = lease_token worker uuid in
    elim settings.queue_backend [
      | rabbitmq ↦ err claiming_disabled
      | postgres ↦ ok (
          if is_empty settings.worker_policies
          then claim_by_preference settings clock owner locked fallback worker instance db
          else claim_by_policy settings clock owner locked worker instance db)
    ]

-- owned.sql
unfoldable pub get_owned_job : Clock → String → String → Database → Option Job
get_owned_job clock id owner db = Table.find (owned_at clock.now id owner) db.jobs

unfoldable pub heartbeat : Settings → Clock → String → String → ℕ → Database → Database × Bool
heartbeat settings clock id owner progress db =
    let statement = Jobs.heartbeat clock settings.lease_seconds progress id owner in
    (
      record db { jobs = Table.execute statement db.jobs },
      eqb (Table.row_count statement db.jobs) 1,
    )

unfoldable pub complete_job :
    Clock → String → String → String → List Segment → String → Database → Database × Bool
complete_job clock id owner text segments result_path db =
    let statement = Jobs.complete clock text segments result_path id owner in
    (
      record db { jobs = Table.execute statement db.jobs },
      eqb (Table.row_count statement db.jobs) 1,
    )

-- `min(300, 2 ** min(row["attempts"], 8))`
unfoldable pub retry_delay : ℕ → ℕ
retry_delay attempts = min 300 (2 ^ min attempts 8)

-- retry_status.sql and the `_enqueue` of a job that went back to the queue
unfoldable pub requeue : Clock → String → String → Database → Database
unfolding retry_delay enqueue
requeue clock uuid id db = elim (Table.find (has_id id) db.jobs) [
  | none ↦ db
  | some row ↦
      if is_queued row.status then enqueue clock uuid id (retry_delay row.attempts) db else db
]

unfoldable pub fail_job :
    Settings → Clock → String → String → String → String → Bool → Database → Database × Bool
unfolding requeue
fail_job settings clock uuid id owner error retryable db =
    let statement = Jobs.fail clock retryable error id owner in
    let accepted = eqb (Table.row_count statement db.jobs) 1 in
    let db' = record db { jobs = Table.execute statement db.jobs } in
    (
      elim settings.queue_backend [
        | postgres ↦ db'
        | rabbitmq ↦ if accepted then requeue clock uuid id db' else db'
      ],
      accepted,
    )

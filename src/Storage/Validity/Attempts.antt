-- ===== src/Storage/Validity/Attempts.antt =====
-- The operations of a worker's attempt keep the table of jobs valid.
use transcriber.Prelude.{
  ℕ, ◌<◌, ◌≡◌, refl, Bool, true, not, ◌&&◌, String, Option, none, some, List, arith, Option-cases,
  inl, inr, eq_iff,
}
use transcriber.Prelude.Results.{ok}
use transcriber.Prelude.Table
use transcriber.Prelude.Table.{Update}
use transcriber.Prelude.Table.Laws.{All-find}
use transcriber.Prelude.Table.Keys.{In, In-first_by, find-In, All-In}
use transcriber.Storage.Schema.{Job, Database, Clock, Settings, is_waiting}
use transcriber.Storage.Statements.Jobs
use transcriber.Storage.Statements.Jobs.{has_id}
use transcriber.Storage.Statements.Claims
use transcriber.Storage.Attempts
use transcriber.Storage.Attempts.{ClaimedJob, ClaimClock, ClaimError}
use transcriber.Storage.Delivery
use transcriber.Storage.Delivery.{Attempt, BeginClock}
use transcriber.Storage.Validity.{IsConsistent, IsValid}
use transcriber.Storage.Validity.Operations.{execute-IsValid, update_found-IsValid, enqueue-IsValid}
use transcriber.Storage.Statements.Slots
use transcriber.Storage.Validity.Rows
use transcriber.Storage.Validity.Rows.{Keeps}

lease_candidate-IsValid :
    (settings : Settings) (clock : Clock) (t : ℕ) (owner worker instance : String)
    (candidate : Option Job) (db : Database)
    → ((j : Job)
        → candidate ≡ some j
        → In j db.jobs × (is_waiting j.status ≡ true) × (j.attempts < j.max_attempts))
    → IsValid db.jobs
    → IsValid (Attempts.lease_candidate settings clock t owner worker instance candidate db).0.jobs
unfolding Attempts.lease_candidate
lease_candidate-IsValid settings clock t owner worker instance none db able h = h
lease_candidate-IsValid settings clock t owner worker instance (some j) db able h =
    let (i, waits, room) = able j refl in
    update_found-IsValid j.job_id
      (Claims.lease clock t owner settings.lease_seconds worker instance) db.jobs
      (find-In (has_id j.job_id) db.jobs (h.ids j.job_id) i ((eq_iff j.job_id j.job_id).1 refl))
      (λ k. unfold Claims.lease in refl) (λ k. unfold Claims.lease in refl)
      (Rows.lease-IsConsistent clock t owner settings.lease_seconds worker instance j waits room
        (All-In IsConsistent db.jobs h.rows i))
      h

-- The candidate of a claim waits, has attempts left, and stands in the table.
candidate_able :
    (before : Job → Job → Bool) (t : ℕ) (locked : String → Bool) (jobs : List Job) (j : Job)
    → Table.first_by before (λ k. Claims.is_claimable t k && not (locked k.job_id)) jobs ≡ some j
    → In j jobs × (is_waiting j.status ≡ true) × (j.attempts < j.max_attempts)
candidate_able before t locked jobs j e =
    let (i, able) =
      In-first_by before (λ (k : Job). Claims.is_claimable t k && not (locked k.job_id)) jobs e in
    (i, ground arith, ground arith)

claim_by_policy-IsValid :
    (settings : Settings) (clock : ClaimClock) (owner : String) (locked : String → Bool)
    (worker instance : String) (db : Database)
    → IsValid db.jobs
    → IsValid (Attempts.claim_by_policy settings clock owner locked worker instance db).0.jobs
unfolding Attempts.claim_by_policy Claims.claim_slot_candidate
claim_by_policy-IsValid settings clock owner locked worker instance db h =
    let reads = Attempts.reading clock.now clock.now in
    let reaped = Table.execute (Jobs.reap reads) db.jobs in
    let kept = execute-IsValid (Jobs.reap reads) db.jobs (Rows.reap-Keeps reads) h in
    let slots =
      Table.execute
        (Slots.request_work (Attempts.reading clock.now clock.requested) settings.demand_ttl_seconds
          worker instance)
        db.slots in
    ground (
      arith,
      kept,
      lease_candidate-IsValid settings (Attempts.reading clock.now clock.leased) clock.leased owner
          worker instance
          (Claims.claim_slot_candidate (Attempts.reading clock.now clock.leased) locked reaped)
          (record db { jobs = reaped; slots = slots })
          (candidate_able Claims.older_or_smaller_first clock.leased locked reaped) kept,
    )

claim_by_preference-IsValid :
    (settings : Settings) (clock : ClaimClock) (owner : String) (locked : String → Bool)
    (fallback : Bool) (worker instance : String) (db : Database)
    → IsValid db.jobs
    → IsValid
        (Attempts.claim_by_preference settings clock owner locked fallback worker instance
          db).0.jobs
unfolding Attempts.claim_by_preference Claims.claim_candidate
claim_by_preference-IsValid settings clock owner locked fallback worker instance db h =
    let reads = Attempts.reading clock.now clock.now in
    let reaped = Table.execute (Jobs.reap reads) db.jobs in
    let kept = execute-IsValid (Jobs.reap reads) db.jobs (Rows.reap-Keeps reads) h in
    ground (
      arith,
      kept,
      lease_candidate-IsValid settings reads clock.now owner worker instance
          (Claims.claim_candidate reads locked reaped) (record db { jobs = reaped })
          (candidate_able Claims.older_first clock.now locked reaped) kept,
    )

pub claim_next_job-IsValid :
    (settings : Settings) (clock : ClaimClock) (uuid : String) (locked : String → Bool)
    (fallback : Bool) (worker instance : String) (db db' : Database) (claimed : Option ClaimedJob)
    → Attempts.claim_next_job settings clock uuid locked fallback worker instance db
      ≡ ok (db', claimed)
    → IsValid db.jobs
    → IsValid db'.jobs
unfolding Attempts.claim_next_job
claim_next_job-IsValid settings clock uuid locked fallback worker instance db db' claimed e h =
    let owner = Attempts.lease_token worker uuid in
    ground (
      arith,
      claim_by_policy-IsValid settings clock owner locked worker instance db h,
      claim_by_preference-IsValid settings clock owner locked fallback worker instance db h,
    )

pub fail_job-IsValid :
    (settings : Settings) (clock : Clock) (uuid id owner error : String) (retryable : Bool)
    (db : Database)
    → IsValid db.jobs
    → IsValid (Attempts.fail_job settings clock uuid id owner error retryable db).0.jobs
unfolding Attempts.fail_job
fail_job-IsValid settings clock uuid id owner error retryable db h =
    let u = Jobs.fail clock retryable error id owner in
    let kept = execute-IsValid u db.jobs (Rows.fail-Keeps clock retryable error id owner) h in
    let db' : Database = record db { jobs = Table.execute u db.jobs } in
    ground (arith, kept, λ (delay : ℕ). enqueue-IsValid clock uuid id delay db' kept)

start_attempt-IsValid :
    (settings : Settings) (clock : BeginClock) (uuid : String) (a : Attempt) (row : Job)
    (db : Database)
    → Table.find (has_id a.job_id) db.jobs ≡ some row
    → is_waiting row.status ≡ true
    → row.attempts < row.max_attempts
    → IsValid db.jobs
    → IsValid (Delivery.start_attempt settings clock uuid a row db).0.jobs
unfolding Delivery.start_attempt Claims.broker_start
start_attempt-IsValid settings clock uuid a row db found waits room h =
    let reads = Attempts.reading clock.now clock.started_at in
    let owner = Attempts.lease_token a.worker_id uuid in
    let u =
      Claims.broker_start reads owner settings.lease_seconds a.worker_id a.instance_id a.delivery_id
        a.job_id in
    let consistent = (All-find IsConsistent (has_id a.job_id) db.jobs h.rows found).0 in
    ground (
      arith,
      h,
      update_found-IsValid a.job_id u.set db.jobs found (λ j. refl) (λ j. refl)
          (Rows.broker_start-IsConsistent reads owner settings.lease_seconds a.worker_id
            a.instance_id a.delivery_id a.job_id row waits room consistent)
          h,
    )

broker_exhausted-IsValid :
    (clock : Clock) (id : String) (row : Job) (jobs : List Job)
    → Table.find (has_id id) jobs ≡ some row
    → is_waiting row.status ≡ true
    → IsValid jobs
    → IsValid (Table.execute (Claims.broker_exhausted clock id) jobs)
unfolding Claims.broker_exhausted
broker_exhausted-IsValid clock id row jobs found waits h =
    update_found-IsValid id (Claims.broker_exhausted clock id).set jobs found (λ j. refl)
      (λ j. refl)
      (Rows.broker_exhausted-IsConsistent clock id row waits
        (All-find IsConsistent (has_id id) jobs h.rows found).0)
      h

begin_row-IsValid :
    (settings : Settings) (clock : BeginClock) (uuid : String) (a : Attempt) (row : Job)
    (db : Database)
    → Table.find (has_id a.job_id) db.jobs ≡ some row
    → IsValid db.jobs
    → IsValid (Delivery.begin_row settings clock uuid a row db).0.jobs
unfolding Delivery.begin_row
begin_row-IsValid settings clock uuid a row db found h = ground (
  arith,
  h,
  broker_exhausted-IsValid (Attempts.reading clock.now clock.found) a.job_id row db.jobs found,
  start_attempt-IsValid settings clock uuid a row db found,
)

pub begin_attempt-IsValid :
    (settings : Settings) (clock : BeginClock) (uuid : String) (a : Attempt) (db : Database)
    → IsValid db.jobs
    → IsValid (Delivery.begin_attempt settings clock uuid a db).0.jobs
unfolding Delivery.begin_attempt
begin_attempt-IsValid settings clock uuid a db h =
    elim (Option-cases (Table.find (has_id a.job_id) db.jobs)) [
      | inl none_found ↦ rw (none_found, Delivery.begin_attempt) h
      | inr (row, found) ↦
          rw (found, Delivery.begin_attempt)
            (begin_row-IsValid settings clock uuid a row db found h)
    ]

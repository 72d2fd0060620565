-- ===== src/Storage/Redelivery.antt =====
-- A message that the broker delivers again: begin_attempt of whisper/storage.py.
use transcriber.Prelude.{
  ◌≡◌, refl, true, false, String, some, arith, Option-cases, inl, inr, ==→≡, ==_refl, ◌==◌,
  &&-cases,
}
use transcriber.Prelude.Table
use transcriber.Prelude.Table.Laws.{find-update, find_sound}
use transcriber.Storage.Schema.{Job, Database, Settings, after, is_running}
use transcriber.Storage.Statements.Jobs.{has_id}
use transcriber.Storage.Statements.Claims
use transcriber.Storage.Attempts.{ClaimedJob, claimed_row, lease_token, reading}
use transcriber.Storage.Delivery
use transcriber.Storage.Delivery.{BeginClock, Attempt, started, busy, is_same_delivery}

-- An attempt that has begun is on a row that runs it.
abbrev pub Runs : Attempt → Database → ClaimedJob → Type 0
Runs a db c =
    (Table.find (has_id a.job_id) db.jobs ≡ some c.job)
    × ((c.job.dispatch_id == a.message_id) ≡ true)
    × (is_running c.job.status ≡ true)
    × (is_same_delivery a c.job ≡ true)
    × (c ≡ claimed_row c.job.lease_owner c.job)

start_attempt-Runs :
    (settings : Settings) (clock : BeginClock) (uuid : String) (a : Attempt) (row : Job)
    (db db' : Database) (c : ClaimedJob)
    → Table.find (has_id a.job_id) db.jobs ≡ some row
    → (row.dispatch_id == a.message_id) ≡ true
    → Delivery.start_attempt settings clock uuid a row db ≡ (db', started c)
    → Runs a db' c
unfolding Delivery.start_attempt Claims.broker_start
start_attempt-Runs settings clock uuid a row db db' c found sent e =
    let owner = lease_token a.worker_id uuid in
    let u =
      Claims.broker_start (reading clock.now clock.started_at) owner settings.lease_seconds
        a.worker_id a.instance_id a.delivery_id a.job_id in
    let there : Table.find (has_id a.job_id) (Table.execute u db.jobs) ≡ some (u.set row) =
      rw (find-update (has_id a.job_id) u.rows u.set db.jobs (λ x. refl), found)
        (rw (find_sound (has_id a.job_id) db.jobs found) refl) in
    let one = ==_refl a.delivery_id in
    let two = ==_refl a.worker_id in
    let three = ==_refl a.instance_id in ground (arith, there, one, two, three, sent, e)

begin_attempt-Runs :
    (settings : Settings) (clock : BeginClock) (uuid : String) (a : Attempt) (db db' : Database)
    (c : ClaimedJob)
    → Delivery.begin_attempt settings clock uuid a db ≡ (db', started c)
    → Runs a db' c
unfolding Delivery.begin_attempt Delivery.begin_row
begin_attempt-Runs settings clock uuid a db db' c e =
    elim (Option-cases (Table.find (has_id a.job_id) db.jobs)) [
      | inl absent ↦ cc (rw (absent, Delivery.begin_attempt) at e)
      | inr (row, found) ↦
          ground (arith, found, e, start_attempt-Runs settings clock uuid a row db db' c found)
    ]

-- While the lease of an attempt lives, the same delivery is answered with the same attempt again, and
-- nothing changes, whatever the clock otherwise reads.
pub begin_attempt-again :
    (settings : Settings) (clock clock' : BeginClock) (uuid uuid' : String) (a : Attempt)
    (db db' : Database) (c : ClaimedJob)
    → Delivery.begin_attempt settings clock uuid a db ≡ (db', started c)
    → after c.lease_expires_at clock'.found ≡ true
    → Delivery.begin_attempt settings clock' uuid' a db' ≡ (db', started c)
unfolding Delivery.begin_attempt Delivery.begin_row
begin_attempt-again settings clock clock' uuid uuid' a db db' c e live =
    let (found, sent, runs, same, whole) = begin_attempt-Runs settings clock uuid a db db' c e in
    rw (found, Delivery.begin_attempt, Delivery.begin_row)
      (ground (arith, sent, runs, same, whole, live))

-- While the lease of an attempt lives, another delivery of its message is told that the job is busy,
-- and nothing changes, whatever worker and slot it goes to.
pub begin_attempt-busy :
    (settings : Settings) (clock clock' : BeginClock) (uuid uuid' : String) (a b : Attempt)
    (db db' : Database) (c : ClaimedJob)
    → Delivery.begin_attempt settings clock uuid a db ≡ (db', started c)
    → after c.lease_expires_at clock'.found ≡ true
    → b.job_id ≡ a.job_id
    → b.message_id ≡ a.message_id
    → (a.delivery_id == b.delivery_id) ≡ false
    → Delivery.begin_attempt settings clock' uuid' b db' ≡ (db', busy)
unfolding Delivery.begin_attempt Delivery.begin_row
begin_attempt-busy settings clock clock' uuid uuid' a b db db' c e live job message differs =
    let (found, sent, runs, same, whole) = begin_attempt-Runs settings clock uuid a db db' c e in
    let (delivered, _) = &&-cases (c.job.delivery_id == a.delivery_id) _ same in
    let held : c.job.delivery_id ≡ a.delivery_id = ==→≡ delivered in
    let differ : (c.job.delivery_id == b.delivery_id) ≡ false = rw held differs in
    let there : Table.find (has_id b.job_id) db'.jobs ≡ some c.job = rw job found in
    let named : (c.job.dispatch_id == b.message_id) ≡ true = rw message sent in
    rw (there, Delivery.begin_attempt, Delivery.begin_row)
      (ground (arith, named, runs, differ, whole, live))

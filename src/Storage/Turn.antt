-- ===== src/Storage/Turn.antt =====
-- Whose turn it is: the job that claim.sql takes, under claim_next_job of whisper/storage.py.
use transcriber.Prelude.{
  ◌+◌, ◌≤◌, ◌≡◌, refl, Bool, true, false, ◌&&◌, not, String, Option, none, some, List, [], ◌∷◌,
  arith, ltb, Bool-cases, inl, inr, if◌then◌else◌,
}
use transcriber.Prelude.Results.{ok}
use transcriber.Prelude.Table
use transcriber.Prelude.Table.Keys.{In, In-update_other}
use transcriber.Storage.Schema.{Job, Database, Settings, running, postgres, seconds}
use transcriber.Storage.Statements.Jobs
use transcriber.Storage.Statements.Jobs.{has_id}
use transcriber.Storage.Statements.Claims
use transcriber.Storage.Attempts
use transcriber.Storage.Attempts.{ClaimedJob, ClaimClock, reading, lease_token}

-- One step of the search: the older of a row and the oldest of the rest.
older_of : (rest : Option Job) (y : Job) → Option Job
older_of none y = some y
older_of (some z) y = some (if Claims.older_first z y then z else y)

older_of_lem :
    (rest : Option Job) (y : Job)
    → (c : Job) × (older_of rest y ≡ some c)
      × (c.created_at ≤ y.created_at)
      × ((z : Job) → rest ≡ some z → c.created_at ≤ z.created_at)
unfolding older_of
older_of_lem none y = (y, refl, omega arith, λ z e. cc)
older_of_lem (some z) y = elim (Bool-cases (ltb z.created_at y.created_at)) [
  | inl older ↦ (z, rw older, ground (arith, older), λ w e. ground arith)
  | inr younger ↦ (y, rw younger, omega arith, λ w e. ground (arith, younger))
]

-- The first row by age is no younger than any row that passes the test.
first_by_oldest :
    (p : Job → Bool) (xs : List Job) (x : Job)
    → In x xs
    → p x ≡ true
    → (c : Job) × (Table.first_by Claims.older_first p xs ≡ some c) × (c.created_at ≤ x.created_at)
unfolding Table.first_by older_of
first_by_oldest p [] x i e = absurd i
first_by_oldest p (y ∷ xs) x (inl same) e =
    let (c, found, older, _) = older_of_lem (Table.first_by Claims.older_first p xs) y in
    (c, rw (same, e) (rw (← same) (ground (arith, found))), rw (← same) older)
first_by_oldest p (y ∷ xs) x (inr i) e =
    let (z, rest, le) = first_by_oldest p xs x i e in
    elim (Bool-cases (p y)) [
      | inl q ↦
          let (c, found, _, oldest) = older_of_lem (Table.first_by Claims.older_first p xs) y in
          (c, rw q (ground (arith, found)), omega (arith, oldest z rest, le))
      | inr q ↦ (z, rw q rest, le)
    ]

-- In PostgreSQL mode without policies, a worker that may claim gets a job whenever one waits that
-- has attempts left, whose lease, if it had one, has ended, and whose row no other transaction has
-- locked: it is created no later than any such job, and it is leased to the worker under the new token for
-- the configured time.
pub claim_next_job-takes_oldest :
    (settings : Settings) (clock : ClaimClock) (uuid : String) (locked : String → Bool)
    (fallback : Bool) (worker instance : String) (db : Database) (x : Job)
    → settings.queue_backend ≡ postgres
    → Attempts.is_empty settings.worker_policies ≡ true
    → Claims.may_claim clock.now fallback settings.preferred_workers worker instance db.slots ≡ true
    → In x db.jobs
    → Claims.is_claimable clock.now x ≡ true
    → locked x.job_id ≡ false
    → (db' : Database) × (c : ClaimedJob) × (Attempts.claim_next_job settings clock uuid locked
          fallback worker instance db
        ≡ ok (db', some c))
      × (c.job.created_at ≤ x.created_at)
      × (c.job.status ≡ running)
      × (c.job.lease_owner ≡ lease_token worker uuid)
      × (c.job.lease_expires_at ≡ some (clock.now + seconds settings.lease_seconds))
unfolding Attempts.claim_next_job Attempts.claim_by_preference Attempts.lease_candidate
    Claims.claim_candidate Claims.lease
claim_next_job-takes_oldest settings clock uuid locked fallback worker instance db x mode none_set
      may i claimable free =
    let reaped = Table.execute (Jobs.reap (reading clock.now clock.now)) db.jobs in
    let there =
      In-update_other (Jobs.reap (reading clock.now clock.now)).rows
        (Jobs.reap (reading clock.now clock.now)).set db.jobs x i
        (unfold Jobs.reap in ground (arith, claimable)) in
    let (c, found, older) =
      first_by_oldest (λ k. Claims.is_claimable clock.now k && not (locked k.job_id)) reaped x there
        (rw (claimable, free)) in
    let set =
      Claims.lease (reading clock.now clock.now) clock.now (lease_token worker uuid)
        settings.lease_seconds worker instance in
    (
      record db { jobs = Table.update (has_id c.job_id) set reaped },
      Attempts.claimed_row (lease_token worker uuid) (set c),
      rw (mode, none_set, may, found),
      older,
      refl,
      refl,
      refl,
    )

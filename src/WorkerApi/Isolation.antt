-- ===== src/WorkerApi/Isolation.antt =====
-- What a worker's calls leave alone: the jobs that are leased to others.
use Prim.Native.String
use text.Mathlib.Text.{starts_with}
use transcriber.Prelude.{
  ℕ, ◌≡◌, refl, Bool, true, false, String, if◌then◌else◌, some, List, ◌==◌, arith, Option-cases,
  Bool-cases, inl, inr, ==→≡,
}
use transcriber.Prelude.Results.{ok, err}
use transcriber.Prelude.Table
use transcriber.Prelude.Table.Keys.{In, In-update_other, find-In, count-zero_of_In}
use transcriber.Storage.Schema.{Job, Segment, Database, Clock, Settings, is_queued}
use transcriber.Storage.Statements.Jobs
use transcriber.Storage.Statements.Jobs.{has_id}
use transcriber.Storage.Statements.Outbox
use transcriber.Storage.Uploads
use transcriber.Storage.Attempts
use transcriber.Storage.Validity.{IsValid}
use transcriber.WorkerApi
use transcriber.WorkerApi.{
  Metadata, HeartbeatRequest, CompleteRequest, FailRequest, identity, permission_denied,
}

requeue-keeps :
    (clock : Clock) (uuid key : String) (db : Database) (j : Job)
    → In j db.jobs
    → has_id key j ≡ false
    → In j (Attempts.requeue clock uuid key db).jobs
unfolding Attempts.requeue Uploads.enqueue Outbox.dispatch
requeue-keeps clock uuid key db j i foreign =
    let kept = In-update_other (has_id key) (Outbox.dispatch uuid key).set db.jobs j i foreign in
    elim (Option-cases (Table.find (has_id key) db.jobs)) [
      | inl absent ↦ rw (absent, Attempts.requeue) i
      | inr (row, found) ↦
          rw (found, Attempts.requeue)
            (elim (Bool-cases (is_queued row.status)) [
              | inl waits ↦ rw waits kept
              | inr over ↦ rw over i
            ])
    ]

-- A row that a call's token does not lease.
module _ (clock : Clock) (key token : String) (db : Database) (j : Job) (i : In j db.jobs)
    (other : (j.lease_owner == token) ≡ false) where
  heartbeat-keeps :
      (settings : Settings) (percent : ℕ)
      → In j (Attempts.heartbeat settings clock key token percent db).0.jobs
  unfolding Attempts.heartbeat Jobs.heartbeat
  heartbeat-keeps settings percent = In-update_other _ _ db.jobs j i (ground (arith, other))

  complete-keeps :
      (text path : String) (segments : List Segment)
      → In j (Attempts.complete_job clock key token text segments path db).0.jobs
  unfolding Attempts.complete_job Jobs.complete
  complete-keeps text path segments = In-update_other _ _ db.jobs j i (ground (arith, other))

  -- If the key is the row's own, the statement finds no row.
  fail-count :
      (retryable : Bool) (error : String)
      → IsValid db.jobs
      → has_id key j ≡ true
      → Table.row_count (Jobs.fail clock retryable error key token) db.jobs ≡ 0
  unfolding Jobs.fail
  fail-count retryable error valid own =
      count-zero_of_In (Jobs.fail clock retryable error key token).rows db.jobs (λ x there.
        elim (Bool-cases (has_id key x)) [
          | inr foreign ↦ ground (arith, foreign)
          | inl same_key ↦
              let same : x ≡ j = ground (
                arith,
                find-In (has_id key) db.jobs (valid.ids key) there same_key,
                find-In (has_id key) db.jobs (valid.ids key) i own,
              ) in
              rw same (ground (arith, other))
        ])

  fail-keeps :
      (settings : Settings) (uuid error : String) (retryable : Bool)
      → IsValid db.jobs
      → In j (Attempts.fail_job settings clock uuid key token error retryable db).0.jobs
  unfolding Attempts.fail_job
  fail-keeps settings uuid error retryable valid =
      let u = Jobs.fail clock retryable error key token in
      let kept =
        In-update_other u.rows u.set db.jobs j i (unfold Jobs.fail in ground (arith, other)) in
      elim (Bool-cases (has_id key j)) [
        | inr foreign ↦
            let queued =
              requeue-keeps clock uuid key (record db { jobs = Table.execute u db.jobs }) j kept
                foreign in
            ground (arith, kept, queued)
        | inl own ↦ ground (arith, kept, fail-count retryable error valid own)
      ]

module _ (sha256 : String → String) (hashes : List (String × String)) where
  answer :
      (metadata : Metadata) (id token : String)
      → identity sha256 hashes metadata ≡ some id
      → WorkerApi.authenticate_lease sha256 hashes metadata token
        ≡ (if starts_with token (String.◌++◌ id "/") then ok id else err permission_denied)
  unfolding WorkerApi.authenticate_lease
  answer metadata id token known = rw (known, WorkerApi.authenticate_lease) refl

  -- A lease that is not the worker's is not the token of an accepted call.
  own_token :
      (id token lease : String)
      → starts_with token (String.◌++◌ id "/") ≡ true
      → starts_with lease (String.◌++◌ id "/") ≡ false
      → (lease == token) ≡ false
  own_token id token lease own foreign = elim (Bool-cases (lease == token)) [
    | inr differs ↦ differs
    | inl same ↦ cc (rw (==→≡ same) at foreign)
  ]

  module _ (metadata : Metadata) (id : String) (known : identity sha256 hashes metadata ≡ some id)
      (db : Database) (j : Job) (i : In j db.jobs)
      (foreign : starts_with j.lease_owner (String.◌++◌ id "/") ≡ false) where
    heartbeat-others :
        (settings : Settings) (clock : Clock) (r : HeartbeatRequest)
        → In j (WorkerApi.heartbeat sha256 hashes settings metadata clock r db).0.jobs
    unfolding WorkerApi.heartbeat
    heartbeat-others settings clock r =
        elim (Bool-cases (starts_with r.lease_token (String.◌++◌ id "/"))) [
          | inr refused ↦
              rw (answer metadata id r.lease_token known, refused, WorkerApi.heartbeat) i
          | inl own ↦
              let other = own_token id r.lease_token j.lease_owner own foreign in
              rw (answer metadata id r.lease_token known, own, WorkerApi.heartbeat)
                (elim (Option-cases (WorkerApi.progress r.progress_percent)) [
                  | inl absurd_progress ↦ rw absurd_progress i
                  | inr (percent, shown) ↦
                      rw shown
                        (heartbeat-keeps clock r.job_id r.lease_token db j i other settings percent)
                ])
        ]

    complete-others :
        (clock : Clock) (r : CompleteRequest)
        → In j (WorkerApi.complete sha256 hashes metadata clock r db).0.jobs
    unfolding WorkerApi.complete
    complete-others clock r = elim (Bool-cases (starts_with r.lease_token (String.◌++◌ id "/"))) [
      | inr refused ↦ rw (answer metadata id r.lease_token known, refused, WorkerApi.complete) i
      | inl own ↦
          let other = own_token id r.lease_token j.lease_owner own foreign in
          rw (answer metadata id r.lease_token known, own, WorkerApi.complete)
            (elim (Option-cases (WorkerApi.stored_segments r.segments)) [
              | inl malformed ↦ rw malformed (ground (arith, i))
              | inr (segments, stored) ↦
                  let kept =
                    complete-keeps clock r.job_id r.lease_token db j i other r.text "" segments in
                  rw stored (ground (arith, i, kept))
            ])
    ]

    fail-others :
        (settings : Settings) (clock : Clock) (uuid : String) (r : FailRequest)
        → IsValid db.jobs
        → In j (WorkerApi.fail sha256 hashes settings metadata clock uuid r db).0.jobs
    unfolding WorkerApi.fail
    fail-others settings clock uuid r valid =
        elim (Bool-cases (starts_with r.lease_token (String.◌++◌ id "/"))) [
          | inr refused ↦ rw (answer metadata id r.lease_token known, refused, WorkerApi.fail) i
          | inl own ↦
              let other = own_token id r.lease_token j.lease_owner own foreign in
              rw (answer metadata id r.lease_token known, own, WorkerApi.fail)
                (ground (
                  arith,
                  i,
                  fail-keeps clock r.job_id r.lease_token db j i other settings uuid r.error_code
                      r.retryable valid,
                ))
        ]

  -- In a valid database, a call of an authenticated worker, whatever else it asks and whatever becomes of it,
  -- leaves each job exactly as it is whose lease token is not one of that worker: Heartbeat, Complete
  -- and Fail.
  pub calls_keep_others :
      (settings : Settings) (metadata : Metadata) (clock : Clock) (uuid id : String)
      (beat : HeartbeatRequest) (result : CompleteRequest) (failure : FailRequest) (db : Database)
      (j : Job)
      → IsValid db.jobs
      → In j db.jobs
      → identity sha256 hashes metadata ≡ some id
      → starts_with j.lease_owner (String.◌++◌ id "/") ≡ false
      → In j (WorkerApi.heartbeat sha256 hashes settings metadata clock beat db).0.jobs
        × In j (WorkerApi.complete sha256 hashes metadata clock result db).0.jobs
        × In j (WorkerApi.fail sha256 hashes settings metadata clock uuid failure db).0.jobs
  calls_keep_others settings metadata clock uuid id beat result failure db j valid i known foreign =
      (
        heartbeat-others metadata id known db j i foreign settings clock beat,
        complete-others metadata id known db j i foreign clock result,
        fail-others metadata id known db j i foreign settings clock uuid failure valid,
      )

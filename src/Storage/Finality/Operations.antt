-- ===== src/Storage/Finality/Operations.antt =====
-- The operations that do more than run one statement keep the result of a finished job.
use transcriber.Prelude.{
  ℕ, ◌≡◌, refl, sym, ap, ◌∙◌, Bool, true, false, ◌&&◌, not, String, Option, some, List, [], ◌∷◌,
  ◌++◌, arith, Bool-cases, Option-cases, inl, inr, ◌⊎◌, eq_iff, ==→≡,
}
use transcriber.Prelude.Results.{ok}
use transcriber.Prelude.Table
use transcriber.Prelude.Table.Laws.{find-update, find_sound}
use transcriber.Prelude.Table.Rows.{find-append, find-select_kept, count-select_gone}
use transcriber.Prelude.Table.Keys.{In-first_by, find-In}
use transcriber.Storage.Schema.{Job, Database, Clock, Settings, is_terminal}
use transcriber.Storage.Statements.Jobs
use transcriber.Storage.Statements.Jobs.{has_id}
use transcriber.Storage.Statements.Claims
use transcriber.Storage.Statements.Slots
use transcriber.Storage.Statements.Outbox
use transcriber.Storage.Uploads
use transcriber.Storage.Uploads.{Upload, new_job}
use transcriber.Storage.Attempts
use transcriber.Storage.Attempts.{ClaimClock, ClaimedJob, reading, lease_token}
use transcriber.Storage.Delivery
use transcriber.Storage.Delivery.{BeginClock, Attempt}
use transcriber.Storage.Validity.{IsValid}
use transcriber.Storage.Validity.Rows
use transcriber.Storage.Validity.Operations.{execute-IsValid}
use transcriber.Storage.Finality.{Outcome, outcome, Shows}
use transcriber.Storage.Finality.Rows as Settling
use transcriber.Storage.Finality.Rows.{execute-Shows}

append-Shows :
    (id : String) (o : Outcome) (xs ys : List Job) → Shows id o xs → Shows id o (xs ++ ys)
append-Shows id o xs ys h = elim (Option-cases (Table.find (has_id id) xs)) [
  | inl absent ↦ cc
  | inr (k, found) ↦ rw (find-append (has_id id) xs ys found) (rw found at h)
]

-- A statement on the key of a job that is not finished.
update_other-Shows :
    (key id : String) (o : Outcome) (set : Job → Job) (jobs : List Job) (row : Job)
    → ((j : Job) → (set j).job_id ≡ j.job_id)
    → Table.find (has_id key) jobs ≡ some row
    → is_terminal o.status ≡ true
    → Shows id o jobs
    → is_terminal row.status ≡ false
    → Shows id o (Table.update (has_id key) set jobs)
update_other-Shows key id o set jobs row ids found terminal h unfinished =
    rw (find-update (has_id id) (has_id key) set jobs (λ j. rw (ids j)))
      (elim (Option-cases (Table.find (has_id id) jobs)) [
        | inl absent ↦ cc
        | inr (k, shown) ↦ rw shown (elim (Bool-cases (has_id key k)) [
          | inl own ↦
              let same_key : key ≡ id = sym (==→≡ own) ∙ ==→≡ (find_sound (has_id id) jobs shown) in
              let same_row : k ≡ row = cc (shown, rw same_key at found) in
              let same : outcome k ≡ o = cc (rw shown at h) in
              let ended : is_terminal k.status ≡ true =
                rw (ap (λ (x : Outcome). x.status) same) terminal in
              cc (rw same_row at ended, unfinished)
          | inr other ↦ rw other (rw shown at h)
        ])
      ])

module _ (settings : Settings) (id : String) (o : Outcome)
    (terminal : is_terminal o.status ≡ true) where
  pub reserve-Shows :
      (hash : String → ℕ) (clock : Clock) (uuid : String) (upload : Upload) (db : Database)
      (locks : List ℕ)
      → Shows id o db.jobs
      → Shows id o (Uploads.reserve_upload hash settings clock uuid upload db locks).0.jobs
  unfolding Uploads.reserve_upload Uploads.reserve_locked Uploads.create_job
  reserve-Shows hash clock uuid upload db locks h =
      let grown = append-Shows id o db.jobs (new_job settings clock uuid upload ∷ []) h in
      ground (arith, h, grown)

  pub mark_queued-Shows :
      (clock : Clock) (uuid key : String) (db : Database)
      → Shows id o db.jobs
      → Shows id o (Uploads.mark_queued settings clock uuid key db).0.jobs
  unfolding Uploads.mark_queued Uploads.enqueue
  mark_queued-Shows clock uuid key db h =
      let u = Jobs.queue clock key in
      let kept = execute-Shows u db.jobs id o (Settling.queue-Settles clock key) terminal h in
      let sent =
        execute-Shows (Outbox.dispatch uuid key) (Table.execute u db.jobs) id o
          (Settling.dispatch-Settles uuid key) terminal kept in
      ground (arith, kept, sent)

  pub begin_row-Shows :
      (clock : BeginClock) (uuid : String) (a : Attempt) (row : Job) (db : Database)
      → Table.find (has_id a.job_id) db.jobs ≡ some row
      → Shows id o db.jobs
      → Shows id o (Delivery.begin_row settings clock uuid a row db).0.jobs
  unfolding Delivery.begin_row Delivery.start_attempt Claims.broker_start Claims.broker_exhausted
  begin_row-Shows clock uuid a row db found h = ground (
    arith,
    h,
    update_other-Shows a.job_id id o
        (Claims.broker_exhausted (reading clock.now clock.found) a.job_id).set db.jobs row
        (λ j. refl) found terminal h,
    update_other-Shows a.job_id id o
        (Claims.broker_start (reading clock.now clock.started_at) (lease_token a.worker_id uuid)
          settings.lease_seconds a.worker_id a.instance_id a.delivery_id a.job_id).set
        db.jobs row (λ j. refl) found terminal h,
  )

  pub begin_attempt-Shows :
      (clock : BeginClock) (uuid : String) (a : Attempt) (db : Database)
      → Shows id o db.jobs
      → Shows id o (Delivery.begin_attempt settings clock uuid a db).0.jobs
  unfolding Delivery.begin_attempt
  begin_attempt-Shows clock uuid a db h =
      elim (Option-cases (Table.find (has_id a.job_id) db.jobs)) [
        | inl absent ↦ rw (absent, Delivery.begin_attempt) h
        | inr (row, found) ↦
            rw (found, Delivery.begin_attempt) (begin_row-Shows clock uuid a row db found h)
      ]

  pub fail_job-Shows :
      (clock : Clock) (uuid key owner error : String) (retryable : Bool) (db : Database)
      → Shows id o db.jobs
      → Shows id o (Attempts.fail_job settings clock uuid key owner error retryable db).0.jobs
  unfolding Attempts.fail_job Uploads.enqueue
  fail_job-Shows clock uuid key owner error retryable db h =
      let u = Jobs.fail clock retryable error key owner in
      let kept =
        execute-Shows u db.jobs id o (Settling.fail-Settles clock retryable error key owner)
          terminal h in
      let sent =
        execute-Shows (Outbox.dispatch uuid key) (Table.execute u db.jobs) id o
          (Settling.dispatch-Settles uuid key) terminal kept in
      ground (arith, kept, sent)

  lease_candidate-Shows :
      (clock : Clock) (t t' : ℕ) (owner worker instance : String) (before : Job → Job → Bool)
      (locked : String → Bool) (db : Database)
      → IsValid db.jobs
      → Shows id o db.jobs
      → Shows id o
          (Attempts.lease_candidate settings clock t owner worker instance
            (Table.first_by before (λ k. Claims.is_claimable t' k && not (locked k.job_id)) db.jobs)
            db).0.jobs
  unfolding Attempts.lease_candidate
  lease_candidate-Shows clock t t' owner worker instance before locked db valid h =
      let test = λ (k : Job). Claims.is_claimable t' k && not (locked k.job_id) in
      elim (Option-cases (Table.first_by before test db.jobs)) [
        | inl empty ↦ rw (empty, Attempts.lease_candidate) h
        | inr (row, found) ↦
            let (i, able) = In-first_by before test db.jobs found in
            rw (found, Attempts.lease_candidate)
              (update_other-Shows row.job_id id o
                (Claims.lease clock t owner settings.lease_seconds worker instance) db.jobs row
                (λ k. unfold Claims.lease in refl)
                (find-In (has_id row.job_id) db.jobs (valid.ids row.job_id) i
                  ((eq_iff row.job_id row.job_id).1 refl))
                terminal h (ground arith))
      ]

  pub claim_next_job-Shows :
      (clock : ClaimClock) (uuid : String) (locked : String → Bool) (fallback : Bool)
      (worker instance : String) (db db' : Database) (claimed : Option ClaimedJob)
      → Attempts.claim_next_job settings clock uuid locked fallback worker instance db
        ≡ ok (db', claimed)
      → IsValid db.jobs
      → Shows id o db.jobs
      → Shows id o db'.jobs
  unfolding Attempts.claim_next_job Attempts.claim_by_policy Attempts.claim_by_preference
      Claims.claim_candidate Claims.claim_slot_candidate
  claim_next_job-Shows clock uuid locked fallback worker instance db db' claimed e valid h =
      let owner = lease_token worker uuid in
      let reads = reading clock.now clock.now in
      let reaped = Table.execute (Jobs.reap reads) db.jobs in
      let kept =
        execute-Shows (Jobs.reap reads) db.jobs id o (Settling.reap-Settles reads) terminal h in
      let sound = execute-IsValid (Jobs.reap reads) db.jobs (Rows.reap-Keeps reads) valid in
      let slots =
        Table.execute
          (Slots.request_work (reading clock.now clock.requested) settings.demand_ttl_seconds worker
            instance)
          db.slots in
      ground (
        arith,
        kept,
        lease_candidate-Shows reads clock.now clock.now owner worker instance Claims.older_first
            locked (record db { jobs = reaped }) sound kept,
        lease_candidate-Shows (reading clock.now clock.leased) clock.leased clock.leased owner
            worker instance Claims.older_or_smaller_first locked
            (record db { jobs = reaped; slots = slots }) sound kept,
      )

  -- The cleanup keeps the row or deletes it, and no row with its ID is left.
  pub cleanup-Shows :
      (clock : Clock) (ttl : ℕ) (db : Database)
      → IsValid db.jobs
      → Shows id o db.jobs
      → Shows id o (Delivery.cleanup_expired_jobs clock ttl db).0.jobs
        ⊎ (Table.count (has_id id) (Delivery.cleanup_expired_jobs clock ttl db).0.jobs ≡ 0)
  unfolding Delivery.cleanup_expired_jobs
  cleanup-Shows clock ttl db valid h =
      let u = Jobs.reap clock in
      let reaped = Table.execute u db.jobs in
      let sound = execute-IsValid u db.jobs (Rows.reap-Keeps clock) valid in
      let kept = execute-Shows u db.jobs id o (Settling.reap-Settles clock) terminal h in
      let keep = λ (k : Job). not (Jobs.is_expired clock ttl k) in
      elim (Option-cases (Table.find (has_id id) reaped)) [
        | inl absent ↦ cc (rw absent at kept)
        | inr (k, found) ↦ elim (Bool-cases (keep k)) [
          | inl stays ↦
              inl (rw (find-select_kept (has_id id) keep reaped k found stays) (rw found at kept))
          | inr goes ↦ inr (count-select_gone (has_id id) keep reaped k (sound.ids id) found goes)
        ]
      ]

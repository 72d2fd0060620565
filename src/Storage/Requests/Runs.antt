-- ===== src/Storage/Requests/Runs.antt =====
-- No step of a run changes what a row keeps of its upload.
use transcriber.Prelude.{
  ℕ, ◌≡◌, refl, Bool, not, String, Option, [], ◌∷◌, arith, Bool-cases, Option-cases, inl, inr, ◌⊎◌,
  none, some, ◌≤◌,
}
use transcriber.Prelude.Results.{ok}
use transcriber.Prelude.Table
use transcriber.Prelude.Table.Rows.{find-select_kept, count-select_gone}
use transcriber.Storage.Schema.{Job, Database, Clock, Settings}
use transcriber.Storage.Statements.Jobs
use transcriber.Storage.Statements.Jobs.{has_id}
use transcriber.Storage.Statements.Claims
use transcriber.Storage.Statements.Outbox
use transcriber.Storage.Uploads
use transcriber.Storage.Uploads.{Upload, new_job}
use transcriber.Storage.Attempts
use transcriber.Storage.Attempts.{ClaimClock, ClaimedJob, reading, lease_token}
use transcriber.Storage.Delivery
use transcriber.Storage.Delivery.{BeginClock, Attempt}
use transcriber.Storage.Validity.{IsValid}
use transcriber.Storage.Validity.Rows
use transcriber.Storage.Validity.Operations.{execute-IsValid}
use transcriber.Storage.Steps.{
  Step, Reach, step, reserve, download, interrupt, queue, acknowledge, cancel, claim, heartbeat,
  complete, fail, begin, publish, register, report, clean_up, reconcile,
}
use transcriber.Storage.Steps.Reachable.{Reach-IsValid}
use transcriber.Storage.Requests.{Request, IsFor, update-IsFor, append-IsFor}

module _ (settings : Settings) (id : String) (r : Request) where
  fail_job-IsFor :
      (clock : Clock) (uuid key owner error : String) (retryable : Bool) (db : Database)
      → IsFor id r db.jobs
      → IsFor id r (Attempts.fail_job settings clock uuid key owner error retryable db).0.jobs
  unfolding Attempts.fail_job Uploads.enqueue Jobs.fail Outbox.dispatch
  fail_job-IsFor clock uuid key owner error retryable db h =
      let u = Jobs.fail clock retryable error key owner in
      let kept = update-IsFor id r u.rows u.set db.jobs (λ j. refl) h in
      let v = Outbox.dispatch uuid key in
      let sent = update-IsFor id r v.rows v.set (Table.execute u db.jobs) (λ j. refl) kept in
      ground (arith, kept, sent)

  mark_queued-IsFor :
      (clock : Clock) (uuid key : String) (db : Database)
      → IsFor id r db.jobs
      → IsFor id r (Uploads.mark_queued settings clock uuid key db).0.jobs
  unfolding Uploads.mark_queued Uploads.enqueue Jobs.queue Outbox.dispatch
  mark_queued-IsFor clock uuid key db h =
      let u = Jobs.queue clock key in
      let kept = update-IsFor id r u.rows u.set db.jobs (λ j. refl) h in
      let v = Outbox.dispatch uuid key in
      let sent = update-IsFor id r v.rows v.set (Table.execute u db.jobs) (λ j. refl) kept in
      ground (arith, kept, sent)

  begin_row-IsFor :
      (clock : BeginClock) (uuid : String) (a : Attempt) (row : Job) (db : Database)
      → IsFor id r db.jobs
      → IsFor id r (Delivery.begin_row settings clock uuid a row db).0.jobs
  unfolding Delivery.begin_row Delivery.start_attempt Claims.broker_start Claims.broker_exhausted
  begin_row-IsFor clock uuid a row db h =
      let u = Claims.broker_exhausted (reading clock.now clock.found) a.job_id in
      let v =
        Claims.broker_start (reading clock.now clock.started_at) (lease_token a.worker_id uuid)
          settings.lease_seconds a.worker_id a.instance_id a.delivery_id a.job_id in
      let spent = update-IsFor id r u.rows u.set db.jobs (λ j. refl) h in
      let begun = update-IsFor id r v.rows v.set db.jobs (λ j. refl) h in
      ground (arith, h, spent, begun)

  begin_attempt-IsFor :
      (clock : BeginClock) (uuid : String) (a : Attempt) (db : Database)
      → IsFor id r db.jobs
      → IsFor id r (Delivery.begin_attempt settings clock uuid a db).0.jobs
  unfolding Delivery.begin_attempt
  begin_attempt-IsFor clock uuid a db h =
      elim (Option-cases (Table.find (has_id a.job_id) db.jobs)) [
        | inl absent ↦ rw (absent, Delivery.begin_attempt) h
        | inr (row, found) ↦
            rw (found, Delivery.begin_attempt) (begin_row-IsFor clock uuid a row db h)
      ]

  lease_candidate-IsFor :
      (clock : Clock) (t : ℕ) (owner worker instance : String) (candidate : Option Job)
      (db : Database)
      → IsFor id r db.jobs
      → IsFor id r
          (Attempts.lease_candidate settings clock t owner worker instance candidate db).0.jobs
  unfolding Attempts.lease_candidate Claims.lease
  lease_candidate-IsFor clock t owner worker instance none db h = h
  lease_candidate-IsFor clock t owner worker instance (some row) db h =
      update-IsFor id r _ _ db.jobs (λ j. refl) h

  claim_next_job-IsFor :
      (clock : ClaimClock) (uuid : String) (locked : String → Bool) (fallback : Bool)
      (worker instance : String) (db db' : Database) (claimed : Option ClaimedJob)
      → Attempts.claim_next_job settings clock uuid locked fallback worker instance db
        ≡ ok (db', claimed)
      → IsFor id r db.jobs
      → IsFor id r db'.jobs
  unfolding Attempts.claim_next_job Attempts.claim_by_policy Attempts.claim_by_preference Jobs.reap
  claim_next_job-IsFor clock uuid locked fallback worker instance db db' claimed e h =
      let u = Jobs.reap (reading clock.now clock.now) in
      let kept = update-IsFor id r u.rows u.set db.jobs (λ j. refl) h in
      grind (
        arith,
        kept,
        λ (k : Clock) (t : ℕ) (c : Option Job) (d : Database).
            lease_candidate-IsFor k t (lease_token worker uuid) worker instance c d,
      )

  cleanup-IsFor :
      (clock : Clock) (ttl : ℕ) (db : Database)
      → IsValid db.jobs
      → IsFor id r db.jobs
      → IsFor id r (Delivery.cleanup_expired_jobs clock ttl db).0.jobs
        ⊎ (Table.count (has_id id) (Delivery.cleanup_expired_jobs clock ttl db).0.jobs ≡ 0)
  unfolding Delivery.cleanup_expired_jobs
  cleanup-IsFor clock ttl db valid h =
      let u = Jobs.reap clock in
      let reaped = Table.execute u db.jobs in
      let sound = execute-IsValid u db.jobs (Rows.reap-Keeps clock) valid in
      let kept : IsFor id r reaped =
        unfold Jobs.reap in update-IsFor id r u.rows u.set db.jobs (λ j. refl) h in
      let keep = λ (k : Job). not (Jobs.is_expired clock ttl k) in
      elim (Option-cases (Table.find (has_id id) reaped)) [
        | inl absent ↦ cc (rw absent at kept)
        | inr (k, found) ↦ elim (Bool-cases (keep k)) [
          | inl stays ↦
              inl (rw (find-select_kept (has_id id) keep reaped k found stays) (rw found at kept))
          | inr goes ↦ inr (count-select_gone (has_id id) keep reaped k (sound.ids id) found goes)
        ]
      ]

module _ {settings : Settings} (id : String) (r : Request) where
  keeps_or_drops :
      (db : Database) {db' : Database}
      → Step settings db db'
      → IsValid db.jobs
      → IsFor id r db.jobs
      → IsFor id r db'.jobs ⊎ (Table.count (has_id id) db'.jobs ≡ 0)
  unfolding Uploads.mark_downloading Uploads.mark_upload_interrupted Uploads.acknowledge_job
      Uploads.cancel_job Attempts.heartbeat Attempts.complete_job Delivery.publish_next
      Delivery.register_consumer Delivery.report_availability Delivery.reconcile
      Uploads.reserve_upload Uploads.reserve_locked Uploads.create_job Jobs.set_status
      Jobs.upload_interrupted Jobs.ack Jobs.cancel Jobs.heartbeat Jobs.complete
      Outbox.broker_reconcile Outbox.broker_seed
  keeps_or_drops db (reserve hash clock uuid upload locks fresh) valid h =
      let grown = append-IsFor id r db.jobs (new_job settings clock uuid upload ∷ []) h in
      inl (ground (arith, h, grown))
  keeps_or_drops db (download clock key) valid h = inl (update-IsFor id r _ _ db.jobs (λ j. refl) h)
  keeps_or_drops db (interrupt clock key) valid h =
      inl (update-IsFor id r _ _ db.jobs (λ j. refl) h)
  keeps_or_drops db (queue clock uuid key) valid h =
      inl (mark_queued-IsFor settings id r clock uuid key db h)
  keeps_or_drops db (acknowledge clock key) valid h =
      inl (update-IsFor id r _ _ db.jobs (λ j. refl) h)
  keeps_or_drops db (cancel clock key) valid h = inl (update-IsFor id r _ _ db.jobs (λ j. refl) h)
  keeps_or_drops db (claim clock uuid locked fallback worker instance {db' = db'} {claimed = c} e)
        valid h =
      inl
        (claim_next_job-IsFor settings id r clock uuid locked fallback worker instance db db' c e h)
  keeps_or_drops db (heartbeat clock key owner progress) valid h =
      inl (update-IsFor id r _ _ db.jobs (λ j. refl) h)
  keeps_or_drops db (complete clock key owner text segments path) valid h =
      inl (update-IsFor id r _ _ db.jobs (λ j. refl) h)
  keeps_or_drops db (fail clock uuid key owner error retryable) valid h =
      inl (fail_job-IsFor settings id r clock uuid key owner error retryable db h)
  keeps_or_drops db (begin clock uuid a) valid h =
      inl (begin_attempt-IsFor settings id r clock uuid a db h)
  keeps_or_drops db (publish clock locked confirm) valid h = inl (ground (arith, h))
  keeps_or_drops db (register clock worker instance) valid h = inl (ground (arith, h))
  keeps_or_drops db (report clock worker instance ready) valid h = inl h
  keeps_or_drops db (clean_up clock ttl) valid h = cleanup-IsFor settings id r clock ttl db valid h
  keeps_or_drops db (reconcile clock uuid) valid h =
      inl (update-IsFor id r _ _ _ (λ j. refl) (update-IsFor id r _ _ db.jobs (λ j. refl) h))

-- The databases that steps lead to, each of which leaves a row under the ID.
pub data Lives (settings : Settings) (id : String) (db : Database) : Database → Type 0 where
  stay : Lives settings id db db
  next :
      {db' db'' : Database}
      → Lives settings id db db'
      → Step settings db' db''
      → 1 ≤ Table.count (has_id id) db''.jobs
      → Lives settings id db db''

module _ {settings : Settings} {id : String} {db : Database} (reached : Reach settings db) where
  pub Lives-Reach : {later : Database} → Lives settings id db later → Reach settings later
  Lives-Reach stay = reached
  Lives-Reach (next lives s there) = step (Lives-Reach lives) s

  pub Lives-IsFor :
      (r : Request) {later : Database}
      → Lives settings id db later
      → IsFor id r db.jobs
      → IsFor id r later.jobs
  Lives-IsFor r stay h = h
  Lives-IsFor r (next lives s there) h =
      elim (keeps_or_drops id r _ s (Reach-IsValid (Lives-Reach lives)) (Lives-IsFor r lives h)) [
        | inl kept ↦ kept
        | inr gone ↦ absurd (omega (arith, there, gone))
      ]

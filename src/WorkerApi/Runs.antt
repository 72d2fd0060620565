-- ===== src/WorkerApi/Runs.antt =====
-- The steps of the job store that a worker may take through whisper/worker_api.py.
use Prim.Native.String
use Prim.Native.String.{◌++◌}
use text.Mathlib.Text.{starts_with}
use text.Mathlib.TextLemmas.{append_assoc}
use text.Mathlib.TextPositions.{starts_with-append}
use transcriber.Prelude.{
  ℕ, ◌≡◌, ◌⊎◌, refl, Bool, true, false, String, Option, List, none, some, inl, inr, Option-cases,
  arith, eq_iff, ==→≡,
}
use transcriber.Prelude.Results.{Result-cases, ok}
use transcriber.Prelude.Table
use transcriber.Prelude.Table.Laws.{find_sound}
use transcriber.Storage.Schema.{Job, Database, Clock, Settings}
use transcriber.Storage.Statements.Jobs.{has_id}
use transcriber.Storage.Attempts
use transcriber.Storage.Attempts.{ClaimedJob, ClaimClock, lease_token, claimed_row}
use transcriber.Storage.Delivery
use transcriber.Storage.Delivery.{BeginClock, Attempt, started, is_same_delivery}
use transcriber.Storage.Steps.{Step, claim, heartbeat, complete, fail, begin, register, report}
use transcriber.WorkerApi
use transcriber.WorkerApi.{Metadata, identity}
use transcriber.WorkerApi.Claims

-- A lease token of the worker, or the one of a job that the row has assigned to the worker.
abbrev pub IsLease : String → String → String → Database → Type 0
IsLease worker id owner db =
    (starts_with owner (String.◌++◌ worker "/") ≡ true)
    ⊎ ((row : Job) × (Table.find (has_id id) db.jobs ≡ some row)
        × (row.assigned_worker_id ≡ worker)
        × (row.lease_owner ≡ owner))

-- The steps of the store that a worker may take: those on its own slots and its own leases.
abbrev pub IsOwn :
    {settings : Settings} (worker : String) (db : Database) {db' : Database}
    → Step settings db db'
    → Type 0
IsOwn worker db (claim clock uuid locked fallback name instance e) = name ≡ worker
IsOwn worker db (heartbeat clock id owner progress) =
    starts_with owner (String.◌++◌ worker "/") ≡ true
IsOwn worker db (complete clock id owner text segments path) =
    starts_with owner (String.◌++◌ worker "/") ≡ true
IsOwn worker db (fail clock uuid id owner error retryable) = IsLease worker id owner db
IsOwn worker db (begin clock uuid a) = a.worker_id ≡ worker
IsOwn worker db (register clock name instance) = name ≡ worker
IsOwn worker db (report clock name instance ready) = name ≡ worker
IsOwn worker db _ = ⊥

-- The databases that own steps of a worker lead to.
pub data Acts (settings : Settings) (worker : String) (db : Database) : Database → Type 0 where
  idle : Acts settings worker db db
  act :
      {db' db'' : Database}
      → Acts settings worker db db'
      → (s : Step settings db' db'') → IsOwn worker db' s
      → Acts settings worker db db''

lease_token-prefix :
    (worker uuid : String) → starts_with (lease_token worker uuid) (String.◌++◌ worker "/") ≡ true
lease_token-prefix worker uuid =
    let prefixed : starts_with ((worker ++ "/") ++ uuid) (worker ++ "/") ≡ true =
      starts_with-append (worker ++ "/") uuid in
    rw append_assoc at prefixed

claim_next_job-IsLease :
    (settings : Settings) (clock : ClaimClock) (uuid : String) (locked : String → Bool)
    (worker instance : String) (db db' : Database) (claimed : ClaimedJob)
    → Attempts.claim_next_job settings clock uuid locked false worker instance db
      ≡ ok (db', some claimed)
    → IsLease worker claimed.job.job_id claimed.lease_owner db'
unfolding Attempts.claim_next_job Attempts.claim_by_policy Attempts.claim_by_preference
    Attempts.lease_candidate
claim_next_job-IsLease settings clock uuid locked worker instance db db' claimed e =
    let own : claimed.lease_owner ≡ lease_token worker uuid = ground arith in
    inl (rw own (lease_token-prefix worker uuid))

start_attempt-lease :
    (settings : Settings) (clock : BeginClock) (uuid : String) (a : Attempt) (row : Job)
    (db : Database) (claimed : ClaimedJob)
    → (Delivery.start_attempt settings clock uuid a row db).1 ≡ started claimed
    → claimed.lease_owner ≡ lease_token a.worker_id uuid
unfolding Delivery.start_attempt
start_attempt-lease settings clock uuid a row db claimed e = ground arith

begin_row-lease :
    (settings : Settings) (clock : BeginClock) (uuid : String) (a : Attempt) (row : Job)
    (db : Database) (claimed : ClaimedJob)
    → (Delivery.begin_row settings clock uuid a row db).1 ≡ started claimed
    → (claimed.lease_owner ≡ lease_token a.worker_id uuid)
      ⊎ (((Delivery.begin_row settings clock uuid a row db).0 ≡ db)
          × (is_same_delivery a row ≡ true)
          × (claimed ≡ claimed_row row.lease_owner row))
unfolding Delivery.begin_row
begin_row-lease settings clock uuid a row db claimed e =
    ground (arith, start_attempt-lease settings clock uuid a row db claimed)

pub begin_attempt-IsLease :
    (settings : Settings) (clock : BeginClock) (uuid : String) (a : Attempt) (db : Database)
    (claimed : ClaimedJob)
    → (Delivery.begin_attempt settings clock uuid a db).1 ≡ started claimed
    → IsLease a.worker_id claimed.job.job_id claimed.lease_owner
        (Delivery.begin_attempt settings clock uuid a db).0
unfolding Delivery.begin_attempt
begin_attempt-IsLease settings clock uuid a db claimed e =
    elim (Option-cases (Table.find (has_id a.job_id) db.jobs)) [
      | inl absent ↦ absurd (ground (arith, absent, e))
      | inr (row, found) ↦
          elim (begin_row-lease settings clock uuid a row db claimed
            (rw (found, Delivery.begin_attempt) at e)) [
              | inl drawn ↦ inl (rw drawn (lease_token-prefix a.worker_id uuid))
              | inr (kept, same, again) ↦
                  let key : claimed.job.job_id ≡ a.job_id =
                    rw again (==→≡ (find_sound (has_id a.job_id) db.jobs found)) in
                  inr (
                    row,
                    rw (key, found, Delivery.begin_attempt, kept) found,
                    ground (arith, same, eq_iff row.assigned_worker_id a.worker_id),
                    rw again refl,
                  )
            ]
    ]

module _ (settings : Settings) (input_size : String → Option ℕ) where
  pub claim_response-Acts :
      (worker : String) (clock : Clock) (uuid : String) (claimed : ClaimedJob) (db db' : Database)
      → Acts settings worker db db'
      → IsLease worker claimed.job.job_id claimed.lease_owner db'
      → Acts settings worker db (Claims.claim_response input_size settings clock uuid claimed db').0
  unfolding Claims.claim_response
  claim_response-Acts worker clock uuid claimed db db' acts own =
      elim (Option-cases (input_size claimed.job.input_path)) [
        | inl e ↦
            rw (e, Claims.claim_response)
              (act acts
                (fail clock uuid claimed.job.job_id claimed.lease_owner "input_missing" false) own)
        | inr (size, e) ↦ rw (e, Claims.claim_response) acts
      ]

  pub claim_job-Acts :
      (clock : ClaimClock) (later : Clock) (uuid uuid' : String) (locked : String → Bool)
      (worker instance : String) (db : Database)
      → Acts settings worker db
          (Claims.claim_job input_size settings clock later uuid uuid' locked worker instance db).0
  unfolding Claims.claim_job
  claim_job-Acts clock later uuid uuid' locked worker instance db =
      elim (Result-cases
        (Attempts.claim_next_job settings clock uuid locked false worker instance db)) [
          | inr (e, h) ↦ rw (h, Claims.claim_job) idle
          | inl ((db', none), h) ↦
              rw (h, Claims.claim_job)
                (act idle (claim clock uuid locked false worker instance h) refl)
          | inl ((db', some claimed), h) ↦
              rw (h, Claims.claim_job)
                (claim_response-Acts worker later uuid' claimed db db'
                  (act idle (claim clock uuid locked false worker instance h) refl)
                  (claim_next_job-IsLease settings clock uuid locked worker instance db db' claimed
                    h))
        ]

module _ (settings : Settings) (sha256 : String → String) (hashes : List (String × String)) where
  authenticated-worker :
      (metadata : Metadata) (worker id : String)
      → WorkerApi.authenticate_worker sha256 hashes metadata worker ≡ ok id
      → identity sha256 hashes metadata ≡ some worker
  unfolding WorkerApi.authenticate_worker
  authenticated-worker metadata worker id e =
      elim (Option-cases (identity sha256 hashes metadata)) [
        | inl unknown ↦ cc (rw (unknown, WorkerApi.authenticate_worker) at e)
        | inr (known, h) ↦ ground (arith, h, e, eq_iff known worker)
      ]

  authenticated-lease :
      (metadata : Metadata) (token id : String)
      → WorkerApi.authenticate_lease sha256 hashes metadata token ≡ ok id
      → (identity sha256 hashes metadata ≡ some id)
        × (starts_with token (String.◌++◌ id "/") ≡ true)
  unfolding WorkerApi.authenticate_lease
  authenticated-lease metadata token id e = elim (Option-cases (identity sha256 hashes metadata)) [
    | inl unknown ↦ cc (rw (unknown, WorkerApi.authenticate_lease) at e)
    | inr (known, h) ↦ ground (arith, h, e)
  ]

  -- Nothing has changed, or the call has taken steps of the worker that its credentials identify.
  abbrev pub IsAsCaller : Metadata → Database → Database → Type 0
  IsAsCaller metadata db db' =
      (db' ≡ db)
      ⊎ ((worker : String) × (identity sha256 hashes metadata ≡ some worker)
          × Acts settings worker db db')

  pub as_worker :
      (metadata : Metadata) (worker id : String) (db db' : Database)
      → WorkerApi.authenticate_worker sha256 hashes metadata worker ≡ ok id
      → Acts settings worker db db'
      → IsAsCaller metadata db db'
  as_worker metadata worker id db db' e acts =
      inr (worker, authenticated-worker metadata worker id e, acts)

  pub as_holder :
      (metadata : Metadata) (token id : String) (db db' : Database)
      → WorkerApi.authenticate_lease sha256 hashes metadata token ≡ ok id
      → (s : Step settings db db') → (starts_with token (String.◌++◌ id "/") ≡ true → IsOwn id db s)
      → IsAsCaller metadata db db'
  as_holder metadata token id db db' e s own =
      let (known, prefixed) = authenticated-lease metadata token id e in
      inr (id, known, act idle s (own prefixed))

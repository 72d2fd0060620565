-- ===== src/Storage/Uploads.antt =====
-- The operations of `JobStore` that a client's upload goes through.
use Prim.Native.String
use transcriber.Prelude.{
  ℕ, Bool, true, false, ◌&&◌, ◌||◌, not, String, Option, none, some, List, [], ◌∷◌, ◌++◌, ◌==◌, leb,
  eqb, if◌then◌else◌,
}
use transcriber.Prelude.Table
use transcriber.Storage.Schema.{
  Job, Database, Clock, Settings, accepted, downloading, postgres, rabbitmq, is_upload, is_waiting,
}
use transcriber.Storage.Statements.Jobs
use transcriber.Storage.Statements.Jobs.{has_id}
use transcriber.Storage.Statements.Outbox

-- `Path.__truediv__`, for a folder other than the root
abbrev pub join_path : String → String → String
join_path folder name = String.◌++◌ folder (String.◌++◌ "/" name)

-- The arguments of `create_job` and `reserve_upload`.
pub record Upload : Type 0 where
  pub format : String
  pub preset : String
  pub language_override : String
  pub initial_prompt_override : String
  pub traceparent : String
  pub tracestate : String
  pub request_id : String
  pub retain_until_ack : Bool

-- The row that `create_job` inserts under a fresh UUID; the columns it leaves out have the defaults
-- of the migrations.
unfoldable pub new_job : Settings → Clock → String → Upload → Job
new_job settings clock uuid upload = record {
  job_id = uuid;
  status = accepted;
  format = upload.format;
  preset = upload.preset;
  language_override = upload.language_override;
  initial_prompt_override = upload.initial_prompt_override;
  input_path =
      join_path (join_path settings.storage_root uuid) (String.◌++◌ "input." upload.format);
  result_path = "";
  error = "";
  progress_percent = 0;
  attempts = 0;
  max_attempts = settings.max_attempts;
  lease_owner = "";
  lease_expires_at = none;
  created_at = clock.now;
  updated_at = clock.now;
  started_at = none;
  finished_at = none;
  text = "";
  segments = [];
  traceparent = upload.traceparent;
  tracestate = upload.tracestate;
  request_id = upload.request_id;
  retain_until_ack = upload.retain_until_ack;
  acknowledged_at = none;
  assigned_worker_id = "";
  assigned_instance_id = "";
  dispatch_id = "";
  delivery_id = "";
}

unfoldable pub create_job : Settings → Clock → String → Upload → Database → Database × Job
create_job settings clock uuid upload db =
    let job = new_job settings clock uuid upload in (record db { jobs = db.jobs ++ job ∷ [] }, job)

pub record UploadReservation : Type 0 where
  pub job : Job
  pub input_path : String
  pub needs_upload : Bool

-- What `reserve_upload` raises, or hands to the body of the `with`.
pub data Reservation : Type 0 where
  busy conflict : Reservation
  reserved : UploadReservation → Reservation

abbrev pub same_flag : Bool → Bool → Bool
same_flag true b = b
same_flag false b = not b

-- the negation of `identity != (fmt, preset, ...)`
abbrev pub same_options : Job → Upload → Bool
same_options job upload =
    job.format == upload.format
    && (job.preset == upload.preset
        && (job.language_override == upload.language_override
            && (job.initial_prompt_override == upload.initial_prompt_override
                && same_flag job.retain_until_ack upload.retain_until_ack)))

abbrev pub reservation : Job → Reservation
reservation job =
    reserved
      (record { job = job; input_path = job.input_path; needs_upload = is_upload job.status })

-- upload_lookup.sql
unfoldable pub upload_lookup : String → List Job → Option Job
upload_lookup request jobs = Table.find (λ j. j.request_id == request) jobs

-- The part of `reserve_upload` inside the lock, up to its `yield`.
unfoldable pub reserve_locked :
    Settings → Clock → String → Upload → Database → Database × Reservation
unfolding upload_lookup
reserve_locked settings clock uuid upload db =
    elim (if upload.request_id == "" then none else upload_lookup upload.request_id db.jobs) [
      | none ↦ let (db', job) = create_job settings clock uuid upload db in (db', reservation job)
      | some job ↦ (db, if same_options job upload then reservation job else conflict)
    ]

-- pg_try_advisory_lock and pg_advisory_unlock of a session, at the hash of the request ID: the
-- locks are those that some session holds.
unfoldable pub holds : List ℕ → ℕ → Bool
holds [] key = false
holds (k ∷ ks) key = eqb k key || holds ks key

unfoldable pub unlock : ℕ → List ℕ → List ℕ
unlock key [] = []
unlock key (k ∷ ks) = let rest = unlock key ks in if eqb k key then rest else k ∷ rest

module _ (hash : String → ℕ) where
  -- `reserve_upload` up to its `yield`: a reservation leaves the lock held, and where the body of
  -- the `try` raises the `finally` has released it.
  unfoldable pub reserve_upload :
      Settings → Clock → String → Upload → Database → List ℕ → Database × (List ℕ × Reservation)
  unfolding holds unlock
  reserve_upload settings clock uuid upload db locks =
      let anonymous = upload.request_id == "" in
      let key = hash upload.request_id in
      if not anonymous && holds locks key
      then (db, (locks, busy))
      else (let held = if anonymous then locks else key ∷ locks in
          let (db', outcome) = reserve_locked settings clock uuid upload db in
          elim outcome [
            | reserved r ↦ (db', (held, reserved r))
            | raised ↦ (db', (if anonymous then held else unlock key held, raised))
          ])

  -- the `finally` after the body of the `with`
  unfoldable pub release_upload : Upload → List ℕ → List ℕ
  unfolding unlock
  release_upload upload locks =
      if upload.request_id == "" then locks else unlock (hash upload.request_id) locks

-- `_enqueue`, with the UUID that it draws
unfoldable pub enqueue : Clock → String → String → ℕ → Database → Database
enqueue clock uuid id delay db = record db {
  jobs = Table.execute (Outbox.dispatch uuid id) db.jobs;
  outbox = Outbox.outbox_insert clock uuid id delay db.outbox;
}

unfoldable pub queue_position : String → Database → ℕ
queue_position id db = Jobs.queue_position id db.jobs

unfoldable pub mark_upload_interrupted : Clock → String → Database → Database
mark_upload_interrupted clock id db = record db {
  jobs = Table.execute (Jobs.upload_interrupted clock id) db.jobs;
}

unfoldable pub acknowledge_job : Clock → String → Database → Database × Bool
acknowledge_job clock id db =
    let statement = Jobs.ack clock id in
    (record db { jobs = Table.execute statement db.jobs }, Table.exists statement.rows db.jobs)

unfoldable pub mark_downloading : Clock → String → Database → Database
mark_downloading clock id db = record db {
  jobs = Table.execute (Jobs.set_status clock id downloading) db.jobs;
}

-- The RETURNING clause counts in the table as the statement found it.
unfoldable pub mark_queued : Settings → Clock → String → String → Database → Database × Option ℕ
unfolding enqueue
mark_queued settings clock uuid id db =
    let statement = Jobs.queue clock id in
    let db' = record db { jobs = Table.execute statement db.jobs } in
    elim (Table.find statement.rows db.jobs) [
      | none ↦ (db', none)
      | some row ↦
          let position =
            Table.count (λ q. is_waiting q.status && leb q.created_at row.created_at) db.jobs in
          (
            elim settings.queue_backend [ postgres ↦ db' | rabbitmq ↦ enqueue clock uuid id 0 db' ],
            some position,
          )
    ]

unfoldable pub get_job : String → Database → Option Job
get_job id db = Table.find (has_id id) db.jobs

unfoldable pub cancel_job : Clock → String → Database → Database × Bool
cancel_job clock id db =
    let statement = Jobs.cancel clock id in
    (record db { jobs = Table.execute statement db.jobs }, Table.exists statement.rows db.jobs)

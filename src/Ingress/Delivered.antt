-- ===== src/Ingress/Delivered.antt =====
-- What a client reads back through GetStatus of whisper/server.py.
use transcriber.Prelude.{
  &&-cases, ◌≡◌, Bool, true, false, String, List, ◌∷◌, ◌==◌, if◌then◌else◌, Option-cases, none,
  some, inl, inr, Bool-cases, refl, arith, ap,
}
use transcriber.Prelude.Results.{ok, err}
use transcriber.Prelude.Table
use transcriber.Prelude.Table.Laws.{find-update, count-zero_of_exists, update_none, find_sound}
use transcriber.Prelude.Table.Keys.{In, In-find, exists-In, exists_of_In, find-In}
use transcriber.Storage.Schema.{Job, Segment, Database, Clock, is_terminal}
use transcriber.Storage.Statements.Jobs
use transcriber.Storage.Statements.Jobs.{has_id, owned_at}
use transcriber.Storage.Uploads
use transcriber.Storage.Attempts
use transcriber.Storage.Validity.{IsValid}
use transcriber.WorkerApi
use transcriber.WorkerApi.{Metadata, CompleteRequest}
use transcriber.Ingress
use transcriber.Ingress.{StatusResponse, wire_done, not_found, failed_precondition}

-- A statement that changed one row found it.
row_of_count :
    {A : Type 0} (p : A → Bool) (xs : List A)
    → Table.count p xs ≡ 1
    → (a : A) × In a xs × (p a ≡ true)
row_of_count p xs one = elim (Bool-cases (Table.exists p xs)) [
  | inl e ↦ exists-In p xs e
  | inr e ↦ absurd (ground (arith, count-zero_of_exists p xs e))
]

get_job-complete_job :
    (clock : Clock) (id owner text : String) (segments : List Segment) (path : String)
    (db db' : Database)
    → IsValid db.jobs
    → Attempts.complete_job clock id owner text segments path db ≡ (db', true)
    → (job : Job) × (Uploads.get_job id db'
        ≡ some ((Jobs.complete clock text segments path id owner).set job))
unfolding Attempts.complete_job Uploads.get_job Jobs.complete
get_job-complete_job clock id owner text segments path db db' valid e =
    let s = Jobs.complete clock text segments path id owner in
    let one : Table.row_count s db.jobs ≡ 1 = ground (arith, ap (λ p. p.1) e) in
    let (job, there, owned) = row_of_count s.rows db.jobs one in
    let named : has_id id job ≡ true = ground (arith, owned) in
    let stored : Table.execute s db.jobs ≡ db'.jobs = ap (λ p. p.0.jobs) e in
    let read = find-In (has_id id) db.jobs (valid.ids id) there named in
    (job, rw (← stored, find-update (has_id id) s.rows s.set db.jobs (λ x. refl), read, owned) refl)

module _ (sha256 : String → String) (hashes : List (String × String)) where
  complete-accepted :
      (metadata : Metadata) (clock : Clock) (result : CompleteRequest) (segments : List Segment)
      (db db' : Database)
      → WorkerApi.stored_segments result.segments ≡ some segments
      → WorkerApi.complete sha256 hashes metadata clock result db ≡ (db', ok true)
      → Attempts.complete_job clock result.job_id result.lease_token result.text segments "" db
        ≡ (db', true)
  unfolding WorkerApi.complete
  complete-accepted metadata clock result segments db db' read e = ground (arith, read, e)

  -- In a valid database, once a worker's Complete is accepted, GetStatus answers DONE with its text,
  -- its segments in their order and no error, and Transcribe, when it looks next, answers its text.
  pub get_status-complete :
      (metadata : Metadata) (clock : Clock) (result : CompleteRequest) (segments : List Segment)
      (polls : List Database) (db db' : Database)
      → IsValid db.jobs
      → WorkerApi.stored_segments result.segments ≡ some segments
      → WorkerApi.complete sha256 hashes metadata clock result db ≡ (db', ok true)
      → (r : StatusResponse) × (Ingress.get_status result.job_id db' ≡ ok r)
        × (r.status ≡ wire_done)
        × (r.text ≡ result.text)
        × (r.segments ≡ segments)
        × (r.error ≡ "")
        × (Ingress.poll result.job_id (db' ∷ polls) ≡ ok result.text)
  unfolding Ingress.get_status Ingress.status_of Ingress.wire_status Ingress.poll Jobs.complete
  get_status-complete metadata clock result segments polls db db' valid read e =
      let stored = complete-accepted metadata clock result segments db db' read e in
      let (job, found) =
        get_job-complete_job clock result.job_id result.lease_token result.text segments "" db db'
          valid stored in
      let stored_job =
        (Jobs.complete clock result.text segments "" result.job_id result.lease_token).set job in
      (
        Ingress.status_of stored_job,
        rw (found, Ingress.get_status) refl,
        refl,
        refl,
        refl,
        refl,
        rw (found, Ingress.poll, Ingress.get_status) refl,
      )

-- Where the ID is unique, the statement of Ack finds a row where the job is finished.
exists-ack :
    (clock : Clock) (id : String) (db : Database)
    → IsValid db.jobs
    → Table.exists (Jobs.ack clock id).rows db.jobs
      ≡ (elim (Uploads.get_job id db) [ none ↦ false | some job ↦ is_terminal job.status ])
unfolding Uploads.get_job Jobs.ack
exists-ack clock id db valid =
    let rows = (Jobs.ack clock id).rows in
    elim (Bool-cases (Table.exists rows db.jobs)) [
      | inl some_row ↦
          let (job, there, both) = exists-In rows db.jobs some_row in
          let (named, terminal) = &&-cases _ _ both in
          rw (some_row, find-In (has_id id) db.jobs (valid.ids id) there named, terminal) refl
      | inr no_row ↦ elim (Option-cases (Table.find (has_id id) db.jobs)) [
        | inl absent ↦ rw (no_row, absent) refl
        | inr (job, found) ↦ elim (Bool-cases (is_terminal job.status)) [
          | inl terminal ↦
              let hit =
                exists_of_In rows db.jobs (In-find (has_id id) db.jobs found)
                  (rw (find_sound (has_id id) db.jobs found, terminal) refl) in
              absurd (cc (hit, no_row))
          | inr live ↦ rw (no_row, found, live) refl
        ]
      ]
    ]

-- In a valid database, Ack of a non-empty job ID answers that it is acknowledged where the job is
-- finished, that there is no such job where there is none, and otherwise that it has not finished.
pub ack-answers :
    (clock : Clock) (id : String) (db : Database)
    → IsValid db.jobs
    → (id == "") ≡ false
    → (Ingress.ack clock id db).1 ≡ (elim (Uploads.get_job id db) [
      | none ↦ err not_found
      | some job ↦ if is_terminal job.status then ok true else err failed_precondition
    ])
unfolding Ingress.ack Uploads.acknowledge_job Uploads.get_job
ack-answers clock id db valid named =
    let s = Jobs.ack clock id in
    let hit : Table.exists s.rows db.jobs ≡ (elim (Table.find (has_id id) db.jobs) [
      | none ↦ false
      | some job ↦ is_terminal job.status
    ]) =
      exists-ack clock id db valid in
    let kept : Table.exists s.rows db.jobs ≡ false → Table.update s.rows s.set db.jobs ≡ db.jobs =
      λ e. update_none s.rows s.set db.jobs (count-zero_of_exists s.rows db.jobs e) in
    elim (Bool-cases (Table.exists s.rows db.jobs)) [
      | inl e ↦ ground (arith, named, hit, e)
      | inr e ↦ rw (named, e, kept e) (ground (arith, hit, e))
    ]

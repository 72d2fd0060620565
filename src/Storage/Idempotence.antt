-- ===== src/Storage/Idempotence.antt =====
-- Retried and concurrent uploads under one request ID: reserve_upload of whisper/storage.py.
use transcriber.Prelude.{
  ℕ, ◌≡◌, ◌≢◌, refl, Bool, true, false, String, none, some, List, [], ◌∷◌, ◌++◌, arith, Bool-cases,
  Option-cases, ap, ◌∙◌, eq_iff, inl, inr, ==→≡, ==_refl, ◌==◌, if◌then◌else◌,
}
use transcriber.Prelude.Table
use transcriber.Prelude.Table.Keys.{In, In-find, find-In}
use transcriber.Storage.Schema.{Job, Database, Clock, Settings}
use transcriber.Storage.Statements.Jobs.{has_id}
use transcriber.Storage.Validity.{IsValid, has_request}
use transcriber.Storage.Steps.{Reach, step, reserve}
use transcriber.Storage.Steps.Reachable.{Reach-IsValid}
use transcriber.Storage.Requests.{Request, request_of, IsFor}
use transcriber.Storage.Requests.Runs.{Lives, Lives-Reach, Lives-IsFor}
use transcriber.Storage.Uploads
use transcriber.Storage.Uploads.{
  Upload, Reservation, busy, conflict, reserved, new_job, reservation, same_options,
}

named : (request : String) → request ≢ "" → (request == "") ≡ false
named request ne = elim (Bool-cases (request == "")) [ inl e ↦ absurd (ne (==→≡ e)) | inr e ↦ e ]

find-snoc :
    {A : Type 0} (p : A → Bool) (xs : List A) (a : A)
    → Table.find p xs ≡ none
    → p a ≡ true
    → Table.find p (xs ++ a ∷ []) ≡ some a
unfolding Table.find
find-snoc p [] a e h = ground arith
find-snoc p (x ∷ xs) a e h = ground (arith, find-snoc p xs a)

same_flag_refl : (b : Bool) → Uploads.same_flag b b ≡ true
same_flag_refl true = refl
same_flag_refl false = refl

pub unlock-absent :
    (key : ℕ) (locks : List ℕ) → Uploads.holds locks key ≡ false → Uploads.unlock key locks ≡ locks
unfolding Uploads.holds Uploads.unlock
unlock-absent key [] e = refl
unlock-absent key (k ∷ ks) e = ground (arith, unlock-absent key ks)

same_options-new_job :
    (settings : Settings) (clock : Clock) (uuid : String) (upload : Upload)
    → same_options (new_job settings clock uuid upload) upload ≡ true
unfolding new_job
same_options-new_job settings clock uuid upload =
    rw
      (
        ==_refl upload.format,
        ==_refl upload.preset,
        ==_refl upload.language_override,
        ==_refl upload.initial_prompt_override,
      )
      (same_flag_refl upload.retain_until_ack)

find-none_of_count :
    {A : Type 0} (p : A → Bool) (xs : List A) → Table.count p xs ≡ 0 → Table.find p xs ≡ none
unfolding Table.find Table.count
find-none_of_count p [] e = refl
find-none_of_count p (x ∷ xs) e = ground (arith, find-none_of_count p xs)

module _ (hash : String → ℕ) (settings : Settings) (upload : Upload)
    (named_request : upload.request_id ≢ "") where
  reserve_new :
      (clock : Clock) (uuid : String) (db : Database) (locks : List ℕ)
      → Uploads.upload_lookup upload.request_id db.jobs ≡ none
      → Uploads.holds locks (hash upload.request_id) ≡ false
      → Uploads.reserve_upload hash settings clock uuid upload db locks ≡ (
        record db { jobs = db.jobs ++ new_job settings clock uuid upload ∷ [] },
        (hash upload.request_id ∷ locks, reservation (new_job settings clock uuid upload)),
      )
  unfolding Uploads.reserve_upload Uploads.reserve_locked Uploads.create_job
  reserve_new clock uuid db locks new free =
      ground (arith, named upload.request_id named_request, new, free)

  -- A reservation of an upload that is known hands out its job, or reports a conflict.
  reserve_known :
      (clock : Clock) (uuid : String) (db : Database) (locks : List ℕ) (j : Job)
      → Uploads.upload_lookup upload.request_id db.jobs ≡ some j
      → Uploads.holds locks (hash upload.request_id) ≡ false
      → Uploads.reserve_upload hash settings clock uuid upload db locks ≡ (
          if same_options j upload
          then (db, (hash upload.request_id ∷ locks, reservation j))
          else (db, (locks, conflict)))
  unfolding Uploads.reserve_upload Uploads.reserve_locked
  reserve_known clock uuid db locks j known free = ground (
    arith,
    named upload.request_id named_request,
    known,
    free,
    unlock-absent (hash upload.request_id) locks free,
  )

  new_job-request :
      (clock : Clock) (uuid : String)
      → (new_job settings clock uuid upload).request_id ≡ upload.request_id
  unfolding new_job
  new_job-request clock uuid = refl

  new-IsFor :
      (clock : Clock) (uuid : String) (db : Database)
      → Table.count (has_id uuid) db.jobs ≡ 0
      → IsFor uuid
          (request_of (new_job settings clock uuid upload))
          (db.jobs ++ new_job settings clock uuid upload ∷ [])
  unfolding new_job
  new-IsFor clock uuid db fresh =
      rw
        (find-snoc (has_id uuid) db.jobs (new_job settings clock uuid upload)
          (find-none_of_count (has_id uuid) db.jobs fresh) (==_refl uuid))
        refl

  same_options-request :
      (j k : Job)
      → request_of j ≡ request_of k
      → same_options k upload ≡ true
      → same_options j upload ≡ true
  same_options-request j k same h =
      rw
        (
          ap (λ (x : Request). x.format) same,
          ap (λ (x : Request). x.preset) same,
          ap (λ (x : Request). x.language_override) same,
          ap (λ (x : Request). x.initial_prompt_override) same,
          ap (λ (x : Request). x.retain_until_ack) same,
        )
        h

  -- A reservation is handed the one row under its request ID if the options agree.
  pub reserve_row :
      (clock : Clock) (uuid : String) (db : Database) (locks : List ℕ) (j : Job)
      → IsValid db.jobs
      → In j db.jobs
      → j.request_id ≡ upload.request_id
      → same_options j upload ≡ true
      → Uploads.holds locks (hash upload.request_id) ≡ false
      → Uploads.reserve_upload hash settings clock uuid upload db locks
        ≡ (db, (hash upload.request_id ∷ locks, reservation j))
  unfolding Uploads.upload_lookup
  reserve_row clock uuid db locks j valid i own same free =
      let key : has_request upload.request_id j ≡ true = (eq_iff _ _).1 own in
      let known : Uploads.upload_lookup upload.request_id db.jobs ≡ some j =
        find-In (has_request upload.request_id) db.jobs
          (valid.requests upload.request_id named_request) i key in
      rw (reserve_known clock uuid db locks j known free, same) refl

  -- The first upload under a non-empty request ID that no job of a reachable database has, while its
  -- lock is free and with a UUID that no job has, makes a job. After any steps of the store each of
  -- which leaves a row under the job's ID, and while the lock is free, a retry of it, with any clock
  -- and any UUID, makes none and is handed the job under that ID, with the path of the audio that the
  -- first one had.
  pub reserve_again :
      (clock clock' : Clock) (uuid uuid' : String) (db later : Database) (locks locks' : List ℕ)
      → Reach settings db
      → Table.count (has_id uuid) db.jobs ≡ 0
      → Uploads.upload_lookup upload.request_id db.jobs ≡ none
      → Uploads.holds locks (hash upload.request_id) ≡ false
      → Lives settings uuid
          (Uploads.reserve_upload hash settings clock uuid upload db locks).0
          later
      → Uploads.holds locks' (hash upload.request_id) ≡ false
      → let first = new_job settings clock uuid upload in
        ((Uploads.reserve_upload hash settings clock uuid upload db locks).1.1 ≡ reservation first)
        × (job : Job) × (Uploads.get_job uuid later ≡ some job)
        × (job.input_path ≡ first.input_path)
        × (Uploads.reserve_upload hash settings clock' uuid' upload later locks'
            ≡ (later, (hash upload.request_id ∷ locks', reservation job)))
  unfolding Uploads.get_job
  reserve_again clock clock' uuid uuid' db later locks locks' reached fresh new free lives free' =
      let first = new_job settings clock uuid upload in
      let made = reserve_new clock uuid db locks new free in
      let begun = step reached (reserve hash clock uuid upload locks fresh) in
      let kept : IsFor uuid (request_of first) later.jobs =
        Lives-IsFor begun (request_of first) lives (rw made (new-IsFor clock uuid db fresh)) in
      elim (Option-cases (Table.find (has_id uuid) later.jobs)) [
        | inl absent ↦ cc (rw absent at kept)
        | inr (job, found) ↦
            let same : request_of job ≡ request_of first = cc (rw found at kept) in
            (
              rw made refl,
              job,
              found,
              ap (λ (x : Request). x.input_path) same,
              reserve_row clock' uuid' later locks' job (Reach-IsValid (Lives-Reach begun lives))
                  (In-find (has_id uuid) later.jobs found)
                  (ap (λ (x : Request). x.request_id) same ∙ new_job-request clock uuid)
                  (same_options-request job first same
                    (same_options-new_job settings clock uuid upload))
                  free',
            )
      ]

  reserve_held :
      (clock : Clock) (uuid : String) (db : Database) (locks : List ℕ) (other : Upload)
      → other.request_id ≡ upload.request_id
      → Uploads.holds locks (hash upload.request_id) ≡ true
      → Uploads.reserve_upload hash settings clock uuid other db locks ≡ (db, (locks, busy))
  unfolding Uploads.reserve_upload
  reserve_held clock uuid db locks other same held =
      rw (same, named upload.request_id named_request, held)

  reserve_holds :
      (clock : Clock) (uuid : String) (db : Database) (locks : List ℕ)
      (r : Uploads.UploadReservation)
      → (Uploads.reserve_upload hash settings clock uuid upload db locks).1.1 ≡ reserved r
      → Uploads.holds
          (Uploads.reserve_upload hash settings clock uuid upload db locks).1.0
          (hash upload.request_id)
        ≡ true
  unfolding Uploads.reserve_upload
  reserve_holds clock uuid db locks r first =
      ground (arith, named upload.request_id named_request, first)

  -- While a reservation under a non-empty request ID is open, a second one is refused as busy, whatever its
  -- options, and changes neither the database nor the locks.
  pub reserve_excludes :
      (clock clock' : Clock) (uuid uuid' : String) (db : Database) (locks : List ℕ) (other : Upload)
      (r : Uploads.UploadReservation)
      → other.request_id ≡ upload.request_id
      → (Uploads.reserve_upload hash settings clock uuid upload db locks).1.1 ≡ reserved r
      → let (db', (locks', _)) = Uploads.reserve_upload hash settings clock uuid upload db locks in
        Uploads.reserve_upload hash settings clock' uuid' other db' locks' ≡ (db', (locks', busy))
  reserve_excludes clock clock' uuid uuid' db locks other r same first =
      reserve_held clock' uuid' _ _ other same (reserve_holds clock uuid db locks r first)

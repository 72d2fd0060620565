-- ===== src/Ingress/Retried.antt =====
-- What a failed Submit of whisper/server.py leaves for the retry of the same request.
use transcriber.Prelude.{
  ◌≡◌, ◌≢◌, true, false, ◌==◌, String, Option, none, some, inl, inr, Bool-cases, refl, arith, ==→≡,
  ℕ, sym, ◌∙◌, List, ◌∷◌,
}
use transcriber.Prelude.Results.{err}
use transcriber.Prelude.Table.Laws.{find-update, find_sound}
use transcriber.Storage.Schema.{Job, Database, Clock, Settings, is_upload}
use transcriber.Storage.Statements.Jobs
use transcriber.Storage.Statements.Jobs.{has_id}
use transcriber.Storage.Uploads
use transcriber.Storage.Uploads.{UploadReservation, Upload, reserved, same_options}
use transcriber.Storage.Validity.{IsValid}
use transcriber.Storage.Validity.Rows
use transcriber.Storage.Validity.Operations.{execute-IsValid}
use transcriber.Storage.Idempotence.{reserve_row}
use transcriber.Prelude.Table.Keys.{In-find}
use transcriber.Admission.{UploadLimits}
use transcriber.Ingress.{FirstChunk, internal}
use transcriber.Ingress.Submit
use transcriber.Ingress.Submit.{
  System, Stream, Clocks, Draws, Shared, Failure, submit_reserved, store_audio, conclude, abandon,
  call_error, is_too_large,
}

get_job-interrupted :
    (clock : Clock) (id : String) (db : Database) (j : Job)
    → Uploads.get_job id db ≡ some j
    → is_upload j.status ≡ true
    → Uploads.get_job id (Uploads.mark_upload_interrupted clock id db)
      ≡ some (record j { error = "upload_interrupted"; updated_at = clock.now })
unfolding Uploads.get_job Uploads.mark_upload_interrupted Jobs.upload_interrupted
get_job-interrupted clock id db j found uploading =
    let s = Jobs.upload_interrupted clock id in
    rw
      (
        find-update (has_id id) s.rows s.set db.jobs (λ x. refl),
        found,
        find_sound (has_id id) db.jobs found,
        uploading,
      )
      refl

interrupted-IsValid :
    (clock : Clock) (id : String) (db : Database)
    → IsValid db.jobs
    → IsValid (Uploads.mark_upload_interrupted clock id db).jobs
unfolding Uploads.mark_upload_interrupted
interrupted-IsValid clock id db valid =
    execute-IsValid (Jobs.upload_interrupted clock id) db.jobs (Rows.interrupted-Keeps clock id)
      valid

module _ (system : System) (limits : UploadLimits) (settings : Settings) where
  abandon-interrupts :
      (clock : Clock) (uuid : String) (job : Job) (failure : Failure) (db : Database)
      → job.request_id ≢ ""
      → is_too_large failure ≡ false
      → abandon settings clock uuid job failure db
        ≡ Uploads.mark_upload_interrupted clock job.job_id db
  unfolding abandon
  abandon-interrupts clock uuid job failure db named small =
      elim (Bool-cases (job.request_id == "")) [
        | inl e ↦ absurd (named (==→≡ e))
        | inr e ↦ rw (e, small, abandon) refl
      ]

  conclude-interrupts :
      (clocks : Clocks) (draws : Draws) (job : Job) (temporary : String) (outcome : Option Failure)
      (s : Shared)
      → job.request_id ≢ ""
      → (conclude system limits settings clocks draws job temporary outcome s).1 ≡ err internal
      → (conclude system limits settings clocks draws job temporary outcome s).0.db
        ≡ Uploads.mark_upload_interrupted clocks.settle job.job_id s.db
  unfolding conclude call_error Submit.finish
  conclude-interrupts clocks draws job temporary none s named e = absurd (ground (arith, e))
  conclude-interrupts clocks draws job temporary (some failure) s named e =
      abandon-interrupts clocks.settle draws.message job failure s.db named (ground (arith, e))

  -- Where an upload under a non-empty request ID ends with INTERNAL, and, once the other processes
  -- have acted while the audio arrived, the database is valid and the job's row is there, uploading
  -- and under the request ID, the job is left as it was but for the error and the time. A
  -- reservation of that database under the same request ID with the same options, while the lock is
  -- free, whatever its clock and its UUID, is handed that job, asked for the audio again, and changes
  -- nothing but the locks.
  pub submit_reserved-retry :
      (hash : String → ℕ) (clocks : Clocks) (draws : Draws) (upload : UploadReservation)
      (first : FirstChunk) (stream : Stream) (s : Shared) (j : Job) (again : Upload) (clock : Clock)
      (uuid : String) (locks : List ℕ)
      → upload.needs_upload ≡ true
      → upload.job.request_id ≢ ""
      → IsValid
          (stream.meanwhile (Uploads.mark_downloading clocks.download upload.job.job_id s.db)).jobs
      → Uploads.get_job upload.job.job_id
          (stream.meanwhile (Uploads.mark_downloading clocks.download upload.job.job_id s.db))
        ≡ some j
      → is_upload j.status ≡ true
      → j.request_id ≡ upload.job.request_id
      → again.request_id ≡ upload.job.request_id
      → same_options j again ≡ true
      → Uploads.holds locks (hash again.request_id) ≡ false
      → (submit_reserved system limits settings clocks draws upload first stream s).1 ≡ err internal
      → let db = (submit_reserved system limits settings clocks draws upload first stream s).0.db in
        let after = record j { error = "upload_interrupted"; updated_at = clocks.settle.now } in
        (Uploads.get_job upload.job.job_id db ≡ some after)
        × (Uploads.reserve_upload hash settings clock uuid again db locks ≡ (
          db,
          (
            hash again.request_id ∷ locks,
            reserved (record { job = after; input_path = j.input_path; needs_upload = true }),
          ),
        ))
  unfolding submit_reserved store_audio
  submit_reserved-retry hash clocks draws upload first stream s j again clock uuid locks needed
        named valid found uploading own retried same free e =
      let id = upload.job.job_id in
      let before = stream.meanwhile (Uploads.mark_downloading clocks.download id s.db) in
      let db' = Uploads.mark_upload_interrupted clocks.settle id before in
      let after = record j { error = "upload_interrupted"; updated_at = clocks.settle.now } in
      let interrupted = conclude-interrupts clocks draws upload.job _ _ _ named (rw needed at e) in
      let left : Uploads.get_job id db' ≡ some after =
        get_job-interrupted clocks.settle id before j found uploading in
      let handed =
        reserve_row hash settings again (λ empty. named (sym retried ∙ empty)) clock uuid db' locks
          after (interrupted-IsValid clocks.settle id before valid)
          (In-find (has_id id) db'.jobs (unfold Uploads.get_job in left)) (own ∙ sym retried) same
          free in
      (rw (needed, interrupted) left, rw (needed, interrupted) (rw uploading at handed))

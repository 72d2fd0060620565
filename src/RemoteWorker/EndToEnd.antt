-- ===== src/RemoteWorker/EndToEnd.antt =====
-- A task of whisper/remote_worker.py whose reports whisper/worker_api.py answers.
use transcriber.Prelude.{
  ◌≡◌, Bool, true, String, Option, none, some, List, [], ℕ, inl, inr, arith, ap, Option-cases,
}
use transcriber.Prelude.Results.{Result, ok, err}
use transcriber.Storage.Schema.{Segment, Database, Clock}
use transcriber.Storage.Validity.{IsValid}
use transcriber.WorkerApi
use transcriber.WorkerApi.{Metadata, CompleteRequest, FailRequest, StatusCode}
use transcriber.WorkerApi.Claims.{ClaimResponse}
use transcriber.Ingress
use transcriber.Ingress.{StatusResponse, wire_done}
use transcriber.Ingress.Delivered.{get_status-complete}
use transcriber.RemoteWorker.{Transcription, Stub, Task, completion, process}
use transcriber.RemoteWorker.Reports.{process-accepted}

-- What a stub returns for a reply or an abort.
abbrev pub reply : Result StatusCode Bool → Option Bool
reply (ok accepted) = some accepted
reply (err e) = none

reply_lem : (r : Result StatusCode Bool) → reply r ≡ some true → r ≡ ok true
reply_lem (ok accepted) e = ground arith
reply_lem (err code) e = cc

module _ (sha256 : String → String) (hashes : List (String × String)) (metadata : Metadata)
    (clock : Clock) (db : Database) where
  -- The coordinator at one database, with the Fail call out of reach.
  abbrev pub coordinator : Stub
  coordinator = record {
    complete = λ request. reply (WorkerApi.complete sha256 hashes metadata clock request db).1;
    fail = λ request. none;
  }

  complete-segments :
      (request : CompleteRequest)
      → (WorkerApi.complete sha256 hashes metadata clock request db).1 ≡ ok true
      → (segments : List Segment) × (WorkerApi.stored_segments request.segments ≡ some segments)
  unfolding WorkerApi.complete
  complete-segments request e = elim (Option-cases (WorkerApi.stored_segments request.segments)) [
    | inl bad ↦ absurd (ground (arith, bad, e))
    | inr read ↦ read
  ]

  -- With a coordinator that answers each Complete as the API does at one valid database, and no
  -- Fail: where a worker's `process` returns that its report was accepted, a client that asks for
  -- the status in the database after that Complete is answered DONE with the text that the worker's
  -- engine has returned.
  pub process-get_status :
      (max_input : ℕ) (claim : ClaimResponse) (task : Task)
      → IsValid db.jobs
      → (process coordinator max_input claim task).1 ≡ true
      → (result : Transcription) × (task.inference ≡ ok result)
        × (r : StatusResponse) × (Ingress.get_status claim.job_id
              (WorkerApi.complete sha256 hashes metadata clock (completion claim result) db).0
            ≡ ok r)
        × (r.status ≡ wire_done)
        × (r.text ≡ result.text)
  process-get_status max_input claim task valid e =
      elim (process-accepted coordinator max_input claim task e) [
        | inr (before, code, retryable, sent, refused) ↦ absurd (ground (arith, refused))
        | inl (result, inferred, sent, accepted, small, whole, fits) ↦
            let request = completion claim result in
            let stored : (WorkerApi.complete sha256 hashes metadata clock request db).1 ≡ ok true =
              reply_lem _ accepted in
            let (segments, read) = complete-segments request stored in
            let db' = (WorkerApi.complete sha256 hashes metadata clock request db).0 in
            let (r, answered, status, text, spans, no_error, polled) =
              get_status-complete sha256 hashes metadata clock request segments [] db db' valid read
                (ap (λ answer. (db', answer)) stored) in
            (result, inferred, r, answered, status, text)
      ]

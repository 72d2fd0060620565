-- ===== src/Ingress/Tests/Answers.antt =====
-- A worker completes its job, and the client reads the result and acknowledges it.
use transcriber.Prelude.{◌≡◌, refl, true, none, some, [], ◌∷◌, if◌then◌else◌}
use transcriber.Prelude.Results.{ok, err}
use transcriber.Storage.Schema.{is_terminal}
use transcriber.Storage.Uploads
use transcriber.Ingress
use transcriber.Ingress.{StatusResponse, wire_done, not_found, failed_precondition}
use transcriber.Ingress.Delivered.{get_status-complete, ack-answers}
use transcriber.WorkerApi.Samples.{
  sha256, hashes, metadata, db, db-IsValid, stored, result, finished, completed, read_segments,
  clock,
}
use transcriber.Ingress.Tests.{at}

get_status-complete_example :
    (r : StatusResponse) × (Ingress.get_status "j1" finished ≡ ok r)
    × (r.status ≡ wire_done)
    × (r.text ≡ "words")
    × (r.segments ≡ stored ∷ [])
    × (r.error ≡ "")
    × (Ingress.poll "j1" (finished ∷ []) ≡ ok "words")
get_status-complete_example =
    get_status-complete sha256 hashes metadata clock result (stored ∷ []) [] db finished db-IsValid
      read_segments completed

ack-answers_example : (Ingress.ack (at 6) "j1" db).1 ≡ (elim (Uploads.get_job "j1" db) [
  | none ↦ err not_found
  | some j ↦ if is_terminal j.status then ok true else err failed_precondition
])
ack-answers_example = ack-answers (at 6) "j1" db db-IsValid refl

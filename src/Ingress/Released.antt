-- ===== src/Ingress/Released.antt =====
-- The locks of the request IDs after a call of Submit of whisper/server.py.
use transcriber.Prelude.{
  ℕ, ◌≡◌, ◌∙◌, refl, String, Option, none, some, List, arith, Bool-cases, inl, inr,
}
use transcriber.Prelude.Results.{Result-cases}
use transcriber.Storage.Schema.{Job, Database, Clock, Settings}
use transcriber.Storage.Uploads
use transcriber.Storage.Uploads.{Upload, UploadReservation, Reservation, busy, conflict, reserved}
use transcriber.Storage.Idempotence.{unlock-absent}
use transcriber.Admission.{UploadLimits}
use transcriber.Ingress.{FirstChunk, Trace, check_first, upload_of}
use transcriber.Ingress.Submit.{
  System, Stream, Clocks, Draws, Shared, Failure, submit_reserved, submit, enter, conclude,
  store_audio,
}

-- What a session holds once its reservation is over.
abbrev released : (String → ℕ) → Upload → List ℕ × Reservation → List ℕ
released hash upload (locks, busy) = locks
released hash upload (locks, conflict) = locks
released hash upload (locks, reserved r) = Uploads.release_upload hash upload locks

reserve_upload-released :
    (hash : String → ℕ) (settings : Settings) (clock : Clock) (uuid : String) (upload : Upload)
    (db : Database) (locks : List ℕ)
    → released hash upload (Uploads.reserve_upload hash settings clock uuid upload db locks).1
      ≡ locks
unfolding Uploads.reserve_upload Uploads.release_upload
reserve_upload-released hash settings clock uuid upload db locks =
    ground (arith, unlock-absent (hash upload.request_id) locks)

module _ (system : System) (limits : UploadLimits) (settings : Settings) where
  conclude-locks :
      (clocks : Clocks) (draws : Draws) (job : Job) (temporary : String) (outcome : Option Failure)
      (s : Shared)
      → (conclude system limits settings clocks draws job temporary outcome s).0.locks ≡ s.locks
  unfolding conclude
  conclude-locks clocks draws job temporary none s = refl
  conclude-locks clocks draws job temporary (some failure) s = refl

  submit_reserved-locks :
      (clocks : Clocks) (draws : Draws) (upload : UploadReservation) (first : FirstChunk)
      (stream : Stream) (s : Shared)
      → (submit_reserved system limits settings clocks draws upload first stream s).0.locks
        ≡ s.locks
  unfolding submit_reserved store_audio
  submit_reserved-locks clocks draws upload first stream s = elim (Bool-cases upload.needs_upload) [
    | inl e ↦ rw e (conclude-locks clocks draws upload.job _ _ _)
    | inr e ↦ rw e refl
  ]

  enter-locks :
      (hash : String → ℕ) (clocks : Clocks) (draws : Draws) (upload : Upload) (first : FirstChunk)
      (stream : Stream) (outcome : Reservation) (s : Shared)
      → (enter system limits hash settings clocks draws upload first stream outcome s).0.locks
        ≡ released hash upload (s.locks, outcome)
  unfolding enter
  enter-locks hash clocks draws upload first stream busy s = refl
  enter-locks hash clocks draws upload first stream conflict s = refl
  enter-locks hash clocks draws upload first stream (reserved r) s =
      rw (submit_reserved-locks clocks draws r first stream s) refl

  -- However a call of Submit ends, refused, in conflict, failed, cut off or answered, and with or
  -- without a request ID, it leaves no lock behind and releases none but its own: the locks that
  -- sessions hold are those that they held before.
  pub submit-locks :
      (hash : String → ℕ) (clocks : Clocks) (draws : Draws) (trace : Trace)
      (message : Option FirstChunk) (stream : Stream) (s : Shared)
      → (submit system limits hash settings clocks draws trace message stream s).0.locks ≡ s.locks
  unfolding submit
  submit-locks hash clocks draws trace message stream s =
      elim (Result-cases (check_first message)) [
        | inr (e, refused) ↦ rw (refused, submit) refl
        | inl (first, checked) ↦
            let upload = upload_of trace first in
            let (db, (locks, outcome)) =
              Uploads.reserve_upload hash settings clocks.reserve draws.job upload s.db s.locks in
            let left = record s { db = db; locks = locks } in
            rw (checked, submit)
              (enter-locks hash clocks draws upload first stream outcome left
                ∙ reserve_upload-released hash settings clocks.reserve draws.job upload s.db
                    s.locks)
      ]

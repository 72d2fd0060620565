-- ===== src/Ingress/Uploaded.antt =====
-- What an answered Submit of whisper/server.py says of the upload.
use transcriber.Prelude.{
  ℕ, ◌+◌, ◌≤◌, ◌≡◌, true, String, Option, List, [], ◌∷◌, none, some, inl, inr, Bool-cases,
  Option-cases, refl, arith, ltb,
}
use transcriber.Prelude.Results.{ok, Result-cases}
use transcriber.Storage.Schema.{Job, Database, Clock, Settings, queued}
use transcriber.Storage.Uploads
use transcriber.Storage.Uploads.{UploadReservation}
use transcriber.Storage.Queueing.{mark_queued_lem}
use transcriber.Storage.Validity.{IsValid}
use transcriber.Admission
use transcriber.Admission.{UploadLimits, Volume}
use transcriber.Ingress.{FirstChunk}
use transcriber.Ingress.Submit
use transcriber.Ingress.Submit.{
  System, Stream, Arrival, chunk, raises, Clocks, Draws, Shared, Failure, SubmitResponse,
  submit_reserved, write_chunks, write_file, receive, store_audio, conclude,
}

-- The bytes of the messages.
abbrev pub byte_count : List Arrival → ℕ
byte_count [] = 0
byte_count (chunk n ∷ rest) = n + byte_count rest
byte_count (raises fault ∷ rest) = byte_count rest

-- Nothing raised.
abbrev pub IsWhole : List Arrival → Type 0
IsWhole [] = Unit
IsWhole (chunk n ∷ rest) = IsWhole rest
IsWhole (raises fault ∷ rest) = ⊥

module _ (system : System) (limits : UploadLimits) where
  write_chunks-IsWhole :
      (audio : String) (total : ℕ) (chunks : List Arrival) (volume : Volume)
      → total ≤ limits.audio_bytes
      → (write_chunks system limits audio total chunks volume).1 ≡ none
      → IsWhole chunks × (total + byte_count chunks ≤ limits.audio_bytes)
  unfolding write_chunks
  write_chunks-IsWhole audio total [] volume small e = (tt, omega arith)
  write_chunks-IsWhole audio total (raises fault ∷ rest) volume small e = cc
  write_chunks-IsWhole audio total (chunk size ∷ rest) volume small e =
      elim (Bool-cases (ltb limits.audio_bytes (total + size))) [
        | inl over ↦ absurd (ground (arith, over, e))
        | inr fits ↦
            let (after, outcome) = Admission.write system.os_write limits audio size volume in
            elim (Result-cases outcome) [
              | inr (fault, refused) ↦ absurd (ground (arith, fits, refused, e))
              | inl (done, written) ↦
                  let rest_ok =
                    write_chunks-IsWhole audio (total + size) rest after (ground (arith, fits))
                      (ground (arith, fits, written, e)) in
                  (rest_ok.0, omega (arith, rest_ok.1))
            ]
      ]

  receive-IsWhole :
      (token audio input_path : String) (chunks : List Arrival) (stream : Stream) (volume : Volume)
      → (receive system limits token audio input_path chunks stream volume).1 ≡ none
      → (IsWhole chunks × (byte_count chunks ≤ limits.audio_bytes))
        × (stream.is_active ≡ true)
        × (stream.flush ≡ none)
  unfolding receive write_file Submit.publish_file
  receive-IsWhole token audio input_path chunks stream volume e =
      let (entered, admitted) = Admission.upload limits token volume in
      let opened = system.create audio entered in
      let step : (write_chunks system limits audio 0 chunks opened.0).1 ≡ none = ground arith in
      let whole = write_chunks-IsWhole audio 0 chunks opened.0 (omega arith) step in
      ((whole.0, omega (arith, whole.1)), ground arith, ground arith)

  module _ (settings : Settings) where
    finish-queues :
        (clock : Clock) (uuid : String) (job : Job) (db : Database) (r : SubmitResponse)
        → IsValid db.jobs
        → (Submit.finish settings clock uuid job db).1 ≡ ok r
        → let db' = (Submit.finish settings clock uuid job db).0 in
          (r.job_id ≡ job.job_id)
          × (r.queue_position ≡ Uploads.queue_position job.job_id db')
          × (j : Job) × (Uploads.get_job job.job_id db' ≡ some j)
          × (j.status ≡ queued)
    unfolding Submit.finish
    finish-queues clock uuid job db r valid e =
        elim (Option-cases (Uploads.mark_queued settings clock uuid job.job_id db).1) [
          | inl gone ↦ absurd (ground (arith, gone, e))
          | inr (n, accepted) ↦
              let (position, j, read, status) =
                mark_queued_lem settings clock uuid job.job_id db n valid accepted in
              rw (accepted, Submit.finish)
                (ground (arith, accepted, e), ground (arith, accepted, e), j, read, status)
        ]

    conclude-queues :
        (clocks : Clocks) (draws : Draws) (job : Job) (temporary : String)
        (outcome : Option Failure) (s : Shared) (r : SubmitResponse)
        → IsValid s.db.jobs
        → (conclude system limits settings clocks draws job temporary outcome s).1 ≡ ok r
        → let s' = (conclude system limits settings clocks draws job temporary outcome s).0 in
          (outcome ≡ none)
          × (r.job_id ≡ job.job_id)
          × (r.queue_position ≡ Uploads.queue_position job.job_id s'.db)
          × (j : Job) × (Uploads.get_job job.job_id s'.db ≡ some j)
          × (j.status ≡ queued)
    unfolding conclude
    conclude-queues clocks draws job temporary (some failure) s r valid e =
        absurd (ground (arith, e))
    conclude-queues clocks draws job temporary none s r valid e =
        let (id, position, j, read, status) =
          finish-queues clocks.settle draws.message job s.db r valid e in
        (refl, id, position, j, read, status)

    -- When Submit answers an upload that was needed, every message has come and none is missing:
    -- nothing raised, the bytes are within the limit, the call was active to the end and the file
    -- was flushed. The job is queued then, and the answer has its ID and its place in the queue. The
    -- other processes leave the database valid.
    pub submit_reserved-IsWhole :
        (clocks : Clocks) (draws : Draws) (upload : UploadReservation) (first : FirstChunk)
        (stream : Stream) (s : Shared) (r : SubmitResponse)
        → upload.needs_upload ≡ true
        → IsValid
            (stream.meanwhile
              (Uploads.mark_downloading clocks.download upload.job.job_id s.db)).jobs
        → (submit_reserved system limits settings clocks draws upload first stream s).1 ≡ ok r
        → let db =
            (submit_reserved system limits settings clocks draws upload first stream s).0.db in
          IsWhole stream.arrivals
          × (first.byte_size + byte_count stream.arrivals ≤ limits.audio_bytes)
          × (stream.is_active ≡ true)
          × (stream.flush ≡ none)
          × (r.job_id ≡ upload.job.job_id)
          × (r.queue_position ≡ Uploads.queue_position upload.job.job_id db)
          × (j : Job) × (Uploads.get_job upload.job.job_id db ≡ some j)
          × (j.status ≡ queued)
    unfolding submit_reserved store_audio
    submit_reserved-IsWhole clocks draws upload first stream s r needed valid e =
        let (received, id, position, j, read, status) =
          conclude-queues clocks draws upload.job _ _ _ r valid (rw needed at e) in
        let ((whole, small), active, flushed) =
          receive-IsWhole _ _ _ (chunk first.byte_size ∷ stream.arrivals) stream _ received in
        rw needed (whole, small, active, flushed, id, position, j, read, status)

-- ===== src/Ingress/Submit.antt =====
-- `Submit` and `_submit_reserved` of whisper/server.py: an upload from its first message to the
-- queue.
use Prim.Native.String
use transcriber.Prelude.{
  ℕ, ◌+◌, Bool, true, false, ◌&&◌, not, String, Option, none, some, List, [], ◌∷◌, ◌==◌, ltb,
  if◌then◌else◌,
}
use transcriber.Prelude.Results.{Result, ok, err}
use transcriber.Storage.Schema.{Job, Database, Clock, Settings, is_waiting}
use transcriber.Storage.Uploads
use transcriber.Storage.Uploads.{
  UploadReservation, Reservation, busy, conflict, reserved, join_path,
}
use transcriber.Storage.Attempts
use transcriber.Admission
use transcriber.Admission.{UploadLimits, Volume, CapacityExceeded, WriteError, refused, incomplete}
use transcriber.Ingress
use transcriber.Ingress.{
  CallError, FirstChunk, Trace, check_first, upload_of, invalid_argument, aborted,
  resource_exhausted, internal, cancelled,
}

-- An exception other than those of this program: ENOSPC or EDQUOT, or any other one.
pub data Fault : Type 0 where
  no_space other : Fault

-- What the operating system does with paths; the calls that may raise say what they raise.
pub record System : Type 0 where
  pub parent : String → String
  pub glob_parts : String → Volume → List String
  pub unlink : String → Volume → Volume
  pub create : String → Volume → Volume × Option Fault
  pub os_write : Volume → String → ℕ → Volume × ℕ
  pub replace : String → String → Volume → Volume × Option Fault

-- A message of the client, by the length of its data, or what the iterator or its write raises.
pub data Arrival : Type 0 where
  chunk : ℕ → Arrival
  raises : Fault → Arrival

-- What comes after the first message: the other messages, whether the call is still active after
-- them, what `flush` or `fsync` raises, and what other processes have done to the database by then.
pub record Stream : Type 0 where
  pub arrivals : List Arrival
  pub is_active : Bool
  pub flush : Option Fault
  pub meanwhile : Database → Database

-- What ends the `try` of `_submit_reserved`.
pub data Failure : Type 0 where
  input_too_large : Failure
  capacity : CapacityExceeded → Failure
  interrupted : Failure
  raised : Fault → Failure

abbrev pub failure_of : WriteError → Failure
failure_of (refused e) = capacity e
failure_of incomplete = raised other

abbrev pub is_too_large : Failure → Bool
is_too_large input_too_large = true
is_too_large _ = false

-- `exhausted`
abbrev pub is_exhausted : Failure → Bool
is_exhausted (capacity _) = true
is_exhausted (raised no_space) = true
is_exhausted _ = false

unfoldable pub error_code : Failure → String
error_code failure =
    if is_too_large failure
    then "input_too_large"
    else if is_exhausted failure
    then "storage_capacity"
    else "upload_failed"

unfoldable pub call_error : Failure → CallError
call_error failure =
    if is_too_large failure
    then resource_exhausted
    else if is_exhausted failure
    then resource_exhausted
    else internal

-- The readings of the database's clock in the transactions of one call.
pub record Clocks : Type 0 where
  pub reserve : Clock
  pub download : Clock
  pub settle : Clock

-- The UUIDs that one call draws.
pub record Draws : Type 0 where
  pub job : String
  pub part : String
  pub token : String
  pub message : String

-- What the ingress processes share.
pub record Shared : Type 0 where
  pub db : Database
  pub locks : List ℕ
  pub volume : Volume

pub record SubmitResponse : Type 0 where
  pub job_id : String
  pub queue_position : ℕ

module _ (system : System) (limits : UploadLimits) where
  -- the loop over the chunks, from the bytes so far
  unfoldable pub write_chunks : String → ℕ → List Arrival → Volume → Volume × Option Failure
  write_chunks audio total [] volume = (volume, none)
  write_chunks audio total (raises fault ∷ rest) volume = (volume, some (raised fault))
  write_chunks audio total (chunk size ∷ rest) volume =
      let (after, outcome) = Admission.write system.os_write limits audio size volume in
      elim (ltb limits.audio_bytes (total + size)) [
        | true ↦ (volume, some input_too_large)
        | false ↦ elim outcome [
          | err e ↦ (after, some (failure_of e))
          | ok _ ↦ write_chunks audio (total + size) rest after
        ]
      ]

  -- the check and the calls after the loop
  abbrev pub close_stream : Stream → Option Failure
  close_stream stream =
      if not stream.is_active
      then some interrupted
      else elim stream.flush [ none ↦ none | some fault ↦ some (raised fault) ]

  -- the body of `with admission.upload(), temporary.open(...)`
  unfoldable pub write_file : String → List Arrival → Stream → Volume → Volume × Option Failure
  unfolding write_chunks
  write_file audio chunks stream volume =
      let (opened, fault) = system.create audio volume in
      let (written, failure) = write_chunks audio 0 chunks opened in
      elim fault [
        | some f ↦ (opened, some (raised f))
        | none ↦ (written, elim failure [ some f ↦ some f | none ↦ close_stream stream ])
      ]

  -- `os.replace` and the `fsync` of the folder
  unfoldable pub publish_file : String → String → Volume → Volume × Option Failure
  publish_file audio input_path volume =
      let (after, fault) = system.replace audio input_path volume in
      (after, elim fault [ none ↦ none | some f ↦ some (raised f) ])

  -- the `try` of `_submit_reserved`
  unfoldable pub receive :
      String → String → String → List Arrival → Stream → Volume → Volume × Option Failure
  unfolding write_file publish_file
  receive token audio input_path chunks stream volume =
      let (entered, admitted) = Admission.upload limits token volume in
      elim admitted [
        | err e ↦ (entered, some (capacity e))
        | ok name ↦
            let (written, failure) = write_file audio chunks stream entered in
            let left = Admission.finish_upload name written in
            elim failure [ some f ↦ (left, some f) | none ↦ publish_file audio input_path left ]
      ]

-- `previous.unlink(missing_ok=True)` of each
unfoldable pub unlink_all : System → List String → Volume → Volume
unlink_all system [] volume = volume
unlink_all system (path ∷ paths) volume = unlink_all system paths (system.unlink path volume)

-- The store after a failed upload.
unfoldable pub abandon : Settings → Clock → String → Job → Failure → Database → Database
unfolding error_code
abandon settings clock uuid job failure db =
    if not (job.request_id == "") && not (is_too_large failure)
    then Uploads.mark_upload_interrupted clock job.job_id db
    else (Attempts.fail_job settings clock uuid job.job_id "" (error_code failure) false db).0

-- The store after a complete one, and the answer.
unfoldable pub finish :
    Settings → Clock → String → Job → Database → Database × Result CallError SubmitResponse
finish settings clock uuid job db =
    let (db', queued) = Uploads.mark_queued settings clock uuid job.job_id db in
    elim queued [
      | none ↦ (db', err cancelled)
      | some _ ↦ (
        db',
        ok (record { job_id = job.job_id; queue_position = Uploads.queue_position job.job_id db' }),
      )
    ]

module _ (system : System) (limits : UploadLimits) (settings : Settings) where
  -- The `except` of `_submit_reserved`, or what follows the `try`.
  unfoldable pub conclude :
      Clocks
      → Draws
      → Job
      → String
      → Option Failure
      → Shared
      → Shared × Result CallError SubmitResponse
  unfolding abandon finish call_error
  conclude clocks draws job temporary (some failure) s = (
    record s {
      db = abandon settings clocks.settle draws.message job failure s.db;
      volume = system.unlink temporary s.volume;
    },
    err (call_error failure),
  )
  conclude clocks draws job temporary none s =
      let (db, answer) = finish settings clocks.settle draws.message job s.db in
      (record s { db = db }, answer)

  -- `_submit_reserved` where the job needs its upload, with the file's temporary path
  unfoldable pub store_audio :
      Clocks
      → Draws
      → UploadReservation
      → String
      → List Arrival
      → Stream
      → Shared
      → Shared × Result CallError SubmitResponse
  unfolding receive unlink_all conclude
  store_audio clocks draws upload temporary chunks stream s =
      let downloading = Uploads.mark_downloading clocks.download upload.job.job_id s.db in
      let parts = system.glob_parts (system.parent upload.input_path) s.volume in
      let (volume, outcome) =
        receive system limits draws.token temporary upload.input_path chunks stream
          (unlink_all system parts s.volume) in
      conclude clocks draws upload.job temporary outcome
        (record s { db = stream.meanwhile downloading; volume = volume })

  -- `_submit_reserved`
  unfoldable pub submit_reserved :
      Clocks
      → Draws
      → UploadReservation
      → FirstChunk
      → Stream
      → Shared
      → Shared × Result CallError SubmitResponse
  unfolding store_audio
  submit_reserved clocks draws upload first stream s =
      let job = upload.job in
      let position = if is_waiting job.status then Uploads.queue_position job.job_id s.db else 0 in
      let name = String.◌++◌ "upload-" (String.◌++◌ draws.part ".part") in
      let temporary = join_path (system.parent upload.input_path) name in
      if upload.needs_upload
      then store_audio clocks draws upload temporary (chunk first.byte_size ∷ stream.arrivals)
          stream s
      else (s, ok (record { job_id = job.job_id; queue_position = position }))

module _ (system : System) (limits : UploadLimits) (hash : String → ℕ) (settings : Settings) where
  -- The body of the `with` in `Submit`, and its `finally`, or what the reservation raises.
  unfoldable pub enter :
      Clocks
      → Draws
      → Uploads.Upload
      → FirstChunk
      → Stream
      → Reservation
      → Shared
      → Shared × Result CallError SubmitResponse
  unfolding submit_reserved
  enter clocks draws upload first stream busy s = (s, err aborted)
  enter clocks draws upload first stream conflict s = (s, err invalid_argument)
  enter clocks draws upload first stream (reserved r) s =
      let (after, answer) = submit_reserved system limits settings clocks draws r first stream s in
      (record after { locks = Uploads.release_upload hash upload after.locks }, answer)

  -- `Submit`
  unfoldable pub submit :
      Clocks
      → Draws
      → Trace
      → Option FirstChunk
      → Stream
      → Shared
      → Shared × Result CallError SubmitResponse
  unfolding enter
  submit clocks draws trace message stream s = elim (check_first message) [
    | err e ↦ (s, err e)
    | ok first ↦
        let upload = upload_of trace first in
        let (db, (locks, outcome)) =
          Uploads.reserve_upload hash settings clocks.reserve draws.job upload s.db s.locks in
        enter clocks draws upload first stream outcome (record s { db = db; locks = locks })
  ]

  -- `Transcribe`, with the databases that its loop sees
  unfoldable pub transcribe :
      Clocks
      → Draws
      → Trace
      → Option FirstChunk
      → Stream
      → List Database
      → Shared
      → Shared × Result CallError String
  unfolding submit
  transcribe clocks draws trace message stream polls s =
      let (after, answer) = submit clocks draws trace message stream s in
      (
        after,
        elim answer [
          | err e ↦ err e
          | ok r ↦ if r.job_id == "" then ok "" else Ingress.poll r.job_id polls
        ],
      )

-- ===== src/Ingress.antt =====
-- whisper/server.py: the gRPC calls of the ingress.
pub mod Submit
mod Tests
pub mod Uploaded
pub mod Retried
pub mod Released
pub mod Delivered
pub mod LocalWorker
use Prim.Native.String.{count}
use transcriber.Prelude.{
  ℕ, Bool, true, false, ◌&&◌, ◌||◌, not, String, Option, none, some, List, [], ◌∷◌, ◌==◌, eqb,
  if◌then◌else◌,
}
use transcriber.Prelude.Results.{Result, ok, err}
use transcriber.Storage.Schema.{
  Status, Segment, Job, Database, Clock, accepted, downloading, queued, running, done, failed,
}
use transcriber.Storage.Uploads
use transcriber.WorkerAuth.{all_codes, between, is_id_code}

-- The status codes with which a call ends, by `context.abort` or by `context.set_code` and an empty
-- response.
pub data CallError : Type 0 where
  invalid_argument aborted resource_exhausted internal cancelled not_found failed_precondition :
      CallError

pub record Options : Type 0 where
  pub preset : String
  pub language : String
  pub initial_prompt : String

-- The first message of an upload, with the length of its data.
pub record FirstChunk : Type 0 where
  pub format : String
  pub options : Option Options
  pub request_id : String
  pub retain_until_ack : Bool
  pub byte_size : ℕ

-- `re.fullmatch(r"[a-zA-Z0-9]{1,12}", fmt)`
unfoldable pub is_format : String → Bool
unfolding all_codes
is_format format =
    between 1 12 (count format)
    && all_codes (λ n. between 97 122 n || (between 65 90 n || between 48 57 n)) format

-- `re.fullmatch(r"[A-Za-z0-9_.:-]{1,200}", request_id)`
unfoldable pub is_request_id : String → Bool
unfolding all_codes
is_request_id request_id = between 1 200 (count request_id) && all_codes is_id_code request_id

abbrev pub or_auto : String → String
or_auto preset = if preset == "" then "auto" else preset

-- `traceparent` and `tracestate` of `current_trace_carrier()`
pub record Trace : Type 0 where
  pub traceparent : String
  pub tracestate : String

-- The arguments of `reserve_upload` in `Submit`.
unfoldable pub upload_of : Trace → FirstChunk → Uploads.Upload
upload_of trace first = record {
  format = first.format;
  preset = elim first.options [ none ↦ "auto" | some opts ↦ or_auto opts.preset ];
  language_override = elim first.options [ none ↦ "" | some opts ↦ opts.language ];
  initial_prompt_override = elim first.options [ none ↦ "" | some opts ↦ opts.initial_prompt ];
  traceparent = trace.traceparent;
  tracestate = trace.tracestate;
  request_id = first.request_id;
  retain_until_ack = first.retain_until_ack;
}

-- The checks of `Submit` before the reservation.
unfoldable pub check_first : Option FirstChunk → Result CallError FirstChunk
unfolding is_format is_request_id
check_first none = err invalid_argument
check_first (some first) =
    if not (is_format first.format)
    then err invalid_argument
    else if not (first.request_id == "") && not (is_request_id first.request_id)
    then err invalid_argument
    else ok first

-- whisper_pb2.JobStatus
pub data WireStatus : Type 0 where
  wire_accepted wire_downloading wire_queued wire_running wire_done wire_failed : WireStatus

-- _STATUS_MAP
unfoldable pub wire_status : Status → WireStatus
wire_status accepted = wire_accepted
wire_status downloading = wire_downloading
wire_status queued = wire_queued
wire_status running = wire_running
wire_status done = wire_done
wire_status failed = wire_failed

pub record StatusResponse : Type 0 where
  pub job_id : String
  pub status : WireStatus
  pub stage : Status
  pub text : String
  pub error : String
  pub segments : List Segment
  pub progress_percent : ℕ
  pub attempts : ℕ
  pub max_attempts : ℕ

unfoldable pub status_of : Job → StatusResponse
unfolding wire_status
status_of job = record {
  job_id = job.job_id;
  status = wire_status job.status;
  stage = job.status;
  text = job.text;
  error = job.error;
  segments = job.segments;
  progress_percent = job.progress_percent;
  attempts = job.attempts;
  max_attempts = job.max_attempts;
}

unfoldable pub get_status : String → Database → Result CallError StatusResponse
unfolding status_of
get_status id db = elim (Uploads.get_job id db) [
  | none ↦ err not_found
  | some job ↦ ok (status_of job)
]

-- `Cancel`, with the `cancelled` of its response
abbrev pub cancel : Clock → String → Database → Database × Bool
cancel clock id db = Uploads.cancel_job clock id db

-- `Ack`
unfoldable pub ack : Clock → String → Database → Database × Result CallError Bool
ack clock id db =
    if id == ""
    then (db, err invalid_argument)
    else (let (db', acknowledged) = Uploads.acknowledge_job clock id db in
        (
          db',
          if acknowledged then ok true else elim (Uploads.get_job id db') [
            | none ↦ err not_found
            | some _ ↦ err failed_precondition
          ],
        ))

-- How the loop of `Transcribe` ends: it looks at the databases of `polls` until one settles the
-- job or the client is gone.
unfoldable pub poll : String → List Database → Result CallError String
unfolding get_status
poll id [] = err cancelled
poll id (db ∷ polls) = elim (get_status id db) [
  | err e ↦ poll id polls
  | ok response ↦ elim response.status [
    | wire_done ↦ ok response.text
    | wire_failed ↦ err internal
    | _ ↦ poll id polls
  ]
]

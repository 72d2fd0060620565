-- ===== src/RemoteWorker.antt =====
-- whisper/remote_worker.py: one execution slot of a remote worker, from a claimed job to its report.
pub mod Reports
pub mod Leases
mod Tests
pub mod Slots
pub mod EndToEnd
use transcriber.Prelude.{
  ℕ, ◌+◌, ◌++◌, Bool, true, false, ◌||◌, not, String, Option, none, some, List, [], ◌∷◌, ◌==◌, ltb,
  leb, eqb, if◌then◌else◌,
}
use transcriber.Prelude.Results.{Result, ok, err}
use transcriber.WorkerApi.{CompleteRequest, FailRequest, WireSegment, max_result_bytes}
use transcriber.WorkerApi.Claims.{ClaimResponse}

-- What an exception inside `process` is to its handlers.
pub data TaskError : Type 0 where
  inference_stopped rpc_error value_error other_error : TaskError

-- A message of the Download stream, by the length of its data, with what `lease_lost` or `stop`
-- reads when it comes; or what the iterator or the write of the file raises.
pub data Piece : Type 0 where
  piece : ℕ → Bool → Piece
  lost_stream broken : Piece

-- What `engine.transcribe` returns, with the `ByteSize()` of the completion that it makes, or raises.
pub record Transcription : Type 0 where
  pub text : String
  pub segments : List WireSegment
  pub byte_size : ℕ

-- The replies of the coordinator; `none` is an RpcError.
pub record Stub : Type 0 where
  pub complete : CompleteRequest → Option Bool
  pub fail : FailRequest → Option Bool

-- What one task meets: the readings of `lease_lost.is_set() or self.stop.is_set()` in their order.
pub record Task : Type 0 where
  pub stop_at_start : Bool
  pub stream : List Piece
  pub halted_before : Bool
  pub inference : Result TaskError Transcription
  pub halted_after : Bool
  pub halted_at_fail : Bool

-- The requests that a task sends, in their order.
pub data Call : Type 0 where
  download : String → Call
  complete : CompleteRequest → Call
  fail : FailRequest → Call

-- The loop over the stream and the check after it, from the bytes so far.
unfoldable pub read_stream : ℕ → ℕ → ℕ → List Piece → Result TaskError ℕ
read_stream max_input input_size size [] = if eqb size input_size then ok size else err value_error
read_stream max_input input_size size (lost_stream ∷ rest) = err rpc_error
read_stream max_input input_size size (broken ∷ rest) = err other_error
read_stream max_input input_size size (piece n halted ∷ rest) = elim halted [
  | true ↦ err inference_stopped
  | false ↦ elim (ltb max_input (size + n) || ltb input_size (size + n)) [
    | true ↦ err value_error
    | false ↦ read_stream max_input input_size (size + n) rest
  ]
]

-- `completion`
abbrev pub completion : ClaimResponse → Transcription → CompleteRequest
completion claim result = record {
  job_id = claim.job_id;
  lease_token = claim.lease_token;
  text = result.text;
  segments = result.segments;
  byte_size = result.byte_size;
}

-- The last part of `_process`, after the inference.
unfoldable pub report_result :
    Stub → ClaimResponse → Task → Transcription → List Call × Result TaskError Bool
report_result stub claim task result =
    let request = completion claim result in
    if task.halted_after
    then ([], err inference_stopped)
    else if ltb max_result_bytes request.byte_size
    then ([], err value_error)
    else (
      complete request ∷ [],
      elim (stub.complete request) [ none ↦ err rpc_error | some accepted ↦ ok accepted ],
    )

-- The part of `_process` after the download.
unfoldable pub transcribe_input : Stub → ClaimResponse → Task → List Call × Result TaskError Bool
unfolding report_result
transcribe_input stub claim task =
    if task.halted_before then ([], err inference_stopped) else elim task.inference [
      | err e ↦ ([], err e)
      | ok result ↦ report_result stub claim task result
    ]

-- `_process`; an input size that is not positive is 0
unfoldable pub process_claim : Stub → ℕ → ClaimResponse → Task → List Call × Result TaskError Bool
unfolding read_stream transcribe_input
process_claim stub max_input claim task =
    if eqb claim.input_size 0 || ltb max_input claim.input_size
    then ([], err value_error)
    else (let (calls, outcome) = transcribe_input stub claim task in
        elim (read_stream max_input claim.input_size 0 task.stream) [
          | err e ↦ (download claim.job_id ∷ [], err e)
          | ok _ ↦ (download claim.job_id ∷ calls, outcome)
        ])

abbrev pub failure : ClaimResponse → String → Bool → FailRequest
failure claim code retryable = record {
  job_id = claim.job_id;
  lease_token = claim.lease_token;
  error_code = code;
  retryable = retryable;
}

-- `_fail`
unfoldable pub fail_task : Stub → ClaimResponse → Task → String → Bool → List Call × Bool
fail_task stub claim task code retryable =
    let request = failure claim code retryable in
    if task.halted_at_fail
    then ([], false)
    else (fail request ∷ [], elim (stub.fail request) [ none ↦ false | some accepted ↦ accepted ])

-- The `except` clauses of `process`.
unfoldable pub conclude_task :
    Stub → ClaimResponse → Task → Result TaskError Bool → List Call × Bool
unfolding fail_task
conclude_task stub claim task (ok accepted) = ([], accepted)
conclude_task stub claim task (err inference_stopped) = ([], false)
conclude_task stub claim task (err rpc_error) = ([], false)
conclude_task stub claim task (err value_error) = fail_task stub claim task "invalid_input" false
conclude_task stub claim task (err other_error) = fail_task stub claim task "inference_failed" true

-- `process`: the requests that it sends, and what it returns; a lease that is not positive is 0
unfoldable pub process : Stub → ℕ → ClaimResponse → Task → List Call × Bool
unfolding process_claim conclude_task
process stub max_input claim task =
    if task.stop_at_start
    then ([], false)
    else if claim.lease_token == "" || eqb claim.lease_seconds 0
    then ([], false)
    else (let (calls, outcome) = process_claim stub max_input claim task in
        let (more, accepted) = conclude_task stub claim task outcome in (calls ++ more, accepted))

-- A turn of the heartbeat's loop: the monotonic clock at its test of the deadline, `stop` or a lost
-- broker, how much later the clock is read again to see whether a Heartbeat is due, and the reply
-- of a Heartbeat that it may send, with how much later the clock is read once it has been answered.
pub record Turn : Type 0 where
  pub checked : ℕ
  pub halting : Bool
  pub lag : ℕ
  pub reply : Option Bool
  pub elapsed : ℕ

-- `time.monotonic()` where the turn compares it with `next_heartbeat`
abbrev pub due_at : Turn → ℕ
due_at turn = turn.checked + turn.lag

-- After the reply of a Heartbeat: the loop goes on, or `lease_lost` is set.
abbrev pub answer_heartbeat : Option Bool → Turn → Bool × List Turn → Bool × List Turn
answer_heartbeat (some true) turn rest = (rest.0, turn ∷ rest.1)
answer_heartbeat _ turn rest = (true, turn ∷ [])

-- The loop of `heartbeat`, until `finished`: whether it sets `lease_lost`, and the turns that call
-- Heartbeat.
unfoldable pub keep_lease : ℕ → ℕ → ℕ → List Turn → Bool × List Turn
keep_lease deadline period next [] = (false, [])
keep_lease deadline period next (turn ∷ turns) =
    let idle = keep_lease deadline period next turns in
    let renewed = keep_lease deadline period (due_at turn + turn.elapsed + period) turns in
    if leb deadline turn.checked || turn.halting
    then (true, [])
    else if ltb (due_at turn) next
    then idle
    else answer_heartbeat turn.reply turn renewed

-- The reply of BeginAttempt.
pub record BeginReply : Type 0 where
  pub disposition : String
  pub job : ClaimResponse

pub data Settlement : Type 0 where
  settled busy unsettled : Settlement

-- The replies to the two requests that `_process_delivery` may send; `none` is an RpcError. The
-- stop is read after the first.
unfoldable pub begin_delivery : Option BeginReply → Bool → Option BeginReply → ℕ × Option BeginReply
begin_delivery (some reply) stop second = (1, some reply)
begin_delivery none true second = (1, none)
begin_delivery none false second = (2, second)

-- The rest of `_process_delivery`, with what `process` does with the job.
unfoldable pub settle_delivery :
    (ClaimResponse → List Call × Bool) → BeginReply → List Call × Settlement
settle_delivery run response =
    let (calls, accepted) = run response.job in
    if response.disposition == "discard"
    then ([], settled)
    else if response.disposition == "busy"
    then ([], busy)
    else if not (response.disposition == "started") || response.job.job_id == ""
    then ([], unsettled)
    else (calls, if accepted then settled else unsettled)

-- `_process_delivery`: how many times it calls BeginAttempt, its other calls, and what it returns
unfoldable pub process_delivery :
    (ClaimResponse → List Call × Bool)
    → Option BeginReply
    → Bool
    → Option BeginReply
    → ℕ × (List Call × Settlement)
unfolding begin_delivery settle_delivery
process_delivery run first stop second =
    let (requests, reply) = begin_delivery first stop second in
    (requests, elim reply [ none ↦ ([], unsettled) | some response ↦ settle_delivery run response ])

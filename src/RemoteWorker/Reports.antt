-- ===== src/RemoteWorker/Reports.antt =====
-- What a task of whisper/remote_worker.py reports, and when.
use transcriber.Prelude.{
  ℕ, ◌+◌, ◌≤◌, ◌≡◌, ◌⊎◌, refl, Bool, true, false, ◌||◌, String, some, List, [], ◌∷◌, ◌++◌, ◌==◌,
  eqb, inl, inr, arith, Bool-cases,
}
use transcriber.Prelude.Results.{Result, ok, err, Result-cases}
use transcriber.WorkerApi.{max_result_bytes}
use transcriber.WorkerApi.Claims.{ClaimResponse}
use transcriber.RemoteWorker
use transcriber.RemoteWorker.{
  Piece, piece, lost_stream, broken, Transcription, Stub, Task, Call, download, complete, fail,
  completion, failure, read_stream, report_result, transcribe_input, process_claim, conclude_task,
  fail_task, process,
}

-- The bytes of a stream.
abbrev pub byte_count : List Piece → ℕ
byte_count [] = 0
byte_count (piece n halted ∷ rest) = n + byte_count rest
byte_count (lost_stream ∷ rest) = byte_count rest
byte_count (broken ∷ rest) = byte_count rest

-- How many of the requests report an outcome.
abbrev pub report_count : List Call → ℕ
report_count [] = 0
report_count (download id ∷ calls) = report_count calls
report_count (complete request ∷ calls) = 1 + report_count calls
report_count (fail request ∷ calls) = 1 + report_count calls

read_stream-size :
    (max_input input_size size n : ℕ) (stream : List Piece)
    → read_stream max_input input_size size stream ≡ ok n
    → size + byte_count stream ≡ input_size
unfolding read_stream
read_stream-size max_input input_size size n [] e = ground (arith, e)
read_stream-size max_input input_size size n (lost_stream ∷ rest) e = cc
read_stream-size max_input input_size size n (broken ∷ rest) e = cc
read_stream-size max_input input_size size n (piece k halted ∷ rest) e =
    ground (arith, e, read_stream-size max_input input_size (size + k) n rest)

module _ (stub : Stub) (max_input : ℕ) (claim : ClaimResponse) (task : Task) where
  -- A task sends at most one Complete or Fail.
  pub process_reports_once : report_count (process stub max_input claim task).0 ≤ 1
  unfolding process process_claim transcribe_input report_result conclude_task fail_task
  process_reports_once = ground arith

  -- The calls of a task that reports its result: of the whole input, within the limits, accepted.
  abbrev pub IsCompleted : List Call → Type 0
  IsCompleted calls =
      (result : Transcription) × (task.inference ≡ ok result)
      × (calls ≡ download claim.job_id ∷ complete (completion claim result) ∷ [])
      × (stub.complete (completion claim result) ≡ some true)
      × (result.byte_size ≤ max_result_bytes)
      × (byte_count task.stream ≡ claim.input_size)
      × (claim.input_size ≤ max_input)

  -- Those of a task that reports a failure, which is accepted.
  abbrev pub IsFailed : List Call → Type 0
  IsFailed calls =
      (before : List Call) × (code : String) × (retryable : Bool) × (calls
        ≡ before ++ fail (failure claim code retryable) ∷ [])
      × (stub.fail (failure claim code retryable) ≡ some true)

  report_result-accepted :
      (result : Transcription)
      → (report_result stub claim task result).1 ≡ ok true
      → ((report_result stub claim task result).0 ≡ complete (completion claim result) ∷ [])
        × (stub.complete (completion claim result) ≡ some true)
        × (result.byte_size ≤ max_result_bytes)
  unfolding report_result
  report_result-accepted result e = (ground (arith, e), ground (arith, e), ground (arith, e))

  process_claim-accepted :
      (process_claim stub max_input claim task).1 ≡ ok true
      → IsCompleted (process_claim stub max_input claim task).0
  unfolding process_claim transcribe_input
  process_claim-accepted e =
      elim (Result-cases (read_stream max_input claim.input_size 0 task.stream)) [
        | inr (fault, bad) ↦ absurd (ground (arith, bad, e))
        | inl (size, good) ↦ elim (Result-cases task.inference) [
          | inr (fault, bad) ↦ absurd (ground (arith, good, bad, e))
          | inl (result, inferred) ↦
              let reported : (report_result stub claim task result).1 ≡ ok true =
                ground (arith, good, inferred, e) in
              let (sent, accepted, small) = report_result-accepted result reported in
              (
                result,
                inferred,
                ground (arith, good, inferred, sent, e),
                accepted,
                small,
                ground (arith, read_stream-size max_input claim.input_size 0 size task.stream good),
                ground (arith, good, inferred, e),
              )
        ]
      ]

  fail_task-accepted :
      (code : String) (retryable : Bool)
      → (fail_task stub claim task code retryable).1 ≡ true
      → ((fail_task stub claim task code retryable).0 ≡ fail (failure claim code retryable) ∷ [])
        × (stub.fail (failure claim code retryable) ≡ some true)
  unfolding fail_task
  fail_task-accepted code retryable e = (ground (arith, e), ground (arith, e))

  conclude_task-accepted :
      (before : List Call) (outcome : Result RemoteWorker.TaskError Bool)
      → (conclude_task stub claim task outcome).1 ≡ true
      → ((outcome ≡ ok true) × ((conclude_task stub claim task outcome).0 ≡ []))
        ⊎ IsFailed (before ++ (conclude_task stub claim task outcome).0)
  unfolding conclude_task
  conclude_task-accepted before (ok accepted) e = inl (rw e refl, refl)
  conclude_task-accepted before (err RemoteWorker.inference_stopped) e = cc
  conclude_task-accepted before (err RemoteWorker.rpc_error) e = cc
  conclude_task-accepted before (err RemoteWorker.value_error) e =
      let (sent, accepted) = fail_task-accepted "invalid_input" false e in
      inr (before, "invalid_input", false, rw sent refl, accepted)
  conclude_task-accepted before (err RemoteWorker.other_error) e =
      let (sent, accepted) = fail_task-accepted "inference_failed" true e in
      inr (before, "inference_failed", true, rw sent refl, accepted)

  -- Where `process` returns that the coordinator accepted, either it sent the transcription of the
  -- whole input, within the limits on both, and nothing else, or its last request is a Fail; the
  -- coordinator accepted that request.
  pub process-accepted :
      (process stub max_input claim task).1 ≡ true
      → IsCompleted (process stub max_input claim task).0
        ⊎ IsFailed (process stub max_input claim task).0
  unfolding process
  process-accepted e = elim (Bool-cases task.stop_at_start) [
    | inl stopped ↦ absurd (ground (arith, stopped, e))
    | inr going ↦ elim (Bool-cases (claim.lease_token == "" || eqb claim.lease_seconds 0)) [
      | inl invalid ↦ absurd (ground (arith, going, invalid, e))
      | inr valid ↦
          let (calls, outcome) = process_claim stub max_input claim task in
          elim (conclude_task-accepted calls outcome (ground (arith, going, valid, e))) [
            | inr failed ↦ rw (going, valid) (inr failed)
            | inl (done, nothing) ↦
                let (result, inferred, sent, accepted, small, whole, fits) =
                  process_claim-accepted done in
                rw (going, valid, nothing, sent)
                  (inl (result, inferred, refl, accepted, small, whole, fits))
          ]
    ]
  ]

-- ===== src/Ingress/LocalWorker.antt =====
-- The local worker of whisper/server.py: one turn of its loop, from the claim to the report.
use transcriber.Prelude.{Bool, true, String, none, some, List, inl, inr, arith, if◌then◌else◌}
use transcriber.Prelude.Results.{ok, err, Result-cases}
use transcriber.Storage.Schema.{Segment, Database, Clock, Settings}
use transcriber.Storage.Attempts
use transcriber.Storage.Attempts.{ClaimedJob, ClaimClock}
use transcriber.Storage.Steps
use transcriber.Storage.Steps.{Reach}

-- What `engine.transcribe` returns or raises: InferenceStopped, or any other exception.
pub data Inference : Type 0 where
  inferred : String → List Segment → Inference
  inference_stopped inference_failed : Inference

-- What a task meets: its inference, what `stop` or `lease_lost` reads after it, and whether the call
-- of `complete_job` raises.
pub record LocalTask : Type 0 where
  pub inference : Inference
  pub halted : Bool
  pub complete_raises : Bool

module _ (settings : Settings) where
  -- The `fail_job` of the last `except`.
  unfoldable pub fail_transcription : Clock → String → ClaimedJob → Database → Database
  fail_transcription clock uuid claimed db =
      (Attempts.fail_job settings clock uuid claimed.job.job_id claimed.lease_owner
        "transcription_failed" true db).0

  -- `_process_claimed_job`
  unfoldable pub process_claimed_job : Clock → String → ClaimedJob → LocalTask → Database → Database
  unfolding fail_transcription
  process_claimed_job clock uuid claimed task db = elim task.inference [
    | inference_stopped ↦ db
    | inference_failed ↦ fail_transcription clock uuid claimed db
    | inferred text segments ↦
        if task.halted
        then db
        else if task.complete_raises
        then fail_transcription clock uuid claimed db
        else (Attempts.complete_job clock claimed.job.job_id claimed.lease_owner text segments ""
            db).0
  ]

  -- A turn of `run_forever`: the claim, and the task of a job that it hands out, after what other
  -- processes have done to the database while the engine ran.
  unfoldable pub work_once :
      ClaimClock
      → Clock
      → String
      → String
      → (String → Bool)
      → Bool
      → String
      → String
      → LocalTask
      → (Database → Database)
      → Database
      → Database
  unfolding process_claimed_job
  work_once claimed_at clock uuid uuid' locked fallback worker instance task meanwhile db =
      elim (Attempts.claim_next_job settings claimed_at uuid locked fallback worker instance db) [
        | err _ ↦ db
        | ok (db', none) ↦ db'
        | ok (db', some claimed) ↦ process_claimed_job clock uuid' claimed task (meanwhile db')
      ]

  process_claimed_job-Reach :
      (clock : Clock) (uuid : String) (claimed : ClaimedJob) (task : LocalTask) (db : Database)
      → Reach settings db
      → Reach settings (process_claimed_job clock uuid claimed task db)
  unfolding process_claimed_job fail_transcription
  process_claimed_job-Reach clock uuid claimed task db reached =
      let id = claimed.job.job_id in
      let owner = claimed.lease_owner in
      let completed : (text : String) (segments : List Segment)
          → Reach settings (Attempts.complete_job clock id owner text segments "" db).0 =
        λ text segments. Steps.step reached (Steps.complete clock id owner text segments "") in
      let failed =
        Steps.step reached (Steps.fail clock uuid id owner "transcription_failed" true) in
      grind (arith, completed, failed, reached)

  -- A turn of the local worker leaves a database that the steps of the job store reach.
  work_once-Reach :
      (claimed_at : ClaimClock) (clock : Clock) (uuid uuid' : String) (locked : String → Bool)
      (fallback : Bool) (worker instance : String) (task : LocalTask)
      (meanwhile : Database → Database) (db : Database)
      → ((d : Database) → Reach settings d → Reach settings (meanwhile d))
      → Reach settings db
      → Reach settings
          (work_once claimed_at clock uuid uuid' locked fallback worker instance task meanwhile db)
  unfolding work_once
  work_once-Reach claimed_at clock uuid uuid' locked fallback worker instance task meanwhile db
        others reached =
      elim (Result-cases
        (Attempts.claim_next_job settings claimed_at uuid locked fallback worker instance db)) [
          | inr (e, h) ↦ rw (h, work_once) reached
          | inl ((db', none), h) ↦
              rw (h, work_once)
                (Steps.step reached (Steps.claim claimed_at uuid locked fallback worker instance h))
          | inl ((db', some claimed), h) ↦
              rw (h, work_once)
                (process_claimed_job-Reach clock uuid' claimed task (meanwhile db') (
                  others db' (
                    Steps.step reached
                      (Steps.claim claimed_at uuid locked fallback worker instance h))))
        ]

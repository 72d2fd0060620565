-- ===== src/WorkerApi/Callers.antt =====
-- The calls of whisper/worker_api.py as users of the job store: what each may do, and in whose name.
use transcriber.Prelude.{ℕ, ◌≡◌, refl, Bool, String, Option, List, inl, inr, Option-cases, arith}
use transcriber.Prelude.Results.{Result-cases}
use transcriber.Storage.Schema.{Segment, Database, Clock, Settings}
use transcriber.Storage.Attempts.{ClaimedJob, ClaimClock}
use transcriber.Storage.Delivery
use transcriber.Storage.Delivery.{BeginClock, Attempt, started}
use transcriber.Storage.Steps.{heartbeat, complete, fail, begin, register, report}
use transcriber.WorkerApi
use transcriber.WorkerApi.{Metadata, HeartbeatRequest, CompleteRequest, FailRequest, progress}
use transcriber.WorkerApi.Claims
use transcriber.WorkerApi.Runs.{
  IsAsCaller, idle, act, as_worker, as_holder, claim_job-Acts, claim_response-Acts,
  begin_attempt-IsLease,
}

module _ (settings : Settings) (input_size : String → Option ℕ) (sha256 : String → String)
    (hashes : List (String × String)) where
  claim-IsAsCaller :
      (metadata : Metadata) (clock : ClaimClock) (later : Clock) (uuid uuid' : String)
      (locked : String → Bool) (worker instance : String) (db : Database)
      → IsAsCaller settings sha256 hashes metadata db
          (Claims.claim input_size settings sha256 hashes metadata clock later uuid uuid' locked
            worker instance db).0
  unfolding Claims.claim
  claim-IsAsCaller metadata clock later uuid uuid' locked worker instance db =
      elim (Result-cases (WorkerApi.authenticate_worker sha256 hashes metadata worker)) [
        | inr (e, h) ↦ rw (h, Claims.claim) (inl refl)
        | inl (id, h) ↦
            let own = as_worker settings sha256 hashes metadata worker id db _ h (
              claim_job-Acts settings input_size clock later uuid uuid' locked worker instance
                db) in
            let none_done : IsAsCaller settings sha256 hashes metadata db db = inl refl in
            ground (arith, h, own, none_done)
      ]

  begin_attempt-IsAsCaller :
      (metadata : Metadata) (clock : BeginClock) (later : Clock) (uuid uuid' : String) (a : Attempt)
      (db : Database)
      → IsAsCaller settings sha256 hashes metadata db
          (Claims.begin_attempt input_size settings sha256 hashes metadata clock later uuid uuid' a
            db).0
  unfolding Claims.begin_attempt Claims.consumer_identity
  begin_attempt-IsAsCaller metadata clock later uuid uuid' a db =
      elim (Result-cases (WorkerApi.authenticate_worker sha256 hashes metadata a.worker_id)) [
        | inr (e, h) ↦ rw (h, Claims.begin_attempt, Claims.consumer_identity) (inl refl)
        | inl (id, h) ↦
            let begun = act idle (begin clock uuid a) refl in
            let own = as_worker settings sha256 hashes metadata a.worker_id id db _ h begun in
            let none_done : IsAsCaller settings sha256 hashes metadata db db = inl refl in
            grind (
              arith,
              h,
              own,
              none_done,
              λ (claimed : ClaimedJob)
                    (e : (Delivery.begin_attempt settings clock uuid a db).1 ≡ started claimed).
                  as_worker settings sha256 hashes metadata a.worker_id id db _ h (
                    claim_response-Acts settings input_size a.worker_id later uuid' claimed db _
                      begun (begin_attempt-IsLease settings clock uuid a db claimed e)),
            )
      ]

  register_consumer-IsAsCaller :
      (metadata : Metadata) (clock : Clock) (worker instance : String) (db : Database)
      → IsAsCaller settings sha256 hashes metadata db
          (Claims.register_consumer input_size settings sha256 hashes metadata clock worker instance
            db).0
  unfolding Claims.register_consumer Claims.consumer_identity
  register_consumer-IsAsCaller metadata clock worker instance db =
      elim (Result-cases (WorkerApi.authenticate_worker sha256 hashes metadata worker)) [
        | inr (e, h) ↦ rw (h, Claims.register_consumer, Claims.consumer_identity) (inl refl)
        | inl (id, h) ↦
            let own =
              as_worker settings sha256 hashes metadata worker id db _ h
                (act idle (register clock worker instance) refl) in
            let none_done : IsAsCaller settings sha256 hashes metadata db db = inl refl in
            ground (arith, h, own, none_done)
      ]

  report_availability-IsAsCaller :
      (metadata : Metadata) (clock : Clock) (worker instance : String) (ready : Bool)
      (db : Database)
      → IsAsCaller settings sha256 hashes metadata db
          (Claims.report_availability input_size settings sha256 hashes metadata clock worker
            instance ready db).0
  unfolding Claims.report_availability
  report_availability-IsAsCaller metadata clock worker instance ready db =
      elim (Result-cases (WorkerApi.authenticate_worker sha256 hashes metadata worker)) [
        | inr (e, h) ↦ rw (h, Claims.report_availability) (inl refl)
        | inl (id, h) ↦
            let own =
              as_worker settings sha256 hashes metadata worker id db _ h
                (act idle (report clock worker instance ready) refl) in
            let none_done : IsAsCaller settings sha256 hashes metadata db db = inl refl in
            ground (arith, h, own, none_done)
      ]

  heartbeat-IsAsCaller :
      (metadata : Metadata) (clock : Clock) (beat : HeartbeatRequest) (db : Database)
      → IsAsCaller settings sha256 hashes metadata db
          (WorkerApi.heartbeat sha256 hashes settings metadata clock beat db).0
  unfolding WorkerApi.heartbeat
  heartbeat-IsAsCaller metadata clock beat db =
      elim (Result-cases (WorkerApi.authenticate_lease sha256 hashes metadata beat.lease_token)) [
        | inr (e, h) ↦ rw (h, WorkerApi.heartbeat) (inl refl)
        | inl (id, h) ↦ elim (Option-cases (progress beat.progress_percent)) [
          | inl none_given ↦ rw (h, none_given, WorkerApi.heartbeat) (inl refl)
          | inr (percent, given) ↦
              rw (h, given, WorkerApi.heartbeat)
                (as_holder settings sha256 hashes metadata beat.lease_token id db _ h
                  (heartbeat clock beat.job_id beat.lease_token percent) (λ own. own))
        ]
      ]

  complete-IsAsCaller :
      (metadata : Metadata) (clock : Clock) (result : CompleteRequest) (db : Database)
      → IsAsCaller settings sha256 hashes metadata db
          (WorkerApi.complete sha256 hashes metadata clock result db).0
  unfolding WorkerApi.complete
  complete-IsAsCaller metadata clock result db =
      elim (Result-cases (WorkerApi.authenticate_lease sha256 hashes metadata result.lease_token)) [
        | inr (e, h) ↦ rw (h, WorkerApi.complete) (inl refl)
        | inl (id, h) ↦
            let none_done : IsAsCaller settings sha256 hashes metadata db db = inl refl in
            grind (
              arith,
              h,
              none_done,
              λ (segments : List Segment).
                  as_holder settings sha256 hashes metadata result.lease_token id db _ h
                    (complete clock result.job_id result.lease_token result.text segments "")
                    (λ own. own),
            )
      ]

  fail-IsAsCaller :
      (metadata : Metadata) (clock : Clock) (uuid : String) (failure : FailRequest) (db : Database)
      → IsAsCaller settings sha256 hashes metadata db
          (WorkerApi.fail sha256 hashes settings metadata clock uuid failure db).0
  unfolding WorkerApi.fail
  fail-IsAsCaller metadata clock uuid failure db =
      elim (Result-cases
        (WorkerApi.authenticate_lease sha256 hashes metadata failure.lease_token)) [
          | inr (e, h) ↦ rw (h, WorkerApi.fail) (inl refl)
          | inl (id, h) ↦
              let own =
                as_holder settings sha256 hashes metadata failure.lease_token id db _ h
                  (fail clock uuid failure.job_id failure.lease_token failure.error_code
                    failure.retryable)
                  (λ own. inl own) in
              let none_done : IsAsCaller settings sha256 hashes metadata db db = inl refl in
              ground (arith, h, own, none_done)
        ]

  -- Each call of a remote worker that may change the database leaves it as it is, or takes steps of
  -- the job store in the name of the worker that its credentials identify: on that worker's slots,
  -- under a lease token of that worker or on a job that is assigned to it.
  pub calls-IsAsCaller :
      (metadata : Metadata) (claimed_at : ClaimClock) (begun_at : BeginClock) (clock later : Clock)
      (uuid uuid' : String) (locked : String → Bool) (worker instance : String) (ready : Bool)
      (a : Attempt) (beat : HeartbeatRequest) (result : CompleteRequest) (failure : FailRequest)
      (db : Database)
      → IsAsCaller settings sha256 hashes metadata db
          (Claims.claim input_size settings sha256 hashes metadata claimed_at later uuid uuid'
            locked worker instance db).0
        × IsAsCaller settings sha256 hashes metadata db
            (Claims.register_consumer input_size settings sha256 hashes metadata clock worker
              instance db).0
        × IsAsCaller settings sha256 hashes metadata db
            (Claims.begin_attempt input_size settings sha256 hashes metadata begun_at later uuid
              uuid' a db).0
        × IsAsCaller settings sha256 hashes metadata db
            (Claims.report_availability input_size settings sha256 hashes metadata clock worker
              instance ready db).0
        × IsAsCaller settings sha256 hashes metadata db
            (WorkerApi.heartbeat sha256 hashes settings metadata clock beat db).0
        × IsAsCaller settings sha256 hashes metadata db
            (WorkerApi.complete sha256 hashes metadata clock result db).0
        × IsAsCaller settings sha256 hashes metadata db
            (WorkerApi.fail sha256 hashes settings metadata clock uuid failure db).0
  calls-IsAsCaller metadata claimed_at begun_at clock later uuid uuid' locked worker instance ready
        a beat result failure db =
      (
        claim-IsAsCaller metadata claimed_at later uuid uuid' locked worker instance db,
        register_consumer-IsAsCaller metadata clock worker instance db,
        begin_attempt-IsAsCaller metadata begun_at later uuid uuid' a db,
        report_availability-IsAsCaller metadata clock worker instance ready db,
        heartbeat-IsAsCaller metadata clock beat db,
        complete-IsAsCaller metadata clock result db,
        fail-IsAsCaller metadata clock uuid failure db,
      )

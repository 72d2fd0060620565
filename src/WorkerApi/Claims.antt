-- ===== src/WorkerApi/Claims.antt =====
-- The calls of whisper/worker_api.py that hand out jobs and report slots: Claim, RegisterConsumer,
-- BeginAttempt and ReportAvailability.
use Prim.Native.Char.{code}
use Prim.Native.String.{[] as nil, ◌∷◌ as ◌cons◌}
use transcriber.Prelude.{
  ℕ, ◌+◌, Bool, false, ◌&&◌, ◌||◌, not, String, Option, none, some, List, ◌==◌, eqb, is_some,
  if◌then◌else◌,
}
use transcriber.Prelude.Results.{Result, ok, err}
use transcriber.Storage.Schema.{Database, Clock, Settings, postgres, rabbitmq}
use transcriber.Storage.Attempts
use transcriber.Storage.Attempts.{ClaimedJob, ClaimClock, reading}
use transcriber.Storage.Delivery
use transcriber.Storage.Delivery.{BeginClock}
use transcriber.WorkerAuth
use transcriber.WorkerAuth.{between}
use transcriber.WorkerApi
use transcriber.WorkerApi.{Metadata, StatusCode, invalid_argument, failed_precondition}

-- `str(uuid.UUID(value)) == value`: the canonical form, 8-4-4-4-12 lower-case hexadecimal digits
abbrev pub is_hex : ℕ → Bool
is_hex n = between 48 57 n || between 97 102 n

abbrev pub is_hyphen_place : ℕ → Bool
is_hyphen_place i = eqb i 8 || (eqb i 13 || (eqb i 18 || eqb i 23))

unfoldable pub is_uuid_at : ℕ → String → Bool
is_uuid_at i nil = eqb i 36
is_uuid_at i (c cons cs) =
    (if is_hyphen_place i then eqb (code c) 45 else is_hex (code c)) && is_uuid_at (i + 1) cs

abbrev pub is_uuid : String → Bool
is_uuid value = is_uuid_at 0 value

pub record ClaimResponse : Type 0 where
  pub job_id : String
  pub lease_token : String
  pub lease_seconds : ℕ
  pub format : String
  pub preset : String
  pub language : String
  pub initial_prompt : String
  pub input_size : ℕ
  pub traceparent : String
  pub tracestate : String

pub record ConsumerResponse : Type 0 where
  pub admitted : Bool
  pub priority : ℕ

pub data BeginResponse : Type 0 where
  discard busy : BeginResponse
  started : ClaimResponse → BeginResponse

pub record AvailabilityResponse : Type 0 where
  pub accepted : Bool
  pub ttl_seconds : ℕ

-- `priority or 0`
abbrev pub or_zero : Option ℕ → ℕ
or_zero none = 0
or_zero (some n) = n

-- `stat` of the input files: the size of one that is there.
module _ (input_size : String → Option ℕ) (settings : Settings) where
  -- `_claim_response`, with the clock and the UUID of its `fail_job`
  unfoldable pub claim_response :
      Clock → String → ClaimedJob → Database → Database × Result StatusCode ClaimResponse
  claim_response clock uuid claimed db =
      let job = claimed.job in
      elim (input_size job.input_path) [
        | none ↦ (
          (Attempts.fail_job settings clock uuid job.job_id claimed.lease_owner "input_missing"
              false db).0,
          err failed_precondition,
        )
        | some size ↦ (
          db,
          ok (record {
            job_id = job.job_id;
            lease_token = claimed.lease_owner;
            lease_seconds = settings.lease_seconds;
            format = job.format;
            preset = job.preset;
            language = job.language_override;
            initial_prompt = job.initial_prompt_override;
            input_size = size;
            traceparent = job.traceparent;
            tracestate = job.tracestate;
          }),
        )
      ]

  -- The store's part of `Claim`, with the clock of the `fail_job` that may follow.
  unfoldable pub claim_job :
      ClaimClock
      → Clock
      → String
      → String
      → (String → Bool)
      → String
      → String
      → Database
      → Database × Result StatusCode (Option ClaimResponse)
  unfolding claim_response
  claim_job clock later uuid uuid' locked worker instance db =
      elim (Attempts.claim_next_job settings clock uuid locked false worker instance db) [
        | err _ ↦ (db, err failed_precondition)
        | ok (db', none) ↦ (db', ok none)
        | ok (db', some claimed) ↦
            let (db'', response) = claim_response later uuid' claimed db' in
            (db'', elim response [ err e ↦ err e | ok r ↦ ok (some r) ])
      ]

  module _ (sha256 : String → String) (hashes : List (String × String)) where
    -- `Claim`: no job is the empty response
    unfoldable pub claim :
        Metadata
        → ClaimClock
        → Clock
        → String
        → String
        → (String → Bool)
        → String
        → String
        → Database
        → Database × Result StatusCode (Option ClaimResponse)
    unfolding claim_job
    claim metadata clock later uuid uuid' locked worker instance db =
        elim (WorkerApi.authenticate_worker sha256 hashes metadata worker) [
          | err e ↦ (db, err e)
          | ok _ ↦ elim settings.queue_backend [
            | rabbitmq ↦ (db, err failed_precondition)
            | postgres ↦
                if not (WorkerAuth.is_worker_id worker)
                  || (not (instance == "") && not (is_uuid instance))
                then (db, err invalid_argument)
                else claim_job clock later uuid uuid' locked worker instance db
          ]
        ]

    -- `_consumer_identity`
    unfoldable pub consumer_identity : Metadata → String → String → Result StatusCode String
    consumer_identity metadata worker instance =
        elim (WorkerApi.authenticate_worker sha256 hashes metadata worker) [
          | err e ↦ err e
          | ok id ↦
              if not (is_uuid instance) then err invalid_argument else elim settings.queue_backend [
                | postgres ↦ err failed_precondition
                | rabbitmq ↦ ok id
              ]
        ]

    -- `RegisterConsumer`
    unfoldable pub register_consumer :
        Metadata
        → Clock
        → String
        → String
        → Database
        → Database × Result StatusCode ConsumerResponse
    unfolding consumer_identity
    register_consumer metadata clock worker instance db =
        elim (consumer_identity metadata worker instance) [
          | err e ↦ (db, err e)
          | ok _ ↦
              let (db', priority) = Delivery.register_consumer settings clock worker instance db in
              (db', ok (record { admitted = is_some priority; priority = or_zero priority }))
        ]

    -- `BeginAttempt`
    unfoldable pub begin_attempt :
        Metadata
        → BeginClock
        → Clock
        → String
        → String
        → Delivery.Attempt
        → Database
        → Database × Result StatusCode BeginResponse
    unfolding consumer_identity claim_response
    begin_attempt metadata clock later uuid uuid' a db =
        elim (consumer_identity metadata a.worker_id a.instance_id) [
          | err e ↦ (db, err e)
          | ok _ ↦
              if not (is_uuid a.job_id && (is_uuid a.message_id && is_uuid a.delivery_id))
              then (db, err invalid_argument)
              else (let (db', disposition) = Delivery.begin_attempt settings clock uuid a db in
                  elim disposition [
                    | Delivery.discard ↦ (db', ok discard)
                    | Delivery.busy ↦ (db', ok busy)
                    | Delivery.started claimed ↦
                        let (db'', response) = claim_response later uuid' claimed db' in
                        (db'', elim response [ err e ↦ err e | ok r ↦ ok (started r) ])
                  ])
        ]

    -- `ReportAvailability`
    unfoldable pub report_availability :
        Metadata
        → Clock
        → String
        → String
        → Bool
        → Database
        → Database × Result StatusCode AvailabilityResponse
    report_availability metadata clock worker instance ready db =
        elim (WorkerApi.authenticate_worker sha256 hashes metadata worker) [
          | err e ↦ (db, err e)
          | ok _ ↦
              if not (WorkerAuth.is_worker_id worker && is_uuid instance)
              then (db, err invalid_argument)
              else (let (db', accepted) =
                    Delivery.report_availability settings clock worker instance ready db in
                  (
                    db',
                    ok (record {
                      accepted = accepted;
                      ttl_seconds = settings.availability_ttl_seconds;
                    }),
                  ))
        ]

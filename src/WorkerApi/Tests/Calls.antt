-- ===== src/WorkerApi/Tests/Calls.antt =====
-- A caller without credentials, and a worker that claims the only job.
use Prim.Native.String
use text.Mathlib.Text.{starts_with}
use transcriber.Prelude.{ℕ, ◌≡◌, refl, Bool, true, false, String, Option, some, none, [], ◌∷◌}
use transcriber.Prelude.Results.{ok, err}
use transcriber.Prelude.Table
use transcriber.Storage.Schema.{Database, queued}
use transcriber.Storage.Statements.Jobs
use transcriber.Storage.Statements.Claims as Statements
use transcriber.Storage.Attempts
use transcriber.Storage.Attempts.{ClaimClock}
use transcriber.Storage.Delivery.{BeginClock, Attempt}
use transcriber.WorkerAuth
use transcriber.WorkerApi
use transcriber.WorkerApi.{Metadata, identity, unauthenticated}
use transcriber.WorkerApi.Claims
use transcriber.WorkerApi.Claims.{ClaimResponse}
use transcriber.WorkerApi.Runs.{IsAsCaller}
use transcriber.WorkerApi.Callers.{calls-IsAsCaller}
use transcriber.WorkerApi.Access.{IsRegistered, unknown_caller_refused, claim-lease_own}
use transcriber.WorkerApi.Tests.{
  settings, clock, db, sha256, hashes, metadata, beat, result, failure, their_job,
}

abbrev input_size : String → Option ℕ
input_size path = some 1000

abbrev nobody : Metadata
nobody = "Basic abc" ∷ []

nobody-IsRegistered : ¬ IsRegistered sha256 hashes nobody
nobody-IsRegistered (header, worker, same, bearer, strong, i) =
    let basic : header ≡ "Basic abc" = cc same in cc (rw basic at bearer)

abbrev claimed_at : ClaimClock
claimed_at = record { now = 5; requested = 5; selected = 5; leased = 5 }

abbrev begun_at : BeginClock
begun_at = record { now = 5; found = 5; counted = 5; started_at = 5 }

abbrev attempt : Attempt
attempt = record {
  worker_id = "gpu-1";
  instance_id = "i1";
  job_id = "j1";
  message_id = "m1";
  delivery_id = "d1";
}

abbrev unlocked : String → Bool
unlocked id = false

unknown_caller_refused_example :
    (Claims.claim input_size settings sha256 hashes nobody claimed_at clock "u1" "u2" unlocked
        "gpu-1" "" db
      ≡ (db, err unauthenticated))
    × (Claims.register_consumer input_size settings sha256 hashes nobody clock "gpu-1" "" db
        ≡ (db, err unauthenticated))
    × (Claims.begin_attempt input_size settings sha256 hashes nobody begun_at clock "u1" "u2"
          attempt db
        ≡ (db, err unauthenticated))
    × (Claims.report_availability input_size settings sha256 hashes nobody clock "gpu-1" "" true db
        ≡ (db, err unauthenticated))
    × (WorkerApi.heartbeat sha256 hashes settings nobody clock beat db ≡ (db, err unauthenticated))
    × (WorkerApi.complete sha256 hashes nobody clock result db ≡ (db, err unauthenticated))
    × (WorkerApi.fail sha256 hashes settings nobody clock "u1" failure db
        ≡ (db, err unauthenticated))
unknown_caller_refused_example =
    unknown_caller_refused sha256 hashes input_size settings nobody claimed_at begun_at clock clock
      "u1" "u2" unlocked "gpu-1" "" true attempt beat result failure db nobody-IsRegistered

abbrev waiting : Database
waiting = record {
  jobs =
      record their_job { status = queued; attempts = 0; lease_owner = ""; lease_expires_at = none }
      ∷ [];
  slots = [];
  outbox = [];
}

abbrev after_claim : Database
after_claim =
    (Claims.claim input_size settings sha256 hashes metadata claimed_at clock "u1" "u2" unlocked
      "gpu-1" "" waiting).0

abbrev response : ClaimResponse
response = record {
  job_id = "j1";
  lease_token = "gpu-1/u1";
  lease_seconds = 900;
  format = "wav";
  preset = "fast";
  language = "";
  initial_prompt = "";
  input_size = 1000;
  traceparent = "";
  tracestate = "";
}

claim_answered :
    Claims.claim input_size settings sha256 hashes metadata claimed_at clock "u1" "u2" unlocked
      "gpu-1" "" waiting
    ≡ (after_claim, ok (some response))
unfolding Claims.claim Claims.claim_job Claims.claim_response WorkerApi.authenticate_worker
    WorkerAuth.authenticate WorkerAuth.identify WorkerAuth.is_worker_id WorkerAuth.all_codes
    Attempts.claim_next_job Attempts.claim_by_preference Attempts.lease_candidate Jobs.reap
    Statements.may_claim Statements.contains Statements.claim_candidate Statements.lease
    Table.update Table.first_by Table.exists
claim_answered = refl

claim-lease_own_example :
    (identity sha256 hashes metadata ≡ some "gpu-1")
    × (starts_with response.lease_token (String.◌++◌ "gpu-1" "/") ≡ true)
claim-lease_own_example =
    claim-lease_own sha256 hashes input_size settings metadata claimed_at clock "u1" "u2" unlocked
      "gpu-1" "" waiting after_claim response claim_answered

calls-IsAsCaller_example :
    IsAsCaller settings sha256 hashes metadata waiting after_claim
    × IsAsCaller settings sha256 hashes metadata waiting
        (Claims.register_consumer input_size settings sha256 hashes metadata clock "gpu-1" ""
          waiting).0
    × IsAsCaller settings sha256 hashes metadata waiting
        (Claims.begin_attempt input_size settings sha256 hashes metadata begun_at clock "u1" "u2"
          attempt waiting).0
    × IsAsCaller settings sha256 hashes metadata waiting
        (Claims.report_availability input_size settings sha256 hashes metadata clock "gpu-1" "" true
          waiting).0
    × IsAsCaller settings sha256 hashes metadata waiting
        (WorkerApi.heartbeat sha256 hashes settings metadata clock beat waiting).0
    × IsAsCaller settings sha256 hashes metadata waiting
        (WorkerApi.complete sha256 hashes metadata clock result waiting).0
    × IsAsCaller settings sha256 hashes metadata waiting
        (WorkerApi.fail sha256 hashes settings metadata clock "u1" failure waiting).0
calls-IsAsCaller_example =
    calls-IsAsCaller settings input_size sha256 hashes metadata claimed_at begun_at clock clock "u1"
      "u2" unlocked "gpu-1" "" true attempt beat result failure waiting

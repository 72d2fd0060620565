-- ===== src/WorkerApi.antt =====
-- whisper/worker_api.py: the authenticated calls by which remote workers reach the job store.
pub mod Isolation
pub mod Claims
pub mod Access
pub mod Runs
pub mod Callers
pub mod Samples
mod Tests
use Prim.Native.String
use text.Mathlib.Text.{starts_with}
use transcriber.Prelude.{
  ℕ, Bool, true, false, ◌&&◌, ◌||◌, not, String, Option, none, some, List, [], ◌∷◌, ◌==◌, leb, ltb,
  eqb, if◌then◌else◌,
}
use transcriber.Prelude.Results.{Result, ok, err}
use transcriber.Storage.Schema.{Segment, Job, Database, Clock, Settings}
use transcriber.Storage.Attempts
use transcriber.WorkerAuth

-- The status codes of `context.abort`.
pub data StatusCode : Type 0 where
  unauthenticated permission_denied invalid_argument failed_precondition resource_exhausted :
      StatusCode

-- What `_authenticate` has of one call: the values of its "authorization" metadata.
abbrev pub Metadata : Type 0
Metadata = List String

-- `credentials.authenticate(values[0]) if len(values) == 1 else None`
abbrev pub single : Metadata → Option String
single [] = none
single (value ∷ []) = some value
single (value ∷ next ∷ rest) = none

-- A number of a request. NaN, the infinities and the negative numbers are all `outside`.
pub data Real : Type 0 where
  outside : Real
  thousandths : ℕ → Real

pub record HeartbeatRequest : Type 0 where
  pub job_id : String
  pub lease_token : String
  pub progress_percent : Real

pub record WireSegment : Type 0 where
  pub start : Real
  pub finish : Real
  pub text : String

pub record CompleteRequest : Type 0 where
  pub job_id : String
  pub lease_token : String
  pub text : String
  pub segments : List WireSegment
  pub byte_size : ℕ

pub record FailRequest : Type 0 where
  pub job_id : String
  pub lease_token : String
  pub error_code : String
  pub retryable : Bool

-- whisper/limits.py
abbrev pub max_result_bytes : ℕ
max_result_bytes = 4194304

-- `not math.isfinite(p) or not 0 <= p <= 99`, negated
abbrev pub progress : Real → Option ℕ
progress outside = none
progress (thousandths n) = if leb n 99000 then some n else none

-- `0 <= segment.start <= segment.end`, with the stored segment
abbrev pub segment : WireSegment → Option Segment
segment s = elim s.start [
  | outside ↦ none
  | thousandths start ↦ elim s.finish [
    | outside ↦ none
    | thousandths finish ↦
        if leb start finish
        then some (record { start = start; finish = finish; text = s.text })
        else none
  ]
]

-- the loop of `Complete`
unfoldable pub stored_segments : List WireSegment → Option (List Segment)
stored_segments [] = some []
stored_segments (s ∷ rest) = elim (segment s) [
  | none ↦ none
  | some first ↦ elim (stored_segments rest) [ none ↦ none | some others ↦ some (first ∷ others) ]
]

abbrev pub is_error_code : String → Bool
is_error_code code =
    code == "invalid_input" || (code == "inference_failed" || code == "worker_stopping")

module _ (sha256 : String → String) (hashes : List (String × String)) where
  abbrev pub identity : Metadata → Option String
  identity metadata = elim (single metadata) [
    | none ↦ none
    | some value ↦ WorkerAuth.authenticate sha256 hashes (some value)
  ]

  -- `_authenticate(context, worker_id=...)`
  unfoldable pub authenticate_worker : Metadata → String → Result StatusCode String
  authenticate_worker metadata worker_id = elim (identity metadata) [
    | none ↦ err unauthenticated
    | some id ↦ if id == worker_id then ok id else err permission_denied
  ]

  -- `_authenticate(context, lease_token=...)`
  unfoldable pub authenticate_lease : Metadata → String → Result StatusCode String
  authenticate_lease metadata lease_token = elim (identity metadata) [
    | none ↦ err unauthenticated
    | some id ↦
        if starts_with lease_token (String.◌++◌ id "/") then ok id else err permission_denied
  ]

  -- `_owned`
  unfoldable pub owned : Metadata → Clock → String → String → Database → Result StatusCode Job
  unfolding authenticate_lease
  owned metadata clock job_id lease_token db = elim (authenticate_lease metadata lease_token) [
    | err e ↦ err e
    | ok _ ↦
        if job_id == "" || lease_token == ""
        then err invalid_argument
        else elim (Attempts.get_owned_job clock job_id lease_token db) [
          | none ↦ err failed_precondition
          | some job ↦ ok job
        ]
  ]

  -- The calls that change a job: the database after the call, and the reply or the abort.
  unfoldable pub heartbeat :
      Settings → Metadata → Clock → HeartbeatRequest → Database → Database × Result StatusCode Bool
  unfolding authenticate_lease
  heartbeat settings metadata clock request db =
      elim (authenticate_lease metadata request.lease_token) [
        | err e ↦ (db, err e)
        | ok _ ↦ elim (progress request.progress_percent) [
          | none ↦ (db, err invalid_argument)
          | some percent ↦
              let (db', accepted) =
                Attempts.heartbeat settings clock request.job_id request.lease_token percent db in
              (db', ok accepted)
        ]
      ]

  unfoldable pub complete :
      Metadata → Clock → CompleteRequest → Database → Database × Result StatusCode Bool
  unfolding authenticate_lease stored_segments
  complete metadata clock request db = elim (authenticate_lease metadata request.lease_token) [
    | err e ↦ (db, err e)
    | ok _ ↦
        if ltb max_result_bytes request.byte_size
        then (db, err resource_exhausted)
        else elim (stored_segments request.segments) [
          | none ↦ (db, err invalid_argument)
          | some segments ↦
              let (db', accepted) =
                Attempts.complete_job clock request.job_id request.lease_token request.text segments
                  "" db in
              (db', ok accepted)
        ]
  ]

  unfoldable pub fail :
      Settings
      → Metadata
      → Clock
      → String
      → FailRequest
      → Database
      → Database × Result StatusCode Bool
  unfolding authenticate_lease
  fail settings metadata clock uuid request db =
      elim (authenticate_lease metadata request.lease_token) [
        | err e ↦ (db, err e)
        | ok _ ↦
            if is_error_code request.error_code
            then (let (db', accepted) =
                  Attempts.fail_job settings clock uuid request.job_id request.lease_token
                    request.error_code request.retryable db in
                (db', ok accepted))
            else (db, err invalid_argument)
      ]

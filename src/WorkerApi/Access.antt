-- ===== src/WorkerApi/Access.antt =====
-- Who may call, and as whom.
use Prim.Native.String
use Prim.Native.String.{◌++◌, slice, len}
use text.Mathlib.Text.{starts_with}
use text.Mathlib.TextLemmas.{append_assoc}
use text.Mathlib.TextPositions.{starts_with-append}
use transcriber.Prelude.{
  ℕ, ◌≡◌, refl, Bool, true, String, List, Option, none, some, arith, Option-cases, inl, inr, eq_iff,
  ◌∷◌, [],
}
use transcriber.Prelude.Results.{ok, err}
use transcriber.Prelude.Table.Keys.{In}
use transcriber.WorkerAuth
use transcriber.WorkerAuth.{is_token}
use transcriber.WorkerAuth.Identity.{authenticate-registered}
use transcriber.Storage.Schema.{Database, Clock, Settings}
use transcriber.Storage.Attempts
use transcriber.Storage.Attempts.{ClaimedJob, ClaimClock, lease_token}
use transcriber.Storage.Delivery.{BeginClock, Attempt}
use transcriber.WorkerApi
use transcriber.WorkerApi.{
  Metadata, HeartbeatRequest, CompleteRequest, FailRequest, identity, unauthenticated,
}
use transcriber.WorkerApi.Claims
use transcriber.WorkerApi.Claims.{ClaimResponse}

claim_job-token :
    (input_size : String → Option ℕ) (settings : Settings) (clock : ClaimClock) (later : Clock)
    (uuid uuid' : String) (locked : String → Bool) (worker instance : String) (db db' : Database)
    (r : ClaimResponse)
    → Claims.claim_job input_size settings clock later uuid uuid' locked worker instance db
      ≡ (db', ok (some r))
    → r.lease_token ≡ lease_token worker uuid
unfolding Claims.claim_job Claims.claim_response Attempts.claim_next_job Attempts.claim_by_policy
    Attempts.claim_by_preference Attempts.lease_candidate
claim_job-token input_size settings clock later uuid uuid' locked worker instance db db' r e =
    ground arith

module _ (sha256 : String → String) (hashes : List (String × String)) where
  refused_lease :
      (metadata : Metadata) (token : String)
      → identity sha256 hashes metadata ≡ none
      → WorkerApi.authenticate_lease sha256 hashes metadata token ≡ err unauthenticated
  unfolding WorkerApi.authenticate_lease
  refused_lease metadata token unknown = rw (unknown, WorkerApi.authenticate_lease) refl

  refused_worker :
      (metadata : Metadata) (worker : String)
      → identity sha256 hashes metadata ≡ none
      → WorkerApi.authenticate_worker sha256 hashes metadata worker ≡ err unauthenticated
  unfolding WorkerApi.authenticate_worker
  refused_worker metadata worker unknown = rw (unknown, WorkerApi.authenticate_worker) refl

  -- The call has exactly one authorization header, a bearer one, and the registry has a worker under
  -- the hash of its token of 32 to 512 printable characters.
  abbrev pub IsRegistered : Metadata → Type 0
  IsRegistered metadata =
      (header : String) × (worker : String) × (metadata ≡ header ∷ [])
      × (starts_with header "Bearer " ≡ true)
      × (is_token (slice header 7 (len header)) ≡ true)
      × In (worker, sha256 (slice header 7 (len header))) hashes

  identity-unregistered :
      (metadata : Metadata) → ¬ IsRegistered metadata → identity sha256 hashes metadata ≡ none
  identity-unregistered [] unregistered = refl
  identity-unregistered (value ∷ next ∷ rest) unregistered = refl
  identity-unregistered (value ∷ []) unregistered =
      elim (Option-cases (WorkerAuth.authenticate sha256 hashes (some value))) [
        | inl refused ↦ refused
        | inr (worker, known) ↦
            let (header, same, bearer, strong, i) =
              authenticate-registered sha256 hashes (some value) worker known in
            absurd (unregistered (header, worker, cc, bearer, strong, i))
      ]

  -- A call that does not have exactly one authorization header, with a bearer token of 32 to 512
  -- printable characters under whose hash the registry has a worker, is refused as unauthenticated
  -- and changes nothing, whichever of the calls that change the database it is.
  pub unknown_caller_refused :
      (input_size : String → Option ℕ) (settings : Settings) (metadata : Metadata)
      (claimed_at : ClaimClock) (begun_at : BeginClock) (clock later : Clock) (uuid uuid' : String)
      (locked : String → Bool) (worker instance : String) (ready : Bool) (a : Attempt)
      (beat : HeartbeatRequest) (result : CompleteRequest) (failure : FailRequest) (db : Database)
      → ¬ IsRegistered metadata
      → (Claims.claim input_size settings sha256 hashes metadata claimed_at later uuid uuid' locked
            worker instance db
          ≡ (db, err unauthenticated))
        × (Claims.register_consumer input_size settings sha256 hashes metadata clock worker instance
              db
            ≡ (db, err unauthenticated))
        × (Claims.begin_attempt input_size settings sha256 hashes metadata begun_at later uuid uuid'
              a db
            ≡ (db, err unauthenticated))
        × (Claims.report_availability input_size settings sha256 hashes metadata clock worker
              instance ready db
            ≡ (db, err unauthenticated))
        × (WorkerApi.heartbeat sha256 hashes settings metadata clock beat db
            ≡ (db, err unauthenticated))
        × (WorkerApi.complete sha256 hashes metadata clock result db ≡ (db, err unauthenticated))
        × (WorkerApi.fail sha256 hashes settings metadata clock uuid failure db
            ≡ (db, err unauthenticated))
  unfolding Claims.claim Claims.register_consumer Claims.begin_attempt Claims.report_availability
      Claims.consumer_identity WorkerApi.heartbeat WorkerApi.complete WorkerApi.fail
  unknown_caller_refused input_size settings metadata claimed_at begun_at clock later uuid uuid'
        locked worker instance ready a beat result failure db unregistered =
      let unknown = identity-unregistered metadata unregistered in
      (
        rw (refused_worker metadata worker unknown, Claims.claim) refl,
        rw
            (
              refused_worker metadata worker unknown,
              Claims.register_consumer,
              Claims.consumer_identity,
            )
            refl,
        rw
            (
              refused_worker metadata a.worker_id unknown,
              Claims.begin_attempt,
              Claims.consumer_identity,
            )
            refl,
        rw (refused_worker metadata worker unknown, Claims.report_availability) refl,
        rw (refused_lease metadata beat.lease_token unknown, WorkerApi.heartbeat) refl,
        rw (refused_lease metadata result.lease_token unknown, WorkerApi.complete) refl,
        rw (refused_lease metadata failure.lease_token unknown, WorkerApi.fail) refl,
      )

  -- A job that Claim hands out is leased to the caller: the call's worker ID is the one that its
  -- credentials have, and the lease token that it gets is one of that worker, so that the later calls
  -- accept it.
  pub claim-lease_own :
      (input_size : String → Option ℕ) (settings : Settings) (metadata : Metadata)
      (clock : ClaimClock) (later : Clock) (uuid uuid' : String) (locked : String → Bool)
      (worker instance : String) (db db' : Database) (r : ClaimResponse)
      → Claims.claim input_size settings sha256 hashes metadata clock later uuid uuid' locked worker
          instance db
        ≡ (db', ok (some r))
      → (identity sha256 hashes metadata ≡ some worker)
        × (starts_with r.lease_token (String.◌++◌ worker "/") ≡ true)
  unfolding Claims.claim WorkerApi.authenticate_worker
  claim-lease_own input_size settings metadata clock later uuid uuid' locked worker instance db db'
        r e =
      let token : r.lease_token ≡ lease_token worker uuid = ground (
        arith,
        claim_job-token input_size settings clock later uuid uuid' locked worker instance db db' r,
      ) in
      let prefixed : starts_with ((worker ++ "/") ++ uuid) (worker ++ "/") ≡ true =
        starts_with-append (worker ++ "/") uuid in
      (
        elim (Option-cases (identity sha256 hashes metadata)) [
          | inl unknown ↦ ground (arith, refused_worker metadata worker unknown)
          | inr (id, known) ↦ ground (arith, known, eq_iff id worker)
        ],
        rw token (rw append_assoc at prefixed),
      )

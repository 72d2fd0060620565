-- ===== src/Storage/Steps.antt =====
-- The operations of `JobStore` as the steps of one database: any process may take any of them at
-- any time, so a run of the service is a sequence of these steps.
pub mod Reachable
use transcriber.Prelude.{ℕ, ◌≡◌, Bool, String, Option, List, []}
use transcriber.Prelude.Results.{ok}
use transcriber.Prelude.Table
use transcriber.Storage.Schema.{Segment, Database, Clock, Settings}
use transcriber.Storage.Statements.Jobs.{has_id}
use transcriber.Storage.Uploads
use transcriber.Storage.Uploads.{Upload}
use transcriber.Storage.Attempts
use transcriber.Storage.Attempts.{ClaimedJob, ClaimClock}
use transcriber.Storage.Delivery
use transcriber.Storage.Delivery.{Attempt, BeginClock}

-- A UUID that is drawn for a job is no job's yet.
pub data Step (settings : Settings) (db : Database) : Database → Type 0 where
  reserve :
      (hash : String → ℕ) (clock : Clock) (uuid : String) (upload : Upload) (locks : List ℕ)
      → Table.count (has_id uuid) db.jobs ≡ 0
      → Step settings db (Uploads.reserve_upload hash settings clock uuid upload db locks).0
  download : (clock : Clock) (id : String) → Step settings db (Uploads.mark_downloading clock id db)
  interrupt :
      (clock : Clock) (id : String) → Step settings db (Uploads.mark_upload_interrupted clock id db)
  queue :
      (clock : Clock) (uuid id : String)
      → Step settings db (Uploads.mark_queued settings clock uuid id db).0
  acknowledge :
      (clock : Clock) (id : String) → Step settings db (Uploads.acknowledge_job clock id db).0
  cancel : (clock : Clock) (id : String) → Step settings db (Uploads.cancel_job clock id db).0
  claim :
      (clock : ClaimClock) (uuid : String) (locked : String → Bool) (fallback : Bool)
      (worker instance : String) {db' : Database} {claimed : Option ClaimedJob}
      → Attempts.claim_next_job settings clock uuid locked fallback worker instance db
        ≡ ok (db', claimed)
      → Step settings db db'
  heartbeat :
      (clock : Clock) (id owner : String) (progress : ℕ)
      → Step settings db (Attempts.heartbeat settings clock id owner progress db).0
  complete :
      (clock : Clock) (id owner text : String) (segments : List Segment) (path : String)
      → Step settings db (Attempts.complete_job clock id owner text segments path db).0
  fail :
      (clock : Clock) (uuid id owner error : String) (retryable : Bool)
      → Step settings db (Attempts.fail_job settings clock uuid id owner error retryable db).0
  begin :
      (clock : BeginClock) (uuid : String) (a : Attempt)
      → Step settings db (Delivery.begin_attempt settings clock uuid a db).0
  publish :
      (clock : Clock) (locked : String → Bool) (publish : String → String → Bool)
      → Step settings db (Delivery.publish_next clock locked publish db).0
  register :
      (clock : Clock) (worker instance : String)
      → Step settings db (Delivery.register_consumer settings clock worker instance db).0
  report :
      (clock : Clock) (worker instance : String) (ready : Bool)
      → Step settings db (Delivery.report_availability settings clock worker instance ready db).0
  clean_up :
      (clock : Clock) (ttl : ℕ) → Step settings db (Delivery.cleanup_expired_jobs clock ttl db).0
  reconcile :
      (clock : Clock) (uuid : String → String) → Step settings db (Delivery.reconcile clock uuid db)

abbrev pub empty : Database
empty = record { jobs = []; slots = []; outbox = [] }

-- What a run of the service can reach from an empty database.
pub data Reach (settings : Settings) : Database → Type 0 where
  start : Reach settings empty
  step : {db db' : Database} → Reach settings db → Step settings db db' → Reach settings db'

-- ===== src/WorkerApi/Tests.antt =====
-- Two workers: one of them makes its calls while the other runs a job.
mod Calls
use Prim.Native.String
use text.Mathlib.Text.{starts_with}
use transcriber.Prelude.{
  ℕ, ◌≡◌, refl, true, false, String, Option, some, none, List, [], ◌∷◌, inl, arith,
}
use transcriber.Prelude.Table
use transcriber.Prelude.Table.Keys.{In}
use transcriber.Storage.Schema.{
  Job, Database, Clock, Settings, Backend, postgres, accepted, running,
}
use transcriber.Storage.Uploads.{Upload, new_job}
use transcriber.Storage.Validity.{IsValid}
use transcriber.WorkerAuth
use transcriber.WorkerApi
use transcriber.WorkerApi.{
  Metadata, HeartbeatRequest, CompleteRequest, FailRequest, identity, thousandths,
}
use transcriber.WorkerApi.Isolation.{calls_keep_others}

abbrev pub settings : Settings
settings = record {
  lease_seconds = 900;
  max_attempts = 3;
  worker_policies = [];
  queue_backend = postgres;
  demand_ttl_seconds = 10;
  preferred_workers = [];
  availability_ttl_seconds = 90;
  storage_root = "/data/jobs";
}

abbrev pub clock : Clock
clock = record { now = 5; wall = 5 }

abbrev pub their_job : Job
their_job = record {
  job_id = "j1";
  status = running;
  format = "wav";
  preset = "fast";
  language_override = "";
  initial_prompt_override = "";
  input_path = "/data/jobs/j1/input.wav";
  result_path = "";
  error = "";
  progress_percent = 0;
  attempts = 1;
  max_attempts = 3;
  lease_owner = "gpu-2/u1";
  lease_expires_at = some 900;
  created_at = 1;
  updated_at = 2;
  started_at = some 2;
  finished_at = none;
  text = "";
  segments = [];
  traceparent = "";
  tracestate = "";
  request_id = "";
  retain_until_ack = false;
  acknowledged_at = none;
  assigned_worker_id = "gpu-2";
  assigned_instance_id = "i2";
  dispatch_id = "";
  delivery_id = "";
}

abbrev pub db : Database
db = record { jobs = their_job ∷ []; slots = []; outbox = [] }

abbrev digest : String
digest = "0123456789abcdef0123456789abcdef0123456789abcdef0123456789abcdef"

abbrev pub sha256 : String → String
sha256 token = digest

abbrev pub hashes : List (String × String)
hashes = ("gpu-1", digest) ∷ []

abbrev pub metadata : Metadata
metadata = "Bearer abcdefghijklmnopqrstuvwxyz012345" ∷ []

abbrev pub beat : HeartbeatRequest
beat = record { job_id = "j1"; lease_token = "gpu-1/u1"; progress_percent = thousandths 50000 }

abbrev pub result : CompleteRequest
result = record {
  job_id = "j1";
  lease_token = "gpu-1/u1";
  text = "words";
  segments = [];
  byte_size = 100;
}

abbrev pub failure : FailRequest
failure = record {
  job_id = "j1";
  lease_token = "gpu-1/u1";
  error_code = "invalid_input";
  retryable = true;
}

db-IsValid : IsValid db.jobs
unfolding Table.count
db-IsValid = record {
  rows = (
    record {
      leased = λ e. refl;
      unleased = λ e. cc;
      finished = refl;
      acknowledged = λ e. cc;
      bounded = omega arith;
      attempted = λ e. omega arith;
      untouched = λ e. cc;
      begun = λ e. refl;
    },
    tt,
  );
  ids = λ id. ground arith;
  requests = λ request named. ground arith;
}

pub caller_known : identity sha256 hashes metadata ≡ some "gpu-1"
unfolding WorkerAuth.authenticate WorkerAuth.identify WorkerAuth.all_codes
caller_known = refl

calls_keep_others_example :
    In their_job (WorkerApi.heartbeat sha256 hashes settings metadata clock beat db).0.jobs
    × In their_job (WorkerApi.complete sha256 hashes metadata clock result db).0.jobs
    × In their_job (WorkerApi.fail sha256 hashes settings metadata clock "m2" failure db).0.jobs
calls_keep_others_example =
    calls_keep_others sha256 hashes settings metadata clock "m2" "gpu-1" beat result failure db
      their_job db-IsValid (inl refl) caller_known refl

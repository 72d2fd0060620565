-- ===== src/WorkerApi/Samples.antt =====
-- A registered worker, and the job that it runs and completes, for the tests of its callers.
use transcriber.Prelude.{◌≡◌, refl, true, String, none, some, List, [], ◌∷◌, arith}
use transcriber.Prelude.Results.{ok}
use transcriber.Prelude.Table
use transcriber.Storage.Schema.{Job, Segment, Database, Clock, running}
use transcriber.Storage.Statements.Jobs
use transcriber.Storage.Attempts
use transcriber.Storage.Validity.{IsValid}
use transcriber.WorkerAuth
use transcriber.WorkerApi
use transcriber.WorkerApi.{Metadata, CompleteRequest, WireSegment, thousandths}

abbrev pub clock : Clock
clock = record { now = 5; wall = 5 }

abbrev pub digest : String
digest = "0123456789abcdef0123456789abcdef0123456789abcdef0123456789abcdef"

abbrev pub sha256 : String → String
sha256 token = digest

abbrev pub hashes : List (String × String)
hashes = ("gpu-1", digest) ∷ []

abbrev pub metadata : Metadata
metadata = "Bearer abcdefghijklmnopqrstuvwxyz012345" ∷ []

abbrev pub job : Job
job = record {
  job_id = "j1";
  status = running;
  format = "wav";
  preset = "auto";
  language_override = "";
  initial_prompt_override = "";
  input_path = "/data/jobs/j1/input.wav";
  result_path = "";
  error = "";
  progress_percent = 0;
  attempts = 1;
  max_attempts = 3;
  lease_owner = "gpu-1/u1";
  lease_expires_at = some 900;
  created_at = 1;
  updated_at = 2;
  started_at = some 2;
  finished_at = none;
  text = "";
  segments = [];
  traceparent = "";
  tracestate = "";
  request_id = "";
  retain_until_ack = true;
  acknowledged_at = none;
  assigned_worker_id = "gpu-1";
  assigned_instance_id = "i1";
  dispatch_id = "";
  delivery_id = "";
}

abbrev pub db : Database
db = record { jobs = job ∷ []; slots = []; outbox = [] }

pub db-IsValid : IsValid db.jobs
unfolding Table.count
db-IsValid = record {
  rows = (
    record {
      leased = λ e. refl;
      unleased = λ e. cc;
      finished = refl;
      acknowledged = λ e. cc;
      bounded = omega arith;
      attempted = λ e. omega arith;
      untouched = λ e. cc;
      begun = λ e. refl;
    },
    tt,
  );
  ids = λ id. ground arith;
  requests = λ request named. ground arith;
}

abbrev pub spoken : WireSegment
spoken = record { start = thousandths 0; finish = thousandths 1500; text = "words" }

abbrev pub stored : Segment
stored = record { start = 0; finish = 1500; text = "words" }

abbrev pub result : CompleteRequest
result = record {
  job_id = "j1";
  lease_token = "gpu-1/u1";
  text = "words";
  segments = spoken ∷ [];
  byte_size = 100;
}

abbrev pub finished : Database
finished = (Attempts.complete_job clock "j1" "gpu-1/u1" "words" (stored ∷ []) "" db).0

pub completed : WorkerApi.complete sha256 hashes metadata clock result db ≡ (finished, ok true)
unfolding WorkerApi.complete WorkerApi.authenticate_lease WorkerApi.stored_segments
    WorkerAuth.authenticate WorkerAuth.identify WorkerAuth.all_codes Attempts.complete_job
    Jobs.complete Table.count Table.update
completed = refl

pub read_segments : WorkerApi.stored_segments result.segments ≡ some (stored ∷ [])
unfolding WorkerApi.stored_segments
read_segments = refl

-- ===== src/Storage/Validity/Rows.antt =====
-- Each statement of whisper/sql keeps the rows that it selects consistent.
use transcriber.Prelude.{ℕ, ◌<◌, ◌≡◌, refl, Bool, true, String, List, arith}
use transcriber.Prelude.Table.{Update}
use transcriber.Storage.Schema.{Job, Segment, Clock, Settings, downloading, is_waiting}
use transcriber.Storage.Statements.Jobs
use transcriber.Storage.Statements.Claims
use transcriber.Storage.Statements.Outbox
use transcriber.Storage.Uploads.{Upload, new_job}
use transcriber.Storage.Validity.{IsConsistent}

-- The statement keeps the rows consistent, and the keys of the table alone.
pub record Keeps (u : Update Job) : Type 0 where
  pub consistent : (j : Job) → u.rows j ≡ true → IsConsistent j → IsConsistent (u.set j)
  pub id : (j : Job) → (u.set j).job_id ≡ j.job_id
  pub request : (j : Job) → (u.set j).request_id ≡ j.request_id

pub downloading-Keeps : (clock : Clock) (id : String) → Keeps (Jobs.set_status clock id downloading)
unfolding Jobs.set_status
downloading-Keeps clock id = record {
  consistent = λ j sel h. ground arith;
  id = λ j. refl;
  request = λ j. refl;
}

pub queue-Keeps : (clock : Clock) (id : String) → Keeps (Jobs.queue clock id)
unfolding Jobs.queue
queue-Keeps clock id = record {
  consistent = λ j sel h. ground arith;
  id = λ j. refl;
  request = λ j. refl;
}

pub ack-Keeps : (clock : Clock) (id : String) → Keeps (Jobs.ack clock id)
unfolding Jobs.ack
ack-Keeps clock id = record {
  consistent = λ j sel h. ground arith;
  id = λ j. refl;
  request = λ j. refl;
}

pub cancel-Keeps : (clock : Clock) (id : String) → Keeps (Jobs.cancel clock id)
unfolding Jobs.cancel
cancel-Keeps clock id = record {
  consistent = λ j sel h. ground arith;
  id = λ j. refl;
  request = λ j. refl;
}

pub heartbeat-Keeps :
    (clock : Clock) (lease progress : ℕ) (id owner : String)
    → Keeps (Jobs.heartbeat clock lease progress id owner)
unfolding Jobs.heartbeat
heartbeat-Keeps clock lease progress id owner = record {
  consistent = λ j sel h. ground arith;
  id = λ j. refl;
  request = λ j. refl;
}

pub complete-Keeps :
    (clock : Clock) (text : String) (segments : List Segment) (path id owner : String)
    → Keeps (Jobs.complete clock text segments path id owner)
unfolding Jobs.complete
complete-Keeps clock text segments path id owner = record {
  consistent = λ j sel h. ground arith;
  id = λ j. refl;
  request = λ j. refl;
}

pub fail-Keeps :
    (clock : Clock) (retryable : Bool) (error id owner : String)
    → Keeps (Jobs.fail clock retryable error id owner)
unfolding Jobs.fail
fail-Keeps clock retryable error id owner = record {
  consistent = λ j sel h. ground arith;
  id = λ j. refl;
  request = λ j. refl;
}

pub reap-Keeps : (clock : Clock) → Keeps (Jobs.reap clock)
unfolding Jobs.reap
reap-Keeps clock = record {
  consistent = λ j sel h. ground arith;
  id = λ j. refl;
  request = λ j. refl;
}

pub interrupted-Keeps : (clock : Clock) (id : String) → Keeps (Jobs.upload_interrupted clock id)
unfolding Jobs.upload_interrupted
interrupted-Keeps clock id = record {
  consistent = λ j sel h. ground arith;
  id = λ j. refl;
  request = λ j. refl;
}

pub dispatch-Keeps : (message id : String) → Keeps (Outbox.dispatch message id)
unfolding Outbox.dispatch
dispatch-Keeps message id = record {
  consistent = λ j sel h. ground arith;
  id = λ j. refl;
  request = λ j. refl;
}

pub reconcile-Keeps : (clock : Clock) → Keeps (Outbox.broker_reconcile clock)
unfolding Outbox.broker_reconcile
reconcile-Keeps clock = record {
  consistent = λ j sel h. ground arith;
  id = λ j. refl;
  request = λ j. refl;
}

pub seed-Keeps : (uuid : String → String) → Keeps (Outbox.broker_seed uuid)
unfolding Outbox.broker_seed
seed-Keeps uuid = record {
  consistent = λ j sel h. ground arith;
  id = λ j. refl;
  request = λ j. refl;
}

pub new_job-IsConsistent :
    (settings : Settings) (clock : Clock) (uuid : String) (upload : Upload)
    → IsConsistent (new_job settings clock uuid upload)
unfolding new_job
new_job-IsConsistent settings clock uuid upload = ground arith

-- A lease may start on a job that waits and has attempts left.
pub lease-IsConsistent :
    (clock : Clock) (t : ℕ) (owner : String) (secs : ℕ) (worker instance : String) (j : Job)
    → is_waiting j.status ≡ true
    → j.attempts < j.max_attempts
    → IsConsistent j
    → IsConsistent (Claims.lease clock t owner secs worker instance j)
unfolding Claims.lease
lease-IsConsistent clock t owner secs worker instance j w room h = ground arith

pub broker_start-IsConsistent :
    (clock : Clock) (owner : String) (secs : ℕ) (worker instance delivery id : String) (j : Job)
    → is_waiting j.status ≡ true
    → j.attempts < j.max_attempts
    → IsConsistent j
    → IsConsistent ((Claims.broker_start clock owner secs worker instance delivery id).set j)
unfolding Claims.broker_start
broker_start-IsConsistent clock owner secs worker instance delivery id j w room h = ground arith

pub broker_exhausted-IsConsistent :
    (clock : Clock) (id : String) (j : Job)
    → is_waiting j.status ≡ true
    → IsConsistent j
    → IsConsistent ((Claims.broker_exhausted clock id).set j)
unfolding Claims.broker_exhausted
broker_exhausted-IsConsistent clock id j w h = ground arith

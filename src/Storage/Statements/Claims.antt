-- ===== src/Storage/Statements/Claims.antt =====
-- The statements that give a job to a worker: claim.sql, claim_slot.sql and broker_*.sql.
use Prim.Native.Nat.{Ordering}
use Prim.Native.String.{compare}
use transcriber.Prelude.{
  ℕ, ◌+◌, Bool, true, false, ◌&&◌, ◌||◌, not, String, Option, none, some, List, [], ◌∷◌, ◌==◌, ltb,
  eqb,
}
use transcriber.Prelude.Table
use transcriber.Prelude.Table.{Update}
use transcriber.Storage.Schema.{
  Job, Slot, Clock, running, failed, seconds, is_waiting, is_running, is_queued, after,
  null_or_before, coalesce,
}
use transcriber.Storage.Statements.Jobs.{has_id}

-- `%s = ANY(%s)`
unfoldable pub contains : List String → String → Bool
contains [] s = false
contains (x ∷ xs) s = x == s || contains xs s

-- `status IN ('queued', 'running') AND attempts < max_attempts AND (status = 'queued' OR
-- lease_expires_at IS NULL OR lease_expires_at < t)`
abbrev pub is_claimable : ℕ → Job → Bool
is_claimable t j =
    is_waiting j.status
    && (ltb j.attempts j.max_attempts
        && (is_queued j.status || null_or_before j.lease_expires_at t))

-- `worker_id = %s AND instance_id = %s`
abbrev pub is_slot : String → String → Slot → Bool
is_slot worker instance s = s.worker_id == worker && s.instance_id == instance

-- The two conditions of claim.sql on worker_availability: a fallback worker waits for the preferred
-- ones, and a preferred worker must be registered.
unfoldable pub may_claim : ℕ → Bool → List String → String → String → List Slot → Bool
unfolding contains
may_claim now fallback preferred worker instance slots =
    (not fallback
      || not (Table.exists (λ s. contains preferred s.worker_id && ltb now s.ready_until) slots))
    && (not (contains preferred worker)
        || Table.exists (λ s. is_slot worker instance s && ltb now s.ready_until) slots)

abbrev pub older_first : Job → Job → Bool
older_first x y = ltb x.created_at y.created_at

-- ORDER BY created_at, job_id
abbrev pub older_or_smaller_first : Job → Job → Bool
older_or_smaller_first x y =
    ltb x.created_at y.created_at
    || (eqb x.created_at y.created_at
        && elim (compare x.job_id y.job_id) [ Ordering.lt ↦ true | _ ↦ false ])

-- The SET of claim.sql and of claim_slot.sql, where t is NOW() or clock_timestamp().
unfoldable pub lease : Clock → ℕ → String → ℕ → String → String → Job → Job
lease clock t owner lease_seconds worker instance j = record j {
  status = running;
  attempts = j.attempts + 1;
  lease_owner = owner;
  lease_expires_at = some (t + seconds lease_seconds);
  assigned_worker_id = worker;
  assigned_instance_id = instance;
  started_at = coalesce j.started_at clock.now;
  updated_at = clock.now;
  error = "";
}

-- claim.sql after its candidate; `locked` are the rows that SKIP LOCKED passes over
unfoldable pub claim_candidate : Clock → (String → Bool) → List Job → Option Job
claim_candidate clock locked =
    Table.first_by older_first (λ j. is_claimable clock.now j && not (locked j.job_id))

unfoldable pub claim_slot_candidate : Clock → (String → Bool) → List Job → Option Job
claim_slot_candidate clock locked =
    Table.first_by older_or_smaller_first (λ j. is_claimable clock.wall j && not (locked j.job_id))

-- broker_start.sql
unfoldable pub broker_start : Clock → String → ℕ → String → String → String → String → Update Job
broker_start clock owner lease_seconds worker instance delivery id = record {
  rows = has_id id;
  set = λ j. record j {
    status = running;
    attempts = j.attempts + 1;
    lease_owner = owner;
    lease_expires_at = some (clock.wall + seconds lease_seconds);
    assigned_worker_id = worker;
    assigned_instance_id = instance;
    delivery_id = delivery;
    started_at = coalesce j.started_at clock.now;
    updated_at = clock.now;
    progress_percent = 0;
    error = "";
  };
}

-- broker_exhausted.sql
unfoldable pub broker_exhausted : Clock → String → Update Job
broker_exhausted clock id = record {
  rows = has_id id;
  set = λ j. record j {
    status = failed;
    error = "attempts_exhausted";
    lease_owner = "";
    lease_expires_at = none;
    finished_at = some clock.now;
    updated_at = clock.now;
  };
}

-- `status = 'running' AND assigned_worker_id = %s AND lease_expires_at > t`
abbrev pub is_active : ℕ → String → Job → Bool
is_active t worker j =
    is_running j.status && (j.assigned_worker_id == worker && after j.lease_expires_at t)

abbrev pub is_active_slot : ℕ → String → String → Job → Bool
is_active_slot t worker instance j = is_active t worker j && j.assigned_instance_id == instance

-- the three columns of broker_capacity.sql
pub record Capacity : Type 0 where
  pub ready : Bool
  pub busy : Bool
  pub active : ℕ

unfoldable pub broker_capacity : ℕ → String → String → List Slot → List Job → Capacity
broker_capacity t worker instance slots jobs = record {
  ready =
      Table.exists
        (λ s. is_slot worker instance s && (ltb t s.ready_until && ltb t s.consumer_until)) slots;
  busy = Table.exists (is_active_slot t worker instance) jobs;
  active = Table.count (is_active t worker) jobs;
}

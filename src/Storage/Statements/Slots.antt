-- ===== src/Storage/Statements/Slots.antt =====
-- The statements on worker_availability: reports, work requests, and the choice of a worker.
use transcriber.Prelude.{
  ℕ, ◌+◌, Bool, false, ◌&&◌, ◌||◌, not, String, Option, none, some, List, [], ◌∷◌, ◌++◌, ◌==◌, map,
  ltb, length, if◌then◌else◌,
}
use transcriber.Prelude.Table
use transcriber.Prelude.Table.{Update}
use transcriber.Storage.Schema.{Job, Slot, Policy, Clock, seconds}
use transcriber.Storage.Statements.Claims.{contains, is_slot, is_active, is_active_slot}

-- cleanup_availability.sql, which deletes the other slots
unfoldable pub cleanup_availability : Clock → List Slot → List Slot
cleanup_availability clock = Table.select (λ s. not (ltb (s.ready_until + seconds 86400) clock.now))

-- the DO UPDATE of report_availability.sql
unfoldable pub renew : Clock → String → String → ℕ → Update Slot
renew clock worker instance ready_ttl = record {
  rows = is_slot worker instance;
  set = λ s. record s {
    ready_until = clock.now + seconds ready_ttl;
    reported_at = clock.now;
    consumer_until =
        if ltb clock.now s.consumer_until then clock.now + seconds ready_ttl else s.consumer_until;
  };
}

-- report_availability.sql on its table. A new slot's consumer_until is '-infinity', here 0.
unfoldable pub report_availability : Clock → String → String → ℕ → ℕ → List Slot → List Slot
unfolding renew
report_availability clock worker instance ready_ttl demand_ttl slots =
    if Table.exists (is_slot worker instance) slots
    then Table.execute (renew clock worker instance ready_ttl) slots
    else slots
      ++ record {
        worker_id = worker;
        instance_id = instance;
        ready_until = clock.now + seconds ready_ttl;
        reported_at = clock.now;
        demand_until = clock.now + seconds demand_ttl;
        consumer_until = 0;
      }
        ∷ []

-- request_work.sql
unfoldable pub request_work : Clock → ℕ → String → String → Update Slot
request_work clock demand_ttl worker instance = record {
  rows = λ s. is_slot worker instance s && ltb clock.wall s.ready_until;
  set = λ s. record s { demand_until = clock.wall + seconds demand_ttl };
}

-- the JOIN with the policies, whose keys are a JSON object's
unfoldable pub policy_of : List (String × Policy) → String → Option Policy
policy_of [] worker = none
policy_of ((key, policy) ∷ rest) worker =
    if key == worker then some policy else policy_of rest worker

-- The priority under which `eligible` of select_worker.sql lists a slot. An active job with no
-- instance holds its worker's whole pool.
unfoldable pub offer : List (String × Policy) → ℕ → List Job → Slot → Option ℕ
unfolding policy_of
offer policies t jobs s = elim (policy_of policies s.worker_id) [
  | none ↦ none
  | some policy ↦
      if (ltb t s.ready_until && ltb t s.demand_until)
        && (not (
              Table.exists
                (λ j.
                  is_active_slot t s.worker_id s.instance_id j || is_active_slot t s.worker_id "" j)
                jobs)
            && ltb (Table.count (is_active t s.worker_id) jobs) policy.max_concurrency)
      then some policy.priority
      else none
]

abbrev pub better : Option ℕ → ℕ → Bool
better none p = false
better (some q) p = ltb q p

-- Whether a slot is offered at `priority = (SELECT MIN(priority) FROM eligible)`.
abbrev pub is_best : List (String × Policy) → ℕ → List Job → List Slot → Option ℕ → Bool
is_best policies t jobs slots none = false
is_best policies t jobs slots (some p) =
    not (Table.exists (λ s. better (offer policies t jobs s) p) slots)

-- select_worker.sql: whether it returns the worker's row
unfoldable pub select_worker :
    List (String × Policy) → ℕ → String → String → List Job → List Slot → Bool
unfolding offer
select_worker policies t worker instance jobs slots =
    Table.exists
      (λ s. is_slot worker instance s && is_best policies t jobs slots (offer policies t jobs s))
      slots

-- UNION leaves each instance once
unfoldable pub distinct : List String → List String
unfolding contains
distinct [] = []
distinct (x ∷ xs) = let rest = distinct xs in if contains rest x then rest else x ∷ rest

-- `occupied` of broker_admit.sql
unfoldable pub occupied : ℕ → String → List Job → List Slot → List String
unfolding distinct
occupied t worker jobs slots = distinct (
    map (λ (s : Slot). s.instance_id)
      (Table.select (λ s. s.worker_id == worker && (ltb t s.ready_until && ltb t s.consumer_until))
        slots)
    ++ map (λ (j : Job). j.assigned_instance_id) (Table.select (is_active t worker) jobs))

-- broker_admit.sql
unfoldable pub broker_admit : Clock → String → String → ℕ → List Job → List Slot → Update Slot
unfolding occupied
broker_admit clock worker instance limit jobs slots =
    let taken = occupied clock.wall worker jobs slots in
    record {
      rows = λ s.
          is_slot worker instance s
          && (ltb clock.wall s.ready_until
              && (contains taken instance || ltb (length taken) limit));
      set = λ s. record s { consumer_until = s.ready_until };
    }

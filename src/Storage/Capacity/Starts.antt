-- ===== src/Storage/Capacity/Starts.antt =====
-- The operations that start an attempt respect the limits: begin_attempt.
use transcriber.Prelude.{
  ℕ, ◌≤◌, ◌<◌, ◌≡◌, refl, true, false, ◌&&◌, ◌||◌, eqb, String, some, List, arith, &&-cases,
  Bool-cases, Option-cases, inl, inr, ==→≡, ◌==◌,
}
use transcriber.Prelude.Table
use transcriber.Prelude.Table.Laws.{
  count-update_le, count-update_add, count-zero_of_exists, count_mono,
}
use transcriber.Storage.Schema.{Job, Clock, Database, Settings, Policy, is_running}
use transcriber.Storage.Statements.Jobs.{has_id}
use transcriber.Storage.Statements.Claims
use transcriber.Storage.Statements.Claims.{is_active, is_active_slot}
use transcriber.Storage.Statements.Slots.{policy_of}
use transcriber.Storage.Attempts.{reading, lease_token}
use transcriber.Storage.Delivery
use transcriber.Storage.Delivery.{BeginClock, Attempt}
use transcriber.Storage.Capacity.{IsWithin}
use transcriber.Storage.Capacity.Releases.{
  Releases, IsWithin-later, is_active_antitone, execute-IsWithin,
}

-- What a start makes of a row: it is assigned to the slot.
abbrev pub Assigns : String → String → (Job → Job) → Type 0
Assigns worker instance set =
    (j : Job) → ((set j).assigned_worker_id ≡ worker) × ((set j).assigned_instance_id ≡ instance)

-- A row that a start makes live counts for the slot's own worker alone.
elsewhere :
    (t : ℕ) (worker instance w : String) (set : Job → Job) (j : Job)
    → Assigns worker instance set
    → (worker == w) ≡ false
    → is_active t w (set j) ≡ true
    → is_active t w j ≡ true
elsewhere t worker instance w set j assigns other live =
    let (_, rest) = &&-cases (is_running (set j).status) _ live in
    let (there, _) = &&-cases ((set j).assigned_worker_id == w) _ rest in
    cc (rw (assigns j).0 at there, other)

elsewhere_slot :
    (t : ℕ) (worker instance w i : String) (set : Job → Job) (j : Job)
    → Assigns worker instance set
    → (worker == w && instance == i) ≡ false
    → is_active_slot t w i (set j) ≡ true
    → is_active_slot t w i j ≡ true
elsewhere_slot t worker instance w i set j assigns other live =
    let (active, here) = &&-cases (is_active t w (set j)) _ live in
    let (_, rest) = &&-cases (is_running (set j).status) _ active in
    let (there, _) = &&-cases ((set j).assigned_worker_id == w) _ rest in
    ground (arith, rw (assigns j).0 at there, rw (assigns j).1 at here)

-- A start on one row, in a slot with no live attempt and a pool with room, at a reading t' no
-- earlier than the one at which these were counted.
pub start-IsWithin :
    {settings : Settings} (t t' : ℕ) (worker instance id : String) (set : Job → Job)
    (jobs : List Job) (policy : Policy)
    → t ≤ t'
    → Assigns worker instance set
    → Table.count (has_id id) jobs ≤ 1
    → policy_of settings.worker_policies worker ≡ some policy
    → Table.count (is_active t worker) jobs < policy.max_concurrency
    → Table.count (is_active_slot t worker instance) jobs ≡ 0
    → IsWithin settings t jobs
    → IsWithin settings t' (Table.update (has_id id) set jobs)
start-IsWithin {settings} t t' worker instance id set jobs policy le assigns one known room idle h =
    let later = IsWithin-later {settings = settings} t t' jobs le h in
    record {
      pools = λ w p e. elim (Bool-cases (worker == w)) [
        | inl own ↦
            let here : Table.count (is_active t w) jobs < policy.max_concurrency =
              rw (==→≡ own) at room in
            let same : policy ≡ p = ground (arith, rw (==→≡ own) at known) in
            rw (← same) (
              omega (
                arith,
                count-update_add (is_active t' w) (has_id id) set jobs,
                count_mono (is_active t' w) (is_active t w) jobs
                    (λ j. is_active_antitone t t' w j le),
              ))
        | inr other ↦ omega (
          arith,
          later.pools w p e,
          count-update_le (is_active t' w) (has_id id) set jobs
              (λ j _. elsewhere t' worker instance w set j assigns other),
        )
      ];
      slots = λ w i. elim (Bool-cases (worker == w && instance == i)) [
        | inl own ↦
            let (own_worker, own_slot) = &&-cases (worker == w) _ own in
            let here : Table.count (is_active_slot t w i) jobs ≡ 0 =
              rw (==→≡ own_worker, ==→≡ own_slot) at idle in
            omega (
              arith,
              count-update_add (is_active_slot t' w i) (has_id id) set jobs,
              count_mono (is_active_slot t' w i) (is_active_slot t w i) jobs
                  (λ j live. ground (arith, is_active_antitone t t' w j le)),
            )
        | inr other ↦ omega (
          arith,
          later.slots w i,
          count-update_le (is_active_slot t' w i) (has_id id) set jobs
              (λ j _. elsewhere_slot t' worker instance w i set j assigns other),
        )
      ];
    }

start_attempt-IsWithin :
    (settings : Settings) (clock : BeginClock) (uuid : String) (a : Attempt) (row : Job)
    (db : Database)
    → clock.counted ≤ clock.started_at
    → Table.count (has_id a.job_id) db.jobs ≤ 1
    → IsWithin settings clock.counted db.jobs
    → IsWithin settings clock.started_at
        (Delivery.start_attempt settings clock uuid a row db).0.jobs
unfolding Delivery.start_attempt Claims.broker_capacity Claims.broker_start
start_attempt-IsWithin settings clock uuid a row db le one h =
    let later = IsWithin-later {settings = settings} clock.counted clock.started_at db.jobs le h in
    elim (Option-cases (policy_of settings.worker_policies a.worker_id)) [
      | inl unknown ↦ rw (unknown, Delivery.start_attempt) later
      | inr (policy, known) ↦
          rw (known, Delivery.start_attempt)
            (elim (Bool-cases (
              eqb policy.max_concurrency 0
              || Delivery.is_full policy (
                  Claims.broker_capacity clock.counted a.worker_id a.instance_id db.slots
                    db.jobs))) [
                      | inl full ↦ rw full later
                      | inr room ↦ rw room (
                          start-IsWithin {settings = settings} clock.counted clock.started_at
                            a.worker_id a.instance_id a.job_id
                            (Claims.broker_start (reading clock.now clock.started_at)
                              (lease_token a.worker_id uuid) settings.lease_seconds a.worker_id
                              a.instance_id a.delivery_id a.job_id).set
                            db.jobs policy le (λ j. (refl, refl)) one known (ground arith)
                            (count-zero_of_exists
                              (is_active_slot clock.counted a.worker_id a.instance_id) db.jobs
                              (ground arith))
                            h)
                    ])
    ]

broker_exhausted-Releases :
    (t : ℕ) (clock : Clock) (id : String) → Releases t (Claims.broker_exhausted clock id)
unfolding Claims.broker_exhausted
broker_exhausted-Releases t clock id w j sel live = ground arith

begin_row-IsWithin :
    (settings : Settings) (t : ℕ) (clock : BeginClock) (uuid : String) (a : Attempt) (row : Job)
    (db : Database)
    → t ≤ clock.counted
    → clock.counted ≤ clock.started_at
    → Table.count (has_id a.job_id) db.jobs ≤ 1
    → IsWithin settings t db.jobs
    → IsWithin settings clock.started_at (Delivery.begin_row settings clock uuid a row db).0.jobs
unfolding Delivery.begin_row
begin_row-IsWithin settings t clock uuid a row db le le' one h =
    let counted = IsWithin-later {settings = settings} t clock.counted db.jobs le h in
    let later =
      IsWithin-later {settings = settings} clock.counted clock.started_at db.jobs le' counted in
    ground (
      arith,
      later,
      execute-IsWithin {settings = settings} clock.started_at
          (Claims.broker_exhausted (reading clock.now clock.found) a.job_id) db.jobs
          (broker_exhausted-Releases clock.started_at (reading clock.now clock.found) a.job_id)
          later,
      start_attempt-IsWithin settings clock uuid a row db le' one counted,
    )

pub begin_attempt-IsWithin :
    (settings : Settings) (t : ℕ) (clock : BeginClock) (uuid : String) (a : Attempt) (db : Database)
    → t ≤ clock.counted
    → clock.counted ≤ clock.started_at
    → Table.count (has_id a.job_id) db.jobs ≤ 1
    → IsWithin settings t db.jobs
    → IsWithin settings clock.started_at (Delivery.begin_attempt settings clock uuid a db).0.jobs
unfolding Delivery.begin_attempt
begin_attempt-IsWithin settings t clock uuid a db le le' one h =
    elim (Option-cases (Table.find (has_id a.job_id) db.jobs)) [
      | inl absent ↦
          rw (absent, Delivery.begin_attempt)
            (IsWithin-later {settings = settings} t clock.started_at db.jobs (omega arith) h)
      | inr (row, found) ↦
          rw (found, Delivery.begin_attempt)
            (begin_row-IsWithin settings t clock uuid a row db le le' one h)
    ]

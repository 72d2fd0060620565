-- ===== src/Storage/Outbox/Broker.antt =====
-- begin_attempt, the cleanup and the reconciliation keep a message for each job that waits or runs.
use transcriber.Prelude.{
  ℕ, ◌≤◌, ◌≡◌, refl, sym, true, not, String, some, List, ◌⊎◌, arith, All, Option-cases, inl, inr,
  ==→≡, eq_iff, ==_refl, &&-cases,
}
use transcriber.Prelude.Table
use transcriber.Prelude.Table.{Update}
use transcriber.Prelude.Table.Laws.{All-update_to, All-select, All-find}
use transcriber.Prelude.Table.Keys.{In, All-refine, All-update_found, exists_of_In}
use transcriber.Storage.Schema.{Job, Message, Database, Clock, Settings, is_waiting}
use transcriber.Storage.Statements.Jobs
use transcriber.Storage.Statements.Jobs.{has_id}
use transcriber.Storage.Statements.Claims
use transcriber.Storage.Statements.Outbox as Statements
use transcriber.Storage.Attempts.{reading, lease_token}
use transcriber.Storage.Delivery
use transcriber.Storage.Delivery.{BeginClock, Attempt}
use transcriber.Storage.Outbox.{is_message, HasMessage, IsDispatched}
use transcriber.Storage.Outbox.Rows.{
  KeepsMessage, execute-IsDispatched, exists-append, exists-select, exists-append_right,
  exists-map-select,
}

module _ (outbox : List Message) where
  begin_started :
      (settings : Settings) (clock : BeginClock) (uuid : String) (a : Attempt) (row : Job)
      (jobs : List Job)
      → Table.count (has_id a.job_id) jobs ≤ 1
      → Table.find (has_id a.job_id) jobs ≡ some row
      → is_waiting row.status ≡ true
      → All (HasMessage outbox) jobs
      → All (HasMessage outbox) (
          Table.execute
            (Claims.broker_start
              (reading clock.now clock.started_at)
              (lease_token a.worker_id uuid)
              settings.lease_seconds
              a.worker_id
              a.instance_id
              a.delivery_id
              a.job_id)
            jobs)
  unfolding Claims.broker_start
  begin_started settings clock uuid a row jobs one found waits h =
      All-update_found (HasMessage outbox) (has_id a.job_id) _ jobs one found
        (λ _. (All-find (HasMessage outbox) (has_id a.job_id) jobs h found).0 waits) h

  broker_exhausted-KeepsMessage :
      (clock : Clock) (id : String) → KeepsMessage (Claims.broker_exhausted clock id)
  unfolding Claims.broker_exhausted
  broker_exhausted-KeepsMessage clock id j sel waits = cc

begin_row-IsDispatched :
    (settings : Settings) (clock : BeginClock) (uuid : String) (a : Attempt) (row : Job)
    (db : Database)
    → Table.count (has_id a.job_id) db.jobs ≤ 1
    → Table.find (has_id a.job_id) db.jobs ≡ some row
    → IsDispatched db
    → IsDispatched (Delivery.begin_row settings clock uuid a row db).0
unfolding Delivery.begin_row Delivery.start_attempt
begin_row-IsDispatched settings clock uuid a row db one found h = ground (
  arith,
  h,
  begin_started db.outbox settings clock uuid a row db.jobs one found,
  execute-IsDispatched (Claims.broker_exhausted (reading clock.now clock.found) a.job_id) db.outbox
      db.jobs (broker_exhausted-KeepsMessage db.outbox (reading clock.now clock.found) a.job_id) h,
)

pub begin_attempt-IsDispatched :
    (settings : Settings) (clock : BeginClock) (uuid : String) (a : Attempt) (db : Database)
    → Table.count (has_id a.job_id) db.jobs ≤ 1
    → IsDispatched db
    → IsDispatched (Delivery.begin_attempt settings clock uuid a db).0
unfolding Delivery.begin_attempt
begin_attempt-IsDispatched settings clock uuid a db one h =
    elim (Option-cases (Table.find (has_id a.job_id) db.jobs)) [
      | inl absent ↦ rw (absent, Delivery.begin_attempt) h
      | inr (row, found) ↦
          rw (found, Delivery.begin_attempt)
            (begin_row-IsDispatched settings clock uuid a row db one found h)
    ]

reap-KeepsMessage : (clock : Clock) → KeepsMessage (Jobs.reap clock)
unfolding Jobs.reap
reap-KeepsMessage clock j sel waits = cc

pub cleanup-IsDispatched :
    (clock : Clock) (ttl : ℕ) (db : Database)
    → IsDispatched db
    → IsDispatched (Delivery.cleanup_expired_jobs clock ttl db).0
unfolding Delivery.cleanup_expired_jobs Delivery.cascade
cleanup-IsDispatched clock ttl db h =
    let reaped = Table.execute (Jobs.reap clock) db.jobs in
    let kept = Table.select (λ j. not (Jobs.is_expired clock ttl j)) reaped in
    All-refine (HasMessage db.outbox) (HasMessage (Delivery.cascade kept db.outbox)) kept
      (λ j i has waits.
        rw
          (exists-select (is_message j.dispatch_id j.job_id)
            (λ m. Table.exists (has_id m.job_id) kept) db.outbox
            (λ m q.
              exists_of_In (has_id m.job_id) kept i
                ((eq_iff j.job_id m.job_id).1 (sym (==→≡ (&&-cases _ _ q).1)))))
          (has waits))
      (All-select (HasMessage db.outbox) (λ j. not (Jobs.is_expired clock ttl j)) reaped
        (execute-IsDispatched (Jobs.reap clock) db.outbox db.jobs (reap-KeepsMessage clock) h))

-- After the fence a row has its message, or no dispatch.
abbrev Lacking : List Message → Job → Type 0
Lacking outbox j = HasMessage outbox j ⊎ (j.dispatch_id ≡ "")

pub reconcile-IsDispatched :
    (clock : Clock) (uuid : String → String) (db : Database)
    → IsDispatched db
    → IsDispatched (Delivery.reconcile clock uuid db)
unfolding Delivery.reconcile Statements.broker_reconcile Statements.broker_seed
    Statements.seed_outbox
reconcile-IsDispatched clock uuid db h =
    let fenced = Table.execute (Statements.broker_reconcile clock) db.jobs in
    let outbox' = Statements.seed_outbox uuid fenced db.outbox in
    let lacking =
      All-update_to (HasMessage db.outbox) (Lacking db.outbox)
        (Statements.broker_reconcile clock).rows (Statements.broker_reconcile clock).set db.jobs
        (λ j _ _. inr refl) (λ j _ has. inl has) h in
    All-update_to (λ j. Lacking db.outbox j × In j fenced) (HasMessage outbox')
      (Statements.broker_seed uuid).rows (Statements.broker_seed uuid).set fenced
      (λ j adopted l waits. exists-append_right (is_message (uuid j.job_id) j.job_id) db.outbox _ (
        exists-map-select (is_message (uuid j.job_id) j.job_id) (Statements.seed_message uuid)
          Statements.is_adopted fenced l.1 adopted (rw (==_refl, ==_refl))))
      (λ j left l waits. elim l.0 [
        | inl has ↦ exists-append (is_message j.dispatch_id j.job_id) db.outbox _ (has waits)
        | inr cleared ↦ cc (rw (waits, cleared) at left)
      ])
      (All-refine (Lacking db.outbox) (λ j. Lacking db.outbox j × In j fenced) fenced
        (λ j i l. (l, i)) lacking)

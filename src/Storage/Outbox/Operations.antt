-- ===== src/Storage/Outbox/Operations.antt =====
-- The operations that put a job into the queue give it a message, and the others keep it.
use transcriber.Prelude.{
  ℕ, ◌≤◌, ◌≡◌, Bool, true, String, List, ◌⊎◌, arith, All, Bool-cases, Option-cases, inl, inr, ==→≡,
  ==_refl, eqb,
}
use transcriber.Prelude.Table
use transcriber.Prelude.Table.{Update}
use transcriber.Prelude.Table.Laws.{All-update_to, update_none, count_mono, count-zero_of_find}
use transcriber.Prelude.Table.Keys.{All-refine, find-In, count_pos}
use transcriber.Storage.Schema.{
  Job, Message, Database, Clock, Settings, is_waiting, is_queued, rabbitmq,
}
use transcriber.Storage.Statements.Jobs
use transcriber.Storage.Statements.Jobs.{has_id}
use transcriber.Storage.Statements.Outbox as Statements
use transcriber.Storage.Uploads
use transcriber.Storage.Attempts
use transcriber.Storage.Validity.{IsValid}
use transcriber.Storage.Validity.Rows.{fail-Keeps}
use transcriber.Storage.Validity.Operations.{execute-IsValid}
use transcriber.Storage.Outbox.{is_message, HasMessage, IsDispatched}
use transcriber.Storage.Outbox.Rows.{exists-append, exists-snoc}

-- A row that lacks its message has the ID of the job that is being queued.
abbrev Pending : List Message → String → Job → Type 0
Pending outbox id j = HasMessage outbox j ⊎ ((has_id id j ≡ true) × (is_queued j.status ≡ true))

-- After `_enqueue` of a job nothing is pending.
enqueue-IsDispatched :
    (clock : Clock) (uuid id : String) (delay : ℕ) (db : Database)
    → All (Pending db.outbox id) db.jobs
    → IsDispatched (Uploads.enqueue clock uuid id delay db)
unfolding Uploads.enqueue Statements.dispatch Statements.outbox_insert
enqueue-IsDispatched clock uuid id delay db h =
    let outbox' = Statements.outbox_insert clock uuid id delay db.outbox in
    All-update_to (Pending db.outbox id) (HasMessage outbox') (has_id id) _ db.jobs
      (λ j own _ _.
        exists-snoc (is_message uuid j.job_id) db.outbox _ (rw (==→≡ own, ==_refl) (==_refl id)))
      (λ j other pending waits. elim pending [
        | inl has ↦ exists-append (is_message j.dispatch_id j.job_id) db.outbox _ (has waits)
        | inr (own, _) ↦ cc
      ])
      h

-- What a statement on one job leaves pending: a row that it puts into the queue.
abbrev Queues : String → Update Job → Type 0
Queues id u =
    (j : Job)
    → u.rows j ≡ true
    → (has_id id j ≡ true)
      × ((u.set j).job_id ≡ j.job_id)
      × (is_waiting (u.set j).status ≡ true → is_queued (u.set j).status ≡ true)

execute-Pending :
    (u : Update Job) (id : String) (outbox : List Message) (jobs : List Job)
    → Queues id u
    → All (HasMessage outbox) jobs
    → All (Pending outbox id) (Table.execute u jobs)
execute-Pending u id outbox jobs queues h =
    All-update_to (HasMessage outbox) (Pending outbox id) u.rows u.set jobs
      (λ j sel has.
        let (own, same, waits) = queues j sel in
        elim (Bool-cases (is_waiting (u.set j).status)) [
          | inl w ↦ inr (rw same own, waits w)
          | inr idle ↦ inl (λ w. cc)
        ])
      (λ j _ has. inl has) h

queue-Queues : (clock : Clock) (id : String) → Queues id (Jobs.queue clock id)
unfolding Jobs.queue
queue-Queues clock id j sel = ground arith

fail-Queues :
    (clock : Clock) (retryable : Bool) (error id owner : String)
    → Queues id (Jobs.fail clock retryable error id owner)
unfolding Jobs.fail
fail-Queues clock retryable error id owner j sel = ground arith

pub mark_queued-IsDispatched :
    (settings : Settings) (clock : Clock) (uuid id : String) (db : Database)
    → settings.queue_backend ≡ rabbitmq
    → IsDispatched db
    → IsDispatched (Uploads.mark_queued settings clock uuid id db).0
unfolding Uploads.mark_queued
mark_queued-IsDispatched settings clock uuid id db mode h =
    let u = Jobs.queue clock id in
    let pending = execute-Pending u id db.outbox db.jobs (queue-Queues clock id) h in
    elim (Option-cases (Table.find u.rows db.jobs)) [
      | inl absent ↦
          rw (absent, Uploads.mark_queued)
            (rw (update_none u.rows u.set db.jobs (count-zero_of_find u.rows db.jobs absent)) h)
      | inr (row, found) ↦
          rw (found, Uploads.mark_queued)
            (rw mode (
              enqueue-IsDispatched clock uuid id 0 (record db { jobs = Table.execute u db.jobs })
                pending))
    ]

-- Where the job's row did not go back to the queue, nothing is pending.
requeue-IsDispatched :
    (clock : Clock) (uuid id : String) (db : Database)
    → Table.count (has_id id) db.jobs ≤ 1
    → All (Pending db.outbox id) db.jobs
    → IsDispatched (Attempts.requeue clock uuid id db)
unfolding Attempts.requeue
requeue-IsDispatched clock uuid id db one h = elim (Option-cases (Table.find (has_id id) db.jobs)) [
  | inl absent ↦
      rw (absent, Attempts.requeue)
        (All-refine (Pending db.outbox id) (HasMessage db.outbox) db.jobs
          (λ j i pending waits. elim pending [
            | inl has ↦ has waits
            | inr (own, _) ↦ absurd (
                omega (
                  arith,
                  count_pos (has_id id) db.jobs i own,
                  count-zero_of_find (has_id id) db.jobs absent,
                ))
          ])
          h)
  | inr (row, found) ↦
      rw (found, Attempts.requeue)
        (elim (Bool-cases (is_queued row.status)) [
          | inl back ↦
              rw back (enqueue-IsDispatched clock uuid id (Attempts.retry_delay row.attempts) db h)
          | inr out ↦ rw out (
              All-refine (Pending db.outbox id) (HasMessage db.outbox) db.jobs
                (λ j i pending waits. elim pending [
                  | inl has ↦ has waits
                  | inr (own, queued) ↦
                      cc (find-In (has_id id) db.jobs one i own, found, queued, out)
                ])
                h)
        ])
]

pub fail_job-IsDispatched :
    (settings : Settings) (clock : Clock) (uuid id owner error : String) (retryable : Bool)
    (db : Database)
    → settings.queue_backend ≡ rabbitmq
    → IsValid db.jobs
    → IsDispatched db
    → IsDispatched (Attempts.fail_job settings clock uuid id owner error retryable db).0
unfolding Attempts.fail_job
fail_job-IsDispatched settings clock uuid id owner error retryable db mode valid h =
    let u = Jobs.fail clock retryable error id owner in
    let pending =
      execute-Pending u id db.outbox db.jobs (fail-Queues clock retryable error id owner) h in
    let db' : Database = record db { jobs = Table.execute u db.jobs } in
    let kept = execute-IsValid u db.jobs (fail-Keeps clock retryable error id owner) valid in
    let few =
      count_mono u.rows (has_id id) db.jobs
        (λ j sel. (fail-Queues clock retryable error id owner j sel).0) in
    elim (Bool-cases (eqb (Table.row_count u db.jobs) 1)) [
      | inl accepted ↦
          rw (mode, accepted) (requeue-IsDispatched clock uuid id db' (kept.ids id) pending)
      | inr refused ↦
          rw (mode, refused)
            (rw (update_none u.rows u.set db.jobs (ground (arith, few, valid.ids id))) h)
    ]

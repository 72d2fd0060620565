-- ===== src/Storage/Queueing.antt =====
-- mark_queued and queue_position of whisper/storage.py: an upload enters the queue.
use transcriber.Prelude.{
  ℕ, ◌+◌, ◌≤◌, ◌⊎◌, ◌≡◌, Bool, true, false, String, List, [], ◌∷◌, some, inl, inr, Option-cases,
  refl, arith, leb, ◌&&◌, &&-cases,
}
use transcriber.Prelude.Table
use transcriber.Prelude.Table.Laws.{find-update, count-update_eq, count_mono, find_sound}
use transcriber.Prelude.Table.Keys.{In, In-find, find-In, count_pos}
use transcriber.Storage.Schema.{
  Job, Database, Clock, Settings, Backend, postgres, rabbitmq, queued, is_upload, is_waiting,
}
use transcriber.Storage.Statements.Jobs
use transcriber.Storage.Statements.Jobs.{has_id}
use transcriber.Storage.Statements.Outbox
use transcriber.Storage.Uploads
use transcriber.Storage.Validity.{IsValid}

-- A statement that makes a counted row of each row that it selects, none of which was counted.
count-update_hits :
    {A : Type 0} (q p : A → Bool) (f : A → A) (xs : List A)
    → ((x : A) → In x xs → p x ≡ true → (q x ≡ false) × (q (f x) ≡ true))
    → Table.count q (Table.update p f xs) ≡ Table.count q xs + Table.count p xs
unfolding Table.count Table.update
count-update_hits q p f [] hit = refl
count-update_hits q p f (x ∷ xs) hit =
    ground (arith, hit x (inl refl), count-update_hits q p f xs (λ y i. hit y (inr i)))

-- Where a row passes a test that no other row does, the row that passes it is that row.
same_row :
    {A : Type 0} (p : A → Bool) (xs : List A) (a b : A)
    → Table.count p xs ≤ 1
    → In a xs
    → p a ≡ true
    → In b xs
    → p b ≡ true
    → a ≡ b
same_row p xs a b one i e j e' = cc (find-In p xs one i e, find-In p xs one j e')

module _ (clock : Clock) (uuid id : String) (db : Database) (valid : IsValid db.jobs) (row : Job)
    (found : Table.find (Jobs.queue clock id).rows db.jobs ≡ some row) where
  abbrev queued_jobs : List Job
  queued_jobs = Table.execute (Jobs.queue clock id) db.jobs

  -- what queue_position counts for the row
  abbrev ahead : Job → Bool
  ahead q = is_waiting q.status && leb q.created_at row.created_at

  found_uploading : (has_id id row ≡ true) × (is_upload row.status ≡ true)
  unfolding Jobs.queue
  found_uploading = &&-cases _ _ (find_sound (Jobs.queue clock id).rows db.jobs found)

  find-queued : Table.find (has_id id) queued_jobs ≡ some ((Jobs.queue clock id).set row)
  unfolding Jobs.queue
  find-queued =
      rw
        (
          find-update (has_id id) (Jobs.queue clock id).rows (Jobs.queue clock id).set db.jobs
              (λ x. refl),
          find-In (has_id id) db.jobs (valid.ids id)
              (In-find (Jobs.queue clock id).rows db.jobs found) found_uploading.0,
          found_uploading.0,
          found_uploading.1,
        )
        refl

  one_queued : Table.count (Jobs.queue clock id).rows db.jobs ≡ 1
  unfolding Jobs.queue
  one_queued =
      let s = Jobs.queue clock id in
      omega (
        arith,
        count_pos s.rows db.jobs (In-find s.rows db.jobs found) (find_sound s.rows db.jobs found),
        count_mono s.rows (has_id id) db.jobs (λ x e. (&&-cases _ _ e).0),
        valid.ids id,
      )

  count-queued : Table.count ahead queued_jobs ≡ Table.count ahead db.jobs + 1
  unfolding Jobs.queue
  count-queued =
      let s = Jobs.queue clock id in
      let hit : (x : Job)
          → In x db.jobs
          → s.rows x ≡ true
          → (ahead x ≡ false) × (ahead (s.set x) ≡ true) =
        λ x i e.
          let same : x ≡ row =
            same_row (has_id id) db.jobs x row (valid.ids id) i (&&-cases _ _ e).0
              (In-find s.rows db.jobs found) found_uploading.0 in
          rw same (ground (arith, found_uploading.1), ground arith) in
      rw (count-update_hits ahead s.rows s.set db.jobs hit, one_queued) refl

  -- The row with the ID in a table that counts one more before it.
  entered_queue :
      (jobs : List Job) (job : Job)
      → Table.find (has_id id) jobs ≡ some job
      → job.status ≡ queued
      → job.created_at ≡ row.created_at
      → Table.count ahead jobs ≡ Table.count ahead db.jobs + 1
      → (Jobs.queue_position id jobs ≡ Table.count ahead db.jobs + 1)
        × (j : Job) × (Table.find (has_id id) jobs ≡ some j)
        × (j.status ≡ queued)
  unfolding Jobs.queue_position
  entered_queue jobs job read status same counted =
      (rw (read, Jobs.queue_position) (rw same counted), job, read, status)

  -- after mark_queued without a message, and with one
  entered :
      (Jobs.queue_position id queued_jobs ≡ Table.count ahead db.jobs + 1)
      × (j : Job) × (Table.find (has_id id) queued_jobs ≡ some j)
      × (j.status ≡ queued)
  unfolding Jobs.queue
  entered = entered_queue queued_jobs _ find-queued refl refl count-queued

  abbrev dispatched : List Job
  dispatched = Table.execute (Outbox.dispatch uuid id) queued_jobs

  entered_dispatched :
      (Jobs.queue_position id dispatched ≡ Table.count ahead db.jobs + 1)
      × (j : Job) × (Table.find (has_id id) dispatched ≡ some j)
      × (j.status ≡ queued)
  unfolding Outbox.dispatch Jobs.queue
  entered_dispatched =
      let d = Outbox.dispatch uuid id in
      let read : Table.find (has_id id) dispatched ≡ some (d.set ((Jobs.queue clock id).set row)) =
        rw
          (
            find-update (has_id id) d.rows d.set queued_jobs (λ x. refl),
            find-queued,
            found_uploading.0,
          )
          refl in
      entered_queue dispatched _ read refl refl
        (rw (count-update_eq ahead d.rows d.set queued_jobs (λ x. refl)) count-queued)

backend_cases : (b : Backend) → (b ≡ postgres) ⊎ (b ≡ rabbitmq)
backend_cases postgres = inl refl
backend_cases rabbitmq = inr refl

-- A job that mark_queued accepts is queued, and its place in the queue, read afterwards, is the one
-- that mark_queued returned and the job itself.
pub mark_queued_lem :
    (settings : Settings) (clock : Clock) (uuid id : String) (db : Database) (n : ℕ)
    → IsValid db.jobs
    → (Uploads.mark_queued settings clock uuid id db).1 ≡ some n
    → (Uploads.queue_position id (Uploads.mark_queued settings clock uuid id db).0 ≡ n + 1)
      × (job : Job) × (Uploads.get_job id (Uploads.mark_queued settings clock uuid id db).0
          ≡ some job)
      × (job.status ≡ queued)
unfolding Uploads.mark_queued Uploads.enqueue Uploads.queue_position Uploads.get_job
mark_queued_lem settings clock uuid id db n valid e =
    elim (Option-cases (Table.find (Jobs.queue clock id).rows db.jobs)) [
      | inl gone ↦ absurd (ground (arith, gone, e))
      | inr (row, found) ↦
          let same : Table.count (ahead clock uuid id db valid row found) db.jobs ≡ n =
            ground (arith, found, e) in
          elim (backend_cases settings.queue_backend) [
            | inl backend ↦
                rw (found, Uploads.mark_queued, backend, Uploads.mark_queued, ← same)
                  (entered clock uuid id db valid row found)
            | inr backend ↦
                rw (found, Uploads.mark_queued, backend, Uploads.mark_queued, ← same)
                  (entered_dispatched clock uuid id db valid row found)
          ]
    ]

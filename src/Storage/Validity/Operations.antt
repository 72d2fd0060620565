-- ===== src/Storage/Validity/Operations.antt =====
-- Every operation of `JobStore` keeps the table of jobs valid.
use transcriber.Prelude.{
  ℕ, ◌≡◌, ◌≢◌, sym, ◌∙◌, Bool, String, some, List, [], ◌∷◌, ◌++◌, arith, Bool-cases, Option-cases,
  inl, inr, All-append, ==→≡, ◌==◌,
}
use transcriber.Prelude.Table
use transcriber.Prelude.Table.{Update}
use transcriber.Prelude.Table.Laws.{
  All-update, All-select, count-update_eq, count-select_le, count-zero_of_find,
}
use transcriber.Prelude.Table.Keys.{All-update_found, unique-append}
use transcriber.Storage.Schema.{Job, Database, Clock, Settings}
use transcriber.Storage.Statements.Jobs
use transcriber.Storage.Statements.Jobs.{has_id}
use transcriber.Storage.Statements.Outbox
use transcriber.Storage.Uploads
use transcriber.Storage.Uploads.{Upload, new_job}
use transcriber.Storage.Validity.{IsConsistent, IsValid, has_request}
use transcriber.Storage.Validity.Rows
use transcriber.Storage.Validity.Rows.{Keeps}

pub execute-IsValid :
    (u : Update Job) (jobs : List Job) → Keeps u → IsValid jobs → IsValid (Table.execute u jobs)
execute-IsValid u jobs k h = record {
  rows = All-update IsConsistent u.rows u.set jobs k.consistent h.rows;
  ids = λ id. rw (count-update_eq (has_id id) u.rows u.set jobs (λ j. rw (k.id j))) (h.ids id);
  requests = λ r ne.
      rw (count-update_eq (has_request r) u.rows u.set jobs (λ j. rw (k.request j)))
        (h.requests r ne);
}

-- A statement on the primary key, at the row that was read.
pub update_found-IsValid :
    (id : String) (set : Job → Job) (jobs : List Job) {row : Job}
    → Table.find (has_id id) jobs ≡ some row
    → ((j : Job) → (set j).job_id ≡ j.job_id)
    → ((j : Job) → (set j).request_id ≡ j.request_id)
    → IsConsistent (set row)
    → IsValid jobs
    → IsValid (Table.update (has_id id) set jobs)
update_found-IsValid id set jobs e same_id same_request new h = record {
  rows = All-update_found IsConsistent (has_id id) set jobs (h.ids id) e new h.rows;
  ids = λ i. rw (count-update_eq (has_id i) (has_id id) set jobs (λ j. rw (same_id j))) (h.ids i);
  requests = λ r ne.
      rw (count-update_eq (has_request r) (has_id id) set jobs (λ j. rw (same_request j)))
        (h.requests r ne);
}

pub select-IsValid :
    (p : Job → Bool) (jobs : List Job) → IsValid jobs → IsValid (Table.select p jobs)
select-IsValid p jobs h = record {
  rows = All-select IsConsistent p jobs h.rows;
  ids = λ id. omega (arith, count-select_le (has_id id) p jobs, h.ids id);
  requests = λ r ne. omega (arith, count-select_le (has_request r) p jobs, h.requests r ne);
}

-- A row under a new primary key, and a new request ID if it has one.
pub insert-IsValid :
    (jobs : List Job) (j : Job)
    → IsConsistent j
    → Table.count (has_id j.job_id) jobs ≡ 0
    → (j.request_id ≢ "" → Table.count (has_request j.request_id) jobs ≡ 0)
    → IsValid jobs
    → IsValid (jobs ++ j ∷ [])
insert-IsValid jobs j c fresh fresh_request h = record {
  rows = All-append IsConsistent jobs (j ∷ []) h.rows (c, tt);
  ids =
      λ id. unique-append (λ (x : Job). x.job_id) jobs j id (λ same. rw (← same) fresh) (h.ids id);
  requests = λ r ne.
      unique-append (λ (x : Job). x.request_id) jobs j r
        (λ same. rw (← same) (fresh_request (λ e. ne (sym same ∙ e)))) (h.requests r ne);
}

pub create_job-IsValid :
    (settings : Settings) (clock : Clock) (uuid : String) (upload : Upload) (db : Database)
    → Table.count (has_id uuid) db.jobs ≡ 0
    → (upload.request_id ≢ "" → Table.count (has_request upload.request_id) db.jobs ≡ 0)
    → IsValid db.jobs
    → IsValid (Uploads.create_job settings clock uuid upload db).0.jobs
unfolding Uploads.create_job new_job
create_job-IsValid settings clock uuid upload db fresh fresh_request h =
    insert-IsValid db.jobs (new_job settings clock uuid upload)
      (Rows.new_job-IsConsistent settings clock uuid upload) fresh fresh_request h

reserve_locked-IsValid :
    (settings : Settings) (clock : Clock) (uuid : String) (upload : Upload) (db : Database)
    → Table.count (has_id uuid) db.jobs ≡ 0
    → IsValid db.jobs
    → IsValid (Uploads.reserve_locked settings clock uuid upload db).0.jobs
unfolding Uploads.reserve_locked
reserve_locked-IsValid settings clock uuid upload db fresh h =
    elim (Bool-cases (upload.request_id == "")) [
      | inl anonymous ↦
          rw (anonymous, Uploads.reserve_locked)
            (create_job-IsValid settings clock uuid upload db fresh
              (λ ne. absurd (ne (==→≡ anonymous))) h)
      | inr named ↦
          rw (named, Uploads.reserve_locked)
            (elim (Option-cases (Uploads.upload_lookup upload.request_id db.jobs)) [
              | inl new ↦
                  rw (new, Uploads.reserve_locked)
                    (create_job-IsValid settings clock uuid upload db fresh
                      (λ _. count-zero_of_find (has_request upload.request_id) db.jobs new) h)
              | inr (job, old) ↦ rw (old, Uploads.reserve_locked) h
            ])
    ]

-- A reservation inserts at most one row, and only under a request ID that no row has.
pub reserve_upload-IsValid :
    (hash : String → ℕ) (settings : Settings) (clock : Clock) (uuid : String) (upload : Upload)
    (db : Database) (locks : List ℕ)
    → Table.count (has_id uuid) db.jobs ≡ 0
    → IsValid db.jobs
    → IsValid (Uploads.reserve_upload hash settings clock uuid upload db locks).0.jobs
unfolding Uploads.reserve_upload
reserve_upload-IsValid hash settings clock uuid upload db locks fresh h =
    ground (arith, reserve_locked-IsValid settings clock uuid upload db fresh h)

pub enqueue-IsValid :
    (clock : Clock) (uuid id : String) (delay : ℕ) (db : Database)
    → IsValid db.jobs
    → IsValid (Uploads.enqueue clock uuid id delay db).jobs
unfolding Uploads.enqueue
enqueue-IsValid clock uuid id delay db h =
    execute-IsValid (Outbox.dispatch uuid id) db.jobs (Rows.dispatch-Keeps uuid id) h

pub mark_queued-IsValid :
    (settings : Settings) (clock : Clock) (uuid id : String) (db : Database)
    → IsValid db.jobs
    → IsValid (Uploads.mark_queued settings clock uuid id db).0.jobs
unfolding Uploads.mark_queued
mark_queued-IsValid settings clock uuid id db h =
    let u = Jobs.queue clock id in
    let kept = execute-IsValid u db.jobs (Rows.queue-Keeps clock id) h in
    ground (
      arith,
      enqueue-IsValid clock uuid id 0 (record db { jobs = Table.execute u db.jobs }) kept,
      kept,
    )

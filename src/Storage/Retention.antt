-- ===== src/Storage/Retention.antt =====
-- What cleanup_expired_jobs and acknowledge_job of whisper/storage.py promise a client that has
-- asked to retain its result.
use transcriber.Prelude.{
  ℕ, ◌+◌, ◌<◌, ◌≡◌, refl, true, false, String, Option, none, some, arith, Bool-cases, inl, inr, ◌⊎◌,
}
use mathlib.Core.Option
use transcriber.Prelude.Table
use transcriber.Prelude.Table.Laws.{find-update, find_sound}
use transcriber.Prelude.Table.Keys.{
  In, In-find, exists_of_In, All-In, In-update_other, In-select, In-select_inv,
}
use transcriber.Storage.Schema.{Job, Database, Clock, seconds, is_terminal}
use transcriber.Storage.Statements.Jobs
use transcriber.Storage.Statements.Jobs.{has_id}
use transcriber.Storage.Uploads
use transcriber.Storage.Delivery
use transcriber.Storage.Validity.{IsConsistent, IsValid}
use transcriber.Storage.Validity.Rows
use transcriber.Storage.Validity.Operations.{execute-IsValid}

-- The cleanup leaves a finished job that a client has asked to retain and has not acknowledged
-- exactly as it is, whatever the clock reads and however short the time to live.
pub cleanup-keeps_retained :
    (clock : Clock) (ttl : ℕ) (db : Database) (j : Job)
    → In j db.jobs
    → j.retain_until_ack ≡ true
    → j.acknowledged_at ≡ none
    → is_terminal j.status ≡ true
    → In j (Delivery.cleanup_expired_jobs clock ttl db).0.jobs
unfolding Delivery.cleanup_expired_jobs Jobs.reap Jobs.is_expired
cleanup-keeps_retained clock ttl db j i retained unread terminal =
    In-select _ _ j (In-update_other _ _ db.jobs j i (ground arith)) (ground arith)

older_lem :
    (clock : Clock) (ttl : ℕ) (o : Option ℕ)
    → Jobs.older clock ttl o ≡ true
    → (t : ℕ) × (o ≡ some t) × (t + seconds ttl < clock.now)
older_lem clock ttl none e = cc
older_lem clock ttl (some t) e = (t, refl, ground arith)

-- What the cleanup of a valid database deletes is finished, and has been so for longer than the time to live; if it
-- was to be retained, the client acknowledged it, longer ago than that.
pub cleanup-deletes_expired :
    (clock : Clock) (ttl : ℕ) (db : Database) (j : Job)
    → IsValid db.jobs
    → In j (Delivery.cleanup_expired_jobs clock ttl db).1
    → (is_terminal j.status ≡ true)
      × (((j.retain_until_ack ≡ false)
            × (t : ℕ) × (j.finished_at ≡ some t)
            × (t + seconds ttl < clock.now))
          ⊎ ((j.retain_until_ack ≡ true)
              × (t : ℕ) × (j.acknowledged_at ≡ some t)
              × (t + seconds ttl < clock.now)))
unfolding Delivery.cleanup_expired_jobs Jobs.is_expired
cleanup-deletes_expired clock ttl db j valid i =
    let reaped = Table.execute (Jobs.reap clock) db.jobs in
    let (there, expired) = In-select_inv (Jobs.is_expired clock ttl) reaped j i in
    let consistent =
      All-In IsConsistent reaped
        (execute-IsValid (Jobs.reap clock) db.jobs (Rows.reap-Keeps clock) valid).rows there in
    (
      ground (arith, consistent.finished, expired),
      elim (Bool-cases j.retain_until_ack) [
        | inl retained ↦
            let (t, at, past) = older_lem clock ttl j.acknowledged_at (ground (arith, expired)) in
            inr (retained, t, at, past)
        | inr loose ↦
            let (t, at, past) = older_lem clock ttl j.finished_at (ground (arith, expired)) in
            inl (loose, t, at, past)
      ],
    )

-- Acknowledging a finished job that has not been acknowledged succeeds and records the time of the first acknowledgement; doing
-- it again succeeds and keeps that time.
acknowledge_twice :
    (first again : Clock) (id : String) (db : Database) (j : Job)
    → Uploads.get_job id db ≡ some j
    → is_terminal j.status ≡ true
    → j.acknowledged_at ≡ none
    → let (db', accepted) = Uploads.acknowledge_job first id db in
      let (db'', accepted') = Uploads.acknowledge_job again id db' in
      (accepted ≡ true)
      × (accepted' ≡ true)
      × (Option.map (λ k. k.acknowledged_at) (Uploads.get_job id db'') ≡ some (some first.now))
unfolding Uploads.get_job Uploads.acknowledge_job Jobs.ack
acknowledge_twice first again id db j found terminal unread =
    let one = Jobs.ack first id in
    let two = Jobs.ack again id in
    let own = find_sound (has_id id) db.jobs found in
    let found' : Table.find (has_id id) (Table.execute one db.jobs) ≡ some (one.set j) =
      rw (find-update (has_id id) one.rows one.set db.jobs (λ x. refl), found)
        (ground (arith, own)) in
    (
      exists_of_In one.rows db.jobs (In-find (has_id id) db.jobs found) (ground (arith, own)),
      exists_of_In two.rows (Table.execute one db.jobs)
          (In-find (has_id id) (Table.execute one db.jobs) found') (ground (arith, own)),
      rw (find-update (has_id id) two.rows two.set (Table.execute one db.jobs) (λ x. refl), found')
          (ground (arith, own)),
    )

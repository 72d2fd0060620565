-- ===== src/Storage/Fencing.antt =====
-- Lease tokens fence the attempts of one job: whisper/storage.py, get_owned_job, heartbeat,
-- complete_job and fail_job.
use transcriber.Prelude.{
  ℕ, ◌≡◌, ◌≢◌, sym, ◌∙◌, eq_iff, Bool, true, false, String, some, List, arith, &&-cases, ==→≡, ◌==◌,
  Bool-cases, inl, inr,
}
use transcriber.Prelude.Table
use transcriber.Prelude.Table.{Update}
use transcriber.Prelude.Table.Laws.{update_none, find_sound}
use transcriber.Prelude.Table.Keys.{In, In-find, find-In, count-zero_of_In}
use transcriber.Storage.Schema.{Job, Segment, Database, Clock, Settings, is_running}
use transcriber.Storage.Statements.Jobs
use transcriber.Storage.Statements.Jobs.{has_id, owned_at}
use transcriber.Storage.Attempts
use transcriber.Storage.Validity.{IsValid}

module _ (clock : Clock) (id owner other : String) (db : Database) {row : Job}
    (valid : IsValid db.jobs) (owned : Attempts.get_owned_job clock id owner db ≡ some row)
    (stale : other ≢ owner) where
  -- The job's only row is leased to `owner`.
  only_owner :
      (j : Job)
      → In j db.jobs
      → has_id id j ≡ true
      → (j.lease_owner ≡ owner) × (is_running j.status ≡ true)
  unfolding Attempts.get_owned_job
  only_owner j i own =
      let (own_row, rest) =
        &&-cases (has_id id row) _ (find_sound (owned_at clock.now id owner) db.jobs owned) in
      let (token, live) = &&-cases (row.lease_owner == owner) _ rest in
      let (runs, _) = &&-cases (is_running row.status) _ live in
      let found_row =
        find-In (has_id id) db.jobs (valid.ids id)
          (In-find (owned_at clock.now id owner) db.jobs owned) own_row in
      let same : row ≡ j =
        ground (arith, found_row, find-In (has_id id) db.jobs (valid.ids id) i own) in
      rw (← same) (==→≡ token, runs)

  -- No statement that asks for the other token finds the job.
  no_match :
      (u : Update Job)
      → ((j : Job) → u.rows j ≡ true → (has_id id j ≡ true) × (j.lease_owner ≡ other))
      → (Table.count u.rows db.jobs ≡ 0) × (Table.execute u db.jobs ≡ db.jobs)
  no_match u needs =
      let zero = count-zero_of_In u.rows db.jobs (λ j i. elim (Bool-cases (u.rows j)) [
        | inl e ↦
            let (own, token) = needs j e in
            let (mine, _) = only_owner j i own in absurd (stale (sym token ∙ mine))
        | inr e ↦ e
      ]) in
      (zero, update_none u.rows u.set db.jobs zero)

  -- In a valid database, while one token owns a job, completing it, renewing its lease or failing it with any other
  -- token is refused and changes nothing, whatever the clock reads then.
  pub stale_token_refused :
      (settings : Settings) (clock' : Clock) (uuid text path error : String)
      (segments : List Segment) (progress : ℕ) (retryable : Bool)
      → (Attempts.complete_job clock' id other text segments path db ≡ (db, false))
        × (Attempts.heartbeat settings clock' id other progress db ≡ (db, false))
        × (Attempts.fail_job settings clock' uuid id other error retryable db ≡ (db, false))
  unfolding Attempts.complete_job Attempts.heartbeat Attempts.fail_job Jobs.complete Jobs.heartbeat
      Jobs.fail
  stale_token_refused settings clock' uuid text path error segments progress retryable =
      let (none_completed, same_completed) =
        no_match (Jobs.complete clock' text segments path id other)
          (λ j sel. ground (arith, eq_iff j.lease_owner other)) in
      let (none_renewed, same_renewed) =
        no_match (Jobs.heartbeat clock' settings.lease_seconds progress id other)
          (λ j sel. ground (arith, eq_iff j.lease_owner other)) in
      let (none_failed, same_failed) =
        no_match (Jobs.fail clock' retryable error id other)
          (λ j sel. ground (arith, eq_iff j.lease_owner other)) in
      (
        rw (none_completed, same_completed),
        rw (none_renewed, same_renewed),
        ground (arith, none_failed, same_failed),
      )

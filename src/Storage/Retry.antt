-- ===== src/Storage/Retry.antt =====
-- What becomes of a failed attempt: fail_job of whisper/storage.py.
use transcriber.Prelude.{
  ℕ, zero, suc, ◌+◌, ◌-◌, ◌*◌, if◌then◌else◌, ◌≤◌, ◌^◌, min, ◌≡◌, refl, Bool, true, ◌&&◌, String,
  none, some, List, [], ◌∷◌, ◌++◌, arith, ltb, &&-cases,
}
use native.Mathlib.Numerals.{unary_clauses}
use transcriber.Prelude.Table
use transcriber.Prelude.Table.{Update}
use transcriber.Prelude.Table.Laws.{find-update, find_sound, count_mono}
use transcriber.Prelude.Table.Keys.{In, In-find, find-In, count_pos}
use transcriber.Storage.Schema.{
  Job, Message, Database, Clock, Settings, queued, failed, rabbitmq, seconds,
}
use transcriber.Storage.Statements.Jobs
use transcriber.Storage.Statements.Jobs.{has_id, owned_at}
use transcriber.Storage.Statements.Outbox
use transcriber.Storage.Uploads
use transcriber.Storage.Attempts
use transcriber.Storage.Attempts.{retry_delay}
use transcriber.Storage.Validity.{IsValid}

pow_mono : (n d : ℕ) → 2 ^ n ≤ 2 ^ (d + n)
pow_mono n zero = let same : zero + n ≡ n = omega arith in rw same (omega arith)
pow_mono n (suc d) =
    let next : suc d + n ≡ suc (d + n) = omega arith in
    let double : 2 ^ suc (d + n) ≡ 2 ^ (d + n) * 2 = simp unary_clauses refl in
    rw next (omega (arith, double, pow_mono n d))

pow_le : (n : ℕ) → n ≤ 8 → 2 ^ n ≤ 256
pow_le n le =
    let split : (8 - n) + n ≡ 8 = omega arith in
    let grown : 2 ^ n ≤ 2 ^ ((8 - n) + n) = pow_mono n (8 - n) in rw split at grown

-- The delay before a retry doubles with each attempt up to the eighth, and is never more than 256
-- seconds.
retry_delay-doubles :
    (attempts : ℕ) → (retry_delay attempts ≡ 2 ^ min attempts 8) × (retry_delay attempts ≤ 256)
unfolding Attempts.retry_delay
retry_delay-doubles attempts =
    let few : min attempts 8 ≤ 8 = omega arith in
    let le = pow_le (min attempts 8) few in
    let same : min 300 (2 ^ min attempts 8) ≡ 2 ^ min attempts 8 = omega (arith, le) in
    (same, rw same le)

-- The one row that a statement selects.
row_count-one :
    (u : Update Job) (id : String) (jobs : List Job) (row : Job)
    → Table.count (has_id id) jobs ≤ 1
    → ((j : Job) → u.rows j ≡ true → has_id id j ≡ true)
    → In row jobs
    → u.rows row ≡ true
    → Table.count u.rows jobs ≡ 1
row_count-one u id jobs row unique keyed i sel =
    omega (arith, count_mono u.rows (has_id id) jobs keyed, count_pos u.rows jobs i sel, unique)

-- In RabbitMQ mode and a valid database, failing the attempt that owns a job is accepted. If the failure is retryable and
-- attempts are left, the job waits again without a lease, and a new message for it, under the UUID
-- that is its dispatch ID now, becomes available after the delay; otherwise the job has failed at
-- that time and no message is added. Both keep the error.
pub fail_job-owned :
    (settings : Settings) (clock : Clock) (uuid id owner error : String) (retryable : Bool)
    (db : Database) (row : Job)
    → settings.queue_backend ≡ rabbitmq
    → IsValid db.jobs
    → Attempts.get_owned_job clock id owner db ≡ some row
    → let again = retryable && ltb row.attempts row.max_attempts in
      let (db', accepted) = Attempts.fail_job settings clock uuid id owner error retryable db in
      let over : Job = record row {
        error = error;
        progress_percent = 0;
        lease_owner = "";
        lease_expires_at = none;
        updated_at = clock.now;
      } in
      let message : Message = record {
        message_id = uuid;
        job_id = id;
        available_at = clock.wall + seconds (retry_delay row.attempts);
        published_at = none;
      } in
      (accepted ≡ true)
      × (Uploads.get_job id db'
          ≡ some (
              if again
              then record over { status = queued; finished_at = none; dispatch_id = uuid }
              else record over { status = failed; finished_at = some clock.now }))
      × (db'.outbox ≡ (if again then db.outbox ++ message ∷ [] else db.outbox))
unfolding Attempts.fail_job Attempts.requeue Uploads.enqueue Uploads.get_job Attempts.get_owned_job
    Jobs.fail Outbox.dispatch Outbox.outbox_insert
fail_job-owned settings clock uuid id owner error retryable db row mode valid owned =
    let u = Jobs.fail clock retryable error id owner in
    let i = In-find (owned_at clock.now id owner) db.jobs owned in
    let owns = find_sound (owned_at clock.now id owner) db.jobs owned in
    let (own, _) = &&-cases (has_id id row) _ owns in
    let sel : u.rows row ≡ true = ground (arith, owns) in
    let one = row_count-one u id db.jobs row (valid.ids id) (λ j e. ground arith) i sel in
    let found = find-In (has_id id) db.jobs (valid.ids id) i own in
    let found' : Table.find (has_id id) (Table.execute u db.jobs) ≡ some (u.set row) =
      rw (find-update (has_id id) u.rows u.set db.jobs (λ x. refl), found) (rw sel refl) in
    let sent = Outbox.dispatch uuid id in
    let found'' : Table.find (has_id id) (Table.execute sent (Table.execute u db.jobs))
        ≡ some (record (u.set row) { dispatch_id = uuid }) =
      rw (find-update (has_id id) sent.rows sent.set (Table.execute u db.jobs) (λ x. refl), found')
        (rw own refl) in
    ground (arith, mode, one, found', found'')

-- ===== src/Storage/Capacity.antt =====
-- The limits that begin_attempt and claim_next_job of whisper/storage.py enforce under the
-- scheduler's lock: the concurrency of each worker's pool, and one live attempt to a slot.
pub mod Releases
pub mod Starts
pub mod Claims
pub mod Runs
use transcriber.Prelude.{ℕ, ◌≤◌, ◌≡◌, String, some, List}
use transcriber.Prelude.Table
use transcriber.Storage.Schema.{Job, Database, Settings}
use transcriber.Storage.Statements.Claims.{is_active, is_active_slot}
use transcriber.Storage.Statements.Slots.{policy_of}
use transcriber.Storage.Schema.{Policy}
use transcriber.Storage.Steps.{Step, empty, begin, heartbeat, claim}

-- At time t no pool runs more live attempts than its policy allows, and no slot more than one.
pub record IsWithin (settings : Settings) (t : ℕ) (jobs : List Job) : Type 0 where
  pub pools :
      (worker : String) (policy : Policy)
      → policy_of settings.worker_policies worker ≡ some policy
      → Table.count (is_active t worker) jobs ≤ policy.max_concurrency
  pub slots : (worker instance : String) → Table.count (is_active_slot t worker instance) jobs ≤ 1

-- The order of the clock's readings that the scheduler's lock gives: the transactions that take
-- it read the clock one after the other, and each reads it while it holds the lock. The others may
-- fall between them anywhere.
abbrev pub Timed : {settings : Settings} {db db' : Database} → ℕ → ℕ → Step settings db db' → Type 0
Timed t t' (begin clock _ _) =
    (t ≤ clock.found)
    × (clock.found ≤ clock.counted)
    × (clock.counted ≤ clock.started_at)
    × (t' ≡ clock.started_at)
Timed t t' (heartbeat clock _ _ _) = (t ≤ clock.wall) × (t' ≡ clock.wall)
Timed t t' (claim clock _ _ _ _ _ _) =
    (t ≤ clock.selected) × (clock.selected ≤ clock.leased) × (t' ≡ clock.leased)
Timed t t' _ = t ≤ t'

-- A run of the service, with the last reading of the clock under the lock.
pub data Run (settings : Settings) : ℕ → Database → Type 0 where
  start : Run settings 0 empty
  step :
      {t t' : ℕ} {db db' : Database} (r : Run settings t db) (s : Step settings db db')
      → Timed t t' s
      → Run settings t' db'

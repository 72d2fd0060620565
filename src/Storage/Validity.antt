-- ===== src/Storage/Validity.antt =====
-- What holds of the tables of whisper/storage.py between two transactions.
pub mod Rows
pub mod Operations
pub mod Attempts
use transcriber.Prelude.{
  ℕ, ◌≤◌, ◌<◌, ◌≡◌, ◌≢◌, true, false, String, List, none, All, is_some, ◌==◌, Bool,
}
use transcriber.Prelude.Table
use transcriber.Storage.Schema.{Job, is_upload, is_running, is_terminal}
use transcriber.Storage.Statements.Jobs.{has_id}

-- A row whose columns agree with its status.
pub record IsConsistent (j : Job) : Type 0 where
  pub leased : is_running j.status ≡ true → is_some j.lease_expires_at ≡ true
  pub unleased : is_running j.status ≡ false → (j.lease_owner ≡ "") × (j.lease_expires_at ≡ none)
  pub finished : is_some j.finished_at ≡ is_terminal j.status
  pub acknowledged : is_some j.acknowledged_at ≡ true → is_terminal j.status ≡ true
  pub bounded : j.attempts ≤ j.max_attempts
  pub attempted : is_running j.status ≡ true → 0 < j.attempts
  pub untouched : is_upload j.status ≡ true → j.attempts ≡ 0
  pub begun : 0 < j.attempts → is_some j.started_at ≡ true

abbrev pub has_request : String → Job → Bool
has_request request j = j.request_id == request

pub record IsValid (jobs : List Job) : Type 0 where
  pub rows : All IsConsistent jobs
  pub ids : (id : String) → Table.count (has_id id) jobs ≤ 1
  pub requests : (request : String) → request ≢ "" → Table.count (has_request request) jobs ≤ 1

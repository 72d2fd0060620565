-- ===== src/Storage/Finality.antt =====
-- A finished job stays as it finished: what no operation of whisper/storage.py does to one.
pub mod Rows
pub mod Operations
pub mod Runs
use mathlib.Core.Option
use transcriber.Prelude.{ℕ, ◌≡◌, String, Option, some, List}
use transcriber.Prelude.Table
use transcriber.Storage.Schema.{Status, Segment, Job}
use transcriber.Storage.Statements.Jobs.{has_id}

-- The columns of a finished job that a client reads.
pub record Outcome : Type 0 where
  pub status : Status
  pub text : String
  pub segments : List Segment
  pub result_path : String
  pub error : String
  pub finished_at : Option ℕ

abbrev pub outcome : Job → Outcome
outcome j = record {
  status = j.status;
  text = j.text;
  segments = j.segments;
  result_path = j.result_path;
  error = j.error;
  finished_at = j.finished_at;
}

-- The job that is read under an ID has the outcome.
abbrev pub Shows : String → Outcome → List Job → Type 0
Shows id o jobs = Option.map outcome (Table.find (has_id id) jobs) ≡ some o

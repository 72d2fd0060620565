-- ===== src/Storage/Requests.antt =====
-- What the row of a job keeps of the upload that reserve_upload of whisper/storage.py made it for.
pub mod Runs
use mathlib.Core.Option
use transcriber.Prelude.{
  ◌≡◌, ap, ◌∙◌, Bool, true, String, Option, some, List, ◌++◌, Bool-cases, Option-cases, inl, inr,
}
use transcriber.Prelude.Table
use transcriber.Prelude.Table.{Update}
use transcriber.Prelude.Table.Laws.{find-update}
use transcriber.Prelude.Table.Rows.{find-append}
use transcriber.Storage.Schema.{Job}
use transcriber.Storage.Statements.Jobs.{has_id}

-- The keys of a row, the columns that `reserve_upload` compares and the path of the audio.
pub record Request : Type 0 where
  pub job_id : String
  pub request_id : String
  pub format : String
  pub preset : String
  pub language_override : String
  pub initial_prompt_override : String
  pub input_path : String
  pub retain_until_ack : Bool

abbrev pub request_of : Job → Request
request_of j = record {
  job_id = j.job_id;
  request_id = j.request_id;
  format = j.format;
  preset = j.preset;
  language_override = j.language_override;
  initial_prompt_override = j.initial_prompt_override;
  input_path = j.input_path;
  retain_until_ack = j.retain_until_ack;
}

-- The job that is read under an ID was made for the request.
abbrev pub IsFor : String → Request → List Job → Type 0
IsFor id r jobs = Option.map request_of (Table.find (has_id id) jobs) ≡ some r

pub update-IsFor :
    (id : String) (r : Request) (p : Job → Bool) (set : Job → Job) (jobs : List Job)
    → ((j : Job) → request_of (set j) ≡ request_of j)
    → IsFor id r jobs
    → IsFor id r (Table.update p set jobs)
update-IsFor id r p set jobs same h =
    rw (find-update (has_id id) p set jobs (λ j. rw (ap (λ (x : Request). x.job_id) (same j))))
      (elim (Option-cases (Table.find (has_id id) jobs)) [
        | inl absent ↦ cc
        | inr (k, found) ↦ rw found (elim (Bool-cases (p k)) [
          | inl sel ↦ rw sel (ap some (same k) ∙ rw found at h)
          | inr other ↦ rw other (rw found at h)
        ])
      ])

pub append-IsFor :
    (id : String) (r : Request) (xs ys : List Job) → IsFor id r xs → IsFor id r (xs ++ ys)
append-IsFor id r xs ys h = elim (Option-cases (Table.find (has_id id) xs)) [
  | inl absent ↦ cc
  | inr (k, found) ↦ rw (find-append (has_id id) xs ys found) (rw found at h)
]

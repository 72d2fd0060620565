-- ===== src/Storage/Finality/Rows.antt =====
-- Each statement leaves the result of a finished row alone.
use transcriber.Prelude.{
  ℕ, ◌≡◌, refl, ap, ◌∙◌, Bool, true, String, List, arith, Bool-cases, Option-cases, some, inl, inr,
}
use transcriber.Prelude.Table
use transcriber.Prelude.Table.{Update}
use transcriber.Prelude.Table.Laws.{find-update}
use transcriber.Storage.Schema.{Job, Segment, Clock, downloading, is_terminal}
use transcriber.Storage.Statements.Jobs
use transcriber.Storage.Statements.Jobs.{has_id}
use transcriber.Storage.Statements.Outbox
use transcriber.Storage.Finality.{Outcome, outcome, Shows}

-- The statement leaves the outcome of a finished row, and the keys of the table.
pub record Settles (u : Update Job) : Type 0 where
  pub outcomes :
      (j : Job) → u.rows j ≡ true → is_terminal j.status ≡ true → outcome (u.set j) ≡ outcome j
  pub ids : (j : Job) → (u.set j).job_id ≡ j.job_id

pub execute-Shows :
    (u : Update Job) (jobs : List Job) (id : String) (o : Outcome)
    → Settles u
    → is_terminal o.status ≡ true
    → Shows id o jobs
    → Shows id o (Table.execute u jobs)
execute-Shows u jobs id o settles terminal h =
    rw (find-update (has_id id) u.rows u.set jobs (λ j. rw (settles.ids j)))
      (elim (Option-cases (Table.find (has_id id) jobs)) [
        | inl absent ↦ cc
        | inr (k, found) ↦ rw found (elim (Bool-cases (u.rows k)) [
          | inl sel ↦
              let same : outcome k ≡ o = cc (rw found at h) in
              let ended : is_terminal k.status ≡ true =
                rw (ap (λ (x : Outcome). x.status) same) terminal in
              rw sel (ap some (settles.outcomes k sel ended ∙ same))
          | inr other ↦ rw other (rw found at h)
        ])
      ])

pub downloading-Settles :
    (clock : Clock) (id : String) → Settles (Jobs.set_status clock id downloading)
unfolding Jobs.set_status
downloading-Settles clock id = record { outcomes = λ j sel terminal. ground arith; ids = λ j. refl }

pub queue-Settles : (clock : Clock) (id : String) → Settles (Jobs.queue clock id)
unfolding Jobs.queue
queue-Settles clock id = record { outcomes = λ j sel terminal. ground arith; ids = λ j. refl }

pub interrupted-Settles : (clock : Clock) (id : String) → Settles (Jobs.upload_interrupted clock id)
unfolding Jobs.upload_interrupted
interrupted-Settles clock id = record { outcomes = λ j sel terminal. ground arith; ids = λ j. refl }

pub ack-Settles : (clock : Clock) (id : String) → Settles (Jobs.ack clock id)
unfolding Jobs.ack
ack-Settles clock id = record { outcomes = λ j sel terminal. ground arith; ids = λ j. refl }

pub cancel-Settles : (clock : Clock) (id : String) → Settles (Jobs.cancel clock id)
unfolding Jobs.cancel
cancel-Settles clock id = record { outcomes = λ j sel terminal. ground arith; ids = λ j. refl }

pub heartbeat-Settles :
    (clock : Clock) (secs progress : ℕ) (id owner : String)
    → Settles (Jobs.heartbeat clock secs progress id owner)
unfolding Jobs.heartbeat
heartbeat-Settles clock secs progress id owner = record {
  outcomes = λ j sel terminal. ground arith;
  ids = λ j. refl;
}

pub complete-Settles :
    (clock : Clock) (text : String) (segments : List Segment) (path id owner : String)
    → Settles (Jobs.complete clock text segments path id owner)
unfolding Jobs.complete
complete-Settles clock text segments path id owner = record {
  outcomes = λ j sel terminal. ground arith;
  ids = λ j. refl;
}

pub fail-Settles :
    (clock : Clock) (retryable : Bool) (error id owner : String)
    → Settles (Jobs.fail clock retryable error id owner)
unfolding Jobs.fail
fail-Settles clock retryable error id owner = record {
  outcomes = λ j sel terminal. ground arith;
  ids = λ j. refl;
}

pub reap-Settles : (clock : Clock) → Settles (Jobs.reap clock)
unfolding Jobs.reap
reap-Settles clock = record { outcomes = λ j sel terminal. ground arith; ids = λ j. refl }

pub dispatch-Settles : (message id : String) → Settles (Outbox.dispatch message id)
unfolding Outbox.dispatch
dispatch-Settles message id = record { outcomes = λ j sel terminal. ground arith; ids = λ j. refl }

pub reconcile-Settles : (clock : Clock) → Settles (Outbox.broker_reconcile clock)
unfolding Outbox.broker_reconcile
reconcile-Settles clock = record { outcomes = λ j sel terminal. ground arith; ids = λ j. refl }

pub seed-Settles : (uuid : String → String) → Settles (Outbox.broker_seed uuid)
unfolding Outbox.broker_seed
seed-Settles uuid = record { outcomes = λ j sel terminal. ground arith; ids = λ j. refl }

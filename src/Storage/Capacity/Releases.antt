-- ===== src/Storage/Capacity/Releases.antt =====
-- The statements that start no attempt make no row live that was not.
use transcriber.Prelude.{
  ℕ, ◌≤◌, ◌≡◌, refl, Bool, true, false, String, List, [], ◌∷◌, ◌++◌, arith, &&-cases,
}
use transcriber.Prelude.Table
use transcriber.Prelude.Table.{Update}
use transcriber.Prelude.Table.Laws.{count-update_le, count_mono, count-select_le, count-append}
use transcriber.Storage.Schema.{Job, Segment, Clock, Settings, downloading, is_running}
use transcriber.Storage.Statements.Jobs
use transcriber.Storage.Statements.Claims.{is_active, is_active_slot}
use transcriber.Storage.Statements.Outbox
use transcriber.Storage.Capacity.{IsWithin}

-- A row that is live at t after the statement was so before, in the same slot.
abbrev pub Releases : ℕ → Update Job → Type 0
Releases t u =
    (worker : String) (j : Job)
    → u.rows j ≡ true
    → is_active t worker (u.set j) ≡ true
    → (is_active t worker j ≡ true) × ((u.set j).assigned_instance_id ≡ j.assigned_instance_id)

pub is_active_antitone :
    (t t' : ℕ) (worker : String) (j : Job)
    → t ≤ t'
    → is_active t' worker j ≡ true
    → is_active t worker j ≡ true
is_active_antitone t t' worker j le h = ground arith

-- Live attempts only end as time passes.
pub IsWithin-later :
    {settings : Settings} (t t' : ℕ) (jobs : List Job)
    → t ≤ t'
    → IsWithin settings t jobs
    → IsWithin settings t' jobs
IsWithin-later t t' jobs le h = record {
  pools = λ w p e. omega (
    arith,
    h.pools w p e,
    count_mono (is_active t' w) (is_active t w) jobs (λ j. is_active_antitone t t' w j le),
  );
  slots = λ w i. omega (
    arith,
    h.slots w i,
    count_mono (is_active_slot t' w i) (is_active_slot t w i) jobs
        (λ j live. ground (arith, is_active_antitone t t' w j le)),
  );
}

still_in_slot :
    (t : ℕ) (worker instance : String) (u : Update Job) (j : Job)
    → (is_active t worker (u.set j) ≡ true
        → (is_active t worker j ≡ true) × ((u.set j).assigned_instance_id ≡ j.assigned_instance_id))
    → is_active_slot t worker instance (u.set j) ≡ true
    → is_active_slot t worker instance j ≡ true
still_in_slot t worker instance u j rel live =
    let (now, there) = &&-cases (is_active t worker (u.set j)) _ live in
    let (old, same) = rel now in rw old (rw (← same) there)

pub execute-IsWithin :
    {settings : Settings} (t : ℕ) (u : Update Job) (jobs : List Job)
    → Releases t u
    → IsWithin settings t jobs
    → IsWithin settings t (Table.execute u jobs)
execute-IsWithin t u jobs rel h = record {
  pools = λ w p e. omega (
    arith,
    h.pools w p e,
    count-update_le (is_active t w) u.rows u.set jobs (λ j sel live. (rel w j sel live).0),
  );
  slots = λ w i. omega (
    arith,
    h.slots w i,
    count-update_le (is_active_slot t w i) u.rows u.set jobs
        (λ j sel live. still_in_slot t w i u j (rel w j sel) live),
  );
}

pub select-IsWithin :
    {settings : Settings} (t : ℕ) (p : Job → Bool) (jobs : List Job)
    → IsWithin settings t jobs
    → IsWithin settings t (Table.select p jobs)
select-IsWithin t p jobs h = record {
  pools = λ w q e. omega (arith, h.pools w q e, count-select_le (is_active t w) p jobs);
  slots = λ w i. omega (arith, h.slots w i, count-select_le (is_active_slot t w i) p jobs);
}

pub insert-IsWithin :
    {settings : Settings} (t : ℕ) (jobs : List Job) (j : Job)
    → is_running j.status ≡ false
    → IsWithin settings t jobs
    → IsWithin settings t (jobs ++ j ∷ [])
unfolding Table.count
insert-IsWithin t jobs j idle h = record {
  pools = λ w q e. rw count-append (rw idle (omega (arith, h.pools w q e)));
  slots = λ w i. rw count-append (rw idle (omega (arith, h.slots w i)));
}

pub downloading-Releases :
    (t : ℕ) (clock : Clock) (id : String) → Releases t (Jobs.set_status clock id downloading)
unfolding Jobs.set_status
downloading-Releases t clock id w j sel live = ground arith

pub queue-Releases : (t : ℕ) (clock : Clock) (id : String) → Releases t (Jobs.queue clock id)
unfolding Jobs.queue
queue-Releases t clock id w j sel live = ground arith

pub interrupted-Releases :
    (t : ℕ) (clock : Clock) (id : String) → Releases t (Jobs.upload_interrupted clock id)
unfolding Jobs.upload_interrupted
interrupted-Releases t clock id w j sel live = (live, refl)

pub ack-Releases : (t : ℕ) (clock : Clock) (id : String) → Releases t (Jobs.ack clock id)
unfolding Jobs.ack
ack-Releases t clock id w j sel live = (live, refl)

pub cancel-Releases : (t : ℕ) (clock : Clock) (id : String) → Releases t (Jobs.cancel clock id)
unfolding Jobs.cancel
cancel-Releases t clock id w j sel live = ground arith

pub complete-Releases :
    (t : ℕ) (clock : Clock) (text : String) (segments : List Segment) (path id owner : String)
    → Releases t (Jobs.complete clock text segments path id owner)
unfolding Jobs.complete
complete-Releases t clock text segments path id owner w j sel live = ground arith

pub fail-Releases :
    (t : ℕ) (clock : Clock) (retryable : Bool) (error id owner : String)
    → Releases t (Jobs.fail clock retryable error id owner)
unfolding Jobs.fail
fail-Releases t clock retryable error id owner w j sel live = ground arith

pub reap-Releases : (t : ℕ) (clock : Clock) → Releases t (Jobs.reap clock)
unfolding Jobs.reap
reap-Releases t clock w j sel live = ground arith

pub dispatch-Releases : (t : ℕ) (message id : String) → Releases t (Outbox.dispatch message id)
unfolding Outbox.dispatch
dispatch-Releases t message id w j sel live = (live, refl)

pub reconcile-Releases : (t : ℕ) (clock : Clock) → Releases t (Outbox.broker_reconcile clock)
unfolding Outbox.broker_reconcile
reconcile-Releases t clock w j sel live = (live, refl)

pub seed-Releases : (t : ℕ) (uuid : String → String) → Releases t (Outbox.broker_seed uuid)
unfolding Outbox.broker_seed
seed-Releases t uuid w j sel live = (live, refl)

-- A renewal is accepted only while the lease is live, by the same reading of the clock.
pub heartbeat-Releases :
    (clock : Clock) (secs progress : ℕ) (id owner : String)
    → Releases clock.wall (Jobs.heartbeat clock secs progress id owner)
unfolding Jobs.heartbeat
heartbeat-Releases clock secs progress id owner w j sel live = ground arith

-- ===== src/Storage/Statements/Outbox.antt =====
-- The statements on transcription_outbox, and dispatch.sql, which ties a job to its message.
use Prim.Native.Nat.{Ordering}
use Prim.Native.String.{compare}
use transcriber.Prelude.{
  ℕ, ◌+◌, Bool, true, false, ◌&&◌, ◌||◌, not, String, Option, none, some, List, [], ◌∷◌, ◌++◌, ◌==◌,
  map, ltb, leb, eqb, is_some,
}
use transcriber.Prelude.Table
use transcriber.Prelude.Table.{Update}
use transcriber.Storage.Schema.{
  Job, Message, Clock, seconds, is_waiting, is_queued, is_running, null_or_before,
}
use transcriber.Storage.Statements.Jobs.{has_id}

-- dispatch.sql
unfoldable pub dispatch : String → String → Update Job
dispatch message id = record { rows = has_id id; set = λ j. record j { dispatch_id = message } }

-- outbox_insert.sql
unfoldable pub outbox_insert : Clock → String → String → ℕ → List Message → List Message
outbox_insert clock message id delay outbox =
    outbox
    ++ record {
      message_id = message;
      job_id = id;
      available_at = clock.wall + seconds delay;
      published_at = none;
    }
      ∷ []

-- ORDER BY available_at, message_id
abbrev pub due_first : Message → Message → Bool
due_first x y =
    ltb x.available_at y.available_at
    || (eqb x.available_at y.available_at
        && elim (compare x.message_id y.message_id) [ Ordering.lt ↦ true | _ ↦ false ])

abbrev pub is_due : ℕ → Message → Bool
is_due t m = not (is_some m.published_at) && leb m.available_at t

-- outbox_next.sql; `locked` are the rows that SKIP LOCKED passes over
unfoldable pub outbox_next : Clock → (String → Bool) → List Message → Option Message
outbox_next clock locked =
    Table.first_by due_first (λ m. is_due clock.wall m && not (locked m.message_id))

-- outbox_published.sql
unfoldable pub outbox_published : Clock → String → Update Message
outbox_published clock message = record {
  rows = λ m. m.message_id == message;
  set = λ m. record m { published_at = some clock.now };
}

-- broker_reconcile.sql
unfoldable pub broker_reconcile : Clock → Update Job
broker_reconcile clock = record {
  rows = λ j.
      is_queued j.status || (is_running j.status && null_or_before j.lease_expires_at clock.wall);
  set = λ j. record j { dispatch_id = "" };
}

abbrev pub is_adopted : Job → Bool
is_adopted j = is_waiting j.status && j.dispatch_id == ""

-- broker_seed.sql: its UPDATE, with the UUID that it draws for each job, and its INSERT
unfoldable pub broker_seed : (String → String) → Update Job
broker_seed uuid = record { rows = is_adopted; set = λ j. record j { dispatch_id = uuid j.job_id } }

abbrev pub seed_message : (String → String) → Job → Message
seed_message uuid j = record {
  message_id = uuid j.job_id;
  job_id = j.job_id;
  available_at = j.created_at;
  published_at = none;
}

unfoldable pub seed_outbox : (String → String) → List Job → List Message → List Message
seed_outbox uuid jobs outbox = outbox ++ map (seed_message uuid) (Table.select is_adopted jobs)

-- ===== src/Broker/Envelope.antt =====
-- A task's envelope of whisper/broker.py from the outbox to the consumer.
use transcriber.Prelude.{ℕ, ◌≤◌, ◌≡◌, true, String, Option, some, arith, ==_refl}
use transcriber.WorkerApi.Claims.{is_uuid}
use transcriber.Config.{Json, lookup}
use transcriber.Broker
use transcriber.Broker.{envelope, delivery, task_message, read_envelope}

-- What the json module does with an envelope: `loads` reads what `dumps` writes, and an envelope of
-- two canonical UUIDs takes no more than 1024 bytes.
pub record IsJson {Body : Type 0} (size : Body → ℕ) (loads : Body → Option Json)
    (dumps : Json → Body) : Type 0 where
  pub reads : (value : Json) → loads (dumps value) ≡ some value
  pub is_small :
      (job message : String)
      → is_uuid job ≡ true
      → is_uuid message ≡ true
      → size (dumps (envelope job message)) ≤ 1024

-- What the outbox publishes for a job and a message with canonical UUIDs, a consumer reads as that
-- job and that message.
pub delivery-task_message :
    {Body : Type 0} (size : Body → ℕ) (loads : Body → Option Json) (dumps : Json → Body)
    (job message : String)
    → IsJson size loads dumps
    → is_uuid job ≡ true
    → is_uuid message ≡ true
    → delivery size loads (task_message dumps job message)
      ≡ some (record { job_id = job; message_id = message })
unfolding delivery read_envelope lookup Broker.are_envelope_keys
delivery-task_message size loads dumps job message json is_job is_message = ground (
  arith,
  json.reads (envelope job message),
  json.is_small job message is_job is_message,
  ==_refl message,
  is_job,
  is_message,
)

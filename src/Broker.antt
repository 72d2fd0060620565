-- ===== src/Broker.antt =====
-- whisper/broker.py: the connection file, the task's envelope, and the slot that consumes tasks.
pub mod Envelope
pub mod Consumer
pub mod Connection
mod Tests
use Prim.Native.String.{count}
use transcriber.Prelude.{
  ℕ, Bool, true, false, ◌&&◌, ◌||◌, not, String, Option, none, some, List, [], ◌∷◌, ◌==◌, ltb, leb,
  eqb, is_some, if◌then◌else◌,
}
use transcriber.WorkerAuth.{all_codes, between, is_worker_id}
use transcriber.WorkerApi.Claims.{is_uuid}
use transcriber.Config.{
  Json, Fields, Integer, no_fields, field, object, int, text, flag, natural, lookup, within,
}
use transcriber.RemoteWorker.{Settlement, settled, busy, unsettled}

-- The part of a task's envelope that the worker reads.
pub record DeliveryTask : Type 0 where
  pub job_id : String
  pub message_id : String

-- The value that `_publish` dumps.
abbrev pub envelope : String → String → Json
envelope job_id message_id = object (
    field "version" (int (natural 1))
      (field "job_id" (text job_id) (field "message_id" (text message_id) no_fields)))

-- `set(value) == {"version", "job_id", "message_id"}`, for the members of an object
unfoldable pub are_envelope_keys : Fields → Bool
are_envelope_keys no_fields = true
are_envelope_keys (field name value rest) =
    (name == "version" || (name == "job_id" || name == "message_id")) && are_envelope_keys rest

-- `type(version) is int and version == 1`
abbrev pub is_version : Option Json → Bool
is_version (some (int (natural n))) = eqb n 1
is_version _ = false

-- `value[name]` where it is `str(uuid.UUID(value[name]))`
abbrev pub uuid_field : Option Json → Option String
uuid_field (some (text value)) = if is_uuid value then some value else none
uuid_field _ = none

-- The checks of `delivery` on the value; `none` is its ValueError.
unfoldable pub read_envelope : String → Json → Option DeliveryTask
unfolding lookup are_envelope_keys
read_envelope message_id (object fields) =
    if are_envelope_keys fields && is_version (lookup "version" fields)
    then elim (uuid_field (lookup "job_id" fields)) [
      | none ↦ none
      | some job ↦ elim (uuid_field (lookup "message_id" fields)) [
        | none ↦ none
        | some message ↦
            if message == message_id
            then some (record { job_id = job; message_id = message })
            else none
      ]
    ]
    else none
read_envelope message_id _ = none

-- A message of the broker, with a body of bytes.
pub record Message (Body : Type 0) : Type 0 where
  pub body : Body
  pub message_id : String

module _ {Body : Type 0} (size : Body → ℕ) (loads : Body → Option Json) where
  -- `delivery`
  unfoldable pub delivery : Message Body → Option DeliveryTask
  unfolding read_envelope
  delivery message = if ltb 1024 (size message.body) then none else elim (loads message.body) [
    | none ↦ none
    | some value ↦ read_envelope message.message_id value
  ]

-- What `_publish` publishes.
abbrev pub task_message : {Body : Type 0} → (Json → Body) → String → String → Message Body
task_message dumps job_id message_id = record {
  body = dumps (envelope job_id message_id);
  message_id = message_id;
}

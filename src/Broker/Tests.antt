-- ===== src/Broker/Tests.antt =====
-- A task through the broker, with JSON values for bodies, and a connection file.
use transcriber.Prelude.{ℕ, ◌≡◌, ◌⊎◌, refl, true, false, String, Option, some, [], ◌∷◌, inl, arith}
use transcriber.Prelude.Table.Keys.{In}
use transcriber.WorkerAuth
use transcriber.WorkerApi.Claims
use transcriber.WorkerApi.Claims.{is_uuid}
use transcriber.Config
use transcriber.Config.{Json, Fields, field, no_fields, object, int, text, flag, natural}
use transcriber.RemoteWorker.{settled}
use transcriber.Broker
use transcriber.Broker.{Message, delivery, task_message}
use transcriber.Broker.Envelope.{IsJson, delivery-task_message}
use transcriber.Broker.Consumer
use transcriber.Broker.Consumer.{Flags, Turn, Queues, Holds, consume}
use transcriber.Broker.Consumer.Kept.{consume-Holds, consume-IsSettled, IsSettled}
use transcriber.Broker.Connection
use transcriber.Broker.Connection.{BrokerConfig, from_file, from_file-IsConfined, IsConfined}

abbrev size : Json → ℕ
size body = 0

abbrev loads : Json → Option Json
loads body = some body

abbrev dumps : Json → Json
dumps value = value

abbrev job_id : String
job_id = "0a1b2c3d-0000-4000-8000-000000000001"

abbrev message_id : String
message_id = "0a1b2c3d-0000-4000-8000-000000000002"

faithful : IsJson size loads dumps
faithful = record { reads = λ value. refl; is_small = λ job message j m. omega arith }

job_id-uuid : is_uuid job_id ≡ true
unfolding Claims.is_uuid_at
job_id-uuid = refl

message_id-uuid : is_uuid message_id ≡ true
unfolding Claims.is_uuid_at
message_id-uuid = refl

delivery-task_message_example :
    delivery size loads (task_message dumps job_id message_id)
    ≡ some (record { job_id = job_id; message_id = message_id })
delivery-task_message_example =
    delivery-task_message size loads dumps job_id message_id faithful job_id-uuid message_id-uuid

abbrev flags : Flags
flags = record { stop = false; drain = false; available = true; admitted = true }

abbrev turn : Turn
turn = record {
  before = flags;
  is_stale = false;
  arrives = true;
  taken = flags;
  disposition = λ task. settled;
  is_stopped = false;
  is_closed = false;
  is_published = true;
  is_confirmed = true;
}

abbrev task : Message Json
task = task_message dumps job_id message_id

abbrev malformed : Message Json
malformed = record { body = text "task"; message_id = message_id }

abbrev queues : Queues Json
queues = record { jobs = malformed ∷ task ∷ []; retry = []; dead = []; done = [] }

consumed :
    consume size loads (turn ∷ turn ∷ turn ∷ []) queues
    ≡ record { jobs = []; retry = []; dead = malformed ∷ []; done = task ∷ [] }
unfolding consume Consumer.turn_once Consumer.await_message Consumer.take Consumer.settle delivery
    Broker.read_envelope Broker.are_envelope_keys Config.lookup Claims.is_uuid_at
consumed = refl

consume-Holds_example : Holds size loads malformed (consume size loads (turn ∷ turn ∷ []) queues)
consume-Holds_example =
    consume-Holds size loads (turn ∷ turn ∷ []) malformed queues (inl (inl refl))

task_done : In task (consume size loads (turn ∷ turn ∷ []) queues).done
unfolding consume Consumer.turn_once Consumer.await_message Consumer.take Consumer.settle delivery
    Broker.read_envelope Broker.are_envelope_keys Config.lookup Claims.is_uuid_at
task_done = inl refl

consume-IsSettled_example : ⊥ ⊎ IsSettled size loads (turn ∷ turn ∷ []) task
consume-IsSettled_example = consume-IsSettled size loads (turn ∷ turn ∷ []) task queues task_done

abbrev password : String
password = "0123456789abcdef0123456789abcdef"

abbrev file : Json
file = object (
    field "host" (text "rabbit.example") (
      field "port" (int (natural 5671)) (
        field "virtual_host" (text "/")
          (field "username" (text "gpu-1") (field "password" (text password) no_fields)))))

abbrev config : BrokerConfig
config = record {
  host = "rabbit.example";
  port = 5671;
  virtual_host = "/";
  username = "gpu-1";
  password = password;
  tls = true;
  ca_file = "";
  namespace = "transcriber";
}

accepted : from_file size loads (λ host. false) "" file ≡ some config
unfolding from_file Connection.from_json Connection.are_config_keys Connection.read_fields
    Connection.check_config Connection.is_config Config.lookup WorkerAuth.all_codes
    WorkerAuth.is_worker_id
accepted = refl

from_file-IsConfined_example : IsConfined size loads (λ host. false) config
from_file-IsConfined_example =
    from_file-IsConfined size loads (λ host. false) "" file config accepted

-- ===== src/RemoteWorker/Tests.antt =====
-- A slot that completes the sample job, its heartbeats and its deliveries, and a pool of two slots.
use transcriber.Prelude.{
  ℕ, ◌≡◌, ◌≤◌, ◌⊎◌, refl, Bool, true, false, String, Option, none, some, List, [], ◌∷◌, inl, inr,
}
use transcriber.Prelude.Results.{Result, ok}
use transcriber.Prelude.Table
use transcriber.WorkerAuth
use transcriber.WorkerApi
use transcriber.WorkerApi.{CompleteRequest}
use transcriber.WorkerApi.Claims.{ClaimResponse, AvailabilityResponse}
use transcriber.WorkerApi.Samples.{sha256, hashes, metadata, db, db-IsValid, spoken, clock}
use transcriber.Storage.Attempts
use transcriber.Storage.Statements.Jobs
use transcriber.Ingress
use transcriber.Ingress.{StatusResponse, wire_done}
use transcriber.RemoteWorker
use transcriber.RemoteWorker.{
  Transcription, Stub, Task, Call, piece, completion, process, Turn, keep_lease, BeginReply,
  process_delivery, settled,
}
use transcriber.RemoteWorker.Reports.{
  report_count, IsCompleted, IsFailed, process_reports_once, process-accepted,
}
use transcriber.RemoteWorker.EndToEnd.{coordinator, process-get_status}
use transcriber.RemoteWorker.Leases.{IsPaced, keep_lease-IsPaced, process_delivery-settled}
use transcriber.RemoteWorker.Slots
use transcriber.RemoteWorker.Slots.{Slot, Replies, report_turn}
use transcriber.RemoteWorker.Slots.Reported.{
  Event, report, mark, signal, after, last_report, health-last_report,
}

abbrev claim : ClaimResponse
claim = record {
  job_id = "j1";
  lease_token = "gpu-1/u1";
  lease_seconds = 900;
  format = "wav";
  preset = "auto";
  language = "";
  initial_prompt = "";
  input_size = 300;
  traceparent = "";
  tracestate = "";
}

abbrev transcription : Transcription
transcription = record { text = "words"; segments = spoken ∷ []; byte_size = 100 }

abbrev task : Task
task = record {
  stop_at_start = false;
  stream = piece 100 false ∷ piece 200 false ∷ [];
  halted_before = false;
  inference = ok transcription;
  halted_after = false;
  halted_at_fail = false;
}

abbrev stub : Stub
stub = coordinator sha256 hashes metadata clock db

processed : (process stub 1000 claim task).1 ≡ true
unfolding process RemoteWorker.process_claim RemoteWorker.transcribe_input
    RemoteWorker.report_result RemoteWorker.conclude_task RemoteWorker.read_stream
    WorkerApi.complete WorkerApi.authenticate_lease WorkerApi.stored_segments
    WorkerAuth.authenticate WorkerAuth.identify WorkerAuth.all_codes Attempts.complete_job
    Jobs.complete Table.count Table.update
processed = refl

process_reports_once_example : report_count (process stub 1000 claim task).0 ≤ 1
process_reports_once_example = process_reports_once stub 1000 claim task

process-accepted_example :
    IsCompleted stub 1000 claim task (process stub 1000 claim task).0
    ⊎ IsFailed stub 1000 claim task (process stub 1000 claim task).0
process-accepted_example = process-accepted stub 1000 claim task processed

process-get_status_example :
    (t : Transcription) × (◌≡◌ {A = Result RemoteWorker.TaskError Transcription}
      (ok transcription)
      (ok t))
    × (r : StatusResponse) × (Ingress.get_status "j1"
          (WorkerApi.complete sha256 hashes metadata clock (completion claim t) db).0
        ≡ ok r)
    × (r.status ≡ wire_done)
    × (r.text ≡ t.text)
process-get_status_example =
    process-get_status sha256 hashes metadata clock db 1000 claim task db-IsValid processed

abbrev turn_at : ℕ → Turn
turn_at t = record { checked = t; halting = false; lag = 1; reply = some true; elapsed = 2 }

keep_lease-IsPaced_example :
    IsPaced 1000 30 0
      (keep_lease 1000 30 0 (turn_at 1 ∷ turn_at 20 ∷ turn_at 40 ∷ turn_at 1000 ∷ [])).1
keep_lease-IsPaced_example =
    keep_lease-IsPaced 1000 30 0 (turn_at 1 ∷ turn_at 20 ∷ turn_at 40 ∷ turn_at 1000 ∷ [])

abbrev begun : BeginReply
begun = record { disposition = "started"; job = claim }

delivered : (process_delivery (λ c. ([], true)) none false (some begun)).1.1 ≡ settled
unfolding process_delivery RemoteWorker.begin_delivery RemoteWorker.settle_delivery
delivered = refl

process_delivery-settled_example :
    ((process_delivery (λ c. ([], true)) none false (some begun)).0 ≤ 2)
    × (response : BeginReply) × ((◌≡◌ {A = Option BeginReply} none (some response))
        ⊎ ((◌≡◌ {A = Option BeginReply} none none)
            × (◌≡◌ {A = Bool} false false)
            × (some begun ≡ some response)))
    × ((response.disposition ≡ "discard")
        ⊎ ((response.disposition ≡ "started") × (◌≡◌ {A = Bool} true true)))
process_delivery-settled_example =
    process_delivery-settled (λ c. ([], true)) none false (some begun) delivered

abbrev slot : Slot
slot = record {
  is_stopped = false;
  is_drained = false;
  is_available = false;
  broker_connected = true;
  broker_admitted = false;
  broker_priority = 0;
  health = false;
}

abbrev response : AvailabilityResponse
response = record { accepted = true; ttl_seconds = 90 }

abbrev replies : Replies
replies = record {
  availability = some response;
  consumer = some (record { admitted = true; priority = 10 });
}

healthy : (report_turn true false replies replies slot).health ≡ true
unfolding report_turn Slots.report_availability Slots.register
healthy = refl

abbrev slots : List String
slots = "a" ∷ "b" ∷ []

abbrev events : List Event
events = mark "a" false ∷ report "a" true ∷ signal false false ∷ report "b" false ∷ []

all_ready : (after slots (report "b" true ∷ events)).health_file ≡ true
unfolding after Slots.health Slots.mark_drained Slots.add Slots.discard Table.exists Table.select
all_ready = refl

health-last_report_example :
    (last_report "a" (report "b" true ∷ events) ≡ true)
    × ((after slots events).is_stopped ≡ false)
    × ((after slots events).is_draining ≡ false)
health-last_report_example =
    health-last_report slots events "b" "a" true
      (inr (inl refl), (inl refl, (inl refl, (inr (inl refl), tt)))) (inl refl) all_ready

-- ===== src/RemoteWorker/Slots.antt =====
-- The execution slots of whisper/remote_worker.py: what each tells the coordinator, and the pool
-- that they share.
pub mod Reported
pub mod Turns
use transcriber.Prelude.{
  ℕ, min, Bool, true, false, ◌&&◌, ◌||◌, not, String, Option, none, some, List, [], ◌∷◌, ◌==◌, ltb,
  eqb, length, if◌then◌else◌,
}
use transcriber.Prelude.Results.{Result, ok, err}
use transcriber.Prelude.Table
use transcriber.WorkerApi.Claims.{ConsumerResponse, AvailabilityResponse}

-- A slot's flags, and what it last reported of its health.
pub record Slot : Type 0 where
  pub is_stopped : Bool
  pub is_drained : Bool
  pub is_available : Bool
  pub broker_connected : Bool
  pub broker_admitted : Bool
  pub broker_priority : ℕ
  pub health : Bool

-- The replies to the two requests of `_report_availability`; `none` is any exception.
pub record Replies : Type 0 where
  pub availability : Option AvailabilityResponse
  pub consumer : Option ConsumerResponse

-- `raise ValueError("Coordinator rejected worker availability")`, or what an RPC raises
pub data ReportError : Type 0 where
  not_reported : ReportError

-- The `ready` that `_report_availability` sends.
abbrev pub sent_ready : Bool → Slot → Bool
sent_ready ready slot = ready && (not slot.is_drained && not slot.is_stopped)

-- The call of RegisterConsumer.
unfoldable pub register : Bool → Bool → Option ConsumerResponse → Slot → Option Slot
register broker ready consumer slot =
    if ready && broker
    then elim consumer [
      | none ↦ none
      | some c ↦ some (record slot { broker_admitted = c.admitted; broker_priority = c.priority })
    ]
    else some slot

-- The report of the slot's health.
abbrev pub report_health : Bool → Bool → Slot → Slot
report_health broker ready slot = record slot {
  health = ready && (not broker || (slot.broker_connected && slot.broker_admitted));
}

-- `_report_availability`, where a broker is configured or not: the interval is in thirds of a second
unfoldable pub report_availability : Bool → Bool → Replies → Slot → Slot × Result ReportError ℕ
unfolding register
report_availability broker ready replies slot =
    let send = sent_ready ready slot in
    elim replies.availability [
      | none ↦ (slot, err not_reported)
      | some response ↦
          if not response.accepted || ltb response.ttl_seconds 30
          then (slot, err not_reported)
          else elim (register broker send replies.consumer slot) [
            | none ↦ (slot, err not_reported)
            | some slot' ↦ (report_health broker send slot', ok (min 60 response.ttl_seconds))
          ]
    ]

abbrev pub withdraw : Slot → Slot
withdraw slot = record slot { is_available = false; health = false }

-- A turn of `_report_availability_loop`: whether the slot is drained during its first request, and
-- the replies to both.
unfoldable pub report_turn : Bool → Bool → Replies → Replies → Slot → Slot
unfolding report_availability
report_turn broker drains first second slot =
    if slot.is_drained
    then slot
    else (let (reported, outcome) = report_availability broker true first slot in
        let after = record reported { is_drained = drains } in
        let (withdrawn, again) = report_availability broker false second after in
        elim outcome [
          | err e ↦ withdraw after
          | ok interval ↦
              if drains
              then elim again [ err e ↦ withdraw withdrawn | ok interval ↦ withdrawn ]
              else record after { is_available = true }
        ])

-- `RemoteWorkerPool`: the sets of slots, and the two files of the process.
pub record Pool : Type 0 where
  pub workers : List String
  pub ready : List String
  pub drained : List String
  pub is_stopped : Bool
  pub is_draining : Bool
  pub health_file : Bool
  pub drain_file : Bool

abbrev pub is_in : List String → String → Bool
is_in ids id = Table.exists (λ x. x == id) ids

-- `add` and `discard` of a set
unfoldable pub add : String → List String → List String
add id ids = if is_in ids id then ids else id ∷ ids

unfoldable pub discard : String → List String → List String
discard id ids = Table.select (λ x. not (x == id)) ids

abbrev pub put : Bool → String → List String → List String
put member id ids = if member then add id ids else discard id ids

-- `health`
unfoldable pub health : String → Bool → Pool → Pool
unfolding add discard
health instance_id ready pool =
    let ids = put ready instance_id pool.ready in
    record pool {
      ready = ids;
      health_file =
          eqb (length ids) (length pool.workers) && (not pool.is_stopped && not pool.is_draining);
    }

-- `mark_drained`
unfoldable pub mark_drained : String → Bool → Pool → Pool
unfolding add discard
mark_drained instance_id drained pool =
    let ids = put drained instance_id pool.drained in
    record pool {
      drained = ids;
      drain_file = eqb (length ids) (length pool.workers) && pool.is_draining;
    }

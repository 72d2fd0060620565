-- ===== src/RemoteWorker/Slots/Turns.antt =====
-- When a slot of whisper/remote_worker.py reports that it is healthy.
use transcriber.Prelude.{◌≤◌, ◌≡◌, ◌⊎◌, Bool, true, false, some, arith}
use transcriber.WorkerApi.Claims.{AvailabilityResponse}
use transcriber.RemoteWorker.Slots.{Slot, Replies, report_turn, report_availability, register}

-- A slot that was not drained is healthy after a turn of its reports only if it was not drained
-- during the turn and had not stopped, the coordinator accepted its availability for at least 30
-- seconds, and any broker is connected and admits it.
report_turn-healthy :
    (broker drains : Bool) (first second : Replies) (slot : Slot)
    → slot.is_drained ≡ false
    → (report_turn broker drains first second slot).health ≡ true
    → (drains ≡ false)
      × (slot.is_stopped ≡ false)
      × (r : AvailabilityResponse) × (first.availability ≡ some r)
      × (r.accepted ≡ true)
      × (30 ≤ r.ttl_seconds)
      × ((broker ≡ false)
          ⊎ ((slot.broker_connected ≡ true)
              × ((report_turn broker drains first second slot).broker_admitted ≡ true)))
unfolding report_turn report_availability register
report_turn-healthy broker drains first second slot running healthy = ground arith

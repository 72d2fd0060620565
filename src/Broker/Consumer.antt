-- ===== src/Broker/Consumer.antt =====
-- consume_slot of whisper/broker.py: one consumer with a prefetch of one, over the broker's queues.
pub mod Kept
use transcriber.Prelude.{
  ℕ, ◌≡◌, ◌⊎◌, refl, Bool, true, false, ◌&&◌, ◌||◌, not, Option, none, some, List, [], ◌∷◌, inl,
  inr, arith, Bool-cases, Option-cases, if◌then◌else◌,
}
use transcriber.Prelude.Table.Keys.{In}
use transcriber.Config.{Json}
use transcriber.RemoteWorker.{Settlement, settled, busy, unsettled}
use transcriber.Broker
use transcriber.Broker.{Message, DeliveryTask, delivery}

-- The flags that the loop reads: `stop`, `drain`, `_available`, `_broker_admitted`.
pub record Flags : Type 0 where
  pub stop : Bool
  pub drain : Bool
  pub available : Bool
  pub admitted : Bool

abbrev pub is_active : Flags → Bool
is_active f = not f.stop && (not f.drain && (f.available && f.admitted))

-- One turn of the loop: the flags at its head; whether the priority has changed or the connection is
-- closed then; whether a message comes in time, and the flags after it; what the task returns;
-- whether the slot stops or the connection is closed by then; and which of the broker's
-- confirmations arrive.
pub record Turn : Type 0 where
  pub before : Flags
  pub is_stale : Bool
  pub arrives : Bool
  pub taken : Flags
  pub disposition : DeliveryTask → Settlement
  pub is_stopped : Bool
  pub is_closed : Bool
  pub is_published : Bool
  pub is_confirmed : Bool

-- The broker's queues, and the messages that were acknowledged as settled. A message that has been
-- delivered and is not acknowledged stands at the head of `jobs`: closing the connection returns it.
pub record Queues (Body : Type 0) : Type 0 where
  pub jobs : List (Message Body)
  pub retry : List (Message Body)
  pub dead : List (Message Body)
  pub done : List (Message Body)

module _ {Body : Type 0} (size : Body → ℕ) (loads : Body → Option Json) where
  -- The end of a turn, with the message and the rest of the queue: the queues, and whether the loop
  -- goes on.
  unfoldable pub settle :
      Turn → Settlement → Message Body → List (Message Body) → Queues Body → Queues Body × Bool
  settle turn busy m rest q =
      if not turn.is_published
      then (q, false)
      else if not turn.is_confirmed
      then (record q { retry = m ∷ q.retry }, false)
      else (record q { jobs = rest; retry = m ∷ q.retry }, true)
  settle turn settled m rest q =
      if turn.is_confirmed then (record q { jobs = rest; done = m ∷ q.done }, true) else (q, false)
  settle turn unsettled m rest q = (q, false)

  -- A turn from the delivery of a message.
  unfoldable pub take : Turn → Message Body → List (Message Body) → Queues Body → Queues Body × Bool
  unfolding settle
  take turn m rest q =
      if not (is_active turn.taken) then (q, false) else elim (delivery size loads m) [
        | none ↦
            if turn.is_confirmed
            then (record q { jobs = rest; dead = m ∷ q.dead }, true)
            else (q, false)
        | some task ↦
            if turn.is_stopped || turn.is_closed
            then (q, false)
            else settle turn (turn.disposition task) m rest q
      ]

  -- the wait for a delivery
  unfoldable pub await_message : Turn → List (Message Body) → Queues Body → Queues Body × Bool
  unfolding take
  await_message turn [] q = (q, true)
  await_message turn (m ∷ rest) q = if turn.arrives then take turn m rest q else (q, true)

  unfoldable pub turn_once : Turn → Queues Body → Queues Body × Bool
  unfolding await_message
  turn_once turn q =
      if not (is_active turn.before) || turn.is_stale
      then (q, false)
      else await_message turn q.jobs q

  -- The loop of `consume_slot`.
  unfoldable pub consume : List Turn → Queues Body → Queues Body
  unfolding turn_once
  consume [] q = q
  consume (turn ∷ turns) q =
      let (q', goes_on) = turn_once turn q in
      let rest = consume turns q' in if goes_on then rest else q'

  -- Where a message stands.
  abbrev pub Holds : Message Body → Queues Body → Type 0
  Holds m q = In m q.jobs ⊎ In m q.retry ⊎ In m q.dead ⊎ In m q.done

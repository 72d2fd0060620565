-- ===== src/RemoteWorker/Leases.antt =====
-- The heartbeats of a task of whisper/remote_worker.py, and the deliveries of one slot.
use transcriber.Prelude.{
  ℕ, ◌+◌, ◌≤◌, ◌<◌, ◌≡◌, ◌⊎◌, refl, Bool, true, false, Option, none, some, List, [], ◌∷◌, ◌||◌,
  ◌==◌, ==→≡, leb, ltb, inl, inr, arith, Bool-cases, Option-cases,
}
use transcriber.WorkerApi.Claims.{ClaimResponse}
use transcriber.RemoteWorker.{
  Call, Turn, due_at, answer_heartbeat, keep_lease, BeginReply, process_delivery, begin_delivery,
  settle_delivery, settled,
}

-- Each turn found the deadline ahead, nothing that halts the worker, and at its second reading of
-- the clock that `next` had come, which is then a period after the reply.
abbrev pub IsPaced : ℕ → ℕ → ℕ → List Turn → Type 0
IsPaced deadline period next [] = Unit
IsPaced deadline period next (turn ∷ turns) =
    (turn.checked < deadline)
    × (turn.halting ≡ false)
    × (next ≤ due_at turn)
    × IsPaced deadline period (due_at turn + turn.elapsed + period) turns

answer_heartbeat-IsPaced :
    (deadline period next : ℕ) (reply : Option Bool) (turn : Turn) (rest : Bool × List Turn)
    → turn.checked < deadline
    → turn.halting ≡ false
    → next ≤ due_at turn
    → IsPaced deadline period (due_at turn + turn.elapsed + period) rest.1
    → IsPaced deadline period next (answer_heartbeat reply turn rest).1
answer_heartbeat-IsPaced deadline period next none turn rest early going late paced =
    (early, going, late, tt)
answer_heartbeat-IsPaced deadline period next (some false) turn rest early going late paced =
    (early, going, late, tt)
answer_heartbeat-IsPaced deadline period next (some true) turn rest early going late paced =
    (early, going, late, paced)

-- A turn of a task's heartbeat loop calls Heartbeat only where it has found the deadline ahead and
-- nothing that halts the worker, and where a clock read after that is at least a period past the
-- one that was read after the reply to the Heartbeat before.
pub keep_lease-IsPaced :
    (deadline period next : ℕ) (turns : List Turn)
    → IsPaced deadline period next (keep_lease deadline period next turns).1
unfolding keep_lease
keep_lease-IsPaced deadline period next [] = tt
keep_lease-IsPaced deadline period next (turn ∷ turns) =
    elim (Bool-cases (leb deadline turn.checked || turn.halting)) [
      | inl over ↦ rw over tt
      | inr going ↦ elim (Bool-cases (ltb (due_at turn) next)) [
        | inl early ↦ rw (going, early) (keep_lease-IsPaced deadline period next turns)
        | inr due ↦
            rw (going, due)
              (answer_heartbeat-IsPaced deadline period next turn.reply turn _
                (ground (arith, going)) (ground (arith, going)) (ground (arith, due))
                (keep_lease-IsPaced deadline period (due_at turn + turn.elapsed + period) turns))
      ]
    ]

begin_delivery_lem :
    (first : Option BeginReply) (stop : Bool) (second : Option BeginReply) (response : BeginReply)
    → (begin_delivery first stop second).1 ≡ some response
    → (first ≡ some response) ⊎ ((first ≡ none) × (stop ≡ false) × (second ≡ some response))
unfolding begin_delivery
begin_delivery_lem (some reply) stop second response e = inl e
begin_delivery_lem none true second response e = cc
begin_delivery_lem none false second response e = inr (refl, refl, e)

begin_delivery-few :
    (first : Option BeginReply) (stop : Bool) (second : Option BeginReply)
    → (begin_delivery first stop second).0 ≤ 2
unfolding begin_delivery
begin_delivery-few (some reply) stop second = omega arith
begin_delivery-few none true second = omega arith
begin_delivery-few none false second = omega arith

settle_delivery_lem :
    (run : ClaimResponse → List Call × Bool) (response : BeginReply)
    → (settle_delivery run response).1 ≡ settled
    → (response.disposition ≡ "discard")
      ⊎ ((response.disposition ≡ "started") × ((run response.job).1 ≡ true))
unfolding settle_delivery
settle_delivery_lem run response e = elim (Bool-cases (response.disposition == "discard")) [
  | inl discarded ↦ inl (==→≡ discarded)
  | inr other ↦ elim (Bool-cases (response.disposition == "started")) [
    | inl started ↦ inr (==→≡ started, ground (arith, other, started, e))
    | inr unknown ↦ absurd (ground (arith, other, unknown, e))
  ]
]

-- A delivery is settled only where a reply to one of at most two BeginAttempt requests, the second
-- sent after a lost first one, tells the worker to discard it, or starts an attempt whose report the
-- coordinator accepted.
pub process_delivery-settled :
    (run : ClaimResponse → List Call × Bool) (first : Option BeginReply) (stop : Bool)
    (second : Option BeginReply)
    → (process_delivery run first stop second).1.1 ≡ settled
    → ((process_delivery run first stop second).0 ≤ 2)
      × (response : BeginReply) × ((first ≡ some response)
          ⊎ ((first ≡ none) × (stop ≡ false) × (second ≡ some response)))
      × ((response.disposition ≡ "discard")
          ⊎ ((response.disposition ≡ "started") × ((run response.job).1 ≡ true)))
unfolding process_delivery
process_delivery-settled run first stop second e =
    elim (Option-cases (begin_delivery first stop second).1) [
      | inl lost ↦ absurd (ground (arith, lost, e))
      | inr (response, replied) ↦ (
        begin_delivery-few first stop second,
        response,
        begin_delivery_lem first stop second response replied,
        settle_delivery_lem run response (ground (arith, replied, e)),
      )
    ]

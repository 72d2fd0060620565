-- ===== src/Broker/Consumer/Kept.antt =====
-- No task is lost between the queues of whisper/broker.py, and none is settled without its worker.
use transcriber.Prelude.{
  ℕ, ◌≡◌, ◌⊎◌, refl, ◌||◌, not, Option, some, List, [], ◌∷◌, inl, inr, arith, Bool-cases,
  Option-cases,
}
use transcriber.Prelude.Table.Keys.{In}
use transcriber.Config.{Json}
use transcriber.RemoteWorker.{Settlement, settled, busy, unsettled}
use transcriber.Broker.{Message, DeliveryTask, delivery}
use transcriber.Broker.Consumer.{
  Turn, is_active, Queues, Holds, settle, take, await_message, turn_once, consume,
}

module _ {Body : Type 0} (size : Body → ℕ) (loads : Body → Option Json) where
  settle-Holds :
      (turn : Turn) (s : Settlement) (m m' : Message Body) (rest : List (Message Body))
      (q : Queues Body)
      → q.jobs ≡ m ∷ rest
      → Holds size loads m' q
      → Holds size loads m' (settle size loads turn s m rest q).0
  unfolding settle
  settle-Holds turn busy m m' rest q head held = ground (arith, head, held)
  settle-Holds turn settled m m' rest q head held = ground (arith, head, held)
  settle-Holds turn unsettled m m' rest q head held = held

  take-Holds :
      (turn : Turn) (m m' : Message Body) (rest : List (Message Body)) (q : Queues Body)
      → q.jobs ≡ m ∷ rest
      → Holds size loads m' q
      → Holds size loads m' (take size loads turn m rest q).0
  unfolding take
  take-Holds turn m m' rest q head held = elim (Bool-cases (is_active turn.taken)) [
    | inr withdrawn ↦ rw withdrawn held
    | inl active ↦ elim (Option-cases (delivery size loads m)) [
      | inl malformed ↦ rw (active, malformed, take) (ground (arith, head, held))
      | inr (task, read) ↦ elim (Bool-cases (turn.is_stopped || turn.is_closed)) [
        | inl gone ↦ rw (active, read, take, gone) held
        | inr here ↦
            rw (active, read, take, here)
              (settle-Holds turn (turn.disposition task) m m' rest q head held)
      ]
    ]
  ]

  await_message-Holds :
      (turn : Turn) (jobs : List (Message Body)) (m : Message Body) (q : Queues Body)
      → q.jobs ≡ jobs
      → Holds size loads m q
      → Holds size loads m (await_message size loads turn jobs q).0
  unfolding await_message
  await_message-Holds turn [] m q head held = held
  await_message-Holds turn (first ∷ rest) m q head held = elim (Bool-cases turn.arrives) [
    | inl comes ↦ rw comes (take-Holds turn first m rest q head held)
    | inr late ↦ rw late held
  ]

  turn_once-Holds :
      (turn : Turn) (m : Message Body) (q : Queues Body)
      → Holds size loads m q
      → Holds size loads m (turn_once size loads turn q).0
  unfolding turn_once
  turn_once-Holds turn m q held = elim (Bool-cases (not (is_active turn.before) || turn.is_stale)) [
    | inl ends ↦ rw ends held
    | inr runs ↦ rw runs (await_message-Holds turn q.jobs m q refl held)
  ]

  -- Whatever the slot reads, whatever its worker returns and whichever confirmations are lost, a
  -- message that stood in one of the broker's queues, or was settled, still does.
  pub consume-Holds :
      (turns : List Turn) (m : Message Body) (q : Queues Body)
      → Holds size loads m q
      → Holds size loads m (consume size loads turns q)
  unfolding consume
  consume-Holds [] m q held = held
  consume-Holds (turn ∷ turns) m q held =
      let q' = (turn_once size loads turn q).0 in
      let kept = turn_once-Holds turn m q held in
      elim (Bool-cases (turn_once size loads turn q).1) [
        | inl goes_on ↦ rw goes_on (consume-Holds turns m q' kept)
        | inr ends ↦ rw ends kept
      ]

  -- The message is a task for which a turn's worker returned that it is settled.
  abbrev pub IsSettled : List Turn → Message Body → Type 0
  IsSettled turns m =
      (task : DeliveryTask) × (delivery size loads m ≡ some task)
      × (turn : Turn) × In turn turns
      × (turn.disposition task ≡ settled)

  settle-done :
      (turn : Turn) (s : Settlement) (m m' : Message Body) (rest : List (Message Body))
      (q : Queues Body)
      → In m' (settle size loads turn s m rest q).0.done
      → In m' q.done ⊎ ((m ≡ m') × (s ≡ settled))
  unfolding settle
  settle-done turn busy m m' rest q i = inl (ground (arith, i))
  settle-done turn settled m m' rest q i = elim (Bool-cases turn.is_confirmed) [
    | inl told ↦ elim (rw told at i) [ inl same ↦ inr (same, refl) | inr before ↦ inl before ]
    | inr lost ↦ inl (rw lost at i)
  ]
  settle-done turn unsettled m m' rest q i = inl i

  take-done :
      (turn : Turn) (m m' : Message Body) (rest : List (Message Body)) (q : Queues Body)
      → In m' (take size loads turn m rest q).0.done
      → In m' q.done ⊎ IsSettled (turn ∷ []) m'
  unfolding take
  take-done turn m m' rest q i = elim (Bool-cases (is_active turn.taken)) [
    | inr withdrawn ↦ inl (rw withdrawn at i)
    | inl active ↦ elim (Option-cases (delivery size loads m)) [
      | inl malformed ↦ inl (ground (arith, active, malformed, i))
      | inr (task, read) ↦ elim (Bool-cases (turn.is_stopped || turn.is_closed)) [
        | inl gone ↦ inl (rw (active, read, take, gone) at i)
        | inr here ↦
            elim (settle-done turn (turn.disposition task) m m' rest q
              (rw (active, read, take, here) at i)) [
                | inl before ↦ inl before
                | inr (same, told) ↦ inr (task, rw same at read, turn, inl refl, told)
              ]
      ]
    ]
  ]

  await_message-done :
      (turn : Turn) (jobs : List (Message Body)) (m : Message Body) (q : Queues Body)
      → In m (await_message size loads turn jobs q).0.done
      → In m q.done ⊎ IsSettled (turn ∷ []) m
  unfolding await_message
  await_message-done turn [] m q i = inl i
  await_message-done turn (first ∷ rest) m q i = elim (Bool-cases turn.arrives) [
    | inl comes ↦ take-done turn first m rest q (rw comes at i)
    | inr late ↦ inl (rw late at i)
  ]

  turn_once-done :
      (turn : Turn) (m : Message Body) (q : Queues Body)
      → In m (turn_once size loads turn q).0.done
      → In m q.done ⊎ IsSettled (turn ∷ []) m
  unfolding turn_once
  turn_once-done turn m q i = elim (Bool-cases (not (is_active turn.before) || turn.is_stale)) [
    | inl ends ↦ inl (rw ends at i)
    | inr runs ↦ await_message-done turn q.jobs m q (rw runs at i)
  ]

  -- A message that the slot has acknowledged as settled is a well-formed task, and the worker to
  -- which a turn gave that task returned that it is settled.
  pub consume-IsSettled :
      (turns : List Turn) (m : Message Body) (q : Queues Body)
      → In m (consume size loads turns q).done
      → In m q.done ⊎ IsSettled turns m
  unfolding consume
  consume-IsSettled [] m q i = inl i
  consume-IsSettled (turn ∷ turns) m q i =
      let now = turn_once-done turn m q in
      let later = consume-IsSettled turns m (turn_once size loads turn q).0 in
      let here : In m (turn_once size loads turn q).0.done
          → In m q.done ⊎ IsSettled (turn ∷ turns) m =
        λ j. elim (now j) [
          | inl before ↦ inl before
          | inr (task, read, t, inl same, told) ↦ inr (task, read, t, inl same, told)
          | inr (task, read, t, inr never, told) ↦ absurd never
        ] in
      elim (Bool-cases (turn_once size loads turn q).1) [
        | inl goes_on ↦ elim (later (rw goes_on at i)) [
          | inl j ↦ here j
          | inr (task, read, t, j, told) ↦ inr (task, read, t, inr j, told)
        ]
        | inr ends ↦ here (rw ends at i)
      ]

-- ===== src/RemoteWorker/Slots/Reported.antt =====
-- The files of the pool of whisper/remote_worker.py, and the slots' reports behind them.
use transcriber.Prelude.{
  ap, ◌≡◌, refl, Bool, true, false, not, String, List, [], ◌∷◌, ◌==◌, length, inl, inr, arith,
  Bool-cases, ==→≡, ==_refl, if◌then◌else◌,
}
use transcriber.Prelude.Table
use transcriber.Prelude.Table.Laws.{count-select_le, count-zero_of_exists}
use transcriber.Prelude.Table.Keys.{In, In-select_inv}
use transcriber.Prelude.Sets.{is_text, IsUnique, IsWithin, IsWithin-all}
use transcriber.RemoteWorker.Slots.{Pool, is_in, add, discard, put, health, mark_drained}

-- What happens to a pool: its slots' reports, and the process's signals.
pub data Event : Type 0 where
  report : String → Bool → Event
  mark : String → Bool → Event
  signal : Bool → Bool → Event

abbrev pub initial : List String → Pool
initial workers = record {
  workers = workers;
  ready = [];
  drained = [];
  is_stopped = false;
  is_draining = false;
  health_file = false;
  drain_file = false;
}

-- The pool after the events, of which the first is the last one.
unfoldable pub after : List String → List Event → Pool
unfolding health mark_drained
after workers [] = initial workers
after workers (report id ready ∷ events) = health id ready (after workers events)
after workers (mark id drained ∷ events) = mark_drained id drained (after workers events)
after workers (signal stop drain ∷ events) = record (after workers events) {
  is_stopped = stop;
  is_draining = drain;
}

-- The events name slots of the pool.
abbrev pub Concern : List String → List Event → Type 0
Concern workers [] = Unit
Concern workers (report id ready ∷ events) = In id workers × Concern workers events
Concern workers (mark id drained ∷ events) = In id workers × Concern workers events
Concern workers (signal stop drain ∷ events) = Concern workers events

-- What a slot last reported, and last marked.
unfoldable pub last_report : String → List Event → Bool
last_report w [] = false
last_report w (report id ready ∷ events) =
    let before = last_report w events in if id == w then ready else before
last_report w (mark id drained ∷ events) = last_report w events
last_report w (signal stop drain ∷ events) = last_report w events

unfoldable pub last_mark : String → List Event → Bool
last_mark w [] = false
last_mark w (mark id drained ∷ events) =
    let before = last_mark w events in if id == w then drained else before
last_mark w (report id ready ∷ events) = last_mark w events
last_mark w (signal stop drain ∷ events) = last_mark w events

put-IsUnique :
    (member : Bool) (id : String) (ids : List String) → IsUnique ids → IsUnique (put member id ids)
unfolding add discard Table.count
put-IsUnique true id ids unique k = elim (Bool-cases (is_in ids id)) [
  | inl e ↦ rw e (unique k)
  | inr e ↦ rw e (elim (Bool-cases (id == k)) [
    | inl same ↦
        let named : id ≡ k = ==→≡ same in
        let none_yet : Table.count (is_text k) ids ≡ 0 =
          rw (← named) (count-zero_of_exists (is_text id) ids e) in
        rw same (omega (arith, none_yet))
    | inr other ↦ rw other (unique k)
  ])
]
put-IsUnique false id ids unique k =
    omega (arith, unique k, count-select_le (is_text k) (λ x. not (x == id)) ids)

put-IsWithin :
    (member : Bool) (id : String) (ids workers : List String)
    → In id workers
    → IsWithin ids workers
    → IsWithin (put member id ids) workers
unfolding add discard
put-IsWithin true id ids workers known within x i = elim (Bool-cases (is_in ids id)) [
  | inl e ↦ within x (rw e at i)
  | inr e ↦ elim (rw e at i) [ inl same ↦ rw (← same) known | inr old ↦ within x old ]
]
put-IsWithin false id ids workers known within x i =
    within x (In-select_inv (λ y. not (y == id)) ids x i).0

exists-discard :
    (id w : String) (ids : List String)
    → is_in (discard id ids) w ≡ (if id == w then false else is_in ids w)
unfolding discard Table.select Table.exists
exists-discard id w [] = elim (Bool-cases (id == w)) [ inl e ↦ rw e refl | inr e ↦ rw e refl ]
exists-discard id w (x ∷ ids) =
    let rest = exists-discard id w ids in
    elim (Bool-cases (x == id)) [
      | inl same ↦ rw (==→≡ same, ==_refl id) (ground (arith, rest))
      | inr other ↦ elim (Bool-cases (id == w)) [
        | inl e ↦
            let apart : (x == w) ≡ false = rw (← ==→≡ e) other in
            rw (other, e, apart) (rw e at rest)
        | inr e ↦ rw (other, e) (rw (rw e at rest) refl)
      ]
    ]

is_in-put :
    (member : Bool) (id w : String) (ids : List String)
    → is_in (put member id ids) w ≡ (if id == w then member else is_in ids w)
unfolding add Table.exists
is_in-put true id w ids = elim (Bool-cases (is_in ids id)) [
  | inl known ↦ elim (Bool-cases (id == w)) [
    | inl e ↦ rw (known, e) (rw (==→≡ e) at known)
    | inr e ↦ rw (known, e) refl
  ]
  | inr new ↦ rw new (ground arith)
]
is_in-put false id w ids = exists-discard id w ids

module _ (workers : List String) where
  ready-IsUnique : (events : List Event) → IsUnique (after workers events).ready
  unfolding after health mark_drained Table.count
  ready-IsUnique [] = λ k. omega arith
  ready-IsUnique (report id r ∷ events) = put-IsUnique r id _ (ready-IsUnique events)
  ready-IsUnique (mark id d ∷ events) = ready-IsUnique events
  ready-IsUnique (signal s d ∷ events) = ready-IsUnique events

  ready-IsWithin :
      (events : List Event) → Concern workers events → IsWithin (after workers events).ready workers
  unfolding after health mark_drained
  ready-IsWithin [] named = λ x i. absurd i
  ready-IsWithin (report id r ∷ events) named =
      put-IsWithin r id _ workers named.0 (ready-IsWithin events named.1)
  ready-IsWithin (mark id d ∷ events) named = ready-IsWithin events named.1
  ready-IsWithin (signal s d ∷ events) named = ready-IsWithin events named

  ready-last_report :
      (w : String) (events : List Event)
      → is_in (after workers events).ready w ≡ last_report w events
  unfolding after health mark_drained last_report Table.exists
  ready-last_report w [] = refl
  ready-last_report w (report id r ∷ events) =
      rw (is_in-put r id w (after workers events).ready, ready-last_report w events) refl
  ready-last_report w (mark id d ∷ events) = ready-last_report w events
  ready-last_report w (signal s d ∷ events) = ready-last_report w events

  same_workers : (events : List Event) → (after workers events).workers ≡ workers
  unfolding after health mark_drained
  same_workers [] = refl
  same_workers (report id r ∷ events) = same_workers events
  same_workers (mark id d ∷ events) = same_workers events
  same_workers (signal s d ∷ events) = same_workers events

  -- When a report of one of the pool's slots writes that the process is healthy, the last report of
  -- every slot was that it is ready, and the process neither stops nor drains.
  pub health-last_report :
      (events : List Event) (id w : String) (ready : Bool)
      → Concern workers (report id ready ∷ events)
      → In w workers
      → (after workers (report id ready ∷ events)).health_file ≡ true
      → (last_report w (report id ready ∷ events) ≡ true)
        × ((after workers events).is_stopped ≡ false)
        × ((after workers events).is_draining ≡ false)
  unfolding after health
  health-last_report events id w ready named i e =
      let p = after workers events in
      let all = report id ready ∷ events in
      let same : length (after workers all).ready ≡ length workers =
        ground (arith, ap length (same_workers events), e) in
      (
        rw (← ready-last_report w all) (
            IsWithin-all (after workers all).ready workers (ready-IsUnique all)
              (ready-IsWithin all named) same w i),
        ground (arith, e),
        ground (arith, e),
      )

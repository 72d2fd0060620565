-- ===== src/Storage/Capacity/Claims.antt =====
-- claim_next_job under WORKER_POLICIES respects the limits: what select_worker.sql returns has room.
use transcriber.Prelude.{
  ℕ, ◌≤◌, ◌<◌, ◌≡◌, refl, Bool, true, false, ◌&&◌, ◌||◌, String, Option, some, List, arith,
  &&-cases, Bool-cases, Option-cases, inl, inr, ==→≡, ◌==◌,
}
use transcriber.Prelude.Results.{ok}
use transcriber.Prelude.Table
use transcriber.Prelude.Table.Keys.{exists-In}
use transcriber.Prelude.Table.Laws.{count-zero_of_exists, count_mono}
use transcriber.Storage.Schema.{Job, Slot, Database, Settings, Policy}
use transcriber.Storage.Statements.Jobs
use transcriber.Storage.Statements.Jobs.{has_id}
use transcriber.Storage.Statements.Claims
use transcriber.Storage.Statements.Claims.{is_active, is_active_slot}
use transcriber.Storage.Statements.Slots
use transcriber.Storage.Statements.Slots.{policy_of}
use transcriber.Storage.Attempts
use transcriber.Storage.Attempts.{ClaimClock, ClaimedJob, reading, lease_token}
use transcriber.Storage.Validity.{IsValid}
use transcriber.Storage.Validity.Rows
use transcriber.Storage.Validity.Operations.{execute-IsValid}
use transcriber.Storage.Capacity.{IsWithin}
use transcriber.Storage.Capacity.Starts.{start-IsWithin}
use transcriber.Storage.Capacity.Releases.{IsWithin-later, execute-IsWithin, reap-Releases}

-- What an offer to a slot says: the pool has room, and the slot no live attempt.
offered :
    (policies : List (String × Policy)) (t : ℕ) (jobs : List Job) (s : Slot) (p : ℕ)
    → Slots.offer policies t jobs s ≡ some p
    → (policy : Policy) × (policy_of policies s.worker_id ≡ some policy)
      × (Table.count (is_active t s.worker_id) jobs < policy.max_concurrency)
      × (Table.count (is_active_slot t s.worker_id s.instance_id) jobs ≡ 0)
unfolding Slots.offer
offered policies t jobs s p e = elim (Option-cases (policy_of policies s.worker_id)) [
  | inl unknown ↦ cc (rw (unknown, Slots.offer) at e)
  | inr (policy, known) ↦
      let test = rw (known, Slots.offer) at e in
      let any = λ (j : Job).
        is_active_slot t s.worker_id s.instance_id j || is_active_slot t s.worker_id "" j in
      let idle : Table.exists any jobs ≡ false = ground (arith, test) in
      (
        policy,
        known,
        ground (arith, test),
        omega (
          arith,
          count-zero_of_exists any jobs idle,
          count_mono (is_active_slot t s.worker_id s.instance_id) any jobs
              (λ j h. ground (arith, h)),
        ),
      )
]

-- A worker that select_worker.sql returns has room for one more attempt, and its slot is free.
selected :
    (policies : List (String × Policy)) (t : ℕ) (worker instance : String) (jobs : List Job)
    (slots : List Slot)
    → Slots.select_worker policies t worker instance jobs slots ≡ true
    → (policy : Policy) × (policy_of policies worker ≡ some policy)
      × (Table.count (is_active t worker) jobs < policy.max_concurrency)
      × (Table.count (is_active_slot t worker instance) jobs ≡ 0)
unfolding Slots.select_worker
selected policies t worker instance jobs slots e =
    let (s, _, both) =
      exists-In
        (λ (x : Slot).
          Claims.is_slot worker instance x
          && Slots.is_best policies t jobs slots (Slots.offer policies t jobs x))
        slots e in
    let (slot, best) = &&-cases (Claims.is_slot worker instance s) _ both in
    let (same_worker, same_slot) = &&-cases (s.worker_id == worker) _ slot in
    elim (Option-cases (Slots.offer policies t jobs s)) [
      | inl refused ↦ cc (rw refused at best)
      | inr (p, offer) ↦
          let (policy, known, room, idle) = offered policies t jobs s p offer in
          (
            policy,
            rw (==→≡ same_worker) at known,
            rw (==→≡ same_worker) at room,
            rw (==→≡ same_worker, ==→≡ same_slot) at idle,
          )
    ]

claim_by_policy-IsWithin :
    (settings : Settings) (t : ℕ) (clock : ClaimClock) (owner : String) (locked : String → Bool)
    (worker instance : String) (db : Database)
    → t ≤ clock.selected
    → clock.selected ≤ clock.leased
    → IsValid db.jobs
    → IsWithin settings t db.jobs
    → IsWithin settings clock.leased
        (Attempts.claim_by_policy settings clock owner locked worker instance db).0.jobs
unfolding Attempts.claim_by_policy Attempts.lease_candidate
claim_by_policy-IsWithin settings t clock owner locked worker instance db le le' valid h =
    let reads = reading clock.now clock.now in
    let reaped = Table.execute (Jobs.reap reads) db.jobs in
    let slots =
      Table.execute
        (Slots.request_work (reading clock.now clock.requested) settings.demand_ttl_seconds worker
          instance)
        db.slots in
    let kept = execute-IsValid (Jobs.reap reads) db.jobs (Rows.reap-Keeps reads) valid in
    let counted : IsWithin settings clock.selected reaped =
      execute-IsWithin {settings = settings} clock.selected (Jobs.reap reads) db.jobs
        (reap-Releases clock.selected reads)
        (IsWithin-later {settings = settings} t clock.selected db.jobs le h) in
    let later : IsWithin settings clock.leased reaped =
      IsWithin-later {settings = settings} clock.selected clock.leased reaped le' counted in
    elim (Bool-cases
      (Slots.select_worker settings.worker_policies clock.selected worker instance reaped slots)) [
        | inr refused ↦ rw (refused, Attempts.claim_by_policy) later
        | inl chosen ↦
            let (policy, known, room, idle) =
              selected settings.worker_policies clock.selected worker instance reaped slots
                chosen in
            rw (chosen, Attempts.claim_by_policy)
              (elim (Option-cases
                (Claims.claim_slot_candidate (reading clock.now clock.leased) locked reaped)) [
                  | inl empty ↦ rw (empty, Attempts.lease_candidate) later
                  | inr (j, found) ↦
                      rw (found, Attempts.lease_candidate)
                        (start-IsWithin {settings = settings} clock.selected clock.leased worker
                          instance j.job_id
                          (Claims.lease (reading clock.now clock.leased) clock.leased owner
                            settings.lease_seconds worker instance)
                          reaped policy le' (λ k. unfold Claims.lease in (refl, refl))
                          (kept.ids j.job_id) known room idle counted)
                ])
      ]

pub claim_next_job-IsWithin :
    (settings : Settings) (t : ℕ) (clock : ClaimClock) (uuid : String) (locked : String → Bool)
    (fallback : Bool) (worker instance : String) (db db' : Database) (claimed : Option ClaimedJob)
    → Attempts.is_empty settings.worker_policies ≡ false
    → Attempts.claim_next_job settings clock uuid locked fallback worker instance db
      ≡ ok (db', claimed)
    → t ≤ clock.selected
    → clock.selected ≤ clock.leased
    → IsValid db.jobs
    → IsWithin settings t db.jobs
    → IsWithin settings clock.leased db'.jobs
unfolding Attempts.claim_next_job
claim_next_job-IsWithin settings t clock uuid locked fallback worker instance db db' claimed
      policies e le le' valid h =
    ground (
      arith,
      claim_by_policy-IsWithin settings t clock (lease_token worker uuid) locked worker instance db
          le le' valid h,
    )
